-- ===== src/Parser/Files/Quiet.antt =====
-- What a parse reports that finds no recipes.
use make_mcp.Common.{
  ◌≡◌, refl, inl, inr, Bool, true, false, List, [], ◌∷◌, ◌++◌, map, arith, Bool-cases, Option-cases,
  is_nil,
}
use mathlib.Core.Path.{subst}
use make_mcp.Common.Outcome.{ok, ◌>>=◌, >>=-eq-ok, ok-injective}
use make_mcp.Text.{Text, codes, has_prefix, trim_space}
use make_mcp.Schema.{Recipe, ValidationError, ParseResult}
use make_mcp.Parser.Annotation.{extract_annotation}
use make_mcp.Parser.Target.{match_target_line}
use make_mcp.Parser.Lines.{
  ParseOptions, State, run, step, plain_line, at_target, make_recipe, parse_lines,
  start as start_state, delimiter_of,
}
use make_mcp.Parser.Lines.Merge as Merge
use make_mcp.Parser.Files.{
  FileSystem, Source, parse_makefile, parse_makefile_path, parse_from, parse_makefiles, tag,
  tag_error, tag_recipe, no_result, scan_lines,
}

-- No violations where there are no recipes.
abbrev pub Quiet : ParseResult → Type 0
Quiet r = is_nil r.recipes ≡ true → is_nil r.errors ≡ true

is_nil-snoc : (rs : List Recipe) (r : Recipe) → is_nil (rs ++ r ∷ []) ≡ false
is_nil-snoc [] r = refl
is_nil-snoc (x ∷ rs) r = refl

at_target-Quiet :
    (strict : Bool) (id : Text) (s : State) → Quiet s.result → Quiet (at_target strict id s).result
unfolding at_target
at_target-Quiet strict id s h =
    ground (arith, is_nil-snoc s.result.recipes (make_recipe id s.pending))

plain_line-Quiet :
    (strict : Bool) (line : Text) (s : State)
    → Quiet s.result
    → Quiet (plain_line strict line s).result
unfolding plain_line
plain_line-Quiet strict line s h = elim (Bool-cases (has_prefix (codes "#") line)) [
  | inl c ↦ rw (c, plain_line) h
  | inr c ↦ elim (Option-cases (match_target_line line)) [
    | inr (id, m) ↦ rw (c, m, plain_line) (at_target-Quiet strict id s h)
    | inl m ↦ ground arith
  ]
]

step-Quiet :
    (delim : Text) (strict : Bool) (s : State) (line : Text)
    → Quiet s.result
    → Quiet (step delim strict s line).result
unfolding step
step-Quiet delim strict s line h = elim (Option-cases (extract_annotation delim line)) [
  | inl e ↦ rw (e, step) (plain_line-Quiet strict (trim_space line) s h)
  | inr (note, e) ↦ rw (e, step) h
]

run-Quiet :
    (delim : Text) (strict : Bool) (s : State) (lines : List Text)
    → Quiet s.result
    → Quiet (run delim strict s lines).result
unfolding run
run-Quiet delim strict s [] h = h
run-Quiet delim strict s (line ∷ lines) h =
    run-Quiet delim strict (step delim strict s line) lines (step-Quiet delim strict s line h)

is_nil-append :
    (xs ys : List Recipe) → is_nil (xs ++ ys) ≡ true → (is_nil xs ≡ true) × (is_nil ys ≡ true)
is_nil-append [] ys h = (refl, h)
is_nil-append (x ∷ xs) ys h = cc

is_nil_append :
    (xs ys : List ValidationError) → is_nil xs ≡ true → is_nil ys ≡ true → is_nil (xs ++ ys) ≡ true
is_nil_append [] ys hx hy = hy
is_nil_append (x ∷ xs) ys hx hy = cc

merge-Quiet : (a b : ParseResult) → Quiet a → Quiet b → Quiet (Merge.merge a b)
merge-Quiet a b ha hb h =
    let (na, nb) = is_nil-append a.recipes b.recipes h in
    is_nil_append a.errors b.errors (ha na) (hb nb)

-- The empty scan has no violations.
parse_lines-Quiet : (opts : ParseOptions) (lines : List Text) → Quiet (parse_lines opts lines)
unfolding parse_lines
parse_lines-Quiet opts lines =
    run-Quiet (delimiter_of opts) opts.strict start_state lines (λ h. refl)

parse_makefile-Quiet :
    (opts : ParseOptions) (src : Source) {r : ParseResult}
    → parse_makefile opts src ≡ ok r
    → Quiet r
unfolding parse_makefile
parse_makefile-Quiet opts src {r} h =
    let same : parse_lines opts (scan_lines src.text).0 ≡ r = ground arith in
    subst Quiet same (parse_lines-Quiet opts (scan_lines src.text).0)

map-is_nil :
    (f : ValidationError → ValidationError) (es : List ValidationError)
    → is_nil es ≡ true
    → is_nil (map f es) ≡ true
map-is_nil f [] h = refl
map-is_nil f (e ∷ es) h = cc

is_nil-map : (f : Recipe → Recipe) (rs : List Recipe) → is_nil (map f rs) ≡ true → is_nil rs ≡ true
is_nil-map f [] h = refl
is_nil-map f (r ∷ rs) h = cc

tag-Quiet : (path : Text) (r : ParseResult) → Quiet r → Quiet (tag path r)
unfolding tag
tag-Quiet path r q h =
    map-is_nil (tag_error path) r.errors (q (is_nil-map (tag_recipe path) r.recipes h))

parse_makefile_path-Quiet :
    (fs : FileSystem) (opts : ParseOptions) (path : Text) {r : ParseResult}
    → parse_makefile_path fs opts path ≡ ok r
    → Quiet r
unfolding parse_makefile_path
parse_makefile_path-Quiet fs opts path {r} h = elim (Option-cases (fs path)) [
  | inl n ↦ ground arith
  | inr (src, n) ↦
      let m : (parse_makefile opts src >>= λ x. ok (tag path x)) ≡ ok r = ground arith in
      let (x, parsed, tagged) = >>=-eq-ok (parse_makefile opts src) (λ x. ok (tag path x)) m in
      subst Quiet (ok-injective tagged) (tag-Quiet path x (parse_makefile-Quiet opts src parsed))
]

parse_from-Quiet :
    (fs : FileSystem) (opts : ParseOptions) (merged : ParseResult) (paths : List Text)
    {r : ParseResult}
    → Quiet merged
    → parse_from fs opts merged paths ≡ ok r
    → Quiet r
unfolding parse_from
parse_from-Quiet fs opts merged [] {r} q h = subst Quiet (ok-injective h) q
parse_from-Quiet fs opts merged (path ∷ paths) {r} q h =
    let (one, e, rest) =
      >>=-eq-ok (parse_makefile_path fs opts path)
        (λ r. parse_from fs opts (Merge.merge merged r) paths) h in
    parse_from-Quiet fs opts (Merge.merge merged one) paths
      (merge-Quiet merged one q (parse_makefile_path-Quiet fs opts path e)) rest

-- A parse of any Makefiles that finds no recipe reports no violation either: violations come only
-- with recipes.
pub parse_makefiles-Quiet :
    (fs : FileSystem) (opts : ParseOptions) (paths : List Text) {r : ParseResult}
    → parse_makefiles fs opts paths ≡ ok r
    → Quiet r
unfolding parse_makefiles
parse_makefiles-Quiet fs opts paths h = parse_from-Quiet fs opts no_result paths (λ q. refl) h
