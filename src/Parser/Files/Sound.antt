-- ===== src/Parser/Files/Sound.antt =====
-- Parsing several Makefiles: the results are those of the files, in order, and sound.
use make_mcp.Common.{
  ◌≡◌, refl, sym, ap, ◌∙◌, inl, inr, Bool, true, List, [], ◌∷◌, ◌++◌, map, append-nil, append_assoc,
  arith, Option-cases, All, All-append,
}
use mathlib.Core.List.{Memᴰ}
use mathlib.Core.Path.{subst}
use make_mcp.Common.Outcome.{Outcome, ok, ◌>>=◌, >>=-eq-ok, >>=-congr, >>=_assoc}
use make_mcp.Text.{Text}
use make_mcp.Schema.{Recipe, ParseResult, valid}
use make_mcp.Parser.Lines.{ParseOptions, parse_lines}
use make_mcp.Parser.Lines.Merge.{merge}
use make_mcp.Parser.Lines.Sound.{IsSound, parse_lines-IsSound, append-eq-nil}
use make_mcp.Parser.Files.{
  FileSystem, FileError, Source, scan_lines, parse_makefile, tag, tag_recipe, parse_makefile_path,
  parse_from, parse_makefiles, no_result,
}

merge_assoc : (a b c : ParseResult) → merge (merge a b) c ≡ merge a (merge b c)
merge_assoc a b c = simp append_assoc

merge-no_result : (a : ParseResult) → merge a no_result ≡ a
merge-no_result a = simp append-nil

parse_from-merge :
    (fs : FileSystem) (opts : ParseOptions) (r : ParseResult) (paths : List Text)
    → parse_from fs opts r paths ≡ (parse_from fs opts no_result paths >>= λ b. ok (merge r b))
unfolding parse_from
parse_from-merge fs opts r [] = ap ok (sym (merge-no_result r))
parse_from-merge fs opts r (path ∷ paths) =
    let m = parse_makefile_path fs opts path in
    let rest = parse_from fs opts no_result paths in
    let put : ParseResult → ParseResult → Outcome FileError ParseResult = λ a b. ok (merge a b) in
    let one = λ (x : ParseResult).
      parse_from-merge fs opts (merge r x) paths
      ∙ >>=-congr rest (put (merge r x)) (λ b. ok (merge r (merge x b)))
          (λ b. ap ok (merge_assoc r x b))
      ∙ sym (>>=_assoc rest (put x) (put r))
      ∙ ap (λ o. o >>= put r) (sym (parse_from-merge fs opts x paths)) in
    >>=-congr m _ _ one ∙ sym (>>=_assoc m (λ x. parse_from fs opts x paths) (put r))

parse_from-append :
    (fs : FileSystem) (opts : ParseOptions) (r : ParseResult) (ps qs : List Text)
    → parse_from fs opts r (ps ++ qs)
      ≡ (parse_from fs opts r ps >>= λ a. parse_from fs opts no_result qs >>= λ b. ok (merge a b))
unfolding parse_from
parse_from-append fs opts r [] qs = parse_from-merge fs opts r qs
parse_from-append fs opts r (p ∷ ps) qs =
    let m = parse_makefile_path fs opts p in
    >>=-congr m _ _ (λ x. parse_from-append fs opts (merge r x) ps qs)
    ∙ sym (
        >>=_assoc m (λ x. parse_from fs opts (merge r x) ps)
          (λ a. parse_from fs opts no_result qs >>= λ b. ok (merge a b)))

-- Parsing the paths `ps` and then `qs` in one call is parsing each of the two lists on its own and
-- joining the results; an unreadable file in either list makes the whole call fail, with the error of
-- the first such file.
pub parse_makefiles-append :
    (fs : FileSystem) (opts : ParseOptions) (ps qs : List Text)
    → parse_makefiles fs opts (ps ++ qs)
      ≡ (parse_makefiles fs opts ps >>= λ a. parse_makefiles fs opts qs >>= λ b. ok (merge a b))
unfolding parse_makefiles
parse_makefiles-append fs opts ps qs = parse_from-append fs opts no_result ps qs

-- A recipe that is sound, read from one of the paths.
pub record IsFrom (strict : Bool) (paths : List Text) (r : Recipe) : Type 0 where
  pub sound : IsSound strict r
  pub source : Memᴰ r.source_file paths

IsFrom-tag :
    (strict : Bool) (path : Text) (paths : List Text) (r : Recipe)
    → IsSound strict r
    → IsFrom strict (path ∷ paths) (tag_recipe path r)
IsFrom-tag strict path paths r s = record {
  sound = record {
    fields = record {
      has_id = s.fields.has_id;
      has_name = s.fields.has_name;
      has_description = s.fields.has_description;
      has_params = s.fields.has_params;
      has_output = s.fields.has_output;
      has_output_type = s.fields.has_output_type;
      content_type = s.fields.content_type;
      risk_level = s.fields.risk_level;
    };
    declared = s.declared;
    not_special = s.not_special;
    hints = s.hints;
  };
  source = Memᴰ.head refl;
}

map-IsFrom :
    (strict : Bool) (path : Text) (paths : List Text) (rs : List Recipe)
    → All (IsSound strict) rs
    → All (IsFrom strict (path ∷ paths)) (map (tag_recipe path) rs)
map-IsFrom strict path paths [] h = tt
map-IsFrom strict path paths (r ∷ rs) h =
    (IsFrom-tag strict path paths r h.0, map-IsFrom strict path paths rs h.1)

IsFrom-later :
    (strict : Bool) (path : Text) (paths : List Text) (rs : List Recipe)
    → All (IsFrom strict paths) rs
    → All (IsFrom strict (path ∷ paths)) rs
IsFrom-later strict path paths [] h = tt
IsFrom-later strict path paths (r ∷ rs) h = (
  record { sound = h.0.sound; source = Memᴰ.tail h.0.source },
  IsFrom-later strict path paths rs h.1,
)

map-eq-nil {ℓ κ} : {A : Type ℓ} {B : Type κ} (f : A → B) (xs : List A) → map f xs ≡ [] → xs ≡ []
map-eq-nil f [] h = refl
map-eq-nil f (x ∷ xs) h = cc

parse_makefile-IsSound :
    (opts : ParseOptions) (src : Source) {r : ParseResult}
    → parse_makefile opts src ≡ ok r
    → r.errors ≡ []
    → All (IsSound opts.strict) r.recipes
unfolding parse_makefile
parse_makefile-IsSound opts src {r} h e =
    let lines = (scan_lines src.text).0 in
    let same : parse_lines opts lines ≡ r = ground arith in
    subst (λ x. All (IsSound opts.strict) x.recipes) same
      (parse_lines-IsSound opts lines (unfold valid in rw (same, e)))

tag_sound :
    (strict : Bool) (path : Text) (paths : List Text) (x : ParseResult)
    → (x.errors ≡ [] → All (IsSound strict) x.recipes)
    → (tag path x).errors ≡ []
    → All (IsFrom strict (path ∷ paths)) (tag path x).recipes
unfolding tag
tag_sound strict path paths x h e =
    map-IsFrom strict path paths x.recipes (h (map-eq-nil _ x.errors e))

parse_makefile_path_sound :
    (fs : FileSystem) (opts : ParseOptions) (path : Text) (paths : List Text) {r : ParseResult}
    → parse_makefile_path fs opts path ≡ ok r
    → r.errors ≡ []
    → All (IsFrom opts.strict (path ∷ paths)) r.recipes
unfolding parse_makefile_path
parse_makefile_path_sound fs opts path paths {r} h e = elim (Option-cases (fs path)) [
  | inl n ↦ ground arith
  | inr (src, n) ↦
      let m : (parse_makefile opts src >>= λ x. ok (tag path x)) ≡ ok r = ground arith in
      let (x, parsed, tagged) = >>=-eq-ok (parse_makefile opts src) (λ x. ok (tag path x)) m in
      let same : tag path x ≡ r = ground arith in
      subst (λ y. All (IsFrom opts.strict (path ∷ paths)) y.recipes) same
        (tag_sound opts.strict path paths x (parse_makefile-IsSound opts src parsed)
          (ap (λ z. z.errors) same ∙ e))
]

parse_from_sound :
    (fs : FileSystem) (opts : ParseOptions) (paths : List Text) {r : ParseResult}
    → parse_from fs opts no_result paths ≡ ok r
    → r.errors ≡ []
    → All (IsFrom opts.strict paths) r.recipes
unfolding parse_from
parse_from_sound fs opts [] {r} h e =
    let same : no_result ≡ r = ground arith in
    subst (λ y. All (IsFrom opts.strict []) y.recipes) same tt
parse_from_sound fs opts (path ∷ paths) {r} h e =
    let (x, first, rest) =
      >>=-eq-ok (parse_makefile_path fs opts path) (λ x. parse_from fs opts x paths) h in
    let rest' : (parse_from fs opts no_result paths >>= λ b. ok (merge x b)) ≡ ok r =
      sym (parse_from-merge fs opts x paths) ∙ rest in
    let (y, later, merged) =
      >>=-eq-ok (parse_from fs opts no_result paths) (λ b. ok (merge x b)) rest' in
    let same : merge x y ≡ r = ground arith in
    let errs = append-eq-nil x.errors y.errors (rw (← same) at e) in
    subst (λ z. All (IsFrom opts.strict (path ∷ paths)) z.recipes) same
      (All-append (IsFrom opts.strict (path ∷ paths)) x.recipes y.recipes
        (parse_makefile_path_sound fs opts path paths first errs.0)
        (IsFrom-later opts.strict path paths y.recipes
          (parse_from_sound fs opts paths later errs.1)))

-- Whatever the files hold, if parsing all the paths succeeds and reports no violation, then every
-- recipe was read from one of the paths and is sound: all fields well formed, parameters with accepted
-- names and types, no identifier with a leading dot and, in strict mode, all hints declared.
pub parse_makefiles-IsFrom :
    (fs : FileSystem) (opts : ParseOptions) (paths : List Text) {r : ParseResult}
    → parse_makefiles fs opts paths ≡ ok r
    → valid r ≡ true
    → All (IsFrom opts.strict paths) r.recipes
unfolding parse_makefiles valid
parse_makefiles-IsFrom fs opts paths h v = parse_from_sound fs opts paths h (ground arith)
