-- ===== src/Parser/Lines/Merge.antt =====
-- The scan only appends to its result, and a blank line cuts a Makefile into independent parts.
use make_mcp.Common.{
  ◌≡◌, refl, ap, ◌∙◌, inl, inr, Bool, not, ◌&&◌, ◌||◌, none, List, [], ◌∷◌, ◌++◌, append-nil,
  append_assoc, arith, Bool-cases, Option-cases, is_nil,
}
use make_mcp.Text.{Text, codes, has_prefix, trim_space}
use make_mcp.Schema.{ParseResult}
use make_mcp.Parser.Annotation.{extract_annotation}
use make_mcp.Parser.Target.{match_target_line}
use make_mcp.Parser.Lines.{
  ParseOptions, State, at_target, plain_line, step, run, start, delimiter_of, parse_lines,
}
use make_mcp.Parser.Lines.PendingBlock.{IsBlock, run-IsBlock, no_pending-IsBlock}

-- `merged.Recipes = append(...)` and `merged.Errors = append(...)` of `ParseMakefiles`.
abbrev pub merge : ParseResult → ParseResult → ParseResult
merge a b = record { recipes = a.recipes ++ b.recipes; errors = a.errors ++ b.errors }

-- The scan with an earlier result in front.
abbrev prepend : ParseResult → State → State
prepend r s = record s { result = merge r s.result }

at_target-prepend :
    (strict : Bool) (id : Text) (r : ParseResult) (s : State)
    → at_target strict id (prepend r s) ≡ prepend r (at_target strict id s)
unfolding at_target
at_target-prepend strict id r s =
    elim (Bool-cases
      (not s.pending.in_block || is_nil s.pending.meta && not s.pending.params_seen)) [
        | inl a ↦ rw a
        | inr a ↦ elim (Bool-cases (has_prefix (codes ".") id)) [
          | inl b ↦ rw (a, b)
          | inr b ↦ rw (a, b) (simp append_assoc)
        ]
      ]

plain_line-prepend :
    (strict : Bool) (trimmed : Text) (r : ParseResult) (s : State)
    → plain_line strict trimmed (prepend r s) ≡ prepend r (plain_line strict trimmed s)
unfolding plain_line
plain_line-prepend strict trimmed r s = elim (Option-cases (match_target_line trimmed)) [
  | inl e ↦ ground arith
  | inr (id, e) ↦ ground (arith, at_target-prepend strict id r s)
]

step-prepend :
    (delim : Text) (strict : Bool) (r : ParseResult) (s : State) (line : Text)
    → step delim strict (prepend r s) line ≡ prepend r (step delim strict s line)
unfolding step
step-prepend delim strict r s line = elim (Option-cases (extract_annotation delim line)) [
  | inl e ↦ rw (e, step) (plain_line-prepend strict (trim_space line) r s)
  | inr ((key, val), e) ↦ rw (e, step)
]

run-prepend :
    (delim : Text) (strict : Bool) (r : ParseResult) (s : State) (lines : List Text)
    → run delim strict (prepend r s) lines ≡ prepend r (run delim strict s lines)
unfolding run
run-prepend delim strict r s [] = refl
run-prepend delim strict r s (line ∷ lines) =
    ap (λ t. run delim strict t lines) (step-prepend delim strict r s line)
    ∙ run-prepend delim strict r (step delim strict s line) lines

run-append :
    (delim : Text) (strict : Bool) (s : State) (xs ys : List Text)
    → run delim strict s (xs ++ ys) ≡ run delim strict (run delim strict s xs) ys
unfolding run
run-append delim strict s [] ys = refl
run-append delim strict s (x ∷ xs) ys = run-append delim strict (step delim strict s x) xs ys

-- A line that the scan reads as blank.
abbrev pub IsBlank : Text → Text → Type 0
IsBlank delim line = (extract_annotation delim line ≡ none) × (trim_space line ≡ [])

step_blank :
    (delim : Text) (strict : Bool) (s : State) (line : Text)
    → IsBlank delim line
    → IsBlock s.pending
    → step delim strict s line ≡ prepend s.result start
unfolding step plain_line has_prefix match_target_line
step_blank delim strict s line (no_note, empty) h =
    rw (no_note, step)
      (rw (empty, plain_line)
        (ground (arith, append-nil s.result.recipes, append-nil s.result.errors)))

run_blank :
    (delim : Text) (strict : Bool) (xs : List Text) (blank : Text) (ys : List Text)
    → IsBlank delim blank
    → run delim strict start (xs ++ blank ∷ ys)
      ≡ prepend (run delim strict start xs).result (run delim strict start ys)
unfolding run
run_blank delim strict xs blank ys b =
    let s = run delim strict start xs in
    run-append delim strict start xs (blank ∷ ys)
    ∙ ap (λ t. run delim strict t ys)
        (step_blank delim strict s blank b (run-IsBlock delim strict start xs no_pending-IsBlock))
    ∙ run-prepend delim strict s.result start ys

-- A blank line cuts a Makefile: parsing some lines, a blank line and more lines gives the recipes
-- and the errors of the first part followed by those of the second part, parsed on its own.
pub parse_lines-append_blank :
    (opts : ParseOptions) (xs : List Text) (blank : Text) (ys : List Text)
    → IsBlank (delimiter_of opts) blank
    → parse_lines opts (xs ++ blank ∷ ys) ≡ merge (parse_lines opts xs) (parse_lines opts ys)
unfolding parse_lines
parse_lines-append_blank opts xs blank ys b =
    ap (λ t. t.result) (run_blank (delimiter_of opts) opts.strict xs blank ys b)
