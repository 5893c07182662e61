-- ===== src/Parser/Print/Reads.antt =====
-- Printed recipes read back.
use make_mcp.Common.{
  ◌≡◌, sym, ap, ap₂, ◌∙◌, ◌≢◌, inl, inr, Bool, List, [], ◌∷◌, ◌++◌, append-nil, append_assoc, arith,
  Bool-cases, is_nil, All,
}
use mathlib.Core.Path.{subst}
use make_mcp.Text.{Text}
use make_mcp.Text.Trim.{NoLeadingSpace}
use make_mcp.Schema.{ValidationError, Recipe}
use make_mcp.Parser.Lines.{ParseOptions, State, no_pending, run, delimiter_of, parse_lines}
use make_mcp.Parser.Lines.Blocks.{Block, run-Block_target}
use make_mcp.Parser.Print.{notes, note_lines, recipe_lines, makefile_lines, IsPrintable}
use make_mcp.Parser.Print.Notes.{recipe_meta}
use make_mcp.Parser.Print.Block.{
  recipe_pending, add_notes-notes, make_recipe-recipe_pending, recipe_errors-recipe_pending,
  with_params-in_block,
}
use make_mcp.Parser.Print.Readable.{notes-IsNote, note_lines-Block, target-IsTargetLine}

-- The scan between two blocks, with these recipes and errors so far.
abbrev between : List Recipe → List ValidationError → State
between rs es = record { pending = no_pending; result = record { recipes = rs; errors = es } }

module _ (delim : Text) (strict : Bool) (named : delim ≢ []) (lead : NoLeadingSpace delim) where
  -- A printed recipe, with lines behind it, adds itself to the result.
  run-recipe_lines :
      (r : Recipe) (rs : List Recipe) (es : List ValidationError) (rest : List Text)
      → IsPrintable strict r
      → run delim strict (between rs es) (recipe_lines delim r ++ rest)
        ≡ run delim strict (between (rs ++ r ∷ []) es) rest
  run-recipe_lines r rs es rest h =
      let target = r.id ++ b':' ∷ [] in
      let lines = note_lines delim (notes r) in
      let block : Block delim (recipe_pending r) no_pending lines =
        subst (λ p. Block delim p no_pending lines) (add_notes-notes r h.params)
          (note_lines-Block delim (notes r) no_pending named lead (notes-IsNote strict r h)) in
      ap (run delim strict (between rs es)) (append_assoc lines (target ∷ []) rest)
      ∙ run-Block_target delim strict (record { recipes = rs; errors = es }) r.id target rest block
          (with_params-in_block (recipe_meta r) r.params)
          (target-IsTargetLine delim r.id h.target h.valid.has_id h.target_trimmed) h.not_special
      ∙ ap₂ (λ x y. run delim strict (between (rs ++ x ∷ []) (es ++ y)) rest)
          (make_recipe-recipe_pending r h.no_source h.params)
          (recipe_errors-recipe_pending strict r h)
      ∙ ap (λ y. run delim strict (between (rs ++ r ∷ []) y) rest) (append-nil es)

  run-makefile_lines :
      (rs before : List Recipe) (es : List ValidationError)
      → All (IsPrintable strict) rs
      → run delim strict (between before es) (makefile_lines delim rs) ≡ between (before ++ rs) es
  unfolding run
  run-makefile_lines [] before es h = ap (λ x. between x es) (sym (append-nil before))
  run-makefile_lines (r ∷ rs) before es h =
      run-recipe_lines r before es (makefile_lines delim rs) h.0
      ∙ run-makefile_lines rs (before ++ r ∷ []) es h.1
      ∙ ap (λ x. between x es) (append_assoc before (r ∷ []) rs)

delimiter_of-ne_nil : (opts : ParseOptions) → delimiter_of opts ≢ []
unfolding delimiter_of
delimiter_of-ne_nil opts e = elim (Bool-cases (is_nil opts.delimiter)) [
  | inl n ↦ absurd (ground (arith, n))
  | inr n ↦ absurd (ground (arith, n))
]

-- Recipes that are printed one behind another, each as its annotation lines and its target line, read back as
-- exactly those recipes in their order, without a violation: in strict mode and without it, for every
-- delimiter that does not begin with a space, and for valid recipes whose texts are trimmed and stand on one
-- line, whose target is a trimmed run of name characters that does not begin with a dot, and which in strict
-- mode declare every hint.
pub parse_lines-makefile_lines :
    (opts : ParseOptions) (rs : List Recipe)
    → NoLeadingSpace (delimiter_of opts)
    → All (IsPrintable opts.strict) rs
    → parse_lines opts (makefile_lines (delimiter_of opts) rs)
      ≡ record { recipes = rs; errors = [] }
unfolding parse_lines
parse_lines-makefile_lines opts rs lead h =
    ap (λ s. s.result)
      (run-makefile_lines (delimiter_of opts) opts.strict (delimiter_of-ne_nil opts) lead rs [] []
        h)
