-- ===== src/Parser/Lines/Blocks.antt =====
-- What a block of annotation lines in front of a target means.
use make_mcp.Common.{◌≡◌, ap, ◌∙◌, Bool, true, false, none, some, List, [], ◌∷◌, ◌++◌}
use make_mcp.Text.{Text, codes, has_prefix, trim_space}
use make_mcp.Schema.{ParseResult}
use make_mcp.Parser.Annotation.{extract_annotation}
use make_mcp.Parser.Target.{match_target_line}
use make_mcp.Parser.Lines.{
  Pending, State, add_annotation, at_target, plain_line, step, run, no_pending, make_recipe,
  recipe_errors,
}
use make_mcp.Parser.Lines.PendingBlock.{IsBlock, no_pending-IsBlock, add_annotation-IsBlock}

-- The lines are annotations or plain comments, and `p'` is what they make of the pending block `p`.
pub data Block (delim : Text) (p' : Pending) : Pending → List Text → Type 0 where
  done : {p : Pending} → p ≡ p' → Block delim p' p []
  note :
      {p : Pending} {key val line : Text} {lines : List Text}
      → extract_annotation delim line ≡ some (key, val)
      → Block delim p' (add_annotation key val p) lines
      → Block delim p' p (line ∷ lines)
  comment :
      {p : Pending} {line : Text} {lines : List Text}
      → extract_annotation delim line ≡ none
      → has_prefix (codes "#") (trim_space line) ≡ true
      → Block delim p' p lines
      → Block delim p' p (line ∷ lines)

-- A line that the scan reads as the target `id`.
pub record IsTargetLine (delim id line : Text) : Type 0 where
  pub no_note : extract_annotation delim line ≡ none
  pub no_comment : has_prefix (codes "#") (trim_space line) ≡ false
  pub target : match_target_line (trim_space line) ≡ some id

Block-IsBlock :
    {delim : Text} {p' p : Pending} {lines : List Text}
    → IsBlock p
    → Block delim p' p lines
    → IsBlock p'
Block-IsBlock h (done e) = rw (← e) h
Block-IsBlock h (note {p} {key} {val} e b) = Block-IsBlock (add_annotation-IsBlock key val p) b
Block-IsBlock h (comment e c b) = Block-IsBlock h b

module _ (delim : Text) (strict : Bool) where
  step_note :
      (key val line : Text) (s : State)
      → extract_annotation delim line ≡ some (key, val)
      → step delim strict s line ≡ record s { pending = add_annotation key val s.pending }
  unfolding step
  step_note key val line s e = rw (e, step)

  step_comment :
      (line : Text) (s : State)
      → extract_annotation delim line ≡ none
      → has_prefix (codes "#") (trim_space line) ≡ true
      → step delim strict s line ≡ s
  unfolding step plain_line
  step_comment line s e c = rw (e, step) (rw (c, plain_line))

  run-Block :
      {p' p : Pending} {lines : List Text} (r : ParseResult) (rest : List Text)
      → Block delim p' p lines
      → run delim strict (record { pending = p; result = r }) (lines ++ rest)
        ≡ run delim strict (record { pending = p'; result = r }) rest
  unfolding run
  run-Block r rest (done e) = ap (λ q. run delim strict (record { pending = q; result = r }) rest) e
  run-Block r rest (note {p} {key} {val} {line} {lines} e b) =
      ap (λ s. run delim strict s (lines ++ rest))
        (step_note key val line (record { pending = p; result = r }) e)
      ∙ run-Block r rest b
  run-Block r rest (comment {p} {line} {lines} e c b) =
      ap (λ s. run delim strict s (lines ++ rest))
        (step_comment line (record { pending = p; result = r }) e c)
      ∙ run-Block r rest b

  step_target :
      (id line : Text) (s : State)
      → IsTargetLine delim id line
      → step delim strict s line ≡ at_target strict id s
  unfolding step plain_line
  step_target id line s t =
      rw (t.no_note, step) (rw (t.no_comment, plain_line) (rw (t.target, plain_line)))

  -- A block of annotation lines and comments, with a target line directly behind it whose name does
  -- not begin with a dot, adds exactly one recipe, made of the block, with its violations; the scan
  -- goes on with nothing pending.
  pub run-Block_target :
      {p' : Pending} {lines : List Text} (r : ParseResult) (id line : Text) (rest : List Text)
      → Block delim p' no_pending lines
      → p'.in_block ≡ true
      → IsTargetLine delim id line
      → has_prefix (codes ".") id ≡ false
      → run delim strict (record { pending = no_pending; result = r }) (lines ++ line ∷ rest)
        ≡ run delim strict
            (record {
              pending = no_pending;
              result = record {
                recipes = r.recipes ++ make_recipe id p' ∷ [];
                errors = r.errors ++ recipe_errors strict id p';
              };
            })
            rest
  unfolding run at_target
  run-Block_target {p'} r id line rest b i t dot =
      run-Block r (line ∷ rest) b
      ∙ ap (λ s. run delim strict s rest)
          (step_target id line (record { pending = p'; result = r }) t
            ∙ rw (i, (Block-IsBlock no_pending-IsBlock b).inside i, dot))
