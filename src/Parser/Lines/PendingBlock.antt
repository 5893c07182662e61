-- ===== src/Parser/Lines/PendingBlock.antt =====
-- What the scan knows of the pending annotation block between two lines.
use make_mcp.Common.{
  ◌≡◌, refl, inl, inr, Bool, true, false, not, ◌&&◌, List, [], ◌∷◌, arith, Option-cases, is_nil,
}
use make_mcp.Text.{Text, trim_space}
use make_mcp.Dict.Laws.{insert-ne-nil}
use make_mcp.Parser.Annotation.{extract_annotation}
use make_mcp.Parser.Target.{match_target_line}
use make_mcp.Parser.Lines.{
  Pending, State, no_pending, add_annotation, at_target, plain_line, step, run,
}

-- Outside a block nothing is pending; inside one, an annotation was seen.
pub record IsBlock (p : Pending) : Type 0 where
  pub outside : p.in_block ≡ false → p ≡ no_pending
  pub inside : p.in_block ≡ true → (is_nil p.meta && not p.params_seen) ≡ false

pub no_pending-IsBlock : IsBlock no_pending
no_pending-IsBlock = record { outside = λ e. refl; inside = λ e. cc }

pub add_annotation-IsBlock : (key val : Text) (p : Pending) → IsBlock (add_annotation key val p)
unfolding add_annotation
add_annotation-IsBlock key val p = ground (arith, insert-ne-nil key val p.meta)

plain_line-IsBlock :
    (strict : Bool) (trimmed : Text) (s : State)
    → IsBlock s.pending
    → IsBlock (plain_line strict trimmed s).pending
unfolding plain_line at_target
plain_line-IsBlock strict trimmed s h =
    ground (arith, no_pending-IsBlock, Option-cases (match_target_line trimmed))

step-IsBlock :
    (delim : Text) (strict : Bool) (s : State) (line : Text)
    → IsBlock s.pending
    → IsBlock (step delim strict s line).pending
unfolding step
step-IsBlock delim strict s line h = elim (Option-cases (extract_annotation delim line)) [
  | inl e ↦ rw (e, step) (plain_line-IsBlock strict (trim_space line) s h)
  | inr ((key, val), e) ↦ rw (e, step) (add_annotation-IsBlock key val s.pending)
]

-- The scan keeps the pending block well formed over any lines: outside a block nothing is pending,
-- and inside one at least one annotation was seen.
pub run-IsBlock :
    (delim : Text) (strict : Bool) (s : State) (lines : List Text)
    → IsBlock s.pending
    → IsBlock (run delim strict s lines).pending
unfolding run
run-IsBlock delim strict s [] h = h
run-IsBlock delim strict s (line ∷ lines) h =
    run-IsBlock delim strict (step delim strict s line) lines (step-IsBlock delim strict s line h)
