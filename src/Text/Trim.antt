-- ===== src/Text/Trim.antt =====
-- `TrimSpace`: what it leaves begins and ends with no space, and it is idempotent.
use make_mcp.Common.{◌≡◌, refl, false, ◌∷◌, [], arith, ◌∙◌, ap}
use make_mcp.Text.{Text, is_space, trim_left, trim_right, trim_space}

-- The first character, if there is one, is no space.
abbrev pub NoLeadingSpace : Text → Type 0
NoLeadingSpace [] = Unit
NoLeadingSpace (c ∷ s) = is_space c ≡ false

pub trim_left-NoLeadingSpace : (s : Text) → NoLeadingSpace (trim_left s)
trim_left-NoLeadingSpace [] = tt
trim_left-NoLeadingSpace (c ∷ s) = ground (arith, trim_left-NoLeadingSpace s)

trim_right-NoLeadingSpace : (s : Text) → NoLeadingSpace s → NoLeadingSpace (trim_right s)
unfolding trim_right
trim_right-NoLeadingSpace [] h = tt
trim_right-NoLeadingSpace (c ∷ s) h = ground arith

pub trim_space-NoLeadingSpace : (s : Text) → NoLeadingSpace (trim_space s)
unfolding trim_space
trim_space-NoLeadingSpace s = trim_right-NoLeadingSpace (trim_left s) (trim_left-NoLeadingSpace s)

pub trim_left_id : (s : Text) → NoLeadingSpace s → trim_left s ≡ s
trim_left_id [] h = refl
trim_left_id (c ∷ s) h = ground arith

trim_right_idem : (s : Text) → trim_right (trim_right s) ≡ trim_right s
unfolding trim_right
trim_right_idem [] = refl
trim_right_idem (c ∷ s) = ground (arith, trim_right_idem s)

pub trim_space_idem : (s : Text) → trim_space (trim_space s) ≡ trim_space s
unfolding trim_space
trim_space_idem s =
    ap trim_right (
      trim_left_id (trim_right (trim_left s))
        (trim_right-NoLeadingSpace (trim_left s) (trim_left-NoLeadingSpace s)))
    ∙ trim_right_idem (trim_left s)
