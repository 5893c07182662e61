-- ===== src/Text/Equal.antt =====
-- The test `==` on text decides equality.
use make_mcp.Common.{◌≡◌, refl, ◌↔◌, true, false, ◌∷◌, arith, ◌≢◌, Bool-cases, inl, inr, ◌⊎◌}
use make_mcp.Text.{Text, ◌=?◌}

pub =?_iff : (s t : Text) → ((s =? t) ≡ true) ↔ (s ≡ t)
unfolding ◌=?◌
=?_iff (a ∷ s) (b ∷ t) = ground (arith, =?_iff s t)
=?_iff _ _ = ground arith

pub =?_refl : (s : Text) → (s =? s) ≡ true
=?_refl s = (=?_iff s s).1 refl

pub =?_ne : (s t : Text) → s ≢ t → (s =? t) ≡ false
=?_ne s t h = ground (arith, =?_iff s t)

pub Text-cases : (s t : Text) → (s ≡ t) ⊎ (s ≢ t)
Text-cases s t = elim (Bool-cases (s =? t)) [
  | inl e ↦ inl ((=?_iff s t).0 e)
  | inr e ↦ inr (λ p. ground (arith, =?_iff s t))
]
