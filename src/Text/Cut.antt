-- ===== src/Text/Cut.antt =====
-- The prefix test and the cut at a separator, against concatenation.
use make_mcp.Common.{◌≡◌, refl, ◌∷◌, [], ◌++◌, arith, inl, inr, some, ==_refl, Option-cases}
use make_mcp.Text.{Text, strip_prefix, cut}

pub strip_prefix-append : (p s : Text) → strip_prefix p (p ++ s) ≡ some s
unfolding strip_prefix
strip_prefix-append [] s = refl
strip_prefix-append (c ∷ p) s = rw (==_refl c) (strip_prefix-append p s)

pub strip_prefix_sound : (p s : Text) {r : Text} → strip_prefix p s ≡ some r → s ≡ p ++ r
unfolding strip_prefix
strip_prefix_sound [] s h = ground arith
strip_prefix_sound (a ∷ p) [] h = cc
strip_prefix_sound (a ∷ p) (c ∷ s) {r} h = ground (arith, strip_prefix_sound p s {r = r})

pub cut_sound : (sep s : Text) {a b : Text} → cut sep s ≡ some (a, b) → s ≡ a ++ (sep ++ b)
unfolding cut
cut_sound sep [] {a} {b} h = elim (Option-cases (strip_prefix sep [])) [
  | inl e ↦ ground arith
  | inr (r, e) ↦ ground (arith, strip_prefix_sound sep [] e)
]
cut_sound sep (c ∷ s) {a} {b} h = elim (Option-cases (strip_prefix sep (c ∷ s))) [
  | inl e ↦ elim (Option-cases (cut sep s)) [
    | inl f ↦ ground arith
    | inr ((x, y), f) ↦ ground (arith, cut_sound sep s f)
  ]
  | inr (r, e) ↦ ground (arith, strip_prefix_sound sep (c ∷ s) e)
]
