-- ===== src/Common/Spans.antt =====
-- `take_while` and `drop_while` cut a list at the first item that fails the test, and nowhere else.
use mathlib.Core.Path.{◌≡◌, refl}
use mathlib.Core.Bool.{Bool, true, false}
use mathlib.Core.List.{List, [], ◌∷◌, ◌++◌}
use native.Mathlib.Omega.{arith}
use make_mcp.Common.Lists.{take_while, drop_while, All}

module _ {ℓ} {A : Type ℓ} (p : A → Bool) where
  -- The first item, if there is one, fails the test.
  abbrev pub StopsAt : List A → Type 0
  StopsAt [] = Unit
  StopsAt (x ∷ xs) = p x ≡ false

  abbrev pub AllPass : List A → Type 0
  AllPass = All (λ x. p x ≡ true)

  pub take-append-drop_while : (xs : List A) → take_while p xs ++ drop_while p xs ≡ xs
  take-append-drop_while [] = refl
  take-append-drop_while (x ∷ xs) = ground (arith, take-append-drop_while xs)

  pub take_while-AllPass : (xs : List A) → AllPass (take_while p xs)
  take_while-AllPass [] = tt
  take_while-AllPass (x ∷ xs) = ground (arith, take_while-AllPass xs)

  pub drop_while-StopsAt : (xs : List A) → StopsAt (drop_while p xs)
  drop_while-StopsAt [] = tt
  drop_while-StopsAt (x ∷ xs) = ground (arith, drop_while-StopsAt xs)

  pub take_while-append : (xs ys : List A) → AllPass xs → StopsAt ys → take_while p (xs ++ ys) ≡ xs
  take_while-append [] [] h s = refl
  take_while-append [] (y ∷ ys) h s = ground arith
  take_while-append (x ∷ xs) ys h s = ground (arith, take_while-append xs ys)

  pub drop_while-append : (xs ys : List A) → AllPass xs → StopsAt ys → drop_while p (xs ++ ys) ≡ ys
  drop_while-append [] [] h s = refl
  drop_while-append [] (y ∷ ys) h s = ground arith
  drop_while-append (x ∷ xs) ys h s = ground (arith, drop_while-append xs ys)

  pub AllPass-append : (xs ys : List A) → AllPass xs → AllPass ys → AllPass (xs ++ ys)
  AllPass-append [] ys h k = k
  AllPass-append (x ∷ xs) ys h k = (h.0, AllPass-append xs ys h.1 k)
