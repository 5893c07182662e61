-- ===== src/Common/Outcome.antt =====
-- A value or an error: Go's pair of a result and an `error`.
use mathlib.Core.Path.{◌≡◌, refl}
use mathlib.Core.Logic.{◌⊎◌, inl, inr}
use native.Mathlib.Omega.{arith}

pub data Outcome (E : Type 0) (A : Type 0) : Type 0 where
  ok : A → Outcome E A
  fail : E → Outcome E A

pub ok-injective : {E A : Type 0} {a b : A} → ◌≡◌ {A = Outcome E A} (ok a) (ok b) → a ≡ b
ok-injective h = ground arith

module _ {E A B : Type 0} where
  infixl 5 ◌>>=◌
  abbrev pub ◌>>=◌ : Outcome E A → (A → Outcome E B) → Outcome E B
  fail why >>= next = fail why
  ok x >>= next = next x

  pub >>=-congr :
      (o : Outcome E A) (next other : A → Outcome E B)
      → ((x : A) → next x ≡ other x)
      → (o >>= next) ≡ (o >>= other)
  >>=-congr (fail why) next other h = refl
  >>=-congr (ok x) next other h = h x

  pub >>=-eq-ok :
      (o : Outcome E A) (next : A → Outcome E B) {y : B}
      → (o >>= next) ≡ ok y
      → (x : A) × (o ≡ ok x) × (next x ≡ ok y)
  >>=-eq-ok (fail why) next done = cc
  >>=-eq-ok (ok x) next done = (x, refl, done)

pub >>=_assoc :
    {E A B C : Type 0} (o : Outcome E A) (next : A → Outcome E B) (last : B → Outcome E C)
    → (o >>= next >>= last) ≡ (o >>= λ x. next x >>= last)
>>=_assoc (fail why) next last = refl
>>=_assoc (ok x) next last = refl

pub Outcome-cases :
    {E A : Type 0} (o : Outcome E A) → ((e : E) × (o ≡ fail e)) ⊎ ((a : A) × (o ≡ ok a))
Outcome-cases (fail e) = inl (e, refl)
Outcome-cases (ok a) = inr (a, refl)
