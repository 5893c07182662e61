-- ===== src/Runner/Args/Floats.antt =====
-- Floats on their way to `int64` and back, on both architectures.
use make_mcp.Common.{
  ℕ, zero, suc, ◌*◌, ◌/◌, ◌%◌, ◌^◌, ◌≤◌, ◌<◌, ◌≡◌, refl, ◌∙◌, inl, inr, Bool, true, false, ◌&&◌,
  ◌||◌, arith, ◌==◌, Bool-cases,
}
use native.Mathlib.Nat.{pow-suc, div-add-mod', mod-lt}
use make_mcp.Go.Strconv.{pos}
use make_mcp.Go.Float.{
  int64_min, finite, to_int64, of_int64, float_eq, signed, in_range, int64_max, Arch, amd64, arm64,
  beyond_int64,
}

pow_pos : (k : ℕ) → 0 < 2 ^ k
pow_pos zero = omega arith
pow_pos (suc k) = rw pow-suc (omega (arith, pow_pos k))

scaled : (a b d : ℕ) → a ≤ b → a * d ≤ b * d
scaled a b d h = grind arith

-- Whether the float is 2 ^ 63, the one out of range that arm64 takes.
abbrev pub is_limit : Arch → Bool → ℕ → ℕ → Bool
is_limit arm64 false m k = m == suc int64_max * 2 ^ k
is_limit _ neg m k = false

-- A finite float is accepted if it is an integer in range, or that one.
abbrev pub is_taken : Arch → Bool → ℕ → ℕ → Bool
is_taken arch neg m k = (m % 2 ^ k == 0 && in_range neg (m / 2 ^ k)) || is_limit arch neg m k

signed-of_int64 :
    (m k n : ℕ) → float_eq (finite true m k) (of_int64 (signed true n)) ≡ (m == n * 2 ^ k)
unfolding float_eq of_int64 signed
signed-of_int64 m k zero = ground arith
signed-of_int64 m k (suc n) = ground arith

is_whole : (m k n : ℕ) → m / 2 ^ k ≡ n → (m == n * 2 ^ k) ≡ (m % 2 ^ k == 0)
is_whole m k n e = ground (arith, pow_pos k, div-add-mod' m (2 ^ k), mod-lt m (pow_pos k), e)

and_true : (b : Bool) → b ≡ (b && true || false)
and_true true = refl
and_true false = refl

too_low :
    (m k : ℕ)
    → in_range true (m / 2 ^ k) ≡ false
    → (m == suc int64_max * 2 ^ k) ≡ (m % 2 ^ k == 0 && false || false)
too_low m k h = ground (
  arith,
  pow_pos k,
  div-add-mod' m (2 ^ k),
  mod-lt m (pow_pos k),
  scaled (suc (suc int64_max)) (m / 2 ^ k) (2 ^ k),
  h,
)

negative-int64 :
    (arch : Arch) (m k : ℕ)
    → beyond_int64 arch (finite true m k) ≡ int64_min
    → float_eq (finite true m k) (of_int64 (to_int64 arch (finite true m k)))
      ≡ (m % 2 ^ k == 0 && in_range true (m / 2 ^ k) || false)
unfolding to_int64
negative-int64 arch m k low = elim (Bool-cases (in_range true (m / 2 ^ k))) [
  | inl e ↦
      rw e (
        signed-of_int64 m k (m / 2 ^ k) ∙ is_whole m k (m / 2 ^ k) refl ∙ and_true (m % 2 ^ k == 0))
  | inr e ↦ rw (e, low) (signed-of_int64 m k (suc int64_max) ∙ too_low m k e)
]

pub limit_out :
    (arch : Arch) (neg : Bool) (m k : ℕ)
    → in_range neg (m / 2 ^ k) ≡ true
    → is_limit arch neg m k ≡ false
limit_out amd64 neg m k h = refl
limit_out arm64 true m k h = refl
limit_out arm64 false m k h = ground (
  arith,
  pow_pos k,
  div-add-mod' m (2 ^ k),
  mod-lt m (pow_pos k),
  scaled (m / 2 ^ k) int64_max (2 ^ k),
  scaled (suc (m / 2 ^ k)) int64_max (2 ^ k),
  h,
)

below-of_int64 :
    (m k n : ℕ)
    → in_range false n ≡ true
    → float_eq (finite false m k) (of_int64 (signed false n)) ≡ (m == n * 2 ^ k)
unfolding float_eq of_int64 signed
below-of_int64 m k n h = ground (arith, h)

limit-of_int64 :
    (m k : ℕ)
    → float_eq (finite false m k) (of_int64 (pos int64_max)) ≡ (m == suc int64_max * 2 ^ k)
unfolding float_eq of_int64
limit-of_int64 m k = ground arith

and_false : (b c : Bool) → c ≡ (b && false || c)
and_false true c = refl
and_false false c = refl

positive-int64 :
    (m k : ℕ)
    → float_eq (finite false m k) (of_int64 (to_int64 arm64 (finite false m k)))
      ≡ is_taken arm64 false m k
unfolding to_int64 beyond_int64
positive-int64 m k = elim (Bool-cases (in_range false (m / 2 ^ k))) [
  | inl r ↦
      rw (r, limit_out arm64 false m k r)
        (below-of_int64 m k (m / 2 ^ k) r
          ∙ is_whole m k (m / 2 ^ k) refl
          ∙ and_true (m % 2 ^ k == 0))
  | inr r ↦ rw r (limit-of_int64 m k ∙ and_false (m % 2 ^ k == 0) _)
]

-- A finite float survives the way to `int64` and back exactly in these cases.
pub float_eq-int64 :
    (arch : Arch) (neg : Bool) (m k : ℕ)
    → float_eq (finite neg m k) (of_int64 (to_int64 arch (finite neg m k))) ≡ is_taken arch neg m k
unfolding float_eq of_int64 to_int64 beyond_int64 signed
float_eq-int64 amd64 false m k = ground (
  arith,
  pow_pos k,
  div-add-mod' m (2 ^ k),
  mod-lt m (pow_pos k),
  scaled int64_max (m / 2 ^ k) (2 ^ k),
  scaled (suc int64_max) (m / 2 ^ k) (2 ^ k),
)
float_eq-int64 amd64 true m k = negative-int64 amd64 m k refl
float_eq-int64 arm64 false m k = positive-int64 m k
float_eq-int64 arm64 true m k = negative-int64 arm64 m k refl

pub to_int64-in_range :
    (arch : Arch) (neg : Bool) (m k : ℕ)
    → in_range neg (m / 2 ^ k) ≡ true
    → to_int64 arch (finite neg m k) ≡ signed neg (m / 2 ^ k)
unfolding to_int64
to_int64-in_range arch neg m k h = rw h

pub to_int64-limit :
    (arch : Arch) (neg : Bool) (m k : ℕ)
    → in_range neg (m / 2 ^ k) ≡ false
    → is_limit arch neg m k ≡ true
    → to_int64 arch (finite neg m k) ≡ pos int64_max
unfolding to_int64 beyond_int64
to_int64-limit amd64 neg m k r h = cc
to_int64-limit arm64 true m k r h = cc
to_int64-limit arm64 false m k r h = rw r refl

pub limit_whole :
    (arch : Arch) (neg : Bool) (m k : ℕ) → is_limit arch neg m k ≡ true → (m % 2 ^ k == 0) ≡ true
limit_whole amd64 neg m k h = cc
limit_whole arm64 true m k h = cc
limit_whole arm64 false m k h = ground (
  arith,
  pow_pos k,
  div-add-mod' m (2 ^ k),
  mod-lt m (pow_pos k),
  scaled (suc int64_max) (m / 2 ^ k) (2 ^ k),
  scaled (suc (suc int64_max)) (m / 2 ^ k) (2 ^ k),
  scaled (suc (m / 2 ^ k)) (suc int64_max) (2 ^ k),
  h,
)
