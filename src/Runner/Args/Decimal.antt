-- ===== src/Runner/Args/Decimal.antt =====
-- An integer argument is printed so that its decimal text is the integer itself.
use make_mcp.Common.{
  ℕ, zero, suc, ◌+◌, ◌-◌, ◌*◌, ◌/◌, ◌%◌, ◌<◌, ◌≡◌, refl, sym, ap, ◌∙◌, inl, inr, Bool, true, false,
  ◌&&◌, [], ◌∷◌, arith, ltb, ◌==◌, within, if◌then◌else◌, Bool-cases, is_nil,
}
use mathlib.Core.Path.{subst}
use make_mcp.Text.{Text}
use make_mcp.Common.Outcome.{ok}
use make_mcp.Go.Strconv.{ℤ, pos, negsuc, digits_onto, format_nat, format_int}
use make_mcp.Schema.{Param, type_int}
use make_mcp.Runner.Args.{int, uint, int_text, stringify_value}
use make_mcp.Runner.Args.Values.{stringify_int}

-- The number that digits stand for, behind those read before.
abbrev read_digits : ℕ → Text → ℕ
read_digits n [] = n
read_digits n (c ∷ s) = read_digits (n * 10 + (c - b'0')) s

-- The integer that a decimal text stands for.
abbrev pub read_decimal : Text → ℤ
read_decimal [] = pos 0
read_decimal (c ∷ s) =
    if c == b'-'
    then (elim (read_digits 0 s) [ zero ↦ pos 0 | suc n ↦ negsuc n ])
    else pos (read_digits 0 (c ∷ s))

-- A text of digits.
abbrev pub all_digits : Text → Bool
all_digits [] = true
all_digits (c ∷ s) = within b'0' b'9' c && all_digits s

digits_onto_small :
    (f n : ℕ) (rest : Text) → ltb n 10 ≡ true → digits_onto (suc f) n rest ≡ (b'0' + n) ∷ rest
unfolding digits_onto
digits_onto_small f n rest e = rw (digits_onto, e) refl

digits_onto_large :
    (f n : ℕ) (rest : Text)
    → ltb n 10 ≡ false
    → digits_onto (suc f) n rest ≡ digits_onto f (n / 10) ((b'0' + n % 10) ∷ rest)
unfolding digits_onto
digits_onto_large f n rest e = rw (digits_onto, e) refl

read_digits-digits_onto :
    (f n : ℕ) (rest : Text) → n < f → read_digits 0 (digits_onto f n rest) ≡ read_digits n rest
read_digits-digits_onto zero n rest h = absurd (omega (arith, h))
read_digits-digits_onto (suc f) n rest h = elim (Bool-cases (ltb n 10)) [
  | inl e ↦
      ap (read_digits 0) (digits_onto_small f n rest e) ∙ ap (λ m. read_digits m rest) (omega arith)
  | inr e ↦
      ap (read_digits 0) (digits_onto_large f n rest e)
      ∙ read_digits-digits_onto f (n / 10) ((b'0' + n % 10) ∷ rest) (ground (arith, h))
      ∙ ap (λ m. read_digits m rest) (omega arith)
]

-- A text of at least one digit.
abbrev AreDigits : Text → Type 0
AreDigits s = (all_digits s ≡ true) × (is_nil s ≡ false)

digits_onto-AreDigits :
    (f n : ℕ) (rest : Text) → n < f → all_digits rest ≡ true → AreDigits (digits_onto f n rest)
digits_onto-AreDigits zero n rest h d = absurd (omega (arith, h))
digits_onto-AreDigits (suc f) n rest h d = elim (Bool-cases (ltb n 10)) [
  | inl e ↦ subst AreDigits (sym (digits_onto_small f n rest e)) (ground arith, refl)
  | inr e ↦
      subst AreDigits (sym (digits_onto_large f n rest e)) (
        digits_onto-AreDigits f (n / 10) ((b'0' + n % 10) ∷ rest) (ground (arith, h))
          (ground arith))
]

format_nat-digits :
    (n : ℕ)
    → (all_digits (format_nat n) ≡ true)
      × (is_nil (format_nat n) ≡ false)
      × (read_digits 0 (format_nat n) ≡ n)
unfolding format_nat
format_nat-digits n =
    let digits = digits_onto-AreDigits (suc n) n [] (omega arith) refl in
    (digits.0, digits.1, read_digits-digits_onto (suc n) n [] (omega arith))

read_decimal-digits :
    (s : Text) → all_digits s ≡ true → is_nil s ≡ false → read_decimal s ≡ pos (read_digits 0 s)
read_decimal-digits [] d n = absurd (ground arith)
read_decimal-digits (c ∷ s) d n = ground arith

read_decimal-format_int : (z : ℤ) → read_decimal (format_int z) ≡ z
unfolding format_int
read_decimal-format_int (pos n) =
    let (digits, some_digit, value) = format_nat-digits n in
    read_decimal-digits (format_nat n) digits some_digit ∙ ap pos value
read_decimal-format_int (negsuc n) =
    ap (λ m. elim m as (λ x. ℤ) [ zero ↦ pos 0 | suc k ↦ negsuc k ]) (format_nat-digits (suc n)).2

-- An argument of an integer type for an int parameter is always accepted, and printed as the decimal text that
-- stands for exactly that integer, an unsigned one as digits only.
pub stringify_value-read_decimal :
    (p : Param) (z : ℤ) (n : ℕ)
    → p.type ≡ type_int
    → ((s : Text) × (stringify_value p (int z) ≡ ok s) × (read_decimal s ≡ z))
      × ((s : Text) × (stringify_value p (uint n) ≡ ok s)
          × (read_decimal s ≡ pos n)
          × (all_digits s ≡ true))
unfolding int_text
stringify_value-read_decimal p z n t =
    let (digits, some_digit, value) = format_nat-digits n in
    (
      (format_int z, stringify_int p (int z) t, read_decimal-format_int z),
      (
        format_nat n,
        stringify_int p (uint n) t,
        read_decimal-digits (format_nat n) digits some_digit ∙ ap pos value,
        digits,
      ),
    )
