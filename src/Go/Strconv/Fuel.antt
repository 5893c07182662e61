-- ===== src/Go/Strconv/Fuel.antt =====
-- The fuel of the decimal print is enough.
use make_mcp.Common.{
  ℕ, zero, suc, ◌+◌, ◌/◌, ◌%◌, ◌<◌, ◌≡◌, refl, Bool, true, false, ◌∷◌, arith, ltb,
}
use make_mcp.Text.{Text}
use make_mcp.Go.Strconv.{digits_onto}

-- Any two amounts of fuel above the number print the same digits.
pub digits_onto_fuel :
    (f g n : ℕ) (rest : Text) → n < f → n < g → digits_onto f n rest ≡ digits_onto g n rest
unfolding digits_onto
digits_onto_fuel zero g n rest hf hg = absurd (omega (arith, hf))
digits_onto_fuel (suc f) zero n rest hf hg = absurd (omega (arith, hg))
digits_onto_fuel (suc f) (suc g) n rest hf hg =
    go
      (λ e.
        digits_onto_fuel f g (n / 10) ((b'0' + n % 10) ∷ rest) (ground (arith, hf))
          (ground (arith, hg)))
      (ltb n 10) refl
  where
    more : Text
    more = (b'0' + n % 10) ∷ rest

    go :
        (ltb n 10 ≡ false → digits_onto f (n / 10) more ≡ digits_onto g (n / 10) more)
        → (b : Bool) → ltb n 10 ≡ b
        → (elim b as (λ x. Text) [ true ↦ (b'0' + n) ∷ rest | false ↦ digits_onto f (n / 10) more ])
          ≡ (elim b as (λ x. Text) [
            | true ↦ (b'0' + n) ∷ rest
            | false ↦ digits_onto g (n / 10) more
          ])
    go again true e = refl
    go again false e = again e
