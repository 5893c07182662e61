-- ===== src/Go/Strconv.antt =====
-- `strconv.ParseBool`, and the decimal print of an integer (`Itoa`, `FormatInt`, `%d`).
pub mod Fuel
use make_mcp.Common.{
  ℕ, zero, suc, ◌+◌, ◌/◌, ◌%◌, Bool, true, false, ◌||◌, Option, none, some, [], ◌∷◌, ltb,
  if◌then◌else◌,
}
use make_mcp.Text.{Text, codes, ◌=?◌}

-- Integers: `negsuc n` is -(n + 1).
pub data ℤ : Type 0 where
  pos : ℕ → ℤ
  negsuc : ℕ → ℤ

unfoldable pub parse_bool : Text → Option Bool
unfolding ◌=?◌
parse_bool s =
    if s =? codes "1"
      || s =? codes "t"
      || s =? codes "T"
      || s =? codes "TRUE"
      || s =? codes "true"
      || s =? codes "True"
    then some true
    else if s =? codes "0"
        || s =? codes "f"
        || s =? codes "F"
        || s =? codes "FALSE"
        || s =? codes "false"
        || s =? codes "False"
    then some false
    else none

-- The digits of `n` in front of `rest`, the fuel above the number of digits.
unfoldable pub digits_onto : ℕ → ℕ → Text → Text
digits_onto zero n rest = rest
digits_onto (suc f) n rest = elim (ltb n 10) [
  | true ↦ (b'0' + n) ∷ rest
  | false ↦ digits_onto f (n / 10) ((b'0' + n % 10) ∷ rest)
]

unfoldable pub format_nat : ℕ → Text
unfolding digits_onto
format_nat n = digits_onto (suc n) n []

unfoldable pub format_int : ℤ → Text
unfolding format_nat
format_int (pos n) = format_nat n
format_int (negsuc n) = b'-' ∷ format_nat (suc n)

unfoldable pub format_bool : Bool → Text
format_bool true = codes "true"
format_bool false = codes "false"
