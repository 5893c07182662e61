-- ===== src/Go/Float.antt =====
-- Floating-point values as the code reads them: a finite one is an integer over a power of two, and
-- the code only converts it to `int64`, back, and compares.
use make_mcp.Common.{
  ℕ, zero, suc, ◌-◌, ◌*◌, ◌/◌, ◌^◌, Bool, true, false, not, ◌&&◌, ◌||◌, ltb, leb, ◌==◌,
  if◌then◌else◌,
}
use make_mcp.Go.Strconv.{ℤ, pos, negsuc}

pub data Float : Type 0 where
  -- The sign (true below zero), the numerator and the exponent of the denominator.
  finite : Bool → ℕ → ℕ → Float
  infinite : Bool → Float
  nan : Float

-- The two architectures of the released binaries.
pub data Arch : Type 0 where
  amd64 arm64 : Arch

-- The greatest `int64` is no float: the next one below it is, and 2 ^ 63.
abbrev pub int64_max : ℕ
int64_max = 2 ^ 63 - 1

abbrev pub int64_min : ℤ
int64_min = negsuc (2 ^ 63 - 1)

unfoldable pub signed : Bool → ℕ → ℤ
signed false n = pos n
signed true zero = pos 0
signed true (suc n) = negsuc n

-- Whether a float with this sign and this integer part has its integer part in `int64`.
abbrev pub in_range : Bool → ℕ → Bool
in_range false n = ltb n int64_max
in_range true n = leb n (suc int64_max)

-- The bound on the side of the sign.
abbrev saturated : Bool → ℤ
saturated false = pos int64_max
saturated true = int64_min

-- `int64(v)` of what is out of range, which Go leaves to the machine: amd64 gives the least integer, arm64 the
-- nearest one, and 0 for what is not a number.
unfoldable pub beyond_int64 : Arch → Float → ℤ
beyond_int64 amd64 v = int64_min
beyond_int64 arm64 (finite neg m k) = saturated neg
beyond_int64 arm64 (infinite neg) = saturated neg
beyond_int64 arm64 nan = pos 0

-- `int64(v)`: towards zero.
unfoldable pub to_int64 : Arch → Float → ℤ
unfolding signed beyond_int64
to_int64 arch (finite neg m k) =
    if in_range neg (m / 2 ^ k) then signed neg (m / 2 ^ k) else beyond_int64 arch (finite neg m k)
to_int64 arch v = beyond_int64 arch v

-- `float64(n)` and `float32(n)`, for the integers that `to_int64` gives for a float: those are exact, but the
-- greatest one, which is rounded up.
unfoldable pub of_int64 : ℤ → Float
of_int64 (pos n) = if n == int64_max then finite false (suc n) 0 else finite false n 0
of_int64 (negsuc n) = finite true (suc n) 0

-- `==` on floats: -0 equals 0, and NaN nothing.
unfoldable pub float_eq : Float → Float → Bool
float_eq (finite a m k) (finite b n l) =
    m * 2 ^ l == n * 2 ^ k && (m == 0 || (if a then b else not b))
float_eq (infinite a) (infinite b) = if a then b else not b
float_eq _ _ = false
