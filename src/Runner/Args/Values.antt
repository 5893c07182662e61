-- ===== src/Runner/Args/Values.antt =====
-- What `stringifyValue` accepts, and the text that it makes.
use make_mcp.Common.{
  ℕ, ◌/◌, ◌%◌, ◌^◌, ◌≡◌, refl, ap, ◌∙◌, ◌⊎◌, inl, inr, Bool, true, false, not, ◌&&◌, ◌||◌, ◌==◌,
  if◌then◌else◌, Bool-cases,
}
use make_mcp.Common.Outcome.{Outcome, ok}
use make_mcp.Text.{Text, codes, ◌=?◌}
use make_mcp.Go.Strconv.{pos, format_int, format_nat, format_bool}
use make_mcp.Runner.Args.Floats.{
  is_limit, float_eq-int64, limit_out, to_int64-in_range, to_int64-limit,
}
use make_mcp.Go.Float.{
  Float, finite, to_int64, of_int64, float_eq, signed, in_range, int64_max, Arch,
}
use make_mcp.Schema.{Param, type_string, type_int}
use make_mcp.Parser.Params.Sound.{IsParam}
use make_mcp.Runner.Args.{
  Value, RunnerError, str, int, uint, float64, float32, bool, wrong, float_text, int_text,
  string_text, bool_text, stringify_value,
}

-- The tests of the code against those of the statement.
if-taken :
    (whole range limit : Bool) (x y refused printed : Outcome RunnerError Text)
    → (range ≡ true → (limit ≡ false) × (printed ≡ x))
    → (range ≡ false → limit ≡ true → printed ≡ y)
    → (if not (whole && range || limit) then refused else printed)
      ≡ (if whole && range then x else if limit then y else refused)
if-taken true true limit x y refused printed h g = (h refl).1
if-taken false true limit x y refused printed h g = rw (h refl).0 refl
if-taken true false true x y refused printed h g = g refl refl
if-taken false false true x y refused printed h g = g refl refl
if-taken true false false x y refused printed h g = refl
if-taken false false false x y refused printed h g = refl

int_text-float :
    (name : Text) (arch : Arch) (neg : Bool) (m k : ℕ)
    → int_text name (float64 arch (finite neg m k)) ≡ (
        if m % 2 ^ k == 0 && in_range neg (m / 2 ^ k)
        then ok (format_int (signed neg (m / 2 ^ k)))
        else if is_limit arch neg m k
        then ok (format_int (pos int64_max))
        else wrong name (codes "integer") (float64 arch (finite neg m k)))
unfolding int_text float_text
int_text-float name arch neg m k = rw (float_eq-int64 arch neg m k) (
    if-taken (m % 2 ^ k == 0) (in_range neg (m / 2 ^ k)) (is_limit arch neg m k) _ _ _ _
      (λ r.
        (limit_out arch neg m k r, ap (λ n. ok (format_int n)) (to_int64-in_range arch neg m k r)))
      (λ r l. ap (λ n. ok (format_int n)) (to_int64-limit arch neg m k r l)))

pub stringify_int :
    (p : Param) (v : Value) → p.type ≡ type_int → stringify_value p v ≡ int_text p.name v
unfolding stringify_value ◌=?◌
stringify_int p v e = rw (e, stringify_value)

-- For a parameter of type `int`, on both architectures of the released binaries, a finite float is accepted if
-- it is an integer in the range of `int64`, and then its text is the decimal print of that integer. On arm64,
-- where a conversion out of range gives the nearest bound, 2 ^ 63 is accepted too, and printed as the integer
-- below it. Otherwise the error says that the parameter must be an integer.
pub stringify_value-float64 :
    (p : Param) (arch : Arch) (neg : Bool) (m k : ℕ)
    → p.type ≡ type_int
    → stringify_value p (float64 arch (finite neg m k)) ≡ (
        if m % 2 ^ k == 0 && in_range neg (m / 2 ^ k)
        then ok (format_int (signed neg (m / 2 ^ k)))
        else if is_limit arch neg m k
        then ok (format_int (pos int64_max))
        else wrong p.name (codes "integer") (float64 arch (finite neg m k)))
stringify_value-float64 p arch neg m k e =
    stringify_int p (float64 arch (finite neg m k)) e ∙ int_text-float p.name arch neg m k

-- What the message of a refused value names.
abbrev pub wanted : Text → Text
wanted t =
    if t =? type_string
    then codes "string"
    else if t =? type_int
    then codes "integer"
    else codes "boolean"

abbrev Texted : Text → Text → Value → Outcome RunnerError Text → Type 0
Texted name want v o = ((text : Text) × (o ≡ ok text)) ⊎ (o ≡ wrong name want v)

float_text-Texted :
    (name : Text) (v : Value) (arch : Arch) (x : Float)
    → Texted name (codes "integer") v (float_text name v arch x)
unfolding float_text
float_text-Texted name v arch x = elim (Bool-cases (float_eq x (of_int64 (to_int64 arch x)))) [
  | inl e ↦ rw e (inl (format_int (to_int64 arch x), refl))
  | inr e ↦ rw e (inr refl)
]

string_text-Texted : (name : Text) (v : Value) → Texted name (codes "string") v (string_text name v)
unfolding string_text
string_text-Texted name (str s) = inl (s, refl)
string_text-Texted name _ = inr refl

int_text-Texted : (name : Text) (v : Value) → Texted name (codes "integer") v (int_text name v)
unfolding int_text
int_text-Texted name (int n) = inl (format_int n, refl)
int_text-Texted name (uint n) = inl (format_nat n, refl)
int_text-Texted name (float64 arch x) = float_text-Texted name (float64 arch x) arch x
int_text-Texted name (float32 arch x) = float_text-Texted name (float32 arch x) arch x
int_text-Texted name _ = inr refl

bool_text-Texted : (name : Text) (v : Value) → Texted name (codes "boolean") v (bool_text name v)
unfolding bool_text
bool_text-Texted name (bool b) = inl (format_bool b, refl)
bool_text-Texted name _ = inr refl

-- A value of a well-formed parameter is printed, or refused with the error that names the
-- parameter, what its type wants, and the value; the branch for an unsupported type is not reached.
pub stringify_value-total :
    (p : Param) (v : Value)
    → IsParam p
    → ((text : Text) × (stringify_value p v ≡ ok text))
      ⊎ (stringify_value p v ≡ wrong p.name (wanted p.type) v)
unfolding stringify_value ◌=?◌
stringify_value-total p v h = elim h.typed [
  | inl e ↦ rw (e, stringify_value) (string_text-Texted p.name v)
  | inr (inl e) ↦ rw (e, stringify_value) (int_text-Texted p.name v)
  | inr (inr e) ↦ rw (e, stringify_value) (bool_text-Texted p.name v)
]
