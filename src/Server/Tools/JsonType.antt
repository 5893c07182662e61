-- ===== src/Server/Tools/JsonType.antt =====
-- The JSON types of a tool's input schema, and the values that `stringifyValue` prints.
use make_mcp.Common.{
  ◌/◌, ◌%◌, ◌^◌, ◌≡◌, refl, ◌↔◌, inl, inr, Bool, true, false, not, ◌&&◌, ◌||◌, ◌==◌, if◌then◌else◌,
}
use make_mcp.Common.Outcome.{Outcome, ok, fail}
use make_mcp.Text.{Text, codes, ◌=?◌}
use make_mcp.Go.Float.{
  Arch, amd64, arm64, Float, finite, infinite, nan, in_range, float_eq, of_int64, to_int64,
  beyond_int64,
}
use make_mcp.Schema.{Param}
use make_mcp.Parser.Params.Sound.{IsParam}
use make_mcp.Runner.Args.{
  Value, str, int, uint, float64, float32, bool, other, RunnerError, stringify_value, string_text,
  int_text, bool_text, float_text,
}
use make_mcp.Runner.Args.Floats.{is_limit, float_eq-int64, limit_whole}
use make_mcp.Server.Tools.{schema_type}

-- A number without a fraction.
unfoldable pub is_whole : Float → Bool
is_whole (finite neg m k) = m % 2 ^ k == 0
is_whole (infinite neg) = false
is_whole nan = false

-- The value is of the type of JSON Schema; an integer is any number without a fraction.
unfoldable pub has_type : Text → Value → Bool
unfolding is_whole ◌=?◌
has_type t (str s) = t =? codes "string"
has_type t (int n) = t =? codes "integer"
has_type t (uint n) = t =? codes "integer"
has_type t (float64 arch x) = t =? codes "integer" && is_whole x
has_type t (float32 arch x) = t =? codes "integer" && is_whole x
has_type t (bool b) = t =? codes "boolean"
has_type t (other type) = false

-- The float's integer part is in `int64`, or it is the one out of range that the architecture takes.
unfoldable pub in_int64 : Arch → Float → Bool
in_int64 arch (finite neg m k) = in_range neg (m / 2 ^ k) || is_limit arch neg m k
in_int64 arch (infinite neg) = false
in_int64 arch nan = false

-- The value is no float out of that range.
unfoldable pub fits : Value → Bool
unfolding in_int64
fits (float64 arch x) = in_int64 arch x
fits (float32 arch x) = in_int64 arch x
fits v = true

abbrev pub IsOk : {A : Type 0} → Outcome RunnerError A → Type 0
IsOk {A} o = (a : A) × (o ≡ ok a)

ok_iff : (text : Text) → IsOk (ok text) ↔ (true ≡ true)
ok_iff text = (λ h. refl, λ e. (text, refl))

fail_iff : (e : RunnerError) → IsOk {A = Text} (fail e) ↔ (false ≡ true)
fail_iff e = (λ h. absurd (cc h.1), λ h. cc)

if-not_iff :
    (b : Bool) (e : RunnerError) (text : Text)
    → IsOk (if not b then fail e else ok text) ↔ (b ≡ true)
if-not_iff true e text = ok_iff text
if-not_iff false e text = fail_iff e

-- The value is of the type, and no float out of the range.
abbrev pub has_fitting : Text → Value → Bool
has_fitting t v = has_type t v && fits v

and_or : (w r l : Bool) → (l ≡ true → w ≡ true) → (w && r || l) ≡ (w && (r || l))
and_or true r l h = refl
and_or false r true h = absurd (cc (h refl))
and_or false r false h = refl

float_text_iff :
    (name : Text) (got : Value) (arch : Arch) (x : Float)
    → IsOk (float_text name got arch x) ↔ ((is_whole x && in_int64 arch x) ≡ true)
unfolding float_text is_whole in_int64
float_text_iff name got arch (finite neg m k) =
    rw
      (
        float_eq-int64 arch neg m k,
        and_or (m % 2 ^ k == 0) (in_range neg (m / 2 ^ k)) (is_limit arch neg m k)
            (limit_whole arch neg m k),
      )
      (if-not_iff _ _ _)
float_text_iff name got amd64 (infinite neg) =
    unfold float_eq of_int64 to_int64 beyond_int64 in fail_iff _
float_text_iff name got arm64 (infinite true) =
    unfold float_eq of_int64 to_int64 beyond_int64 in fail_iff _
float_text_iff name got arm64 (infinite false) =
    unfold float_eq of_int64 to_int64 beyond_int64 in fail_iff _
float_text_iff name got arch nan = unfold float_eq in fail_iff _

string_text_iff :
    (name : Text) (v : Value) → IsOk (string_text name v) ↔ (has_fitting (codes "string") v ≡ true)
unfolding string_text has_type fits
string_text_iff name (str s) = ok_iff _
string_text_iff name _ = fail_iff _

int_text_iff :
    (name : Text) (v : Value) → IsOk (int_text name v) ↔ (has_fitting (codes "integer") v ≡ true)
unfolding int_text has_type fits
int_text_iff name (int n) = ok_iff _
int_text_iff name (uint n) = ok_iff _
int_text_iff name (float64 arch x) = float_text_iff name (float64 arch x) arch x
int_text_iff name (float32 arch x) = float_text_iff name (float32 arch x) arch x
int_text_iff name _ = fail_iff _

bool_text_iff :
    (name : Text) (v : Value) → IsOk (bool_text name v) ↔ (has_fitting (codes "boolean") v ≡ true)
unfolding bool_text has_type fits
bool_text_iff name (bool b) = ok_iff _
bool_text_iff name _ = fail_iff _

-- A value is printed exactly if it is of the JSON type that the schema gives the parameter, and no float out of
-- range.
pub stringify_value_iff :
    (p : Param) (v : Value)
    → IsParam p
    → IsOk (stringify_value p v) ↔ (has_fitting (schema_type p.type) v ≡ true)
unfolding stringify_value schema_type ◌=?◌
stringify_value_iff p v h = elim h.typed [
  | inl e ↦ rw (e, stringify_value) (string_text_iff p.name v)
  | inr (inl e) ↦ rw (e, stringify_value) (int_text_iff p.name v)
  | inr (inr e) ↦ rw (e, stringify_value) (bool_text_iff p.name v)
]
