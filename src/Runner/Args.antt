-- ===== src/Runner/Args.antt =====
-- `buildArgs`, `stringifyValue` and `makeVariableName`.
pub mod Floats
pub mod Values
pub mod Decimal
pub mod Shape
pub mod Order
pub mod Accepts
use make_mcp.Common.{ℕ, Bool, false, not, Option, none, some, List, [], ◌∷◌, ◌++◌, if◌then◌else◌}
use make_mcp.Common.Outcome.{Outcome, ok, fail, ◌>>=◌}
use make_mcp.Text.{Text, codes, ◌=?◌, replace_all, to_upper}
use make_mcp.Dict.{Dict, lookup, insert}
use make_mcp.Go.Strconv.{ℤ, format_int, format_nat, format_bool}
use make_mcp.Go.Float.{Arch, Float, to_int64, beyond_int64, of_int64, float_eq}
use make_mcp.Go.Path.{base}
use make_mcp.Schema.{Recipe, Param, type_string, type_int, type_bool}

-- The `any` of an argument by its dynamic type; the integer types of all widths print alike. A float comes
-- with the architecture that the program runs on, whose conversions it is given to.
pub data Value : Type 0 where
  str : Text → Value
  int : ℤ → Value
  uint : ℕ → Value
  float64 : Arch → Float → Value
  float32 : Arch → Float → Value
  bool : Bool → Value
  -- Any other type, by its name.
  other : Text → Value

pub data Code : Type 0 where
  invalid_params tool_timeout tool_exit_nonzero : Code

-- The messages, by what they name.
pub data Message : Type 0 where
  missing_target : Message
  unknown_param : Text → Text → Message
  -- The name, what the type wants, and the value that came.
  wrong_type : Text → Text → Value → Message
  unsupported_type : Text → Text → Message
  exceeded_timeout : ℤ → Message
  failed_exit : ℤ → Message

-- `Error`.
pub record RunnerError : Type 0 where
  pub code : Code
  pub message : Message
  pub exit_code : Option ℤ
  pub stdout : Text
  pub stderr : Text
  pub timed_out : Bool

abbrev pub params_error : Message → RunnerError
params_error m = record {
  code = invalid_params;
  message = m;
  exit_code = none;
  stdout = [];
  stderr = [];
  timed_out = false;
}

-- `invalidParamTypeError`.
abbrev pub wrong : {A : Type 0} → Text → Text → Value → Outcome RunnerError A
wrong name want got = fail (params_error (wrong_type name want got))

unfoldable pub float_text : Text → Value → Arch → Float → Outcome RunnerError Text
float_text name got arch v =
    if not (float_eq v (of_int64 (to_int64 arch v)))
    then wrong name (codes "integer") got
    else ok (format_int (to_int64 arch v))

unfoldable pub string_text : Text → Value → Outcome RunnerError Text
string_text name (str s) = ok s
string_text name v = wrong name (codes "string") v

unfoldable pub int_text : Text → Value → Outcome RunnerError Text
int_text name (int n) = ok (format_int n)
int_text name (uint n) = ok (format_nat n)
int_text name (float64 arch v) = float_text name (float64 arch v) arch v
int_text name (float32 arch v) = float_text name (float32 arch v) arch v
int_text name v = wrong name (codes "integer") v

unfoldable pub bool_text : Text → Value → Outcome RunnerError Text
bool_text name (bool b) = ok (format_bool b)
bool_text name v = wrong name (codes "boolean") v

-- `stringifyValue`.
unfoldable pub stringify_value : Param → Value → Outcome RunnerError Text
stringify_value p v =
    if p.type =? type_string
    then string_text p.name v
    else if p.type =? type_int
    then int_text p.name v
    else if p.type =? type_bool
    then bool_text p.name v
    else fail (params_error (unsupported_type p.type p.name))

-- `makeVariableName`.
unfoldable pub make_variable_name : Text → Text
unfolding replace_all to_upper
make_variable_name name = to_upper (replace_all b'-' b'_' name)

abbrev pub params_of : Recipe → List Param
params_of r = elim r.params [ none ↦ [] | some ps ↦ ps ]

-- The map `allowed`.
unfoldable pub allowed : List Param → Dict Param → Dict Param
unfolding insert
allowed [] m = m
allowed (p ∷ ps) m = allowed ps (insert p.name p m)

-- The loop over the provided keys, in the order that the map hands them out: the first that is not
-- declared.
unfoldable pub unknown_key : Dict Param → Dict Value → Option Text
unfolding lookup
unknown_key known [] = none
unknown_key known ((key, v) ∷ rest) = elim (lookup key known) [
  | none ↦ some key
  | some p ↦ unknown_key known rest
]

-- One round of the loop over the declared parameters, and the rounds behind it.
unfoldable pub assign :
    Param → Option Value → Outcome RunnerError (List Text) → Outcome RunnerError (List Text)
assign p none later = later
assign p (some v) later = stringify_value p v >>= λ text.
    later >>= λ rest. ok ((make_variable_name p.name ++ b'=' ∷ text) ∷ rest)

-- The loop over the declared parameters.
unfoldable pub assignments : List Param → Dict Value → Outcome RunnerError (List Text)
unfolding lookup assign
assignments [] provided = ok []
assignments (p ∷ ps) provided = assign p (lookup p.name provided) (assignments ps provided)

abbrev pub file_args : Text → List Text
file_args [] = []
file_args (c ∷ s) = codes "-f" ∷ base (c ∷ s) ∷ []

-- `buildArgs`.
unfoldable pub build_args : Recipe → Dict Value → Text → Outcome RunnerError (List Text)
unfolding allowed unknown_key assignments base stringify_value string_text int_text bool_text
    float_text float_eq to_int64 beyond_int64 of_int64 format_int format_bool format_nat
    make_variable_name ◌=?◌
build_args recipe provided source_makefile =
    elim (unknown_key (allowed (params_of recipe) []) provided) [
      | some key ↦ fail (params_error (unknown_param key recipe.id))
      | none ↦ assignments (params_of recipe) provided >>= λ rest.
          ok (codes "--no-print-directory" ∷ (file_args source_makefile ++ recipe.id ∷ rest))
    ]
