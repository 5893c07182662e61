-- ===== src/Schema.antt =====
-- pkg/parser/schema.go: recipes, their parameters and hints, `Validate`, and the errors of a parse.
pub mod Validate
use make_mcp.Common.{
  Bool, true, false, not, ◌||◌, Option, none, some, List, [], ◌∷◌, ◌++◌, if◌then◌else◌, is_nil,
}
use make_mcp.Text.{Text, codes, ◌=?◌}
use make_mcp.Go.Mime.{MediaError, media_type_error}

-- `RiskLevel` and `ParamType` are strings.
abbrev pub risk_low : Text
risk_low = codes "low"

abbrev pub risk_medium : Text
risk_medium = codes "medium"

abbrev pub risk_high : Text
risk_high = codes "high"

abbrev pub type_string : Text
type_string = codes "string"

abbrev pub type_int : Text
type_int = codes "int"

abbrev pub type_bool : Text
type_bool = codes "bool"

pub record Param : Type 0 where
  pub name : Text
  pub type : Text
  pub description : Text

-- `nil` is `none`.
pub record ToolHints : Type 0 where
  pub read_only : Option Bool
  pub destructive : Option Bool
  pub idempotent : Option Bool
  pub open_world : Option Bool

-- A nil slice of parameters is `none`, an empty one `some []`.
pub record Recipe : Type 0 where
  pub source_file : Text
  pub id : Text
  pub name : Text
  pub description : Text
  pub risk : Text
  pub params : Option (List Param)
  pub output : Text
  pub output_type : Text
  pub tool_hints : ToolHints

-- The errors that the package makes, each by what its message says.
pub data ParseError : Type 0 where
  missing_id missing_name missing_description missing_params : ParseError
  missing_output missing_output_type bad_risk : ParseError
  bad_content_type : MediaError → ParseError
  missing_strict : Text → ParseError
  bad_bool : Text → Text → ParseError
  mixed_none : ParseError
  param_format : Text → ParseError
  param_name_type : Text → ParseError
  param_name : Text → ParseError
  param_type : Text → Text → ParseError

pub record ValidationError : Type 0 where
  pub recipe_id : Text
  pub source_file : Text
  pub error : ParseError

pub record ParseResult : Type 0 where
  pub recipes : List Recipe
  pub errors : List ValidationError

-- `ParseResult.Valid`.
unfoldable pub valid : ParseResult → Bool
valid pr = is_nil pr.errors

-- `errs = append(errs, e)` under a test.
abbrev pub report {ℓ} : {A : Type ℓ} → Bool → A → List A
report true e = e ∷ []
report false e = []

unfoldable pub is_risk : Text → Bool
unfolding ◌=?◌
is_risk r = r =? risk_low || r =? risk_medium || r =? risk_high

abbrev is_nil_slice {ℓ} : {A : Type ℓ} → Option A → Bool
is_nil_slice none = true
is_nil_slice (some x) = false

-- `validateHTTPContentType`.
unfoldable pub validate_content_type : Text → List ParseError
validate_content_type value = elim (media_type_error value) [
  | none ↦ []
  | some e ↦ bad_content_type e ∷ []
]

-- `Recipe.Validate`: every violation, in the order of the fields' tests.
unfoldable pub validate : Recipe → List ParseError
validate r =
    report (is_nil r.id) missing_id
    ++ (report (is_nil r.name) missing_name
        ++ (report (is_nil r.description) missing_description
            ++ (report (is_nil_slice r.params) missing_params
                ++ (report (is_nil r.output) missing_output
                    ++ ((if is_nil r.output_type
                          then missing_output_type ∷ []
                          else validate_content_type r.output_type)
                        ++ report (not (is_risk r.risk)) bad_risk)))))
