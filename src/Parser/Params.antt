-- ===== src/Parser/Params.antt =====
-- `paramNameRE`, `parseParam` and `buildParams`.
use make_mcp.Common.{
  ℕ, Bool, true, false, not, ◌&&◌, ◌||◌, Option, none, some, List, [], ◌∷◌, ◌==◌, within,
  if◌then◌else◌, is_nil,
}
use make_mcp.Text.{Text, codes, ◌=?◌, trim_space, cut, fields}
use make_mcp.Schema.{
  Param, ParseError, ValidationError, param_format, param_name_type, param_name, param_type,
  mixed_none, type_string, type_int, type_bool,
}
use make_mcp.Parser.Annotation.{is_letter}
pub mod Sound
pub mod Print

pub data Result {ℓ} (A : Type ℓ) : Type ℓ where
  ok : A → Result A
  err : ParseError → Result A

unfoldable pub is_name_char : ℕ → Bool
unfolding is_letter
is_name_char c = is_letter c || within b'0' b'9' c || c == b'_' || c == b'-'

unfoldable pub all_chars : (ℕ → Bool) → Text → Bool
all_chars p [] = true
all_chars p (c ∷ s) = p c && all_chars p s

-- `paramNameRE.MatchString`; `$` is the end of the text.
unfoldable pub is_param_name : Text → Bool
unfolding is_name_char all_chars
is_param_name [] = false
is_param_name (c ∷ s) = is_letter c && all_chars is_name_char s

unfoldable pub is_param_type : Text → Bool
unfolding ◌=?◌
is_param_type t = t =? type_string || t =? type_int || t =? type_bool

-- The switch on the parts in front of the separator.
unfoldable pub name_and_type : Text → Text → List Text → Result Param
unfolding is_param_name is_param_type
name_and_type val desc (name ∷ type ∷ []) =
    if not (is_param_name name)
    then err (param_name name)
    else if is_param_type type
    then ok (record { name = name; type = type; description = trim_space desc })
    else err (param_type name type)
name_and_type val desc _ = err (param_name_type val)

-- `parseParam`.
unfoldable pub parse_param : Text → Result Param
unfolding name_and_type cut fields
parse_param val = elim (cut (codes " | ") val) [
  | none ↦ err (param_format val)
  | some (before, desc) ↦ name_and_type val desc (fields before)
]

abbrev pub at_recipe : Text → ParseError → ValidationError
at_recipe id e = record { recipe_id = id; source_file = []; error = e }

-- The two slices that the loop of `buildParams` appends to.
unfoldable pub parse_params : Text → List Text → List Param × List ValidationError
unfolding parse_param
parse_params id [] = ([], [])
parse_params id (raw ∷ rest) =
    let r = parse_params id rest in
    elim (parse_param raw) [ ok p ↦ (p ∷ r.0, r.1) | err e ↦ (r.0, at_recipe id e ∷ r.1) ]

-- `buildParams`: `none` is the nil slice.
unfoldable pub build_params :
    Text → Bool → Bool → List Text → Option (List Param) × List ValidationError
unfolding parse_params
build_params id seen none_seen raw_vals =
    if not seen
    then (none, [])
    else if none_seen && not (is_nil raw_vals)
    then (some [], at_recipe id mixed_none ∷ [])
    else if none_seen
    then (some [], [])
    else (some (parse_params id raw_vals).0, (parse_params id raw_vals).1)
