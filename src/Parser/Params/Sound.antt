-- ===== src/Parser/Params/Sound.antt =====
-- What `parseParam` and `buildParams` accept.
use make_mcp.Common.{
  ◌≡◌, ◌↔◌, ◌⊎◌, inl, inr, Bool, true, Option, none, some, List, [], ◌∷◌, arith, Option-cases, All,
}
use make_mcp.Text.{Text, codes, cut, fields}
use make_mcp.Text.Equal.{=?_iff}
use make_mcp.Schema.{Param, type_string, type_int, type_bool}
use make_mcp.Parser.Params.{
  Result, ok, err, is_param_name, is_param_type, name_and_type, parse_param, parse_params,
  build_params,
}

-- A name that `paramNameRE` accepts, and one of the three types.
pub record IsParam (p : Param) : Type 0 where
  pub named : is_param_name p.name ≡ true
  pub typed : (p.type ≡ type_string) ⊎ (p.type ≡ type_int) ⊎ (p.type ≡ type_bool)

abbrev pub ParamsOf : Option (List Param) → Type 0
ParamsOf none = Unit
ParamsOf (some ps) = All IsParam ps

is_param_type_iff :
    (t : Text) → (is_param_type t ≡ true) ↔ ((t ≡ type_string) ⊎ (t ≡ type_int) ⊎ (t ≡ type_bool))
unfolding is_param_type
is_param_type_iff t = ground (arith, =?_iff t type_string, =?_iff t type_int, =?_iff t type_bool)

abbrev OkParam : Result Param → Type 0
OkParam (ok p) = IsParam p
OkParam (err e) = Unit

name_and_type-IsParam :
    (val desc : Text) (parts : List Text) → OkParam (name_and_type val desc parts)
unfolding name_and_type
name_and_type-IsParam val desc (name ∷ type ∷ []) = ground (arith, is_param_type_iff type)
name_and_type-IsParam val desc _ = tt

parse_param-OkParam : (val : Text) → OkParam (parse_param val)
unfolding parse_param
parse_param-OkParam val = elim (Option-cases (cut (codes " | ") val)) [
  | inl e ↦ rw (e, OkParam) tt
  | inr ((before, desc), e) ↦ rw (e, OkParam) (name_and_type-IsParam val desc (fields before))
]

-- Every parameter that `parseParam` returns has a well-formed name and one of the three types.
pub parse_param-IsParam : (val : Text) {p : Param} → parse_param val ≡ ok p → IsParam p
parse_param-IsParam val e = rw e at (parse_param-OkParam val)

parse_params-IsParam : (id : Text) (raw : List Text) → All IsParam (parse_params id raw).0
unfolding parse_params
parse_params-IsParam id [] = tt
parse_params-IsParam id (raw ∷ rest) =
    ground (arith, parse_param-OkParam raw, parse_params-IsParam id rest)

pub build_params-IsParam :
    (id : Text) (seen none_seen : Bool) (raw : List Text)
    → ParamsOf (build_params id seen none_seen raw).0
unfolding build_params
build_params-IsParam id seen none_seen raw = ground (arith, parse_params-IsParam id raw)
