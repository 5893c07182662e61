-- ===== src/Parser/Params/Print.antt =====
-- Printing a parameter in the form `<name> <type> | <description>` and reading it back.
use make_mcp.Common.{
  ℕ, ◌≡◌, refl, ap, ◌∙◌, ◌⊎◌, inl, inr, true, false, Option, none, some, List, [], ◌∷◌, ◌++◌,
  append-nil, arith, All,
}
use make_mcp.Text.{Text, codes, is_space, trim_space, strip_prefix, cut, fields, fields_of}
use make_mcp.Schema.{type_string, type_int, type_bool}
use make_mcp.Parser.Annotation.{is_letter}
use make_mcp.Parser.Params.{
  ok, is_name_char, all_chars, is_param_name, is_param_type, name_and_type, parse_param,
}

-- `<name> <type> | <description>`.
abbrev pub param_line : Text → Text → Text → Text
param_line name type desc = name ++ (b' ' ∷ (type ++ (codes " | " ++ desc)))

abbrev IsSolid : Text → Type 0
IsSolid = All (λ c. is_space c ≡ false)

abbrev prepend_to : Text → Option (Text × Text) → Option (Text × Text)
prepend_to xs none = none
prepend_to xs (some (a, b)) = some (xs ++ a, b)

cut_skip :
    (xs s : Text) → IsSolid xs → cut (codes " | ") (xs ++ s) ≡ prepend_to xs (cut (codes " | ") s)
unfolding cut is_space
cut_skip [] s h = ground arith
cut_skip (c ∷ xs) s h = ground (arith, cut_skip xs s)

fields_of_skip :
    (xs s : Text) → IsSolid xs → fields_of (xs ++ s) ≡ (xs ++ (fields_of s).0, (fields_of s).1)
unfolding fields_of
fields_of_skip [] s h = refl
fields_of_skip (c ∷ xs) s h = ground (arith, fields_of_skip xs s)

name_chars-IsSolid : (s : Text) → all_chars is_name_char s ≡ true → IsSolid s
unfolding all_chars is_name_char is_letter is_space
name_chars-IsSolid [] h = tt
name_chars-IsSolid (c ∷ s) h = ground (arith, name_chars-IsSolid s)

-- The three types, and what the cut and the fields make of a line that goes on with one of them.
cut_type :
    (type desc : Text)
    → (type ≡ type_string) ⊎ (type ≡ type_int) ⊎ (type ≡ type_bool)
    → cut (codes " | ") (b' ' ∷ (type ++ (codes " | " ++ desc))) ≡ some (b' ' ∷ type, desc)
unfolding cut strip_prefix
cut_type type desc (inl e) = rw e
cut_type type desc (inr (inl e)) = rw e
cut_type type desc (inr (inr e)) = rw e

fields_type :
    (type : Text)
    → (type ≡ type_string) ⊎ (type ≡ type_int) ⊎ (type ≡ type_bool)
    → fields_of (b' ' ∷ type) ≡ ([], type ∷ [])
unfolding fields_of is_space
fields_type type (inl e) = rw e
fields_type type (inr (inl e)) = rw e
fields_type type (inr (inr e)) = rw e

fields_line :
    (c : ℕ) (s type : Text)
    → IsSolid (c ∷ s)
    → (type ≡ type_string) ⊎ (type ≡ type_int) ⊎ (type ≡ type_bool)
    → fields ((c ∷ s) ++ b' ' ∷ type) ≡ (c ∷ s) ∷ type ∷ []
unfolding fields
fields_line c s type h t =
    let e = fields_of_skip (c ∷ s) (b' ' ∷ type) h in rw (e, fields_type type t, append-nil)

name_and_type-accepts :
    (val name type desc : Text)
    → is_param_name name ≡ true
    → (type ≡ type_string) ⊎ (type ≡ type_int) ⊎ (type ≡ type_bool)
    → name_and_type val desc (name ∷ type ∷ [])
      ≡ ok (record { name = name; type = type; description = trim_space desc })
unfolding name_and_type is_param_type
name_and_type-accepts val name type desc n (inl e) = rw (n, e)
name_and_type-accepts val name type desc n (inr (inl e)) = rw (n, e)
name_and_type-accepts val name type desc n (inr (inr e)) = rw (n, e)

param_name-IsSolid : (name : Text) → is_param_name name ≡ true → IsSolid name
unfolding is_param_name is_letter is_space
param_name-IsSolid [] h = tt
param_name-IsSolid (c ∷ s) h = ground (arith, name_chars-IsSolid s)

parse_of_parts :
    (val before desc : Text) (parts : List Text)
    → cut (codes " | ") val ≡ some (before, desc)
    → fields before ≡ parts
    → parse_param val ≡ name_and_type val desc parts
unfolding parse_param
parse_of_parts val before desc parts e f = rw (e, parse_param) (rw f)

-- The value `<name> <type> | <description>` reads back as a parameter with that name and that type
-- and the trimmed description, for every accepted name, each of the three types and any description.
pub parse_param-param_line :
    (name type desc : Text)
    → is_param_name name ≡ true
    → (type ≡ type_string) ⊎ (type ≡ type_int) ⊎ (type ≡ type_bool)
    → parse_param (param_line name type desc)
      ≡ ok (record { name = name; type = type; description = trim_space desc })
unfolding is_param_name
parse_param-param_line [] type desc n t = cc
parse_param-param_line (c ∷ s) type desc n t =
    let name = c ∷ s in
    let solid = param_name-IsSolid (c ∷ s) n in
    parse_of_parts (param_line name type desc) (name ++ b' ' ∷ type) desc (name ∷ type ∷ [])
      (cut_skip name (b' ' ∷ (type ++ (codes " | " ++ desc))) solid
        ∙ ap (prepend_to name) (cut_type type desc t))
      (fields_line c s type solid t)
    ∙ name_and_type-accepts (param_line name type desc) name type desc n t
