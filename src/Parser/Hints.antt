-- ===== src/Parser/Hints.antt =====
-- `buildToolHints`, `optionalBoolAnnotation`, `appendBoolAnnotationError` and
-- `validateStrictAnnotations`.
use make_mcp.Common.{Bool, not, Option, none, some, List, [], ◌∷◌, ◌++◌, if◌then◌else◌}
use make_mcp.Text.{Text, codes}
use make_mcp.Dict.{Dict, lookup, is_some}
use make_mcp.Go.Strconv.{parse_bool}
use make_mcp.Schema.{ToolHints, ParseError, ValidationError, bad_bool, missing_strict, report}
use make_mcp.Parser.Params.{at_recipe}

abbrev pub key_read_only : Text
key_read_only = codes "read-only"

abbrev pub key_destructive : Text
key_destructive = codes "destructive"

abbrev pub key_idempotent : Text
key_idempotent = codes "idempotent"

abbrev pub key_open_world : Text
key_open_world = codes "open-world"

-- `optionalBoolAnnotation`: the pointer that it returns is nil on an error too.
unfoldable pub optional_bool : Dict Text → Text → Option Bool × Option ParseError
unfolding lookup parse_bool
optional_bool meta key = elim (lookup key meta) [
  | none ↦ (none, none)
  | some raw ↦ elim (parse_bool raw) [
    | none ↦ (none, some (bad_bool key raw))
    | some b ↦ (some b, none)
  ]
]

-- `appendBoolAnnotationError`.
unfoldable pub append_error : List ValidationError → Text → Option ParseError → List ValidationError
append_error errs id none = errs
append_error errs id (some e) = errs ++ at_recipe id e ∷ []

-- `buildToolHints`.
unfoldable pub build_tool_hints : Text → Dict Text → ToolHints × List ValidationError
unfolding optional_bool append_error
build_tool_hints id meta =
    let read_only = optional_bool meta key_read_only in
    let destructive = optional_bool meta key_destructive in
    let idempotent = optional_bool meta key_idempotent in
    let open_world = optional_bool meta key_open_world in
    (
      record {
        read_only = read_only.0;
        destructive = destructive.0;
        idempotent = idempotent.0;
        open_world = open_world.0;
      },
      append_error
          (append_error (append_error (append_error [] id read_only.1) id destructive.1) id
            idempotent.1)
          id open_world.1,
    )

abbrev pub required_keys : List Text
required_keys = key_read_only ∷ key_destructive ∷ key_idempotent ∷ key_open_world ∷ []

-- The loop of `validateStrictAnnotations`.
unfoldable pub missing_keys : Text → Dict Text → List Text → List ValidationError
unfolding lookup
missing_keys id meta [] = []
missing_keys id meta (key ∷ keys) =
    report (not (is_some (lookup key meta))) (at_recipe id (missing_strict key))
    ++ missing_keys id meta keys

-- `validateStrictAnnotations`.
unfoldable pub validate_strict : Text → Dict Text → Bool → List ValidationError
unfolding missing_keys
validate_strict id meta strict = if not strict then [] else missing_keys id meta required_keys
