-- ===== src/Go/Mime.antt =====
-- `mime.ParseMediaType`, as far as its error: whether a value is a well-formed media type with
-- parameters. The decoding of RFC 2231 continuations gives no error and is left out.
pub mod Fuel
use make_mcp.Common.{
  ℕ, zero, suc, Bool, true, false, not, ◌&&◌, ◌||◌, Option, none, some, [], ◌∷◌, ◌==◌, within,
  if◌then◌else◌, length, is_nil, take_while, drop_while,
}
use make_mcp.Text.{Text, codes, ◌=?◌, to_lower, trim_left, trim_space}
use make_mcp.Dict.{Dict, lookup, insert}

pub is_tspecial : ℕ → Bool
is_tspecial c =
    c == b'('
    || c == b')'
    || c == b'<'
    || c == b'>'
    || c == b'@'
    || c == b','
    || c == b';'
    || c == b':'
    || c == 92
    || c == b'"'
    || c == b'/'
    || c == b'['
    || c == b']'
    || c == b'?'
    || c == b'='

pub is_token_char : ℕ → Bool
unfolding is_tspecial
is_token_char c = within 0x21 0x7e c && not (is_tspecial c)

-- `consumeToken`: the token and what follows it.
abbrev pub consume_token : Text → Text × Text
consume_token s = (take_while is_token_char s, drop_while is_token_char s)

pub data MediaError : Type 0 where
  no_media_type expected_slash expected_token unexpected_content : MediaError
  invalid_parameter duplicate_parameter : MediaError

check_subtype : Text × Text → Option MediaError
check_subtype ([], rest) = some expected_token
check_subtype (_, []) = none
check_subtype _ = some unexpected_content

check_type : Text × Text → Option MediaError
unfolding is_token_char check_subtype
check_type ([], rest) = some no_media_type
check_type (_, []) = none
check_type (_, c ∷ rest) =
    if c == b'/' then check_subtype (consume_token rest) else some expected_slash

-- `checkMediaTypeDisposition`.
check_disposition : Text → Option MediaError
unfolding is_token_char check_type
check_disposition s = check_type (consume_token s)

pub prepend : ℕ → Option (Text × Text) → Option (Text × Text)
prepend x none = none
prepend x (some (v, rest)) = some (x ∷ v, rest)

-- A quoted string behind its opening quote: the value and what follows the closing quote.
pub quoted : Text → Option (Text × Text)
unfolding is_tspecial prepend
quoted [] = none
quoted (c ∷ []) = if c == b'"' then some ([], []) else none
quoted (c ∷ d ∷ s) =
    let escaped = quoted s in
    let plain = quoted (d ∷ s) in
    if c == b'"'
    then some ([], d ∷ s)
    else if c == 92 && is_tspecial d
    then prepend d escaped
    else if c == 10 || c == 13
    then none
    else prepend c plain

-- A token for a value; an empty one is no value.
pub token_value : Text × Text → Option (Text × Text)
token_value ([], rest) = none
token_value (v, rest) = some (v, rest)

-- `consumeValue`; `none` where it consumes nothing.
pub consume_value : Text → Option (Text × Text)
unfolding is_token_char quoted token_value
consume_value [] = none
consume_value (c ∷ s) = if c == b'"' then quoted s else token_value (consume_token (c ∷ s))

pub behind : ℕ → Text → Option Text
behind sep [] = none
behind sep (c ∷ s) = if c == sep then some s else none

pub with_value : Text → Text → Option (Text × Text × Text)
unfolding behind consume_value
with_value [] rest = none
with_value key rest = elim (behind b'=' (trim_left rest)) [
  | none ↦ none
  | some r ↦ elim (consume_value (trim_left r)) [
    | none ↦ none
    | some (v, rest2) ↦ some (key, v, rest2)
  ]
]

-- `consumeMediaParam`: key, value and rest; `none` for an empty key.
pub consume_media_param : Text → Option (Text × Text × Text)
unfolding behind with_value is_token_char to_lower
consume_media_param v = elim (behind b';' (trim_left v)) [
  | none ↦ none
  | some r ↦ let t = consume_token (trim_left r) in with_value (to_lower t.0) t.1
]

-- The loop over the parameters. A key with `*` lives in the map of its base name; the keys are
-- whole in both maps, so one map of whole keys finds the same duplicates.
pub parameters : ℕ → Text → Dict Text → Option MediaError
unfolding consume_media_param trim_space lookup insert ◌=?◌
parameters zero v seen = none
parameters (suc f) [] seen = none
parameters (suc f) (c ∷ v) seen = elim (consume_media_param (c ∷ v)) [
  | none ↦
      if is_nil (trim_left (c ∷ v)) || trim_space (c ∷ v) =? codes ";"
      then none
      else some invalid_parameter
  | some (key, value, rest) ↦ elim (lookup key seen) [
    | none ↦ parameters f rest (insert key value seen)
    | some w ↦ elim (w =? value) [
      | true ↦ parameters f rest seen
      | false ↦ some duplicate_parameter
    ]
  ]
]

-- The error of `mime.ParseMediaType`. Each round consumes a character, so the fuel suffices.
unfoldable pub media_type_error : Text → Option MediaError
unfolding check_disposition parameters trim_space to_lower is_token_char
media_type_error v =
    let base = take_while (λ c. not (c == b';')) v in
    let params = drop_while (λ c. not (c == b';')) v in
    elim (check_disposition (trim_space (to_lower base))) [
      | some e ↦ some e
      | none ↦ parameters (suc (length params)) params []
    ]
