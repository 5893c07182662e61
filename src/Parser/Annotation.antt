-- ===== src/Parser/Annotation.antt =====
-- `buildAnnotationRE` and `extractAnnotation`: the leftmost `#`, then the first delimiter behind it
-- that the rest of the pattern follows. The pattern's `.` matches all but a newline.
use make_mcp.Common.{
  ℕ, Bool, true, false, not, ◌||◌, Option, none, some, [], ◌∷◌, ◌==◌, within, if◌then◌else◌,
  take_while, drop_while,
}
use make_mcp.Text.{Text, trim_space, strip_prefix}
pub mod Match
pub mod Find
pub mod Print

-- `\s` of a regular expression.
unfoldable pub is_re_space : ℕ → Bool
is_re_space c = c == 9 || c == 10 || c == 12 || c == 13 || c == b' '

unfoldable pub is_letter : ℕ → Bool
is_letter c = within b'a' b'z' c || within b'A' b'Z' c

abbrev is_digit : ℕ → Bool
is_digit c = within b'0' b'9' c

-- `[a-zA-Z0-9-]`.
unfoldable pub is_key_char : ℕ → Bool
unfolding is_letter
is_key_char c = is_letter c || within b'0' b'9' c || c == b'-'

unfoldable pub is_dot : ℕ → Bool
is_dot c = not (c == 10)

-- `:\s*(.*)` behind the key.
unfoldable pub match_value : Text → Text → Option (Text × Text)
unfolding is_re_space is_dot
match_value key [] = none
match_value key (c ∷ s) =
    if c == b':' then some (key, take_while is_dot (drop_while is_re_space s)) else none

-- `([a-zA-Z][a-zA-Z0-9-]*)` and what follows it.
unfoldable pub match_key : Text → Option (Text × Text)
unfolding match_value is_key_char
match_key [] = none
match_key (c ∷ s) =
    if is_letter c
    then match_value (c ∷ take_while is_key_char s) (drop_while is_key_char s)
    else none

-- `\s+` and what follows it.
unfoldable pub match_spaces : Text → Option (Text × Text)
unfolding match_key is_re_space
match_spaces [] = none
match_spaces (c ∷ s) = if is_re_space c then match_key (drop_while is_re_space s) else none

-- The delimiter at the head of the text, and the rest of the pattern.
unfoldable pub match_delimiter : Text → Text → Option (Text × Text)
unfolding match_spaces strip_prefix
match_delimiter delim s = elim (strip_prefix delim s) [ none ↦ none | some r ↦ match_spaces r ]

-- `.*?` and the delimiter: the first place where the rest of the pattern matches.
unfoldable pub find_delimiter : Text → Text → Option (Text × Text)
unfolding match_delimiter is_dot
find_delimiter delim [] = match_delimiter delim []
find_delimiter delim (c ∷ s) = elim (match_delimiter delim (c ∷ s)) [
  | some m ↦ some m
  | none ↦ elim (is_dot c) [ true ↦ find_delimiter delim s | false ↦ none ]
]

-- The pattern, tried at each position of the line.
unfoldable pub find_annotation : Text → Text → Option (Text × Text)
unfolding find_delimiter
find_annotation delim [] = none
find_annotation delim (c ∷ s) = elim (if c == b'#' then find_delimiter delim s else none) [
  | some m ↦ some m
  | none ↦ find_annotation delim s
]

-- `extractAnnotation`.
unfoldable pub extract_annotation : Text → Text → Option (Text × Text)
unfolding find_annotation
extract_annotation delim line = elim (find_annotation delim line) [
  | none ↦ none
  | some (key, value) ↦ some (key, trim_space value)
]
