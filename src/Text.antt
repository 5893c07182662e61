-- ===== src/Text.antt =====
-- Text as the list of its code points, with the functions of Go's `strings` and `unicode` packages
-- that the program calls: TrimSpace, HasPrefix, SplitN, Split, Fields, Join, ReplaceAll, ToUpper.
-- A byte that is no valid UTF-8 stands as U+FFFD, as Go's `range` and `regexp` read it.
pub mod Equal
pub mod Trim
pub mod Cut
use Prim.Native.Char.{code}
use Prim.Native.String.{String}
use make_mcp.Common.{
  ℕ, ◌+◌, ◌-◌, Bool, true, false, ◌&&◌, ◌||◌, List, [], ◌∷◌, ◌++◌, Option, none, some, ltb, ◌==◌,
  within, if◌then◌else◌, is_nil, map, drop_while,
}

abbrev pub Text : Type 0
Text = List ℕ

-- The code points of a literal.
abbrev pub codes : String → Text
codes String.[] = []
codes (String.◌∷◌ c s) = code c ∷ codes s

infix 50 ◌=?◌
unfoldable pub ◌=?◌ : Text → Text → Bool
[] =? [] = true
(a ∷ s) =? (b ∷ t) = a == b && s =? t
_ =? _ = false

-- `unicode.IsSpace`.
unfoldable pub is_space : ℕ → Bool
is_space c =
    within 9 13 c
    || c == b' '
    || c == 0x85
    || c == 0xa0
    || c == 0x1680
    || within 0x2000 0x200a c
    || within 0x2028 0x2029 c
    || c == 0x202f
    || c == 0x205f
    || c == 0x3000

abbrev pub trim_left : Text → Text
trim_left = drop_while is_space

unfoldable pub trim_right : Text → Text
trim_right [] = []
trim_right (c ∷ s) = let r = trim_right s in if is_nil r && is_space c then [] else c ∷ r

-- `strings.TrimSpace`.
unfoldable pub trim_space : Text → Text
unfolding trim_right
trim_space s = trim_right (trim_left s)

-- What follows the prefix, where `s` begins with it.
unfoldable pub strip_prefix : Text → Text → Option Text
strip_prefix [] s = some s
strip_prefix (p ∷ ps) [] = none
strip_prefix (p ∷ ps) (c ∷ s) = if p == c then strip_prefix ps s else none

-- `strings.HasPrefix`, the prefix first.
unfoldable pub has_prefix : Text → Text → Bool
unfolding strip_prefix
has_prefix p s = elim (strip_prefix p s) [ none ↦ false | some _ ↦ true ]

-- The text before and behind the first occurrence of `sep`, as in `strings.SplitN(s, sep, 2)`.
unfoldable pub cut : Text → Text → Option (Text × Text)
unfolding strip_prefix
cut sep [] = elim (strip_prefix sep []) [ none ↦ none | some r ↦ some ([], r) ]
cut sep (c ∷ s) = elim (strip_prefix sep (c ∷ s)) [
  | some r ↦ some ([], r)
  | none ↦ elim (cut sep s) [ none ↦ none | some (a, b) ↦ some (c ∷ a, b) ]
]

-- A field that has begun is put in front of the others.
abbrev pub add_field : Text → List Text → List Text
add_field [] fs = fs
add_field (c ∷ s) fs = (c ∷ s) ∷ fs

-- The first, unfinished field, and the fields behind it.
unfoldable pub fields_of : Text → Text × List Text
fields_of [] = ([], [])
fields_of (c ∷ s) =
    let r = fields_of s in if is_space c then ([], add_field r.0 r.1) else (c ∷ r.0, r.1)

-- `strings.Fields`.
unfoldable pub fields : Text → List Text
unfolding fields_of
fields s = add_field (fields_of s).0 (fields_of s).1

-- `strings.Join`.
unfoldable pub join : Text → List Text → Text
join sep [] = []
join sep (s ∷ []) = s
join sep (s ∷ t ∷ r) = s ++ (sep ++ join sep (t ∷ r))

-- The first piece and the others, cut at every `sep`: `strings.Split` at one character.
unfoldable pub split_at : ℕ → Text → Text × List Text
split_at sep [] = ([], [])
split_at sep (c ∷ s) =
    let r = split_at sep s in if c == sep then ([], r.0 ∷ r.1) else (c ∷ r.0, r.1)

unfoldable pub split : ℕ → Text → List Text
unfolding split_at
split sep s = (split_at sep s).0 ∷ (split_at sep s).1

-- `strings.ReplaceAll` of one character by one character.
unfoldable pub replace_all : ℕ → ℕ → Text → Text
replace_all old new = map (λ c. if c == old then new else c)

-- `unicode.ToUpper` and `unicode.ToLower` where the result is ASCII; other letters stay.
unfoldable pub to_upper_rune : ℕ → ℕ
to_upper_rune c =
    if within b'a' b'z' c
    then c - 32
    else if c == 0x131
    then b'I'
    else if c == 0x17f
    then b'S'
    else c

unfoldable pub to_lower_rune : ℕ → ℕ
to_lower_rune c =
    if within b'A' b'Z' c
    then c + 32
    else if c == 0x130
    then b'i'
    else if c == 0x212a
    then b'k'
    else c

unfoldable pub to_upper : Text → Text
unfolding to_upper_rune
to_upper = map to_upper_rune

unfoldable pub to_lower : Text → Text
unfolding to_lower_rune
to_lower = map to_lower_rune

-- The bytes of a code point in UTF-8, and of a text: Go's `len`.
unfoldable pub rune_len : ℕ → ℕ
rune_len c = if ltb c 0x80 then 1 else if ltb c 0x800 then 2 else if ltb c 0x10000 then 3 else 4

unfoldable pub byte_len : Text → ℕ
unfolding rune_len
byte_len [] = 0
byte_len (c ∷ s) = rune_len c + byte_len s
