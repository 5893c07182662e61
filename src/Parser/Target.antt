-- ===== src/Parser/Target.antt =====
-- `targetRE` and `matchTargetLine`.
use make_mcp.Common.{
  ℕ, Bool, false, not, ◌&&◌, ◌||◌, Option, none, some, [], ◌∷◌, ◌==◌, within, if◌then◌else◌, is_nil,
  take_while, drop_while,
}
use make_mcp.Text.{Text, trim_space}
use make_mcp.Parser.Annotation.{is_letter}
pub mod Shape

-- `[-a-zA-Z0-9_./ ]`.
unfoldable pub is_target_char : ℕ → Bool
unfolding is_letter
is_target_char c =
    is_letter c
    || within b'0' b'9' c
    || c == b'-'
    || c == b'_'
    || c == b'.'
    || c == b'/'
    || c == b' '

-- `:(?:[^=]|$)`.
unfoldable pub ends_target : Text → Bool
ends_target [] = false
ends_target (c ∷ []) = c == b':'
ends_target (c ∷ d ∷ s) = c == b':' && not (d == b'=')

-- `matchTargetLine`.
unfoldable pub match_target_line : Text → Option Text
unfolding is_target_char ends_target
match_target_line s =
    let name = take_while is_target_char s in
    if not (is_nil name) && ends_target (drop_while is_target_char s)
    then some (trim_space name)
    else none
