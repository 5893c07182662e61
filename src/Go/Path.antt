-- ===== src/Go/Path.antt =====
-- `filepath.Clean`, `filepath.Dir` and `filepath.Base` on Unix.
use make_mcp.Common.{Bool, true, false, not, ◌&&◌, ◌||◌, List, [], ◌∷◌, ◌==◌, if◌then◌else◌, is_nil}
use mathlib.Core.List.{reverse}
use make_mcp.Text.{Text, codes, ◌=?◌, join, split}

-- An element of the path on the stack of those kept, the last one on top.
unfoldable pub clean_step : Bool → List Text → Text → List Text
unfolding ◌=?◌
clean_step rooted stack e =
    if is_nil e || e =? codes "."
    then stack
    else if e =? codes ".."
    then (elim stack [
      | [] ↦ if rooted then [] else e ∷ []
      | top ∷ rest ↦ if top =? codes ".." then e ∷ top ∷ rest else rest
    ])
    else e ∷ stack

unfoldable pub clean_stack : Bool → List Text → List Text → List Text
unfolding clean_step
clean_stack rooted stack [] = stack
clean_stack rooted stack (e ∷ es) = clean_stack rooted (clean_step rooted stack e) es

unfoldable pub is_rooted : Text → Bool
is_rooted [] = false
is_rooted (c ∷ s) = c == b'/'

unfoldable pub render : Bool → List Text → Text
unfolding join
render true es = b'/' ∷ join (codes "/") es
render false [] = codes "."
render false (e ∷ es) = join (codes "/") (e ∷ es)

-- `filepath.Clean`.
unfoldable pub clean : Text → Text
unfolding clean_stack is_rooted render split
clean path = render (is_rooted path) (reverse (clean_stack (is_rooted path) [] (split b'/' path)))

-- The text up to the last slash, with it.
unfoldable pub through_slash : Text → Text
through_slash [] = []
through_slash (c ∷ s) = let r = through_slash s in if is_nil r && not (c == b'/') then [] else c ∷ r

-- `filepath.Dir`.
unfoldable pub dir : Text → Text
unfolding clean through_slash
dir path = clean (through_slash path)

unfoldable pub strip_slashes : Text → Text
strip_slashes [] = []
strip_slashes (c ∷ s) = let r = strip_slashes s in if is_nil r && c == b'/' then [] else c ∷ r

unfoldable pub last_element : Text → List Text → Text
last_element e [] = e
last_element e (f ∷ fs) = last_element f fs

-- `filepath.Base`.
unfoldable pub base : Text → Text
unfolding strip_slashes last_element split
base [] = codes "."
base (c ∷ s) =
    let r = strip_slashes (c ∷ s) in if is_nil r then codes "/" else last_element r (split b'/' r)
