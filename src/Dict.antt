-- ===== src/Dict.antt =====
-- A Go map with string keys, as the list of its entries: an assignment replaces the entry of its
-- key in place, or adds one at the end.
pub mod Laws
pub mod Distinct
use make_mcp.Common.{Bool, true, false, Option, none, some, List, [], ◌∷◌, if◌then◌else◌}
use make_mcp.Text.{Text, ◌=?◌}

abbrev pub Dict {ℓ} : Type ℓ → Type ℓ
Dict V = List (Text × V)

module _ {ℓ} {V : Type ℓ} where
  unfoldable pub lookup : Text → Dict V → Option V
  lookup k [] = none
  lookup k ((j, v) ∷ m) = if j =? k then some v else lookup k m

  unfoldable pub insert : Text → V → Dict V → Dict V
  insert k v [] = (k, v) ∷ []
  insert k v ((j, w) ∷ m) = if j =? k then (k, v) ∷ m else (j, w) ∷ insert k v m

  -- `delete(m, k)`.
  unfoldable pub delete : Text → Dict V → Dict V
  delete k [] = []
  delete k ((j, w) ∷ m) = let rest = delete k m in if j =? k then rest else (j, w) ∷ rest

  -- The second result of `m[k]`.
  abbrev pub is_some : Option V → Bool
  is_some none = false
  is_some (some v) = true
