-- ===== src/Dict/Laws.antt =====
-- Lookup after an assignment.
use make_mcp.Common.{◌≡◌, refl, false, none, some, [], ◌∷◌, arith, if◌then◌else◌, is_nil}
use make_mcp.Text.{Text, ◌=?◌}
use make_mcp.Text.Equal.{=?_iff}
use make_mcp.Dict.{Dict, lookup, insert, delete}

module _ {ℓ} {V : Type ℓ} where
  pub lookup-insert :
      (j k : Text) (v : V) (m : Dict V)
      → lookup j (insert k v m) ≡ (if k =? j then some v else lookup j m)
  unfolding lookup insert
  lookup-insert j k v [] = refl
  lookup-insert j k v ((i, w) ∷ m) =
      ground (arith, =?_iff k j, =?_iff i k, =?_iff i j, lookup-insert j k v m)

  pub insert-ne-nil : (k : Text) (v : V) (m : Dict V) → is_nil (insert k v m) ≡ false
  unfolding insert
  insert-ne-nil k v [] = refl
  insert-ne-nil k v ((i, w) ∷ m) = ground arith

  pub lookup-delete :
      (j k : Text) (m : Dict V) → lookup j (delete k m) ≡ (if k =? j then none else lookup j m)
  unfolding lookup delete
  lookup-delete j k [] = ground arith
  lookup-delete j k ((i, w) ∷ m) =
      ground (arith, =?_iff k j, =?_iff i k, =?_iff i j, lookup-delete j k m)
