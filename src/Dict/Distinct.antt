-- ===== src/Dict/Distinct.antt =====
-- Maps whose entries have different keys, and maps that hold the same.
use make_mcp.Common.{
  ◌≡◌, refl, sym, ap, ◌∙◌, inl, inr, false, some, [], ◌∷◌, arith, if◌then◌else◌, Bool-cases,
}
use make_mcp.Text.{Text, ◌=?◌}
use make_mcp.Text.Equal.{=?_iff}
use make_mcp.Dict.{Dict, lookup, insert, is_some}
use make_mcp.Dict.Laws.{lookup-insert}

module _ {ℓ} {V : Type ℓ} where
  -- No key has two entries.
  abbrev pub DistinctKeys : Dict V → Type 0
  DistinctKeys [] = Unit
  DistinctKeys ((k, v) ∷ m) = (is_some (lookup k m) ≡ false) × DistinctKeys m

  pub insert-DistinctKeys :
      (k : Text) (v : V) (m : Dict V) → DistinctKeys m → DistinctKeys (insert k v m)
  unfolding insert
  insert-DistinctKeys k v [] h = (unfold lookup in refl, tt)
  insert-DistinctKeys k v ((j, w) ∷ m) h = elim (Bool-cases (j =? k)) [
    | inl e ↦ rw e (ground (arith, h.0, ap (λ i. lookup i m) ((=?_iff j k).0 e)), h.1)
    | inr n ↦ rw n (
      ground (arith, lookup-insert j k v m, =?_iff k j, =?_iff j k, h.0),
      insert-DistinctKeys k v m h.1,
    )
  ]

  -- Two maps that hold the same values, whatever the order of their entries.
  abbrev pub Same : Dict V → Dict V → Type ℓ
  Same m n = (k : Text) → lookup k m ≡ lookup k n

  pub insert-Same :
      (k : Text) (v : V) (m n : Dict V) → Same m n → Same (insert k v m) (insert k v n)
  insert-Same k v m n h j =
      lookup-insert j k v m
      ∙ ap (λ o. if k =? j then some v else o) (h j)
      ∙ sym (lookup-insert j k v n)
