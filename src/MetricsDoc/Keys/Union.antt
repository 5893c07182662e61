-- ===== src/MetricsDoc/Keys/Union.antt =====
-- `mergeKeys` makes the union of two lists, in the order in which the keys came.
use make_mcp.Common.{
  ◌≡◌, refl, sym, ap, ◌∙◌, inl, inr, true, false, not, ◌&&◌, ◌||◌, List, [], ◌∷◌, ◌++◌, append-nil,
  append_assoc, arith, if◌then◌else◌, Bool-cases,
}
use mathlib.Core.Path.{subst}
use make_mcp.Text.{Text}
use make_mcp.Text.Equal.{=?_iff}
use make_mcp.MetricsDoc.Keys.{contains, add_new, merge_keys}

-- No key stands twice.
abbrev pub Distinct : List Text → Type 0
Distinct [] = Unit
Distinct (k ∷ ks) = (contains k ks ≡ false) × Distinct ks

pub contains-append :
    (j : Text) (xs ys : List Text) → contains j (xs ++ ys) ≡ (contains j xs || contains j ys)
unfolding contains
contains-append j [] ys = refl
contains-append j (x ∷ xs) ys = ground (arith, contains-append j xs ys)

-- The new keys that are kept.
unseen : List Text → List Text → List Text
unseen seen [] = []
unseen seen (k ∷ ks) =
    let rest = unseen seen ks in
    let more = unseen (k ∷ seen) ks in if contains k seen then rest else k ∷ more

add_new-unseen : (seen result ks : List Text) → add_new seen result ks ≡ result ++ unseen seen ks
unfolding add_new unseen
add_new-unseen seen result [] = sym (append-nil result)
add_new-unseen seen result (k ∷ ks) = elim (Bool-cases (contains k seen)) [
  | inl e ↦ rw e (add_new-unseen seen result ks)
  | inr n ↦ rw n (
      add_new-unseen (k ∷ seen) (result ++ k ∷ []) ks
      ∙ append_assoc result (k ∷ []) (unseen (k ∷ seen) ks))
]

contains-unseen :
    (j : Text) (seen ks : List Text)
    → contains j (unseen seen ks) ≡ (contains j ks && not (contains j seen))
unfolding contains unseen
contains-unseen j seen [] = refl
contains-unseen j seen (k ∷ ks) =
    ground (arith, contains-unseen j seen ks, contains-unseen j (k ∷ seen) ks, =?_iff j k)

unseen-Distinct : (seen ks : List Text) → Distinct (unseen seen ks)
unfolding unseen
unseen-Distinct seen [] = tt
unseen-Distinct seen (k ∷ ks) = elim (Bool-cases (contains k seen)) [
  | inl e ↦ rw e (unseen-Distinct seen ks)
  | inr n ↦ rw n (
    unfold contains in ground (arith, contains-unseen k (k ∷ seen) ks, =?_iff k k),
    unseen-Distinct (k ∷ seen) ks,
  )
]

-- Two lists without common keys.
pub Distinct-append :
    (xs ys : List Text)
    → Distinct xs
    → Distinct ys
    → ((k : Text) → contains k ys ≡ true → contains k xs ≡ false)
    → Distinct (xs ++ ys)
unfolding contains
Distinct-append [] ys hx hy apart = hy
Distinct-append (x ∷ xs) ys hx hy apart = (
  ground (arith, contains-append x xs ys, apart x, =?_iff x x, hx.0),
  Distinct-append xs ys hx.1 hy (λ k h. ground (arith, apart k h)),
)

-- `result` is the list of `existing`, and of the new keys behind it that are not in it, each once.
pub record IsUnion (existing new result : List Text) : Type 0 where
  pub added : List Text
  pub split : result ≡ existing ++ added
  pub added_Distinct : Distinct added
  pub added_contains : (k : Text) → contains k added ≡ (contains k new && not (contains k existing))

-- `mergeKeys` keeps the existing keys in their order, and adds behind them exactly the new keys that are
-- not among them, each once; so it holds exactly the keys of both, none twice if the existing ones are
-- distinct, and merging the same keys again changes nothing.
pub merge_keys-IsUnion : (existing new : List Text) → IsUnion existing new (merge_keys existing new)
unfolding merge_keys
merge_keys-IsUnion existing new = record {
  added = unseen existing new;
  split = add_new-unseen existing existing new;
  added_Distinct = unseen-Distinct existing new;
  added_contains = λ k. contains-unseen k existing new;
}

pub contains-merge_keys :
    (k : Text) (existing new : List Text)
    → contains k (merge_keys existing new) ≡ (contains k existing || contains k new)
contains-merge_keys k existing new =
    let u = merge_keys-IsUnion existing new in
    ap (contains k) u.split ∙ ground (arith, contains-append k existing u.added, u.added_contains k)

pub merge_keys-Distinct :
    (existing new : List Text) → Distinct existing → Distinct (merge_keys existing new)
merge_keys-Distinct existing new h =
    let u = merge_keys-IsUnion existing new in
    subst Distinct (sym u.split) (
      Distinct-append existing u.added h u.added_Distinct
        (λ k c. ground (arith, u.added_contains k)))

unseen_seen :
    (seen ks : List Text)
    → ((k : Text) → contains k ks ≡ true → contains k seen ≡ true)
    → unseen seen ks ≡ []
unfolding unseen contains
unseen_seen seen [] h = refl
unseen_seen seen (k ∷ ks) h =
    ground (arith, h k, =?_iff k k, unseen_seen seen ks (λ j c. h j (ground arith)))

merge_keys-unseen : (m new : List Text) → merge_keys m new ≡ m ++ unseen m new
unfolding merge_keys
merge_keys-unseen m new = add_new-unseen m m new

pub merge_keys_again :
    (existing new : List Text) → merge_keys (merge_keys existing new) new ≡ merge_keys existing new
merge_keys_again existing new =
    let m = merge_keys existing new in
    let added = unseen_seen m new (λ k h. ground (arith, contains-merge_keys k existing new)) in
    merge_keys-unseen m new ∙ ap (λ t. m ++ t) added ∙ append-nil m
