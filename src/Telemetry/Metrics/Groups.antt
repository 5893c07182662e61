-- ===== src/Telemetry/Metrics/Groups.antt =====
-- `RecordToolsRegistered`: the map counts the recipes of each group.
use make_mcp.Common.{
  ℕ, zero, suc, ◌+◌, ◌≡◌, refl, ap, ◌∙◌, ◌↔◌, inl, inr, Bool, true, false, Option, none, some, List,
  [], ◌∷◌, arith, if◌then◌else◌, Bool-cases,
}
use make_mcp.Text.Equal.{=?_iff}
use make_mcp.Schema.{Recipe}
use make_mcp.Telemetry.Metrics.{GroupKey, Counts, group_of, ◌=b◌, same_group, add_one, count_groups}

=b_iff : (a b : Bool) → (◌=b◌ a b ≡ true) ↔ (a ≡ b)
unfolding ◌=b◌
=b_iff true b = ground arith
=b_iff false b = ground arith

pub same_group_iff : (j k : GroupKey) → (same_group j k ≡ true) ↔ (j ≡ k)
unfolding same_group
same_group_iff j k = ground (
  arith,
  =?_iff j.risk k.risk,
  =b_iff j.read_only k.read_only,
  =b_iff j.destructive k.destructive,
  =b_iff j.idempotent k.idempotent,
  =b_iff j.open_world k.open_world,
)

-- The number of recipes in a group.
abbrev pub group_size : GroupKey → List Recipe → ℕ
group_size k [] = 0
group_size k (r ∷ rs) =
    let rest = group_size k rs in if same_group (group_of r) k then suc rest else rest

-- The value of a key in the map.
unfoldable pub find : GroupKey → Counts → Option ℕ
find k [] = none
find k ((j, n) ∷ counts) = if same_group j k then some n else find k counts

-- One more.
abbrev bump : Option ℕ → Option ℕ
bump none = some 1
bump (some n) = some (n + 1)

find-add_one :
    (j k : GroupKey) (c : Counts)
    → find j (add_one k c) ≡ (if same_group k j then bump (find j c) else find j c)
unfolding find add_one
find-add_one j k [] = refl
find-add_one j k ((i, n) ∷ c) =
    ground (arith, same_group_iff i k, same_group_iff i j, same_group_iff k j, find-add_one j k c)

-- No key stands twice in the map.
abbrev pub DistinctGroups : Counts → Type 0
DistinctGroups [] = Unit
DistinctGroups ((k, n) ∷ c) = (find k c ≡ none) × DistinctGroups c

add_one-DistinctGroups :
    (k : GroupKey) (c : Counts) → DistinctGroups c → DistinctGroups (add_one k c)
unfolding add_one
add_one-DistinctGroups k [] d = (unfold find in refl, tt)
add_one-DistinctGroups k ((j, n) ∷ c) d = elim (Bool-cases (same_group j k)) [
  | inl e ↦ rw e d
  | inr m ↦ rw m (
    ground (arith, find-add_one j k c, same_group_iff k j, same_group_iff j k, d.0),
    add_one-DistinctGroups k c d.1,
  )
]

pub count_groups-DistinctGroups :
    (c : Counts) (rs : List Recipe) → DistinctGroups c → DistinctGroups (count_groups c rs)
unfolding count_groups
count_groups-DistinctGroups c [] d = d
count_groups-DistinctGroups c (r ∷ rs) d =
    count_groups-DistinctGroups (add_one (group_of r) c) rs
      (add_one-DistinctGroups (group_of r) c d)

-- `n` more, where there are any.
abbrev pub add_size : Option ℕ → ℕ → Option ℕ
add_size o zero = o
add_size none (suc n) = some (suc n)
add_size (some m) (suc n) = some (m + suc n)

add_size-bump : (o : Option ℕ) (n : ℕ) → add_size (bump o) n ≡ add_size o (suc n)
add_size-bump none zero = refl
add_size-bump none (suc n) = ground arith
add_size-bump (some m) zero = refl
add_size-bump (some m) (suc n) = ground arith

pub find-count_groups :
    (k : GroupKey) (c : Counts) (rs : List Recipe)
    → find k (count_groups c rs) ≡ add_size (find k c) (group_size k rs)
unfolding count_groups
find-count_groups k c [] = refl
find-count_groups k c (r ∷ rs) = elim (Bool-cases (same_group (group_of r) k)) [
  | inl e ↦ rw e (
      find-count_groups k (add_one (group_of r) c) rs
      ∙ ap (λ o. add_size o (group_size k rs)) (find-add_one k (group_of r) c ∙ rw e refl)
      ∙ add_size-bump (find k c) (group_size k rs))
  | inr n ↦ rw n (
      find-count_groups k (add_one (group_of r) c) rs
      ∙ ap (λ o. add_size o (group_size k rs)) (find-add_one k (group_of r) c ∙ rw n refl))
]
