-- ===== src/Telemetry/Metrics/Gauge.antt =====
-- The gauge of the registered tools, as a metrics library keeps it: under each set of labels the last value.
use make_mcp.Common.{
  ℕ, ◌≡◌, refl, sym, ap, ap₂, ◌∙◌, inl, inr, Bool, true, false, ◌&&◌, Option, none, some, List, [],
  ◌∷◌, ◌++◌, arith, if◌then◌else◌, Bool-cases,
}
use make_mcp.Text.{◌=?◌}
use make_mcp.Schema.{Recipe}
use make_mcp.Telemetry.Metrics.{
  Instrument, Attribute, Amount, Measurement, GroupKey, Counts, text, flag, number,
  tools_registered, group_attributes, ◌=b◌, same_group, count_groups, record_groups,
  record_tools_registered, measure,
}
use make_mcp.Telemetry.Metrics.Groups.{
  same_group_iff, group_size, find, DistinctGroups, add_size, count_groups-DistinctGroups,
  find-count_groups,
}

-- `==` of attributes.
unfoldable pub same_attribute : Attribute → Attribute → Bool
unfolding ◌=?◌ ◌=b◌
same_attribute (text j v) (text k w) = j =? k && v =? w
same_attribute (flag j v) (flag k w) = j =? k && ◌=b◌ v w
same_attribute _ _ = false

unfoldable pub same_attributes : List Attribute → List Attribute → Bool
unfolding same_attribute
same_attributes [] [] = true
same_attributes (a ∷ as') (b ∷ bs) = same_attribute a b && same_attributes as' bs
same_attributes _ _ = false

same_attributes-group :
    (j k : GroupKey) → same_attributes (group_attributes j) (group_attributes k) ≡ same_group j k
unfolding same_attributes group_attributes same_group
same_attributes-group j k = ground arith

registered : Instrument → Amount → Bool → Option ℕ
registered tools_registered (number n) true = some n
registered _ _ _ = none

-- The value that a record gives to the gauge of the registered tools under the labels of a group.
gauge_value : GroupKey → Measurement → Option ℕ
unfolding registered
gauge_value k m =
    registered m.instrument m.amount (same_attributes m.attributes (group_attributes k))

-- The later value, if there is one.
abbrev pub later_or : Option ℕ → Option ℕ → Option ℕ
later_or (some n) before = some n
later_or none before = before

pub later_or-none : (o : Option ℕ) → later_or o none ≡ o
later_or-none none = refl
later_or-none (some n) = refl

later_or_assoc : (a b c : Option ℕ) → later_or (later_or a b) c ≡ later_or a (later_or b c)
later_or_assoc none b c = refl
later_or_assoc (some n) b c = refl

-- The gauge, as the library keeps it: under each set of labels the value that was recorded last.
unfoldable pub gauge : GroupKey → List Measurement → Option ℕ
unfolding gauge_value
gauge k [] = none
gauge k (m ∷ ms) = later_or (gauge k ms) (gauge_value k m)

pub gauge-append :
    (k : GroupKey) (ms ns : List Measurement)
    → gauge k (ms ++ ns) ≡ later_or (gauge k ns) (gauge k ms)
unfolding gauge
gauge-append k [] ns = sym (later_or-none (gauge k ns))
gauge-append k (m ∷ ms) ns =
    ap (λ o. later_or o (gauge_value k m)) (gauge-append k ms ns)
    ∙ later_or_assoc (gauge k ns) (gauge k ms) (gauge_value k m)

gauge_value-group :
    (k j : GroupKey) (n : ℕ)
    → gauge_value k (measure tools_registered (number n) (group_attributes j))
      ≡ (if same_group j k then some n else none)
unfolding gauge_value
gauge_value-group k j n = elim (Bool-cases (same_group j k)) [
  | inl e ↦ rw (same_attributes-group j k, e) refl
  | inr m ↦ rw (same_attributes-group j k, m) refl
]

gauge-record_groups :
    (k : GroupKey) (c : Counts) → DistinctGroups c → gauge k (record_groups c) ≡ find k c
unfolding gauge record_groups find
gauge-record_groups k [] d = refl
gauge-record_groups k ((j, n) ∷ c) d =
    ap₂ later_or (gauge-record_groups k c d.1) (gauge_value-group k j n)
    ∙ elim (Bool-cases (same_group j k)) [
      | inl e ↦ rw e (ground (arith, ap (λ i. find i c) ((same_group_iff j k).0 e), d.0))
      | inr m ↦ rw m (later_or-none (find k c))
    ]

-- `order` hands out each entry of the map once, in whatever order.
abbrev pub IsRange : (Counts → Counts) → Type 0
IsRange order =
    (c : Counts)
    → DistinctGroups c
    → DistinctGroups (order c) × ((k : GroupKey) → find k (order c) ≡ find k c)

-- `RecordToolsRegistered` sets the gauge under the labels of each group to the number of the recipes in it,
-- whatever the order of the map, and under the labels of an empty group it records nothing.
pub gauge-record_tools_registered :
    (order : Counts → Counts) (k : GroupKey) (rs : List Recipe)
    → IsRange order
    → gauge k (record_tools_registered order rs) ≡ add_size none (group_size k rs)
unfolding record_tools_registered
gauge-record_tools_registered order k rs range =
    let c = count_groups [] rs in
    let (distinct, same) = range c (count_groups-DistinctGroups [] rs tt) in
    gauge-record_groups k (order c) distinct
    ∙ same k
    ∙ (find-count_groups k [] rs ∙ unfold find in refl)
