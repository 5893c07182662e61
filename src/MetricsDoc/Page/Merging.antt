-- ===== src/MetricsDoc/Page/Merging.antt =====
-- The labels that a field has after those of a function are merged into the map.
use make_mcp.Common.{
  ◌≡◌, refl, sym, ap₂, ◌∙◌, inl, inr, Option, none, some, List, [], ◌∷◌, arith, if◌then◌else◌,
  Bool-cases, is_nil,
}
use make_mcp.Text.{Text, ◌=?◌}
use make_mcp.Text.Equal.{=?_iff}
use make_mcp.Dict.{lookup}
use make_mcp.Dict.Laws.{lookup-insert}
use make_mcp.Dict.Distinct.{DistinctKeys, insert-DistinctKeys, Same}
use make_mcp.MetricsDoc.Tree.{Node, Nodes, visits, call_expr}
use make_mcp.MetricsDoc.Keys.{get_keys, slice_or_nil, merge_keys}
use make_mcp.MetricsDoc.Labels.{
  Labels, extract_labels_from_func, labels_from, record_call, merge_field, args_keys,
  extract_instrument_field,
}
use make_mcp.MetricsDoc.Page.{merge_labels}

merge_field-DistinctKeys :
    (field : Text) (keys : List Text) (m : Labels)
    → DistinctKeys m
    → DistinctKeys (merge_field field keys m)
unfolding merge_field
merge_field-DistinctKeys field keys m h = insert-DistinctKeys field _ m h

record_call-DistinctKeys :
    (vars : Labels) (f : Node) (args : Nodes) (m : Labels)
    → DistinctKeys m
    → DistinctKeys (record_call vars f args m)
unfolding record_call
record_call-DistinctKeys vars f args m h =
    let keys = args_keys vars args in
    let field = extract_instrument_field f in
    elim (Bool-cases (is_nil field)) [
      | inl e ↦ rw e h
      | inr n ↦ elim (Bool-cases (is_nil keys)) [
        | inl e ↦ rw (n, e) h
        | inr k ↦ rw (n, k) (merge_field-DistinctKeys field keys m h)
      ]
    ]

labels_from-DistinctKeys :
    (vars m : Labels) (ns : List Node) → DistinctKeys m → DistinctKeys (labels_from vars m ns)
unfolding labels_from
labels_from-DistinctKeys vars m [] h = h
labels_from-DistinctKeys vars m (call_expr f args ∷ ns) h =
    labels_from-DistinctKeys vars (record_call vars f args m) ns
      (record_call-DistinctKeys vars f args m h)
labels_from-DistinctKeys vars m (_ ∷ ns) h = labels_from-DistinctKeys vars m ns h

pub extract_labels_from_func-DistinctKeys :
    (body : Node) (helpers : Labels) → DistinctKeys (extract_labels_from_func body helpers)
unfolding extract_labels_from_func
extract_labels_from_func-DistinctKeys body helpers = labels_from-DistinctKeys _ [] (visits body) tt

-- What a map holds for a field after the labels of a function are merged into it.
abbrev pub merged : Option (List Text) → Option (List Text) → Option (List Text)
merged none old = old
merged (some keys) old = some (merge_keys (slice_or_nil old) keys)

pub lookup-merge_field :
    (j field : Text) (keys : List Text) (m : Labels)
    → lookup j (merge_field field keys m)
      ≡ (if field =? j then some (merge_keys (get_keys field m) keys) else lookup j m)
unfolding merge_field
lookup-merge_field j field keys m = lookup-insert j field (merge_keys (get_keys field m) keys) m

pub lookup-merge_labels :
    (j : Text) (labels entries : Labels)
    → DistinctKeys entries
    → lookup j (merge_labels labels entries) ≡ merged (lookup j entries) (lookup j labels)
unfolding merge_labels
lookup-merge_labels j labels [] h = unfold lookup in refl
lookup-merge_labels j labels ((field, keys) ∷ entries) h =
    lookup-merge_labels j (merge_field field keys labels) entries h.1
    ∙ (unfold lookup in
        unfold get_keys in
        ground (arith, lookup-merge_field j field keys labels, =?_iff field j, h.0))

pub merge_labels-Same :
    (labels labels' entries entries' : Labels)
    → Same labels labels'
    → DistinctKeys entries
    → DistinctKeys entries'
    → Same entries entries'
    → Same (merge_labels labels entries) (merge_labels labels' entries')
merge_labels-Same labels labels' entries entries' same d d' e j =
    lookup-merge_labels j labels entries d
    ∙ ap₂ merged (e j) (same j)
    ∙ sym (lookup-merge_labels j labels' entries' d')
