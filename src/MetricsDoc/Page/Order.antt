-- ===== src/MetricsDoc/Page/Order.antt =====
-- The page does not depend on the order in which Go goes through a map.
use make_mcp.Common.{
  ◌≡◌, refl, sym, ap, ap₂, ◌∙◌, inl, inr, Option, none, some, List, [], ◌∷◌, Bool-cases,
  Option-cases,
}
use make_mcp.Text.{Text, codes, ◌=?◌}
use make_mcp.Dict.{lookup}
use make_mcp.Dict.Distinct.{DistinctKeys, Same}
use make_mcp.MetricsDoc.Tree.{Node, Decl, func_decl, other_decl}
use make_mcp.MetricsDoc.Keys.{build_helper_attr_keys, slice_or_nil}
use make_mcp.MetricsDoc.Labels.{Labels, extract_labels_from_func}
use make_mcp.MetricsDoc.Defs.{MetricDefs, no_defs}
use make_mcp.MetricsDoc.Page.{
  Gathered, TemplateData, merge_labels, gather_body, gather, gather_extra, gather_all, labelled,
  place, place_all, build_template_data, def_or_zero, sort_strings, decls_or_nil, no_data,
}
use make_mcp.MetricsDoc.Page.Merging.{extract_labels_from_func-DistinctKeys, merge_labels-Same}

-- `order` hands out each entry of a map once, in whatever order.
abbrev pub IsRange : (Labels → Labels) → Type 0
IsRange order = (m : Labels) → DistinctKeys m → DistinctKeys (order m) × Same (order m) m

-- The same definitions, and the same labels for each field.
abbrev SameGathered : Gathered → Gathered → Type 0
SameGathered g g' = (g.defs ≡ g'.defs) × Same g.labels g'.labels

labelled-SameGathered :
    (g g' : Gathered) (field : Text) → SameGathered g g' → labelled g field ≡ labelled g' field
unfolding labelled
labelled-SameGathered g g' field same =
    ap₂
      (λ (ds : MetricDefs) (o : Option (List Text)).
        record (def_or_zero (lookup field ds.field_to_metric)) {
          labels = sort_strings (slice_or_nil o);
        })
      same.0 (same.1 field)

place_all-SameGathered :
    (g g' : Gathered) (d : TemplateData) (fields : List Text)
    → SameGathered g g'
    → place_all g d fields ≡ place_all g' d fields
unfolding place_all
place_all-SameGathered g g' d [] same = refl
place_all-SameGathered g g' d (field ∷ fields) same =
    place_all-SameGathered g g' (place (labelled g field) d) fields same
    ∙ ap (λ m. place_all g' (place m d) fields) (labelled-SameGathered g g' field same)

module _ (order order' : Labels → Labels) (range : IsRange order) (range' : IsRange order') where
  orders-Same : (m : Labels) → DistinctKeys m → Same (order m) (order' m)
  orders-Same m d j = (range m d).1 j ∙ sym ((range' m d).1 j)

  merge_labels-orders :
      (labels labels' : Labels) (body : Node) (helpers : Labels)
      → Same labels labels'
      → Same
          (merge_labels labels (order (extract_labels_from_func body helpers)))
          (merge_labels labels' (order' (extract_labels_from_func body helpers)))
  merge_labels-orders labels labels' body helpers same =
      let found = extract_labels_from_func body helpers in
      let d = extract_labels_from_func-DistinctKeys body helpers in
      merge_labels-Same labels labels' (order found) (order' found) same (range found d).0
        (range' found d).0 (orders-Same found d)

  gather_body-orders :
      (helpers : Labels) (name : Text) (body : Node) (g g' : Gathered)
      → SameGathered g g'
      → SameGathered
          (gather_body order helpers name body g)
          (gather_body order' helpers name body g')
  unfolding gather_body
  gather_body-orders helpers name body g g' same = elim (Bool-cases (name =? codes "initMetrics")) [
    | inl e ↦ rw e (refl, same.1)
    | inr n ↦ rw n (same.0, merge_labels-orders g.labels g'.labels body helpers same.1)
  ]

  gather-orders :
      (helpers : Labels) (g g' : Gathered) (decls : List Decl)
      → SameGathered g g'
      → SameGathered (gather order helpers g decls) (gather order' helpers g' decls)
  unfolding gather
  gather-orders helpers g g' [] same = same
  gather-orders helpers g g' (other_decl ∷ decls) same = gather-orders helpers g g' decls same
  gather-orders helpers g g' (func_decl fn ∷ decls) same = elim (Option-cases fn.body) [
    | inl e ↦ rw e (gather-orders helpers g g' decls same)
    | inr (body, e) ↦ rw e (
        gather-orders helpers (gather_body order helpers fn.name body g)
          (gather_body order' helpers fn.name body g') decls
          (gather_body-orders helpers fn.name body g g' same))
  ]

  gather_extra-orders :
      (helpers labels labels' : Labels) (decls : List Decl)
      → Same labels labels'
      → Same (gather_extra order helpers labels decls) (gather_extra order' helpers labels' decls)
  unfolding gather_extra
  gather_extra-orders helpers labels labels' [] same = same
  gather_extra-orders helpers labels labels' (other_decl ∷ decls) same =
      gather_extra-orders helpers labels labels' decls same
  gather_extra-orders helpers labels labels' (func_decl fn ∷ decls) same =
      elim (Option-cases fn.body) [
        | inl e ↦ rw e (gather_extra-orders helpers labels labels' decls same)
        | inr (body, e) ↦ rw e (
            gather_extra-orders helpers
              (merge_labels labels (order (extract_labels_from_func body helpers)))
              (merge_labels labels' (order' (extract_labels_from_func body helpers))) decls
              (merge_labels-orders labels labels' body helpers same))
      ]

  gather_all-orders :
      (decls : List Decl) (extra : Option (List Decl))
      → SameGathered (gather_all order decls extra) (gather_all order' decls extra)
  unfolding gather_all
  gather_all-orders decls extra =
      let helpers = build_helper_attr_keys decls in
      let none_yet : Gathered = record { defs = no_defs; labels = [] } in
      let same = gather-orders helpers none_yet none_yet decls (refl, λ k. refl) in
      (
        same.0,
        gather_extra-orders helpers (gather order helpers none_yet decls).labels
            (gather order' helpers none_yet decls).labels (decls_or_nil extra) same.1,
      )

-- Go hands out the entries of a map in an unspecified order; whatever the orders are, each entry once, the
-- generator makes the same data of the page from the same two files.
pub build_template_data-orders :
    (order order' : Labels → Labels) (decls extra : Option (List Decl))
    → IsRange order
    → IsRange order'
    → build_template_data order decls extra ≡ build_template_data order' decls extra
unfolding build_template_data
build_template_data-orders order order' none extra range range' = refl
build_template_data-orders order order' (some decls) extra range range' =
    let g = gather_all order decls extra in
    let g' = gather_all order' decls extra in
    let same = gather_all-orders order order' range range' decls extra in
    ap some (
      place_all-SameGathered g g' no_data g.defs.ordered_fields same
      ∙ ap (λ ds. place_all g' no_data ds.ordered_fields) same.0)
