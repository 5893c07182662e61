-- ===== src/MetricsDoc/Page/Ready.antt =====
-- What the loops of `buildTemplateData` gather: whole definitions, and labels without repetition.
use make_mcp.Common.{inl, inr, Option, List, [], ◌∷◌, Bool-cases, Option-cases}
use make_mcp.Text.{Text, codes, ◌=?◌}
use make_mcp.MetricsDoc.Tree.{Node, Decl, func_decl, other_decl}
use make_mcp.MetricsDoc.Keys.{get_keys, build_helper_attr_keys}
use make_mcp.MetricsDoc.Keys.Union.{Distinct, merge_keys-Distinct}
use make_mcp.MetricsDoc.Labels.{Labels, extract_labels_from_func, merge_field}
use make_mcp.MetricsDoc.Defs.{no_defs}
use make_mcp.MetricsDoc.Defs.Whole.{IsWhole, no_defs-IsWhole, extract_metric_defs-IsWhole}
use make_mcp.MetricsDoc.Page.{
  Gathered, merge_labels, gather_body, gather, gather_extra, gather_all, decls_or_nil,
}
use make_mcp.MetricsDoc.Page.Merging.{lookup-merge_field}

-- The labels of no field have a key twice.
abbrev pub LabelsDistinct : Labels → Type 0
LabelsDistinct m = (field : Text) → Distinct (get_keys field m)

merge_field-LabelsDistinct :
    (field : Text) (keys : List Text) (m : Labels)
    → LabelsDistinct m
    → LabelsDistinct (merge_field field keys m)
unfolding get_keys
merge_field-LabelsDistinct field keys m d j = elim (Bool-cases (field =? j)) [
  | inl e ↦ rw (lookup-merge_field j field keys m, e) (merge_keys-Distinct _ keys (d field))
  | inr n ↦ rw (lookup-merge_field j field keys m, n) (d j)
]

merge_labels-LabelsDistinct :
    (labels entries : Labels) → LabelsDistinct labels → LabelsDistinct (merge_labels labels entries)
unfolding merge_labels
merge_labels-LabelsDistinct labels [] d = d
merge_labels-LabelsDistinct labels ((field, keys) ∷ entries) d =
    merge_labels-LabelsDistinct (merge_field field keys labels) entries
      (merge_field-LabelsDistinct field keys labels d)

-- What both loops over declarations keep.
pub record IsReady (g : Gathered) : Type 0 where
  pub whole : IsWhole g.defs
  pub labels_distinct : LabelsDistinct g.labels

module _ (order : Labels → Labels) (helpers : Labels) where
  gather_body-IsReady :
      (name : Text) (body : Node) (g : Gathered)
      → IsReady g
      → IsReady (gather_body order helpers name body g)
  unfolding gather_body
  gather_body-IsReady name body g r = elim (Bool-cases (name =? codes "initMetrics")) [
    | inl e ↦
        rw e
          (record { whole = extract_metric_defs-IsWhole body; labels_distinct = r.labels_distinct })
    | inr n ↦ rw n (record {
      whole = r.whole;
      labels_distinct =
          merge_labels-LabelsDistinct g.labels (order (extract_labels_from_func body helpers))
            r.labels_distinct;
    })
  ]

  gather-IsReady :
      (g : Gathered) (decls : List Decl) → IsReady g → IsReady (gather order helpers g decls)
  unfolding gather
  gather-IsReady g [] r = r
  gather-IsReady g (other_decl ∷ decls) r = gather-IsReady g decls r
  gather-IsReady g (func_decl fn ∷ decls) r = elim (Option-cases fn.body) [
    | inl e ↦ rw e (gather-IsReady g decls r)
    | inr (body, e) ↦ rw e (
        gather-IsReady (gather_body order helpers fn.name body g) decls
          (gather_body-IsReady fn.name body g r))
  ]

  gather_extra-LabelsDistinct :
      (labels : Labels) (decls : List Decl)
      → LabelsDistinct labels
      → LabelsDistinct (gather_extra order helpers labels decls)
  unfolding gather_extra
  gather_extra-LabelsDistinct labels [] d = d
  gather_extra-LabelsDistinct labels (other_decl ∷ decls) d =
      gather_extra-LabelsDistinct labels decls d
  gather_extra-LabelsDistinct labels (func_decl fn ∷ decls) d = elim (Option-cases fn.body) [
    | inl e ↦ rw e (gather_extra-LabelsDistinct labels decls d)
    | inr (body, e) ↦ rw e (
        gather_extra-LabelsDistinct
          (merge_labels labels (order (extract_labels_from_func body helpers))) decls
          (merge_labels-LabelsDistinct labels (order (extract_labels_from_func body helpers)) d))
  ]

pub gather_all-IsReady :
    (order : Labels → Labels) (decls : List Decl) (extra : Option (List Decl))
    → IsReady (gather_all order decls extra)
unfolding gather_all
gather_all-IsReady order decls extra =
    let helpers = build_helper_attr_keys decls in
    let start : Gathered = record { defs = no_defs; labels = [] } in
    let empty : IsReady start = record {
      whole = no_defs-IsWhole;
      labels_distinct = λ j. unfold get_keys in tt;
    } in
    let r = gather-IsReady order helpers start decls empty in
    record {
      whole = r.whole;
      labels_distinct =
          gather_extra-LabelsDistinct order helpers (gather order helpers start decls).labels
            (decls_or_nil extra) r.labels_distinct;
    }
