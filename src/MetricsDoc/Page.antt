-- ===== src/MetricsDoc/Page.antt =====
-- The data of the page: `buildTemplateData`.
pub mod Sorted
pub mod Merging
pub mod Ready
pub mod Split
pub mod Order
use make_mcp.Common.{
  Bool, true, false, Option, none, some, List, [], ◌∷◌, ◌++◌, ltb, ◌==◌, if◌then◌else◌,
}
use make_mcp.Text.{Text, codes, ◌=?◌}
use make_mcp.Dict.{Dict, lookup}
use make_mcp.MetricsDoc.Tree.{Node, FuncDecl, Decl, func_decl, other_decl}
use make_mcp.MetricsDoc.Keys.{build_helper_attr_keys, get_keys, merge_keys}
use make_mcp.MetricsDoc.Labels.{Labels, extract_labels_from_func, merge_field}
use make_mcp.MetricsDoc.Defs.{
  MetricDef, MetricDefs, type_counter, type_histogram, type_gauge, extract_metric_defs, no_defs,
}

-- `<=` of strings. In UTF-8 the order of the bytes is that of the code points.
unfoldable pub text_leb : Text → Text → Bool
text_leb [] t = true
text_leb (a ∷ s) [] = false
text_leb (a ∷ s) (b ∷ t) = if a == b then text_leb s t else ltb a b

unfoldable pub insert_sorted : Text → List Text → List Text
unfolding text_leb
insert_sorted s [] = s ∷ []
insert_sorted s (t ∷ ts) =
    let rest = insert_sorted s ts in if text_leb s t then s ∷ t ∷ ts else t ∷ rest

-- `sort.Strings`.
unfoldable pub sort_strings : List Text → List Text
unfolding insert_sorted
sort_strings [] = []
sort_strings (s ∷ ss) = insert_sorted s (sort_strings ss)

-- The loop over the labels of one function, in the order in which the map hands them out.
unfoldable pub merge_labels : Labels → Labels → Labels
unfolding merge_field
merge_labels labels [] = labels
merge_labels labels ((field, keys) ∷ entries) = merge_labels (merge_field field keys labels) entries

-- The variables of the first loop of `buildTemplateData`.
pub record Gathered : Type 0 where
  pub defs : MetricDefs
  pub labels : Labels

pub record TemplateData : Type 0 where
  pub counters : List MetricDef
  pub histograms : List MetricDef
  pub gauges : List MetricDef

-- `order` hands out the entries of a map in the order of one `range` over it.
module _ (order : Labels → Labels) where
  unfoldable pub gather_body : Labels → Text → Node → Gathered → Gathered
  unfolding ◌=?◌ extract_metric_defs extract_labels_from_func merge_labels
  gather_body helpers name body g =
      if name =? codes "initMetrics"
      then record g { defs = extract_metric_defs body }
      else record g {
        labels = merge_labels g.labels (order (extract_labels_from_func body helpers));
      }

  -- The loop over the declarations of the metrics file.
  unfoldable pub gather : Labels → Gathered → List Decl → Gathered
  unfolding gather_body
  gather helpers g [] = g
  gather helpers g (func_decl fn ∷ decls) =
      gather helpers (elim fn.body [ none ↦ g | some body ↦ gather_body helpers fn.name body g ])
        decls
  gather helpers g (other_decl ∷ decls) = gather helpers g decls

  -- The loop over the declarations of the extra file.
  unfoldable pub gather_extra : Labels → Labels → List Decl → Labels
  unfolding extract_labels_from_func merge_labels
  gather_extra helpers labels [] = labels
  gather_extra helpers labels (func_decl fn ∷ decls) =
      gather_extra helpers
        (elim fn.body [
          | none ↦ labels
          | some body ↦ merge_labels labels (order (extract_labels_from_func body helpers))
        ])
        decls
  gather_extra helpers labels (other_decl ∷ decls) = gather_extra helpers labels decls

-- `fieldToMetric[fieldName]`, which is the zero definition where the field is missing, with the labels.
abbrev pub def_or_zero : Option MetricDef → MetricDef
def_or_zero none = record { name = []; type = []; description = []; unit = []; labels = [] }
def_or_zero (some def) = def

unfoldable pub labelled : Gathered → Text → MetricDef
unfolding lookup get_keys sort_strings
labelled g field = record (def_or_zero (lookup field g.defs.field_to_metric)) {
  labels = sort_strings (get_keys field g.labels);
}

abbrev pub no_data : TemplateData
no_data = record { counters = []; histograms = []; gauges = [] }

-- `switch def.Type` with its three `append`s.
unfoldable pub place : MetricDef → TemplateData → TemplateData
unfolding ◌=?◌
place def d =
    if def.type =? type_counter
    then record d { counters = d.counters ++ def ∷ [] }
    else if def.type =? type_histogram
    then record d { histograms = d.histograms ++ def ∷ [] }
    else if def.type =? type_gauge
    then record d { gauges = d.gauges ++ def ∷ [] }
    else d

unfoldable pub place_all : Gathered → TemplateData → List Text → TemplateData
unfolding labelled place
place_all g d [] = d
place_all g d (field ∷ fields) = place_all g (place (labelled g field) d) fields

abbrev pub decls_or_nil : Option (List Decl) → List Decl
decls_or_nil none = []
decls_or_nil (some decls) = decls

-- Both loops over declarations. An extra file that is not named or cannot be parsed is skipped.
unfoldable pub gather_all : (Labels → Labels) → List Decl → Option (List Decl) → Gathered
unfolding build_helper_attr_keys gather gather_extra
gather_all order decls extra =
    let helpers = build_helper_attr_keys decls in
    let g = gather order helpers (record { defs = no_defs; labels = [] }) decls in
    record g { labels = gather_extra order helpers g.labels (decls_or_nil extra) }

-- `buildTemplateData`, with what the parser makes of the two files.
unfoldable pub build_template_data :
    (Labels → Labels) → Option (List Decl) → Option (List Decl) → Option TemplateData
unfolding gather_all place_all
build_template_data order none extra = none
build_template_data order (some decls) extra =
    let g = gather_all order decls extra in some (place_all g no_data g.defs.ordered_fields)
