-- ===== src/MetricsDoc/Defs.antt =====
-- The metrics that `initMetrics` makes: `MetricDef` and `extractMetricDefs`.
pub mod Whole
pub mod Print
use make_mcp.Common.{
  true, ◌||◌, Option, none, some, List, [], ◌∷◌, ◌++◌, map, if◌then◌else◌, is_nil,
}
use make_mcp.Text.{Text, codes, ◌=?◌, join}
use make_mcp.Dict.{Dict, lookup, insert, is_some}
use make_mcp.MetricsDoc.Tree.{
  Node, Nodes, AssignToken, visits, ident, basic_lit, selector_expr, call_expr, assign_stmt,
  if_stmt, no_nodes, more, plain,
}
use make_mcp.MetricsDoc.Keys.{trim_quotes}

-- `MetricType` is a string.
abbrev pub type_counter : Text
type_counter = codes "Counter"

abbrev pub type_histogram : Text
type_histogram = codes "Histogram"

abbrev pub type_gauge : Text
type_gauge = codes "Gauge"

pub record MetricDef : Type 0 where
  pub name : Text
  pub type : Text
  pub description : Text
  pub unit : Text
  pub labels : List Text

-- An em-dash.
abbrev dash : Text
dash = 0x2014 ∷ []

-- `DescriptionOrDash`.
unfoldable pub description_or_dash : MetricDef → Text
description_or_dash m = if is_nil m.description then dash else m.description

-- `UnitOrDash`.
unfoldable pub unit_or_dash : MetricDef → Text
unit_or_dash m = if is_nil m.unit then dash else m.unit

abbrev quoted : Text → Text
quoted l = b'`' ∷ (l ++ b'`' ∷ [])

-- `LabelsOrNone`.
unfoldable pub labels_or_none : MetricDef → Text
unfolding join
labels_or_none m =
    if is_nil m.labels then codes "_(none)_" else join (codes ", ") (map quoted m.labels)

-- `methodToType`.
unfoldable pub method_to_type : Text → Text
unfolding ◌=?◌
method_to_type method =
    if method =? codes "Int64Counter" || method =? codes "Float64Counter"
    then type_counter
    else if method =? codes "Int64UpDownCounter"
        || method =? codes "Float64UpDownCounter"
        || method =? codes "Int64Gauge"
        || method =? codes "Float64Gauge"
    then type_gauge
    else type_histogram

-- One option of the call: `metric.WithDescription("...")` or `metric.WithUnit("...")`.
unfoldable pub with_option : MetricDef → Node → MetricDef
unfolding ◌=?◌ trim_quotes
with_option def (call_expr (selector_expr x sel) (more (basic_lit true value) args)) =
    if sel =? codes "WithDescription"
    then record def { description = trim_quotes value }
    else if sel =? codes "WithUnit"
    then record def { unit = trim_quotes value }
    else def
with_option def _ = def

unfoldable pub with_options : MetricDef → Nodes → MetricDef
unfolding with_option
with_options def no_nodes = def
with_options def (more arg args) = with_options (with_option def arg) args

abbrev pub new_def : Text → Text → MetricDef
new_def name type = record { name = name; type = type; description = []; unit = []; labels = [] }

-- The field and the definition of `if m.Field, err = meter.Method("name", options...); ...`.
unfoldable pub metric_of : Node → Option (Text × MetricDef)
unfolding ◌=?◌ method_to_type with_options trim_quotes
metric_of
      (if_stmt
        (more
          (assign_stmt (more (selector_expr x field) lhs) plain (
            more
              (call_expr
                (selector_expr (ident caller) method)
                (more (basic_lit true value) options))
              no_nodes))
          no_nodes)
        rest) =
    if caller =? codes "meter"
    then some (field, with_options (new_def (trim_quotes value) (method_to_type method)) options)
    else none
metric_of _ = none

-- `orderedFields` and `result` of `extractMetricDefs`.
pub record MetricDefs : Type 0 where
  pub ordered_fields : List Text
  pub field_to_metric : Dict MetricDef

unfoldable pub add_def : Text → MetricDef → MetricDefs → MetricDefs
unfolding lookup insert
add_def field def ds = record {
  ordered_fields =
      if is_some (lookup field ds.field_to_metric)
      then ds.ordered_fields
      else ds.ordered_fields ++ field ∷ [];
  field_to_metric = insert field def ds.field_to_metric;
}

unfoldable pub defs_from : MetricDefs → List Node → MetricDefs
unfolding metric_of add_def
defs_from ds [] = ds
defs_from ds (n ∷ ns) =
    defs_from (elim (metric_of n) [ none ↦ ds | some (field, def) ↦ add_def field def ds ]) ns

abbrev pub no_defs : MetricDefs
no_defs = record { ordered_fields = []; field_to_metric = [] }

-- `extractMetricDefs`, at the body of the function.
unfoldable pub extract_metric_defs : Node → MetricDefs
unfolding defs_from visits
extract_metric_defs body = defs_from no_defs (visits body)
