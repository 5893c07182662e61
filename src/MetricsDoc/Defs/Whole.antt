-- ===== src/MetricsDoc/Defs/Whole.antt =====
-- What `extractMetricDefs` returns: each field once, with a definition of one of the three types.
use make_mcp.Common.{
  ◌≡◌, refl, sym, ap, ◌∙◌, ◌⊎◌, inl, inr, Bool, true, false, ◌||◌, Option, none, some, List, [],
  ◌∷◌, arith, if◌then◌else◌, Bool-cases, Option-cases,
}
use mathlib.Core.Path.{subst}
use make_mcp.Text.{Text, codes, ◌=?◌}
use make_mcp.Text.Equal.{=?_iff}
use make_mcp.Dict.{lookup, is_some}
use make_mcp.Dict.Laws.{lookup-insert}
use make_mcp.MetricsDoc.Tree.{
  Node, Nodes, visits, ident, basic_lit, selector_expr, call_expr, assign_stmt, if_stmt, no_nodes,
  more, plain,
}
use make_mcp.MetricsDoc.Keys.{contains, trim_quotes}
use make_mcp.MetricsDoc.Keys.Union.{Distinct, Distinct-append, contains-append}
use make_mcp.MetricsDoc.Defs.{
  MetricDef, MetricDefs, type_counter, type_histogram, type_gauge, method_to_type, with_option,
  with_options, metric_of, add_def, defs_from, no_defs, extract_metric_defs, new_def,
}

-- One of the three types of `MetricType`.
abbrev pub IsMetricType : Text → Type 0
IsMetricType t = (t ≡ type_counter) ⊎ (t ≡ type_histogram) ⊎ (t ≡ type_gauge)

choose :
    (p q : Bool)
    → IsMetricType (if p then type_counter else if q then type_gauge else type_histogram)
choose true q = inl refl
choose false true = inr (inr refl)
choose false false = inr (inl refl)

method_to_type-IsMetricType : (method : Text) → IsMetricType (method_to_type method)
unfolding method_to_type
method_to_type-IsMetricType method =
    choose (method =? codes "Int64Counter" || method =? codes "Float64Counter") (
      method =? codes "Int64UpDownCounter"
      || method =? codes "Float64UpDownCounter"
      || method =? codes "Int64Gauge"
      || method =? codes "Float64Gauge")

type-with_option : (def : MetricDef) (n : Node) → (with_option def n).type ≡ def.type
unfolding with_option
type-with_option def (call_expr (selector_expr x sel) (more (basic_lit true value) args)) =
    ground arith
type-with_option def _ = refl

type-with_options : (def : MetricDef) (ns : Nodes) → (with_options def ns).type ≡ def.type
unfolding with_options
type-with_options def no_nodes = refl
type-with_options def (more n ns) =
    type-with_options (with_option def n) ns ∙ type-with_option def n

def_of_some :
    (b : Bool) (f field : Text) (d def : MetricDef)
    → ◌≡◌ {A = Option (Text × MetricDef)} (if b then some (f, d) else none) (some (field, def))
    → d ≡ def
def_of_some true f field d def h = ground arith
def_of_some false f field d def h = absurd (ground arith)

metric_of-IsMetricType :
    (n : Node) (field : Text) (def : MetricDef)
    → metric_of n ≡ some (field, def)
    → IsMetricType def.type
unfolding metric_of
metric_of-IsMetricType
      (if_stmt
        (more
          (assign_stmt (more (selector_expr x f) lhs) plain (
            more
              (call_expr
                (selector_expr (ident caller) method)
                (more (basic_lit true value) options))
              no_nodes))
          no_nodes)
        rest)
      field def h =
    let def' = with_options (new_def (trim_quotes value) (method_to_type method)) options in
    let same : def'.type ≡ def.type =
      ap (λ d. d.type) (def_of_some (caller =? codes "meter") f field def' def h) in
    subst IsMetricType
      (sym (type-with_options (new_def (trim_quotes value) (method_to_type method)) options) ∙ same)
      (method_to_type-IsMetricType method)
metric_of-IsMetricType _ field def h = absurd (ground arith)

-- The fields are distinct, they are exactly those that have a definition, and every definition has one of
-- the three types.
pub record IsWhole (ds : MetricDefs) : Type 0 where
  pub distinct : Distinct ds.ordered_fields
  pub defined :
      (field : Text) → contains field ds.ordered_fields ≡ is_some (lookup field ds.field_to_metric)
  pub typed :
      (field : Text) (def : MetricDef)
      → lookup field ds.field_to_metric ≡ some def
      → IsMetricType def.type

add_def-IsWhole :
    (field : Text) (def : MetricDef) (ds : MetricDefs)
    → IsMetricType def.type
    → IsWhole ds
    → IsWhole (add_def field def ds)
unfolding add_def contains
add_def-IsWhole field def ds t w = record {
  distinct = elim (Bool-cases (is_some (lookup field ds.field_to_metric))) [
    | inl e ↦ rw e w.distinct
    | inr n ↦ rw n (
        Distinct-append ds.ordered_fields (field ∷ []) w.distinct (refl, tt)
          (λ k h. ground (arith, w.defined field, =?_iff k field)))
  ];
  defined = λ j. ground (
    arith,
    w.defined j,
    w.defined field,
    lookup-insert j field def ds.field_to_metric,
    contains-append j ds.ordered_fields (field ∷ []),
    =?_iff field j,
    =?_iff j field,
  );
  typed = λ j d h. elim (Bool-cases (field =? j)) [
    | inl e ↦
        let same : def ≡ d = ground (arith, lookup-insert j field def ds.field_to_metric) in
        subst (λ x. IsMetricType x.type) same t
    | inr n ↦ w.typed j d (ground (arith, lookup-insert j field def ds.field_to_metric))
  ];
}

defs_from-IsWhole : (ds : MetricDefs) (ns : List Node) → IsWhole ds → IsWhole (defs_from ds ns)
unfolding defs_from
defs_from-IsWhole ds [] w = w
defs_from-IsWhole ds (n ∷ ns) w = elim (Option-cases (metric_of n)) [
  | inl e ↦ rw e (defs_from-IsWhole ds ns w)
  | inr ((field, def), e) ↦ rw e (
      defs_from-IsWhole (add_def field def ds) ns
        (add_def-IsWhole field def ds (metric_of-IsMetricType n field def e) w))
]

pub no_defs-IsWhole : IsWhole no_defs
unfolding lookup contains
no_defs-IsWhole = record {
  distinct = tt;
  defined = λ field. refl;
  typed = λ field def h. absurd (ground arith);
}

-- `extractMetricDefs` lists each field that it finds once, at its first place, with a definition whose
-- type is counter, histogram or gauge.
pub extract_metric_defs-IsWhole : (body : Node) → IsWhole (extract_metric_defs body)
unfolding extract_metric_defs
extract_metric_defs-IsWhole body = defs_from-IsWhole no_defs (visits body) no_defs-IsWhole
