-- ===== src/MetricsDoc/Defs/Print.antt =====
-- `extractMetricDefs` reads back the statements of `initMetrics`.
use make_mcp.Common.{
  ◌≡◌, refl, sym, ap, ap₂, ◌∙◌, Bool, true, false, ◌||◌, none, List, [], ◌∷◌, ◌++◌, map, append-nil,
  append_assoc, arith,
}
use make_mcp.Text.{Text, codes}
use make_mcp.Dict.{Dict, lookup, insert}
use make_mcp.Telemetry.Instruments.{InstrumentSpec}
use make_mcp.MetricsDoc.Tree.{
  Node, Nodes, visits, visits_all, ident, basic_lit, selector_expr, call_expr, assign_stmt, if_stmt,
  other, no_nodes, more, plain,
}
use make_mcp.MetricsDoc.Keys.{trim_quotes, trim_quotes_right, is_quote, contains}
use make_mcp.MetricsDoc.Keys.Union.{Distinct, contains-append}
use make_mcp.MetricsDoc.Defs.{
  MetricDef, MetricDefs, method_to_type, metric_of, add_def, defs_from, extract_metric_defs,
}
use make_mcp.Text.Equal.{=?_iff}
use mathlib.Core.List.{map-append}
use mathlib.Core.Path.{subst}

abbrev one : Node → Nodes
one n = more n no_nodes

abbrev string_lit : Text → Node
string_lit s = basic_lit true (34 ∷ (s ++ 34 ∷ []))

-- `metric.WithX("value")` in front of the other options, where there is a value.
abbrev pub option_arg : Text → Text → Nodes → Nodes
option_arg with_x [] rest = rest
option_arg with_x (c ∷ s) rest =
    more (call_expr (selector_expr (ident (codes "metric")) with_x) (one (string_lit (c ∷ s)))) rest

-- `if m.Field, err = meter.Method("name", ...); err != nil { return err }`.
abbrev pub statement_of : Text → Text → Text → Text → Text → Node
statement_of field method name description unit =
    if_stmt
      (one (
        assign_stmt (more (selector_expr (ident (codes "m")) field) (one (ident (codes "err"))))
          plain
          (one (
            call_expr (selector_expr (ident (codes "meter")) method) (
              more (string_lit name) (
                option_arg (codes "WithDescription") description
                  (option_arg (codes "WithUnit") unit no_nodes)))))))
      (more (other (more (ident (codes "err")) (one (ident (codes "nil")))))
        (one (other (one (ident (codes "err"))))))

abbrev pub statement : InstrumentSpec → Node
statement i = statement_of i.field i.method i.name i.description i.unit

abbrev pub statements : List InstrumentSpec → Nodes
statements [] = no_nodes
statements (i ∷ is) = more (statement i) (statements is)

-- The definition that the page should have.
abbrev pub documented : InstrumentSpec → MetricDef
documented i = record {
  name = i.name;
  type = method_to_type i.method;
  description = i.description;
  unit = i.unit;
  labels = [];
}

abbrev has_quote : Text → Bool
has_quote [] = false
has_quote (c ∷ s) = is_quote c || has_quote s

-- A text without quotation marks.
abbrev NoQuotes : Text → Type 0
NoQuotes s = has_quote s ≡ false

trim_quotes_right-quoted : (s : Text) → NoQuotes s → trim_quotes_right (s ++ 34 ∷ []) ≡ s
unfolding trim_quotes_right
trim_quotes_right-quoted [] h = refl
trim_quotes_right-quoted (c ∷ s) h = ground (arith, trim_quotes_right-quoted s)

trim_quotes-quoted : (s : Text) → NoQuotes s → trim_quotes (34 ∷ (s ++ 34 ∷ [])) ≡ s
unfolding trim_quotes trim_quotes_right
trim_quotes-quoted [] h = refl
trim_quotes-quoted (c ∷ s) h = ground (arith, trim_quotes_right-quoted (c ∷ s) h)

defs_from-statement :
    (field method name description unit : Text) (ds : MetricDefs) (ns : List Node)
    → NoQuotes name
    → NoQuotes description
    → NoQuotes unit
    → defs_from ds (visits (statement_of field method name description unit) ++ ns)
      ≡ defs_from
          (add_def field
            (record {
              name = name;
              type = method_to_type method;
              description = description;
              unit = unit;
              labels = [];
            })
            ds)
          ns
unfolding defs_from visits metric_of
defs_from-statement field method name [] [] ds ns n d u = rw (trim_quotes-quoted name n) refl
defs_from-statement field method name [] (c ∷ s) ds ns n d u =
    rw (trim_quotes-quoted name n, trim_quotes-quoted (c ∷ s) u) refl
defs_from-statement field method name (c ∷ s) [] ds ns n d u =
    rw (trim_quotes-quoted name n, trim_quotes-quoted (c ∷ s) d) refl
defs_from-statement field method name (a ∷ t) (c ∷ s) ds ns n d u =
    rw (trim_quotes-quoted name n, trim_quotes-quoted (a ∷ t) d, trim_quotes-quoted (c ∷ s) u) refl

abbrev fields_of : List InstrumentSpec → List Text
fields_of = map (λ (i : InstrumentSpec). i.field)

abbrev entries_of : List InstrumentSpec → Dict MetricDef
entries_of = map (λ (i : InstrumentSpec). (i.field, documented i))

abbrev pub defs_of : List InstrumentSpec → MetricDefs
defs_of is = record { ordered_fields = fields_of is; field_to_metric = entries_of is }

-- Some text of the instruments has a quotation mark.
abbrev pub any_quote : List InstrumentSpec → Bool
any_quote [] = false
any_quote (i ∷ is) =
    (has_quote i.name || has_quote i.description || has_quote i.unit) || any_quote is

Distinct-fresh : (xs ys : List Text) (x : Text) → Distinct (xs ++ x ∷ ys) → contains x xs ≡ false
unfolding contains
Distinct-fresh [] ys x d = refl
Distinct-fresh (a ∷ xs) ys x d = ground (
  arith,
  contains-append a xs (x ∷ ys),
  Distinct-fresh xs ys x d.1,
  =?_iff a x,
  =?_iff x a,
  =?_iff x x,
  d.0,
)

lookup-entries_of :
    (k : Text) (is : List InstrumentSpec)
    → contains k (fields_of is) ≡ false
    → lookup k (entries_of is) ≡ none
unfolding lookup contains
lookup-entries_of k [] h = refl
lookup-entries_of k (i ∷ is) h =
    ground (arith, lookup-entries_of k is, =?_iff i.field k, =?_iff k i.field)

insert-entries_of :
    (i : InstrumentSpec) (is : List InstrumentSpec)
    → contains i.field (fields_of is) ≡ false
    → insert i.field (documented i) (entries_of is) ≡ entries_of (is ++ i ∷ [])
unfolding insert contains
insert-entries_of i [] h = refl
insert-entries_of i (j ∷ is) h =
    ground (arith, insert-entries_of i is, =?_iff j.field i.field, =?_iff i.field j.field)

add_def-defs_of :
    (i : InstrumentSpec) (is : List InstrumentSpec)
    → contains i.field (fields_of is) ≡ false
    → add_def i.field (documented i) (defs_of is) ≡ defs_of (is ++ i ∷ [])
unfolding add_def
add_def-defs_of i is h =
    ap₂ (λ (o : List Text) (m : Dict MetricDef). record { ordered_fields = o; field_to_metric = m })
      (rw (lookup-entries_of i.field is h)
        (sym (map-append (λ (i : InstrumentSpec). i.field) is (i ∷ []))))
      (insert-entries_of i is h)

defs_from-statements :
    (is js : List InstrumentSpec)
    → any_quote is ≡ false
    → Distinct (fields_of js ++ fields_of is)
    → defs_from (defs_of js) (visits_all (statements is)) ≡ defs_of (js ++ is)
unfolding visits defs_from
defs_from-statements [] js c d = ap defs_of (sym (append-nil js))
defs_from-statements (i ∷ is) js c d =
    let fresh = Distinct-fresh (fields_of js) (fields_of is) i.field d in
    let regroup : fields_of (js ++ i ∷ []) ++ fields_of is
        ≡ fields_of js ++ i.field ∷ fields_of is =
      ap (λ l. l ++ fields_of is) (map-append (λ (i : InstrumentSpec). i.field) js (i ∷ []))
      ∙ append_assoc (fields_of js) (i.field ∷ []) (fields_of is) in
    defs_from-statement i.field i.method i.name i.description i.unit (defs_of js)
      (visits_all (statements is)) (ground arith) (ground arith) (ground arith)
    ∙ ap (λ ds. defs_from ds (visits_all (statements is))) (add_def-defs_of i js fresh)
    ∙ defs_from-statements is (js ++ i ∷ []) (ground arith) (subst Distinct (sym regroup) d)
    ∙ ap defs_of (append_assoc js (i ∷ []) is)

-- The generator reads back what `initMetrics` says: from a body that consists of the statements that make
-- some instruments, with different fields and without quotation marks in their texts, it extracts exactly
-- these fields in this order, each with the name, description and unit that it is made with and the type of
-- its method.
pub extract_metric_defs-statements :
    (is : List InstrumentSpec)
    → any_quote is ≡ false
    → Distinct (map (λ (i : InstrumentSpec). i.field) is)
    → extract_metric_defs (other (statements is)) ≡ defs_of is
unfolding extract_metric_defs visits
extract_metric_defs-statements is c d = defs_from-statements is [] c d
