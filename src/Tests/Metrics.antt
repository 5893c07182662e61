-- ===== src/Tests/Metrics.antt =====
-- Runs of the metrics page generator on small trees.
use make_mcp.Common.{
  ◌≡◌, refl, ◌↔◌, true, false, Option, none, some, List, [], ◌∷◌, ◌++◌, map, arith,
}
use make_mcp.Text.{Text, codes, ◌=?◌}
use make_mcp.MetricsDoc.Tree.{
  Node, Nodes, Decl, ident, basic_lit, selector_expr, call_expr, assign_stmt, if_stmt, other,
  no_nodes, more, plain, define, func_decl,
}
use make_mcp.MetricsDoc.Page.{TemplateData, build_template_data, gather_all}
use make_mcp.MetricsDoc.Defs.{labels_or_none, extract_metric_defs}
use make_mcp.MetricsDoc.Keys.{merge_keys, contains, collect_attr_keys}
use make_mcp.MetricsDoc.Keys.Occurs.{HasKey, collect_attr_keys_iff}
use make_mcp.MetricsDoc.Keys.Union.{IsUnion, merge_keys-IsUnion, Distinct}
use make_mcp.MetricsDoc.Page.Split.{IsPageOf, build_template_data-IsPageOf}
use make_mcp.MetricsDoc.Page.Order.{IsRange, build_template_data-orders}
use make_mcp.MetricsDoc.Labels.{Labels}
use make_mcp.MetricsDoc.Defs.Print.{statements, defs_of, extract_metric_defs-statements}
use make_mcp.Telemetry.Instruments.{InstrumentSpec, instruments}
use make_mcp.MetricsDoc.Run.{Disk, run}
use make_mcp.MetricsDoc.Run.Settles.{Settles, with_page, run-Settles}
use make_mcp.Dict.{lookup, is_some}
use make_mcp.Dict.Distinct.{DistinctKeys}
use make_mcp.Text.Equal.{=?_iff}

abbrev one : Node → Nodes
one n = more n no_nodes

abbrev string_lit : Text → Node
string_lit s = basic_lit true (34 ∷ (s ++ 34 ∷ []))

-- `x.sel`
abbrev dot : Text → Text → Node
dot x sel = selector_expr (ident x) sel

-- `if m.Field, err = meter.Method("name", metric.WithUnit("s")); err != nil {}`
abbrev def_stmt : Text → Text → Text → Node
def_stmt field method name =
    if_stmt
      (one (
        assign_stmt (more (dot (codes "m") field) (one (ident (codes "err")))) plain (
          one (
            call_expr (dot (codes "meter") method) (
              more (string_lit name) (
                one (
                  call_expr (dot (codes "metric") (codes "WithUnit"))
                    (one (string_lit (codes "s"))))))))))
      no_nodes

-- `attribute.String("key", x)`
abbrev attribute : Text → Node
attribute key =
    call_expr (dot (codes "attribute") (codes "String"))
      (more (string_lit key) (one (ident (codes "x"))))

abbrev body_of : Nodes → Option Node
body_of ns = some (other ns)

abbrev sample_metrics : List Decl
sample_metrics =
    func_decl (record {
      name = codes "initMetrics";
      body = body_of (
          more (def_stmt (codes "Reloads") (codes "Int64Counter") (codes "reload_total"))
            (one (def_stmt (codes "Seconds") (codes "Float64Histogram") (codes "seconds"))));
    })
    ∷ func_decl (record {
      name = codes "Reload";
      body = body_of (
          one (
            call_expr
              (selector_expr
                (selector_expr (call_expr (ident (codes "Metrics")) no_nodes) (codes "Reloads"))
                (codes "Add"))
              (more (attribute (codes "status")) (one (attribute (codes "file"))))));
    })
    ∷ func_decl (record {
      name = codes "Invoke";
      body = body_of (
          more
            (assign_stmt (one (ident (codes "attrs"))) define
              (one (call_expr (ident (codes "recipeAttrs")) no_nodes)))
            (one (
              call_expr (selector_expr (dot (codes "m") (codes "Seconds")) (codes "Record"))
                (one (ident (codes "attrs"))))));
    })
    ∷ func_decl
        (record { name = codes "recipeAttrs"; body = body_of (one (attribute (codes "tool"))) })
    ∷ []

page_labels : Option TemplateData → List Text
page_labels none = []
page_labels (some d) = map labels_or_none (d.counters ++ d.histograms)

sample_metrics_labels :
    page_labels (build_template_data (λ m. m) (some sample_metrics) none)
    ≡ codes "`file`, `status`" ∷ codes "`tool`" ∷ []
unfolding page_labels build_template_data labels_or_none
sample_metrics_labels = refl

collect_attr_keys_iff_test :
    (contains (codes "tool") (collect_attr_keys (attribute (codes "tool"))) ≡ true)
    ↔ HasKey (codes "tool") (attribute (codes "tool"))
collect_attr_keys_iff_test = collect_attr_keys_iff (codes "tool") (attribute (codes "tool"))

merge_keys-IsUnion_test :
    IsUnion
      (codes "file" ∷ [])
      (codes "status" ∷ codes "file" ∷ [])
      (merge_keys (codes "file" ∷ []) (codes "status" ∷ codes "file" ∷ []))
merge_keys-IsUnion_test =
    merge_keys-IsUnion (codes "file" ∷ []) (codes "status" ∷ codes "file" ∷ [])

build_template_data-IsPageOf_example :
    (page : TemplateData) × (build_template_data (λ m. m) (some sample_metrics) none ≡ some page)
    × IsPageOf (gather_all (λ m. m) sample_metrics none) page
build_template_data-IsPageOf_example = build_template_data-IsPageOf (λ m. m) sample_metrics none

-- The first entry comes last.
abbrev first_last : Labels → Labels
first_last [] = []
first_last (x ∷ m) = m ++ x ∷ []

id-IsRange : IsRange (λ m. m)
id-IsRange m d = (d, λ k. refl)

lookup-moved :
    (j k : Text) (v : List Text) (m : Labels)
    → is_some (lookup k m) ≡ false
    → lookup j (m ++ (k, v) ∷ []) ≡ lookup j ((k, v) ∷ m)
unfolding lookup
lookup-moved j k v [] h = refl
lookup-moved j k v ((i, w) ∷ m) h =
    ground (arith, =?_iff i k, =?_iff i j, =?_iff k j, lookup-moved j k v m)

moved-DistinctKeys :
    (k : Text) (v : List Text) (m : Labels)
    → is_some (lookup k m) ≡ false
    → DistinctKeys m
    → DistinctKeys (m ++ (k, v) ∷ [])
unfolding lookup
moved-DistinctKeys k v [] h d = (refl, tt)
moved-DistinctKeys k v ((i, w) ∷ m) h d = (
  ground (arith, lookup-moved i k v m, =?_iff i k, =?_iff k i, d.0),
  moved-DistinctKeys k v m (ground arith) d.1,
)

first_last-IsRange : IsRange first_last
first_last-IsRange [] d = (tt, λ k. refl)
first_last-IsRange ((k, v) ∷ m) d =
    (moved-DistinctKeys k v m d.0 d.1, λ j. lookup-moved j k v m d.0)

build_template_data-orders_test :
    build_template_data first_last (some sample_metrics) none
    ≡ build_template_data (λ m. m) (some sample_metrics) none
build_template_data-orders_test =
    build_template_data-orders first_last (λ m. m) (some sample_metrics) none first_last-IsRange
      id-IsRange

instruments-Distinct : Distinct (map (λ (i : InstrumentSpec). i.field) instruments)
unfolding contains ◌=?◌
instruments-Distinct = (
  refl,
  (refl, (refl, (refl, (refl, (refl, (refl, (refl, (refl, (refl, (refl, (refl, tt))))))))))),
)

-- At the instruments of pkg/telemetry/metrics.go.
extract_metric_defs-statements_example :
    extract_metric_defs (other (statements instruments)) ≡ defs_of instruments
extract_metric_defs-statements_example =
    extract_metric_defs-statements instruments refl instruments-Distinct

abbrev sample_disk : Disk
sample_disk = record {
  template = some (codes "t");
  parse = λ t. some (λ page. some (codes "page"));
  existing = codes "old";
  can_make_docs = true;
  can_write = true;
}

run-Settles_test :
    Settles sample_disk
      (run sample_disk (build_template_data (λ m. m) (some sample_metrics) none))
      (run
        (with_page sample_disk
          (run sample_disk (build_template_data (λ m. m) (some sample_metrics) none)).0)
        (build_template_data (λ m. m) (some sample_metrics) none))
run-Settles_test = run-Settles sample_disk (build_template_data (λ m. m) (some sample_metrics) none)
