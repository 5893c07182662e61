-- ===== src/MetricsDoc/Page/Split.antt =====
-- The three lists of the page: each metric in the list of its type, with its labels in order.
use make_mcp.Common.{
  ◌+◌, ◌≡◌, refl, sym, ap, ◌∙◌, inl, inr, true, Option, some, List, [], ◌∷◌, ◌++◌, map, append-nil,
  append_assoc, arith, if◌then◌else◌, Option-cases, length, All, length-map,
}
use make_mcp.Text.{Text, ◌=?◌}
use make_mcp.Text.Equal.{=?_iff}
use make_mcp.Dict.{lookup}
use make_mcp.MetricsDoc.Tree.{Decl}
use make_mcp.MetricsDoc.Keys.{contains, get_keys}
use make_mcp.MetricsDoc.Keys.Union.{Distinct}
use make_mcp.MetricsDoc.Labels.{Labels}
use make_mcp.MetricsDoc.Defs.{MetricDef, type_counter, type_histogram, type_gauge}
use make_mcp.MetricsDoc.Defs.Whole.{IsMetricType, IsWhole}
use make_mcp.MetricsDoc.Page.{
  Gathered, TemplateData, gather_all, labelled, place, place_all, no_data, build_template_data,
}
use make_mcp.MetricsDoc.Page.Sorted.{IsAscending, sort_strings-IsAscending, contains-sort_strings}
use make_mcp.MetricsDoc.Page.Ready.{LabelsDistinct, gather_all-IsReady}

-- The definitions of one type, in their order.
abbrev pub of_type : Text → List MetricDef → List MetricDef
of_type t [] = []
of_type t (d ∷ ds) = let rest = of_type t ds in if d.type =? t then d ∷ rest else rest

-- A page that shows each gathered field once, in the list of its type, with its labels in order.
pub record IsPageOf (g : Gathered) (page : TemplateData) : Type 0 where
  pub metrics : List MetricDef
  pub listed : metrics ≡ map (labelled g) g.defs.ordered_fields
  pub counters : page.counters ≡ of_type type_counter metrics
  pub histograms : page.histograms ≡ of_type type_histogram metrics
  pub gauges : page.gauges ≡ of_type type_gauge metrics
  pub distinct : Distinct g.defs.ordered_fields
  pub none_lost :
      length page.counters + length page.histograms + length page.gauges
      ≡ length g.defs.ordered_fields
  pub labels :
      (k field : Text) → contains k (labelled g field).labels ≡ contains k (get_keys field g.labels)
  pub ascending : All (λ (d : MetricDef). IsAscending d.labels) metrics

module _ (side : TemplateData → List MetricDef) (t : Text)
    (placed : (m : MetricDef) (d : TemplateData)
      → side (place m d) ≡ side d ++ (if m.type =? t then m ∷ [] else [])) where
  place_all-side :
      (g : Gathered) (d : TemplateData) (fields : List Text)
      → side (place_all g d fields) ≡ side d ++ of_type t (map (labelled g) fields)
  unfolding place_all
  place_all-side g d [] = sym (append-nil (side d))
  place_all-side g d (field ∷ fields) =
      let m = labelled g field in
      place_all-side g (place m d) fields
      ∙ ap (λ l. l ++ of_type t (map (labelled g) fields)) (placed m d)
      ∙ append_assoc (side d) (if m.type =? t then m ∷ [] else [])
          (of_type t (map (labelled g) fields))
      ∙ ap (λ l. side d ++ l) (ground arith)

place-counters :
    (m : MetricDef) (d : TemplateData)
    → (place m d).counters ≡ d.counters ++ (if m.type =? type_counter then m ∷ [] else [])
unfolding place
place-counters m d = ground (
  arith,
  =?_iff m.type type_counter,
  =?_iff m.type type_histogram,
  =?_iff m.type type_gauge,
  append-nil d.counters,
)

place-histograms :
    (m : MetricDef) (d : TemplateData)
    → (place m d).histograms ≡ d.histograms ++ (if m.type =? type_histogram then m ∷ [] else [])
unfolding place
place-histograms m d = ground (
  arith,
  =?_iff m.type type_counter,
  =?_iff m.type type_histogram,
  =?_iff m.type type_gauge,
  append-nil d.histograms,
)

place-gauges :
    (m : MetricDef) (d : TemplateData)
    → (place m d).gauges ≡ d.gauges ++ (if m.type =? type_gauge then m ∷ [] else [])
unfolding place
place-gauges m d = ground (
  arith,
  =?_iff m.type type_counter,
  =?_iff m.type type_histogram,
  =?_iff m.type type_gauge,
  append-nil d.gauges,
)

lengths_of_types :
    (ds : List MetricDef)
    → All (λ (d : MetricDef). IsMetricType d.type) ds
    → length (of_type type_counter ds)
        + length (of_type type_histogram ds)
        + length (of_type type_gauge ds)
      ≡ length ds
lengths_of_types [] h = refl
lengths_of_types (d ∷ ds) h = ground (
  arith,
  h.0,
  lengths_of_types ds h.1,
  =?_iff d.type type_counter,
  =?_iff d.type type_histogram,
  =?_iff d.type type_gauge,
)

labelled-IsMetricType :
    (g : Gathered) (fields : List Text)
    → IsWhole g.defs
    → ((k : Text) → contains k fields ≡ true → contains k g.defs.ordered_fields ≡ true)
    → All (λ (d : MetricDef). IsMetricType d.type) (map (labelled g) fields)
unfolding labelled contains
labelled-IsMetricType g [] w h = tt
labelled-IsMetricType g (field ∷ fields) w h =
    elim (Option-cases (lookup field g.defs.field_to_metric)) [
      | inl e ↦ absurd (ground (arith, h field, w.defined field, =?_iff field field))
      | inr (def, e) ↦
          (rw e (w.typed field def e), labelled-IsMetricType g fields w (λ k c. h k (ground arith)))
    ]

contains-labelled :
    (g : Gathered) (k field : Text)
    → contains k (labelled g field).labels ≡ contains k (get_keys field g.labels)
unfolding labelled
contains-labelled g k field = contains-sort_strings k (get_keys field g.labels)

labelled-IsAscending :
    (g : Gathered) (fields : List Text)
    → LabelsDistinct g.labels
    → All (λ (d : MetricDef). IsAscending d.labels) (map (labelled g) fields)
unfolding labelled
labelled-IsAscending g [] d = tt
labelled-IsAscending g (field ∷ fields) d =
    (sort_strings-IsAscending (get_keys field g.labels) (d field), labelled-IsAscending g fields d)

-- However Go orders the maps: where the metrics file can be parsed, the page shows each metric that
-- `initMetrics` makes exactly once, in the order of the fields and in the list of its type, and the labels of
-- each are the keys gathered for it, in strictly ascending order, so none is shown twice.
pub build_template_data-IsPageOf :
    (order : Labels → Labels) (decls : List Decl) (extra : Option (List Decl))
    → (page : TemplateData) × (build_template_data order (some decls) extra ≡ some page)
      × IsPageOf (gather_all order decls extra) page
unfolding build_template_data
build_template_data-IsPageOf order decls extra =
    let g = gather_all order decls extra in
    let ready = gather_all-IsReady order decls extra in
    let fields = g.defs.ordered_fields in
    let metrics = map (labelled g) fields in
    let c = place_all-side (λ d. d.counters) type_counter place-counters g no_data fields in
    let h = place_all-side (λ d. d.histograms) type_histogram place-histograms g no_data fields in
    let u = place_all-side (λ d. d.gauges) type_gauge place-gauges g no_data fields in
    let known = labelled-IsMetricType g fields ready.whole (λ k c. c) in
    (
      place_all g no_data fields,
      refl,
      record {
        metrics = metrics;
        listed = refl;
        counters = c;
        histograms = h;
        gauges = u;
        distinct = ready.whole.distinct;
        none_lost = omega (
          arith,
          ap (λ l. length l) c,
          ap (λ l. length l) h,
          ap (λ l. length l) u,
          lengths_of_types metrics known,
          length-map (labelled g) fields,
        );
        labels = λ k field. contains-labelled g k field;
        ascending = labelled-IsAscending g fields ready.labels_distinct;
      },
    )
