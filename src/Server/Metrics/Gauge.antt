-- ===== src/Server/Metrics/Gauge.antt =====
-- The gauge of the registered tools over the life of a server.
use make_mcp.Common.{
  ◌≡◌, refl, sym, ap, ap₂, ◌∙◌, true, none, List, [], ◌∷◌, ◌++◌, append-nil, append_assoc,
}
use make_mcp.Text.{Text}
use make_mcp.Schema.{Recipe}
use make_mcp.Server.Registry.{
  Event, list_changed, reload_recorded, tools_registered, ToolServer, reload,
}
use make_mcp.Server.Registry.Reload.{reload-Serves}
use make_mcp.Telemetry.Metrics.{GroupKey, Counts, record_tool_reload, record_tools_registered}
use make_mcp.Telemetry.Metrics.Groups.{group_size, add_size}
use make_mcp.Telemetry.Metrics.Gauge.{
  gauge, gauge-append, later_or, IsRange, gauge-record_tools_registered, later_or-none,
}
use make_mcp.Server.Metrics.{event_measurements, events_measurements, status_of}

module _ (order : Counts → Counts) where
  events_measurements-append :
      (es fs : List Event)
      → events_measurements order (es ++ fs)
        ≡ events_measurements order es ++ events_measurements order fs
  unfolding events_measurements
  events_measurements-append [] fs = refl
  events_measurements-append (e ∷ es) fs =
      ap (λ ms. event_measurements order e ++ ms) (events_measurements-append es fs)
      ∙ sym (
          append_assoc (event_measurements order e) (events_measurements order es)
            (events_measurements order fs))

  gauge-reload_recorded :
      (k : GroupKey) (file : Text) (status : Text) → gauge k (record_tool_reload file status) ≡ none
  unfolding gauge record_tool_reload
  gauge-reload_recorded k file status = refl

  gauge-reload_events :
      (k : GroupKey) (file : Text) (rs : List Recipe)
      → IsRange order
      → gauge k (
          events_measurements order
            (list_changed ∷ reload_recorded file true ∷ tools_registered rs ∷ []))
        ≡ add_size none (group_size k rs)
  unfolding events_measurements
  gauge-reload_events k file rs range =
      let ms = record_tools_registered order rs in
      gauge-append k (record_tool_reload file (status_of true)) (ms ++ [])
      ∙ ap₂ later_or (ap (gauge k) (append-nil ms) ∙ gauge-record_tools_registered order k rs range)
          (gauge-reload_recorded k file (status_of true))
      ∙ later_or-none (add_size none (group_size k rs))

-- After a reload the gauge shows, under the labels of a group of recipes, how many of the new recipes are in
-- the group, but if none is, it still shows what it showed before the reload.
pub gauge-reload :
    (order : Counts → Counts) (s : ToolServer) (rs : List Recipe) (file : Text) (k : GroupKey)
    → IsRange order
    → gauge k (events_measurements order (reload s rs file).0.events)
      ≡ later_or (add_size none (group_size k rs)) (gauge k (events_measurements order s.events))
gauge-reload order s rs file k range =
    ap (λ es. gauge k (events_measurements order es)) (reload-Serves s rs file).3
    ∙ ap (gauge k) (
        events_measurements-append order s.events
          (list_changed ∷ reload_recorded file true ∷ tools_registered rs ∷ []))
    ∙ gauge-append k (events_measurements order s.events) (
        events_measurements order
          (list_changed ∷ reload_recorded file true ∷ tools_registered rs ∷ []))
    ∙ ap (λ o. later_or o (gauge k (events_measurements order s.events)))
        (gauge-reload_events order k file rs range)
