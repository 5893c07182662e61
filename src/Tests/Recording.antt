-- ===== src/Tests/Recording.antt =====
-- Tests and examples of what the server records, of the set-up of telemetry, and of the server's answers.
use make_mcp.Common.{
  ℕ, ◌≡◌, refl, true, false, Option, none, some, List, [], ◌∷◌, ◌++◌, if◌then◌else◌, All,
}
use make_mcp.Text.{codes, ◌=?◌, is_space}
use make_mcp.Dict.{lookup}
use make_mcp.Go.Strconv.{pos}
use make_mcp.Server.Tools.{Tool, build_server_tools}
use make_mcp.Server.Registry.{reload, swap}
use make_mcp.Server.Refines.{
  Op, reload_with, call, list_tools, ask_ready, serve, consult, serve_refines,
}
use make_mcp.Server.Metrics.{
  ListHooks, before_list_tools, after_list_tools, list_measurements, bytes_measurements,
  events_measurements,
}
use make_mcp.Server.Metrics.Listing.{
  Hook, before, after, run_hooks, list_request-own_start, list_requests-overlap, request_id,
}
use make_mcp.Server.Metrics.Gauge.{gauge-reload}
use make_mcp.Server.Metrics.Hints.{Announced, hint_attributes, attributes-Announced}
use make_mcp.Telemetry.Metrics.{
  text, flag, group_of, group_attributes, recipe_attrs, status_success, same_group,
}
use make_mcp.Telemetry.Metrics.Groups.{group_size, add_size}
use make_mcp.Telemetry.Metrics.Gauge.{gauge, later_or, IsRange, same_attributes}
use make_mcp.Telemetry.Setup.{
  Closer, trace_provider, metric_provider, prometheus_server, Environment, Library, init, shutdown,
}
use make_mcp.Telemetry.Setup.Shutdown.{first_error, shutdown-reverse}
use mathlib.Core.List.{reverse}
use make_mcp.Tests.{sample_server, sample_cfg, build, build_tool, call_build, prints}
use make_mcp.Tests.Serving.{sample_served}

abbrev ops : List Op
ops = list_tools ∷ call call_build ∷ reload_with [] (codes "Makefile") ∷ ask_ready ∷ []

serve_refines_example : serve prints sample_server ops ≡ consult prints sample_cfg (build ∷ []) ops
serve_refines_example = serve_refines prints sample_server (build ∷ []) ops sample_served

-- The order of the loop over the groups is that of the map.
in_order : IsRange (λ c. c)
in_order c d = (d, λ k. refl)

-- The Makefile has lost its recipe.
gauge-reload_example :
    gauge
      (group_of build)
      (events_measurements (λ c. c) (reload sample_server [] (codes "Makefile")).0.events)
    ≡ later_or
        (add_size none (group_size (group_of build) []))
        (gauge (group_of build) (events_measurements (λ c. c) sample_server.events))
gauge-reload_example =
    gauge-reload (λ c. c) sample_server [] (codes "Makefile") (group_of build) in_order

-- The gauge shows the recipe that is no longer there.
stale_test :
    gauge
      (group_of build)
      (events_measurements (λ c. c) (reload sample_server [] (codes "Makefile")).0.events)
    ≡ some 1
unfolding gauge same_attributes events_measurements reload swap build_server_tools same_group
    group_of group_attributes ◌=?◌
stale_test = refl

abbrev no_hooks : ListHooks
no_hooks = record { list_starts = []; recorded = [] }

abbrev encoded : List Tool → Option ℕ
encoded tools = some 2

abbrev other_list : List Hook
other_list = before (codes "2") 8 ∷ after (codes "2") [] (some []) ∷ []

other_list_avoids : All (λ x. (request_id x =? codes "1") ≡ false) other_list
unfolding ◌=?◌
other_list_avoids = (refl, (refl, tt))

list_request-own_start_test :
    let reached =
      run_hooks encoded
        (λ t. pos t)
        sample_server
        other_list
        (before_list_tools (codes "1") 5 no_hooks) in
    let done =
      after_list_tools encoded (λ t. pos t) sample_server (codes "1") [] (some []) reached in
    (done.recorded
      ≡ reached.recorded
        ++ (list_measurements (λ t. pos t) sample_server 5 (some [])
            ++ bytes_measurements encoded [] (some [])))
    × (lookup (codes "1") done.list_starts ≡ none)
list_request-own_start_test =
    list_request-own_start encoded (λ t. pos t) sample_server (codes "1") [] (some []) 5 other_list
      no_hooks other_list_avoids

list_requests-overlap_example :
    (run_hooks encoded
      (λ t. pos t)
      sample_server
      (before (codes "1") 5
        ∷ before (codes "1") 8
        ∷ after (codes "1") [] (some [])
        ∷ after (codes "1") [] (some (build_tool ∷ []))
        ∷ [])
      no_hooks).recorded
    ≡ ([]
        ++ (list_measurements (λ t. pos t) sample_server 8 (some [])
            ++ bytes_measurements encoded [] (some [])))
      ++ bytes_measurements encoded [] (some (build_tool ∷ []))
list_requests-overlap_example =
    list_requests-overlap encoded (λ t. pos t) sample_server (codes "1") [] [] (some [])
      (some (build_tool ∷ [])) 5 8 no_hooks

attributes-Announced_test :
    (a : Announced build) × (group_attributes (group_of build) ≡ hint_attributes build a)
    × (recipe_attrs build status_success false
        ≡ text (codes "tool") build.id
          ∷ (hint_attributes build a
              ++ text (codes "status") status_success ∷ flag (codes "streaming") false ∷ []))
attributes-Announced_test = attributes-Announced build status_success false

abbrev closers : List Closer
closers = trace_provider ∷ metric_provider ∷ prometheus_server (codes "127.0.0.1:9090") ∷ []

abbrev close : Closer → Option ℕ
close trace_provider = some 1
close metric_provider = some 2
close (prometheus_server address) = none

shutdown-reverse_example :
    shutdown close closers ≡ (reverse closers, first_error close (reverse closers))
shutdown-reverse_example = shutdown-reverse close closers

abbrev all_well : Library
all_well = record {
  resource = true;
  trace_exporter = true;
  metric_exporter = true;
  prometheus_exporter = true;
  instruments = true;
}

-- With traces on and everything else by default.
abbrev environment : Environment
environment name = if name =? codes "OTEL_TRACES_EXPORTER" then codes " otlp" else []

init_test : init environment all_well ≡ (closers, none)
unfolding init ◌=?◌ is_space
init_test = refl
