-- ===== src/Server/Metrics.antt =====
-- What pkg/server/server.go records with pkg/telemetry: the hooks around the list of tools, the metrics of a
-- call, and those of the events of the registry. Spans are left out.
pub mod Listing
pub mod Gauge
pub mod Hints
use make_mcp.Common.{ℕ, Bool, Option, none, some, List, [], ◌∷◌, ◌++◌, if◌then◌else◌}
use make_mcp.Text.{Text, byte_len}
use make_mcp.Dict.{Dict, lookup, insert, delete}
use make_mcp.Config.{Duration}
use make_mcp.Server.Tools.{Tool}
use make_mcp.Server.Tools.Index.{tool_names}
use make_mcp.Server.Registry.{
  Event, list_changed, reload_recorded, tools_registered, ToolServer, get_recipes_by_names,
}
use make_mcp.Server.Call.{Invocation}
use make_mcp.Telemetry.Metrics.{
  Measurement, Counts, status_success, status_failure, record_tool_reload, record_tool_invocation,
  record_tool_invocation_bytes, record_tools_list_request, record_tools_listed,
  record_tools_list_bytes, record_tools_registered,
}

abbrev pub status_of : Bool → Text
status_of succeeded = if succeeded then status_success else status_failure

-- `recordInvocationMetrics`, with the time that the run took and the length of the encoded arguments.
unfoldable pub record_invocation_metrics : Invocation → Duration → ℕ → List Measurement
unfolding record_tool_invocation record_tool_invocation_bytes
record_invocation_metrics i elapsed bytes_in =
    record_tool_invocation i.recipe (status_of i.success) elapsed i.streaming
    ++ record_tool_invocation_bytes i.recipe (status_of i.success) bytes_in i.bytes_out i.streaming

-- The records behind the events of `New` and `Reload`.
unfoldable pub event_measurements : (Counts → Counts) → Event → List Measurement
unfolding record_tool_reload record_tools_registered
event_measurements order list_changed = []
event_measurements order (reload_recorded file succeeded) =
    record_tool_reload file (status_of succeeded)
event_measurements order (tools_registered rs) = record_tools_registered order rs

unfoldable pub events_measurements : (Counts → Counts) → List Event → List Measurement
unfolding event_measurements
events_measurements order [] = []
events_measurements order (e ∷ es) = event_measurements order e ++ events_measurements order es

-- `listStarts`, with the time of each started request, and what was recorded.
pub record ListHooks : Type 0 where
  pub list_starts : Dict ℕ
  pub recorded : List Measurement

-- The hook before a list of tools: the request's identifier and the time.
unfoldable pub before_list_tools : Text → ℕ → ListHooks → ListHooks
unfolding insert
before_list_tools id now h = record h { list_starts = insert id now h.list_starts }

-- `measureListBytes`; `encoded` is the length of the JSON text of some tools, if they can be encoded.
unfoldable pub measure_list_bytes : (List Tool → Option ℕ) → Text → List Tool → ℕ × ℕ
unfolding byte_len
measure_list_bytes encoded cursor tools =
    (byte_len cursor, elim (encoded tools) [ none ↦ 0 | some n ↦ n ])

unfoldable pub bytes_measurements :
    (List Tool → Option ℕ) → Text → Option (List Tool) → List Measurement
unfolding measure_list_bytes record_tools_list_bytes
bytes_measurements encoded cursor none = []
bytes_measurements encoded cursor (some tools) =
    let (bytes_in, bytes_out) = measure_list_bytes encoded cursor tools in
    record_tools_list_bytes status_success bytes_in bytes_out

abbrev result_names : Option (List Tool) → List Text
result_names none = []
result_names (some tools) = tool_names tools

-- The records of a request that was started; `since` is the time that has passed from another.
unfoldable pub list_measurements :
    (ℕ → Duration) → ToolServer → ℕ → Option (List Tool) → List Measurement
unfolding record_tools_list_request record_tools_listed get_recipes_by_names
list_measurements since s start result =
    record_tools_list_request status_success (since start)
    ++ record_tools_listed (get_recipes_by_names s.registry (result_names result))

-- The hook after a list of tools.
unfoldable pub after_list_tools :
    (List Tool → Option ℕ)
    → (ℕ → Duration)
    → ToolServer
    → Text
    → Text
    → Option (List Tool)
    → ListHooks
    → ListHooks
unfolding lookup delete list_measurements bytes_measurements
after_list_tools encoded since s id cursor result h = record {
  list_starts = delete id h.list_starts;
  recorded = h.recorded ++ (elim (lookup id h.list_starts) [
    | none ↦ bytes_measurements encoded cursor result
    | some start ↦
        list_measurements since s start result ++ bytes_measurements encoded cursor result
  ]);
}
