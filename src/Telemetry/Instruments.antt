-- ===== src/Telemetry/Instruments.antt =====
-- pkg/telemetry/metrics.go: the instruments that `initMetrics` makes.
use make_mcp.Common.{Bool, true, false, List, [], ◌∷◌, if◌then◌else◌}
use make_mcp.Text.{Text, codes}

-- One statement of `initMetrics`: the field, the method of the meter, and what the instrument is made with;
-- a text is empty where the option is not given.
pub record InstrumentSpec : Type 0 where
  pub field : Text
  pub method : Text
  pub name : Text
  pub description : Text
  pub unit : Text

abbrev counter : Text → Text → InstrumentSpec
counter field name = record {
  field = field;
  method = codes "Int64Counter";
  name = name;
  description = [];
  unit = [];
}

abbrev bytes_histogram : Text → Text → Text → InstrumentSpec
bytes_histogram field name description = record {
  field = field;
  method = codes "Int64Histogram";
  name = name;
  description = description;
  unit = codes "By";
}

-- The instruments, in the order of their creation.
abbrev pub instruments : List InstrumentSpec
instruments =
    counter (codes "ToolsListedTotal") (codes "make_mcp_tools_listed_total")
    ∷ counter (codes "ToolsListRequestsTotal") (codes "make_mcp_tools_list_requests_total")
    ∷ record {
      field = codes "ToolsListRequestLatencySeconds";
      method = codes "Float64Histogram";
      name = codes "make_mcp_tools_list_request_latency_seconds";
      description = codes "Server-side latency of tools/list requests.";
      unit = codes "s";
    }
    ∷ bytes_histogram (codes "ToolsListBytesIn") (codes "make_mcp_tools_list_request_bytes_in")
        (codes "Bytes received in tools/list requests (cursor size).")
    ∷ bytes_histogram (codes "ToolsListBytesOut") (codes "make_mcp_tools_list_request_bytes_out")
        (codes "Bytes sent in tools/list responses (JSON-encoded tool definitions).")
    ∷ counter (codes "ToolReloadTotal") (codes "make_mcp_tool_reload_total")
    ∷ counter (codes "ToolInvocationsTotal") (codes "make_mcp_tool_invocations_total")
    ∷ record {
      field = codes "ToolInvocationDuration";
      method = codes "Float64Histogram";
      name = codes "make_mcp_tool_invocation_duration_seconds";
      description = [];
      unit = [];
    }
    ∷ bytes_histogram (codes "ToolInvocationBytesIn") (codes "make_mcp_tool_invocation_bytes_in")
        (codes "Bytes received in tool invocation requests (JSON-encoded arguments).")
    ∷ bytes_histogram (codes "ToolInvocationBytesOut") (codes "make_mcp_tool_invocation_bytes_out")
        (codes "Bytes sent in tool invocation responses (stdout + stderr).")
    ∷ record {
      field = codes "ConnectedClients";
      method = codes "Int64UpDownCounter";
      name = codes "make_mcp_connected_clients";
      description = [];
      unit = [];
    }
    ∷ record {
      field = codes "ToolsRegistered";
      method = codes "Int64Gauge";
      name = codes "make_mcp_tools_registered";
      description = codes "Current number of registered MCP tools.";
      unit = [];
    }
    ∷ []

-- The instruments made before the first that the meter refuses, if it refuses one.
unfoldable pub create_all :
    (InstrumentSpec → Bool) → List InstrumentSpec → List InstrumentSpec × Bool
create_all create [] = ([], true)
create_all create (i ∷ is) =
    let (made, done) = create_all create is in if create i then (i ∷ made, done) else ([], false)

-- `initMetrics`: the instruments in use afterwards, and whether it succeeded.
unfoldable pub init_metrics :
    (InstrumentSpec → Bool) → List InstrumentSpec → List InstrumentSpec × Bool
unfolding create_all
init_metrics create in_use =
    let (made, done) = create_all create instruments in
    if done then (made, true) else (in_use, false)
