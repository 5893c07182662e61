-- ===== src/Telemetry/Setup.antt =====
-- pkg/telemetry/telemetry.go: `Init` with the two providers, the address of the Prometheus server, and the
-- shutdown function that it returns.
pub mod Shutdown
use make_mcp.Common.{
  Bool, false, not, ◌||◌, Option, none, some, List, [], ◌∷◌, ◌++◌, ◌==◌, if◌then◌else◌, is_nil,
}
use make_mcp.Text.{Text, codes, ◌=?◌, trim_space}

-- What is shut down in the end; the server has its address.
pub data Closer : Type 0 where
  trace_provider metric_provider : Closer
  prometheus_server : Text → Closer

pub data InitError : Type 0 where
  no_resource no_trace_exporter no_metric_exporter no_prometheus_exporter no_instruments : InitError
  unsupported_traces unsupported_metrics : Text → InitError

-- The calls of the OpenTelemetry library and of `initMetrics`: whether each succeeds.
pub record Library : Type 0 where
  pub resource : Bool
  pub trace_exporter : Bool
  pub metric_exporter : Bool
  pub prometheus_exporter : Bool
  pub instruments : Bool

-- `os.Getenv`, empty where a variable is not set.
abbrev pub Environment : Type 0
Environment = Text → Text

-- The shutdown functions so far, and the error.
abbrev pub Progress : Type 0
Progress = List Closer × Option InitError

unfoldable pub has_colon : Text → Bool
has_colon [] = false
has_colon (c ∷ s) = c == b':' || has_colon s

-- `net.JoinHostPort`.
unfoldable pub join_host_port : Text → Text → Text
unfolding has_colon
join_host_port host port =
    if has_colon host then b'[' ∷ (host ++ b']' ∷ b':' ∷ port) else host ++ b':' ∷ port

abbrev or_default : Text → Text → Text
or_default value default_value = if is_nil value then default_value else value

-- `prometheusAddr`.
unfoldable pub prometheus_addr : Environment → Text
unfolding join_host_port trim_space
prometheus_addr env =
    join_host_port
      (or_default (trim_space (env (codes "OTEL_EXPORTER_PROMETHEUS_HOST"))) (codes "127.0.0.1"))
      (or_default (trim_space (env (codes "OTEL_EXPORTER_PROMETHEUS_PORT"))) (codes "9090"))

-- `initTraceProvider` at the exporter's name.
unfoldable pub trace_provider_for : Library → Text → List Closer → Progress
unfolding ◌=?◌
trace_provider_for lib exporter fns =
    if is_nil exporter || exporter =? codes "none"
    then (fns, none)
    else if not (exporter =? codes "otlp")
    then (fns, some (unsupported_traces exporter))
    else if not lib.trace_exporter
    then (fns, some no_trace_exporter)
    else (fns ++ trace_provider ∷ [], none)

-- `initTraceProvider`.
unfoldable pub init_trace_provider : Environment → Library → List Closer → Progress
unfolding trim_space trace_provider_for
init_trace_provider env lib fns =
    trace_provider_for lib (trim_space (env (codes "OTEL_TRACES_EXPORTER"))) fns

-- The switch of `initMetricProvider`; the address is that of the Prometheus server.
unfoldable pub metric_provider_for : Library → Text → Text → List Closer → Progress
unfolding ◌=?◌
metric_provider_for lib address exporter fns =
    if exporter =? codes "none"
    then (fns, none)
    else if exporter =? codes "otlp"
    then (if not lib.metric_exporter
        then (fns, some no_metric_exporter)
        else (fns ++ metric_provider ∷ [], none))
    else if exporter =? codes "prometheus"
    then (if not lib.prometheus_exporter
        then (fns, some no_prometheus_exporter)
        else (fns ++ metric_provider ∷ prometheus_server address ∷ [], none))
    else (fns, some (unsupported_metrics exporter))

-- `initMetricProvider`.
unfoldable pub init_metric_provider : Environment → Library → List Closer → Progress
unfolding trim_space metric_provider_for prometheus_addr
init_metric_provider env lib fns =
    metric_provider_for lib (prometheus_addr env)
      (or_default (trim_space (env (codes "OTEL_METRICS_EXPORTER"))) (codes "prometheus")) fns

-- A step behind one that succeeded.
abbrev pub then_next : Progress → (List Closer → Progress) → Progress
then_next (fns, none) next = next fns
then_next (fns, some e) next = (fns, some e)

-- `Init`: what was started, also where it fails, and the error.
unfoldable pub init : Environment → Library → Progress
unfolding init_trace_provider init_metric_provider
init env lib =
    if not lib.resource
    then ([], some no_resource)
    else then_next (init_trace_provider env lib []) (λ fns.
      then_next (init_metric_provider env lib fns)
        (λ fns'. if not lib.instruments then (fns', some no_instruments) else (fns', none)))

-- `if err != nil && firstErr == nil { firstErr = err }`.
abbrev pub keep_first {ℓ} : {E : Type ℓ} → Option E → Option E → Option E
keep_first none e = e
keep_first (some first) e = some first

-- The returned function: the closers in the order of their calls, and the error; `close` is the result of
-- each. The loop runs from the last to the first.
unfoldable pub shutdown {ℓ} :
    {E : Type ℓ} → (Closer → Option E) → List Closer → List Closer × Option E
shutdown close [] = ([], none)
shutdown close (fn ∷ fns) =
    let (called, first) = shutdown close fns in (called ++ fn ∷ [], keep_first first (close fn))
