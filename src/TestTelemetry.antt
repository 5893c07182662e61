-- ===== src/TestTelemetry.antt =====
-- internal/testtel/testtel.go: the telemetry of a test binary, its run with the coverage report, and the span of
-- a test. The OpenTelemetry library is outside.
use make_mcp.Common.{Bool, not, Option, none, some, List, [], ◌∷◌, if◌then◌else◌, is_nil}
use make_mcp.Text.{Text, codes, trim_space}
use make_mcp.Go.Strconv.{ℤ}
use make_mcp.Telemetry.Metrics.{Attribute, text}
use make_mcp.Telemetry.Setup.{
  Closer, trace_provider, metric_provider, InitError, no_resource, no_trace_exporter,
  no_metric_exporter, no_instruments, Environment, Library, Progress, shutdown,
}

-- `Init`: what was started, also where it fails, and the error.
unfoldable pub test_init : Environment → Library → Progress
unfolding trim_space
test_init env lib =
    if is_nil (trim_space (env (codes "OTEL_EXPORTER_OTLP_ENDPOINT")))
    then ([], none)
    else if not lib.resource
    then ([], some no_resource)
    else if not lib.trace_exporter
    then ([], some no_trace_exporter)
    else if not lib.metric_exporter
    then (trace_provider ∷ [], some no_metric_exporter)
    else if not lib.instruments
    then (trace_provider ∷ metric_provider ∷ [], some no_instruments)
    else (trace_provider ∷ metric_provider ∷ [], none)

-- What `RunMain` prints to the standard error.
pub data Warning : Type 0 where
  init_warning : InitError → Warning
  shutdown_warning : Text → Warning

-- A run of the test binary: the warnings, the shutdowns in their order, and the exit code.
pub record MainRun : Type 0 where
  pub warnings : List Warning
  pub closed : List Closer
  pub code : ℤ

abbrev warning_of : Option Text → List Warning
warning_of none = []
warning_of (some e) = shutdown_warning e ∷ []

-- `RunMain`: `report` is what `covercheck.Report` returns.
unfoldable pub run_main : Environment → Library → (Closer → Option Text) → ℤ → MainRun
unfolding test_init shutdown
run_main env lib close report = elim (test_init env lib).1 [
  | some e ↦ record { warnings = init_warning e ∷ []; closed = []; code = report }
  | none ↦
      let ended = shutdown close (test_init env lib).0 in
      record { warnings = warning_of ended.1; closed = ended.0; code = report }
]

-- The end of a test's span: its event, and whether its status is OK.
pub record SpanEnd : Type 0 where
  pub event : Option (Text × List Attribute)
  pub is_ok : Bool

-- The cleanup of `Start`: the end of the span, and the attributes under which the duration is recorded where
-- the instrument exists.
unfoldable pub end_test : Bool → Text → Bool → SpanEnd × Option (List Attribute)
end_test has_instrument name failed =
    let status = if failed then codes "fail" else codes "pass" in
    (
      record {
        event =
            if failed then some (codes "test.failed", text (codes "test.name") name ∷ []) else none;
        is_ok = not failed;
      },
      if has_instrument
          then some (text (codes "test.name") name ∷ text (codes "test.status") status ∷ [])
          else none,
    )

-- OpenTelemetry's trace context, from the W3C text of it.
module _ {C : Type 0} (zero_context : C) (is_valid : C → Bool) (extract : Text → C) where
  -- `externalSpanContext`.
  unfoldable pub external_span_context : Environment → C
  unfolding trim_space
  external_span_context env =
      if is_nil (trim_space (env (codes "TRACEPARENT")))
      then zero_context
      else extract (trim_space (env (codes "TRACEPARENT")))

  -- The root span that `Start` starts: its name, and the span that it is linked to.
  unfoldable pub start_span : Environment → Text → Text × Option C
  unfolding external_span_context
  start_span env name =
      let context = external_span_context env in
      (name, if is_valid context then some context else none)
