-- ===== src/Tests/Transporting.antt =====
-- Tests and examples of the end of the server program.
use make_mcp.Common.{◌≡◌, refl, Bool, true, false, ◌||◌, none, some, [], ◌∷◌, arith, if◌then◌else◌}
use make_mcp.Config.{Config, default_config}
use make_mcp.Text.{codes, ◌=?◌, is_space}
use make_mcp.Go.Mime.{media_type_error}
use make_mcp.Schema.{validate_content_type, is_risk}
use make_mcp.Parser.Files.{parse_makefiles}
use make_mcp.Server.Registry.{new}
use make_mcp.Telemetry.Setup.{trace_provider, metric_provider}
use make_mcp.Main.{CommandLine, check_result}
use make_mcp.Main.Lifetime.{World, file_watcher, signals, log_file, telemetry, run_program}
use make_mcp.Main.Lifetime.Closes.{IsClosed, run_program-IsClosed}
use make_mcp.Main.Lifetime.Begins.{Begins, run_program-Begins}
use make_mcp.Tests.{empty_file, only_build, sample_line}
use make_mcp.Main.Transports.{
  Transports, start_transports, failed, serving, reported, Reached, started, next, http_reports,
  received, result_of,
}
use make_mcp.Main.Transports.Ends.{IsFair, Reached-IsFair}

abbrev both_cfg : Config
both_cfg = record default_config { transport = codes "both" }

abbrev at_start : Transports
at_start = record {
  stdio = serving;
  http = serving;
  err_ch = [];
  clients = 2;
  http_shut = false;
  returned = none;
}

start_transports_test : start_transports both_cfg ≡ at_start
unfolding start_transports ◌=?◌
start_transports_test = refl

-- The listener has failed and has sent its error, which `run` has taken.
abbrev http_down : Transports
http_down = record at_start {
  http = reported;
  returned = some (result_of (failed (codes "address in use")));
}

http_down-Reached : Reached both_cfg http_down
unfolding start_transports ◌=?◌
http_down-Reached =
    next
      (next started (
        http_reports (start_transports both_cfg) (failed (codes "address in use")) refl
          (omega arith)))
      (received _ (failed (codes "address in use")) [] refl refl)

Reached-IsFair_example : IsFair http_down
Reached-IsFair_example = Reached-IsFair both_cfg http_down-Reached

-- A machine where the log file opens, and the metric exporter is made or not.
abbrev world : Bool → World
world exporter = record {
  configs = empty_file;
  files = only_build;
  log_opens = λ path. true;
  env = λ name.
      if name =? codes "OTEL_TRACES_EXPORTER" || name =? codes "OTEL_METRICS_EXPORTER"
      then codes "otlp"
      else [];
  library = record {
    resource = true;
    trace_exporter = true;
    metric_exporter = exporter;
    prometheus_exporter = true;
    instruments = true;
  };
  close_result = λ c. none;
  notify = true;
  can_add = λ path. true;
}

abbrev logged_line : CommandLine
logged_line = record sample_line { flags = record sample_line.flags { log_path = codes "mcp.log" } }

run_program_released :
    (run_program (world true) logged_line).held.deferred
    ≡ file_watcher ∷ telemetry metric_provider ∷ telemetry trace_provider ∷ signals ∷ log_file ∷ []
unfolding run_program is_space parse_makefiles check_result validate_content_type media_type_error
    is_risk new
run_program_released = refl

-- The metric exporter fails behind the trace provider.
run_program_leaks : (run_program (world false) logged_line).held ≡ record {
  acquired = log_file ∷ signals ∷ telemetry trace_provider ∷ [];
  deferred = signals ∷ log_file ∷ [];
}
unfolding run_program is_space
run_program_leaks = refl

run_program-IsClosed_example : IsClosed (world true) (run_program (world true) logged_line)
run_program-IsClosed_example = run_program-IsClosed (world true) logged_line

run_program-Begins_example :
    Begins (world true) logged_line (run_program (world true) logged_line).outcome
run_program-Begins_example = run_program-Begins (world true) logged_line
