-- ===== src/Main/Lifetime/Serves.antt =====
-- The whole run starts the server that `start` describes.
use make_mcp.Common.{
  ◌≡◌, refl, sym, inl, inr, false, ◌||◌, none, some, Bool-cases, Option-cases, is_nil,
}
use make_mcp.Common.Outcome.{Outcome, ok, fail, ◌>>=◌, >>=_assoc, Outcome-cases}
use make_mcp.Text.{codes, ◌=?◌}
use make_mcp.Config.{Config, load_config}
use make_mcp.Telemetry.Setup.{init}
use make_mcp.Main.{
  CommandLine, App, StartError, config_error, lift, check_config, parse_and_serve, start,
}
use make_mcp.Main.Transports.{start_transports}
use make_mcp.Main.Lifetime.{
  World, RunError, start_error, no_log, telemetry_error, watcher_error, Running, log_file, signals,
  Held, take, nothing, take_telemetry, run_watcher, run_server, run_telemetry, run_log, run_program,
  watcher_of, loaded_config,
}

-- The outcome of the whole run against an outcome of the start of the server.
abbrev pub Agrees : World → CommandLine → Outcome StartError App → Outcome RunError Running → Type 0
Agrees w line begun (ok r) =
    (begun ≡ ok r.app)
    × (watcher_of w line r.app ≡ some r.watcher)
    × (r.transports ≡ start_transports r.app.cfg)
Agrees w line begun (fail (start_error e)) = begun ≡ fail e
Agrees w line begun (fail (no_log path)) = w.log_opens path ≡ false
Agrees w line begun (fail (telemetry_error e)) = (init w.env w.library).1 ≡ some e
Agrees w line begun (fail watcher_error) =
    (app : App) × (begun ≡ ok app) × (watcher_of w line app ≡ none)

run_watcher-Agrees :
    (w : World) (line : CommandLine) (app : App) (h : Held)
    → Agrees w line (ok app) (run_watcher w line app h).outcome
unfolding run_watcher
run_watcher-Agrees w line app h = elim (Option-cases (watcher_of w line app)) [
  | inl e ↦ rw (e, run_watcher) (app, refl, e)
  | inr (watcher, e) ↦ rw (e, run_watcher) (refl, e, refl)
]

run_server-Agrees :
    (w : World) (line : CommandLine) (cfg : Config) (h : Held)
    → Agrees w line (parse_and_serve w.files cfg) (run_server w line cfg h).outcome
unfolding run_server
run_server-Agrees w line cfg h = elim (Outcome-cases (parse_and_serve w.files cfg)) [
  | inl (e, p) ↦ rw (p, run_server)
  | inr (app, p) ↦ rw (p, run_server) (run_watcher-Agrees w line app h)
]

run_telemetry-Agrees :
    (w : World) (line : CommandLine) (cfg : Config) (h : Held)
    → Agrees w line (parse_and_serve w.files cfg) (run_telemetry w line cfg h).outcome
unfolding run_telemetry
run_telemetry-Agrees w line cfg h = elim (Option-cases (init w.env w.library).1) [
  | inl e ↦
      rw (e, run_telemetry)
        (run_server-Agrees w line cfg (take_telemetry w (init w.env w.library).0 h))
  | inr (why, e) ↦ rw (e, run_telemetry) e
]

run_log-Agrees :
    (w : World) (line : CommandLine) (cfg : Config)
    → Agrees w line (parse_and_serve w.files cfg) (run_log w line cfg).outcome
unfolding run_log
run_log-Agrees w line cfg =
    elim (Bool-cases (cfg.log_path =? codes "stderr" || is_nil cfg.log_path)) [
      | inl e ↦ rw (e, run_log) (run_telemetry-Agrees w line cfg (take signals nothing))
      | inr n ↦ elim (Bool-cases (w.log_opens cfg.log_path)) [
        | inl e ↦
            rw (n, e, run_log)
              (run_telemetry-Agrees w line cfg (take signals (take log_file nothing)))
        | inr m ↦ rw (n, m, run_log) m
      ]
    ]

start_loaded :
    (w : World) (line : CommandLine)
    → start w.configs w.files line ≡ (loaded_config w line >>= λ cfg. parse_and_serve w.files cfg)
unfolding start
start_loaded w line = sym (
    >>=_assoc (lift config_error (load_config w.configs line.config_path line.flags))
      (λ c. check_config c) (λ cfg. parse_and_serve w.files cfg))

loaded-Agrees :
    (w : World) (line : CommandLine)
    → Agrees w line
        (loaded_config w line >>= λ cfg. parse_and_serve w.files cfg)
        (run_program w line).outcome
unfolding run_program
loaded-Agrees w line = elim (Outcome-cases (loaded_config w line)) [
  | inl (e, p) ↦ rw (p, run_program)
  | inr (cfg, p) ↦ rw (p, run_program) (run_log-Agrees w line cfg)
]

-- The whole of `run`, with its log file, signals, telemetry and watcher, against the start of the server alone:
-- where it goes on to wait, it has the server that `start` gives, a watcher on the Makefiles and the
-- configuration file, and the transports of the configuration; where it returns an error of the
-- configuration, the parse or the server, `start` gives that error; and any other error is that of a log file
-- that does not open, of `telemetry.Init`, or of the watcher behind a server that was started.
pub run_program-Agrees :
    (w : World) (line : CommandLine)
    → Agrees w line (start w.configs w.files line) (run_program w line).outcome
run_program-Agrees w line = rw (start_loaded w line) (loaded-Agrees w line)
