-- ===== src/Main/Lifetime.antt =====
-- The whole of `run` of cmd/mcp-server/main.go behind the command line: what it opens, what its deferred calls
-- close when it returns, and what it returns.
pub mod Closes
pub mod Serves
pub mod Checks
pub mod Begins
use make_mcp.Common.{
  Bool, not, ◌||◌, Option, none, some, List, [], ◌∷◌, ◌++◌, map, if◌then◌else◌, is_nil,
}
use make_mcp.Common.Outcome.{Outcome, ok, fail, ◌>>=◌}
use make_mcp.Text.{Text, codes, ◌=?◌}
use make_mcp.Parser.Files.{FileSystem}
use make_mcp.Config.{Config, ConfigFiles, load_config}
use make_mcp.Go.Strconv.{pos}
use make_mcp.Telemetry.Setup.{Closer, InitError, Library, Environment, init, shutdown}
use make_mcp.Watcher.{Watcher, new_watcher}
use make_mcp.Main.{
  CommandLine, StartError, App, config_error, lift, check_config, parse_and_serve, watch_paths,
}
use make_mcp.Main.Transports.{Transports, start_transports}

-- What `run` opens.
pub data Resource : Type 0 where
  log_file signals file_watcher : Resource
  telemetry : Closer → Resource

-- The surroundings of a run: the files, whether the log file opens, the environment and the OpenTelemetry
-- library with the result of each shutdown, and whether fsnotify makes a watcher and takes a path.
pub record World : Type 0 where
  pub configs : ConfigFiles
  pub files : FileSystem
  pub log_opens : Text → Bool
  pub env : Environment
  pub library : Library
  pub close_result : Closer → Option Text
  pub notify : Bool
  pub can_add : Text → Bool

pub data RunError : Type 0 where
  start_error : StartError → RunError
  no_log : Text → RunError
  telemetry_error : InitError → RunError
  watcher_error : RunError

pub record Running : Type 0 where
  pub app : App
  pub watcher : Watcher
  pub transports : Transports

-- `acquired` in the order of the calls; `deferred` in the order in which the deferred calls run.
pub record Held : Type 0 where
  pub acquired : List Resource
  pub deferred : List Resource

-- What `run` holds when it returns, or when it goes on to wait for the transports.
pub record Ending : Type 0 where
  pub held : Held
  pub outcome : Outcome RunError Running

abbrev pub nothing : Held
nothing = record { acquired = []; deferred = [] }

abbrev pub take : Resource → Held → Held
take r h = record { acquired = h.acquired ++ r ∷ []; deferred = r ∷ h.deferred }

-- The deferred call of the shutdown function that `Init` returned for `fns`.
unfoldable pub take_telemetry : World → List Closer → Held → Held
unfolding shutdown
take_telemetry w fns h = record {
  acquired = h.acquired ++ map telemetry fns;
  deferred = map telemetry (shutdown w.close_result fns).0 ++ h.deferred;
}

abbrev pub watcher_of : World → CommandLine → App → Option Watcher
watcher_of w line app =
    if w.notify then new_watcher w.can_add (watch_paths line app.cfg) (pos 0) else none

abbrev pub running_of : App → Watcher → Running
running_of app watcher = record {
  app = app;
  watcher = watcher;
  transports = start_transports app.cfg;
}

-- `watcher.New`, the end of the set-up, and the transports.
unfoldable pub run_watcher : World → CommandLine → App → Held → Ending
unfolding watch_paths new_watcher start_transports
run_watcher w line app h = elim (watcher_of w line app) [
  | none ↦ record { held = h; outcome = fail watcher_error }
  | some watcher ↦ record {
    held = take file_watcher h;
    outcome = ok (record { app = app; watcher = watcher; transports = start_transports app.cfg });
  }
]

-- `parser.ParseMakefiles` and the new server.
unfoldable pub run_server : World → CommandLine → Config → Held → Ending
unfolding parse_and_serve run_watcher
run_server w line cfg h = elim (parse_and_serve w.files cfg) [
  | fail e ↦ record { held = h; outcome = fail (start_error e) }
  | ok app ↦ run_watcher w line app h
]

-- `telemetry.Init`. Where it fails it gives no function for the shutdown of what it has started.
unfoldable pub run_telemetry : World → CommandLine → Config → Held → Ending
unfolding init take_telemetry run_server
run_telemetry w line cfg h = elim (init w.env w.library).1 [
  | some e ↦ record {
    held = record h { acquired = h.acquired ++ map telemetry (init w.env w.library).0 };
    outcome = fail (telemetry_error e);
  }
  | none ↦ run_server w line cfg (take_telemetry w (init w.env w.library).0 h)
]

-- The switch on `cfg.LogPath`, and `signal.NotifyContext`.
unfoldable pub run_log : World → CommandLine → Config → Ending
unfolding ◌=?◌ run_telemetry
run_log w line cfg =
    if cfg.log_path =? codes "stderr" || is_nil cfg.log_path
    then run_telemetry w line cfg (take signals nothing)
    else if not (w.log_opens cfg.log_path)
    then record { held = nothing; outcome = fail (no_log cfg.log_path) }
    else run_telemetry w line cfg (take signals (take log_file nothing))

-- `loadConfig` and the tests of the configuration.
abbrev pub loaded_config : World → CommandLine → Outcome StartError Config
loaded_config w line =
    lift config_error (load_config w.configs line.config_path line.flags) >>= λ loaded.
    check_config loaded

-- `run` behind the command line.
unfoldable pub run_program : World → CommandLine → Ending
unfolding load_config check_config run_log
run_program w line = elim (loaded_config w line) [
  | fail e ↦ record { held = nothing; outcome = fail (start_error e) }
  | ok cfg ↦ run_log w line cfg
]
