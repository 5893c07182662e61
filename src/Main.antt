-- ===== src/Main.antt =====
-- cmd/mcp-server/main.go: the start of the program up to its running server, and the loop that
-- reloads on file events. Flag parsing, logging and the transports are outside.
pub mod Reload
pub mod Reach
pub mod Transports
pub mod Lifetime
pub mod System
use make_mcp.Common.{Bool, false, not, ◌&&◌, ◌||◌, List, [], ◌∷◌, ◌++◌, if◌then◌else◌, is_nil}
use make_mcp.Common.Outcome.{Outcome, ok, fail, ◌>>=◌}
use make_mcp.Text.{Text, codes, ◌=?◌}
use make_mcp.Schema.{Recipe, ValidationError, ParseResult, valid}
use make_mcp.Parser.Lines.{ParseOptions}
use make_mcp.Parser.Files.{FileSystem, FileError, parse_makefiles}
use make_mcp.Config.{Config, ConfigFiles, ConfigError, merge, load_config, zero_config}
use make_mcp.Server.Tools.{MarshalError}
use make_mcp.Server.Registry.{ToolServer, reload_recorded, new, reload}

-- The command line: the path of the configuration file and the flags as an override.
pub record CommandLine : Type 0 where
  pub config_path : Text
  pub flags : Config

pub data StartError : Type 0 where
  config_error : ConfigError → StartError
  no_makefiles : StartError
  unsupported_transport : Text → StartError
  bad_log_path : Text → StartError
  file_error : FileError → StartError
  invalid_recipes : List ValidationError → StartError
  marshal_error : MarshalError → StartError

-- The loop's `*cfg` and the server.
pub record App : Type 0 where
  pub cfg : Config
  pub server : ToolServer

abbrev pub parse_options : Config → ParseOptions
parse_options cfg = record { delimiter = cfg.delimiter; strict = cfg.strict }

unfoldable pub is_transport : Text → Bool
unfolding ◌=?◌
is_transport t = t =? codes "stdio" || t =? codes "http" || t =? codes "both"

-- An error of one of the parts as an error of the start.
abbrev pub lift : {E A : Type 0} → (E → StartError) → Outcome E A → Outcome StartError A
lift f (ok a) = ok a
lift f (fail e) = fail (f e)

-- The tests of the configuration in `run`.
unfoldable pub check_config : Config → Outcome StartError Config
unfolding is_transport ◌=?◌
check_config cfg =
    if is_nil cfg.makefiles
    then fail no_makefiles
    else if not (is_transport cfg.transport)
    then fail (unsupported_transport cfg.transport)
    else if cfg.log_path =? codes "stdin" || cfg.log_path =? codes "stdout"
    then fail (bad_log_path cfg.log_path)
    else ok cfg

-- `if !result.Valid()`.
unfoldable pub check_result : ParseResult → Outcome StartError (List Recipe)
unfolding valid
check_result r = if valid r then ok r.recipes else fail (invalid_recipes r.errors)

-- The server of the recipes that were parsed.
unfoldable pub serve : Config → List Recipe → Outcome StartError App
serve cfg recipes =
    lift marshal_error (new cfg recipes) >>= λ server. ok (record { cfg = cfg; server = server })

-- `run` from the parse up to the new server.
unfoldable pub parse_and_serve : FileSystem → Config → Outcome StartError App
unfolding serve
parse_and_serve fs cfg =
    lift file_error (parse_makefiles fs (parse_options cfg) cfg.makefiles) >>= λ parsed.
    check_result parsed >>= λ recipes. serve cfg recipes

-- `run`, up to the new server.
unfoldable pub start : ConfigFiles → FileSystem → CommandLine → Outcome StartError App
start configs fs line =
    lift config_error (load_config configs line.config_path line.flags) >>= λ loaded.
    check_config loaded >>= λ cfg. parse_and_serve fs cfg

-- `watchPaths`.
unfoldable pub watch_paths : CommandLine → Config → List Text
watch_paths line cfg =
    if is_nil line.config_path then cfg.makefiles else cfg.makefiles ++ line.config_path ∷ []

-- `configPath != "" && event.Path == configPath`.
unfoldable pub is_config_event : CommandLine → Text → Bool
unfolding ◌=?◌
is_config_event line path = not (is_nil line.config_path) && path =? line.config_path

-- The configuration that an event is handled with.
unfoldable pub next_config : ConfigFiles → CommandLine → App → Text → Outcome ConfigError Config
next_config configs line app path =
    if is_config_event line path
    then (load_config configs line.config_path zero_config >>= λ reloaded.
        ok (merge reloaded line.flags))
    else ok app.cfg

-- `telemetry.RecordToolReload` with a failure, and `continue`.
abbrev pub record_failure : Text → App → App
record_failure path app = record app {
  server = record app.server { events = app.server.events ++ reload_recorded path false ∷ [] };
}

-- `server.Reload` and, where it succeeds, `*cfg = nextCfg`.
unfoldable pub install_recipes : App → Config → List Recipe → Text → App
install_recipes app next recipes path =
    let done = reload app.server recipes path in
    if done.1 then record { cfg = next; server = done.0 } else record app { server = done.0 }

-- The body of `watchLoop` from the parse on.
unfoldable pub reparse : FileSystem → App → Config → Text → App
reparse fs app next path = elim (parse_makefiles fs (parse_options next) next.makefiles) [
  | fail e ↦ record_failure path app
  | ok r ↦
      if not (valid r) then record_failure path app else install_recipes app next r.recipes path
]

-- One file event in `watchLoop`, with the contents of the files at that time.
unfoldable pub watch_event : ConfigFiles → FileSystem → CommandLine → App → Text → App
watch_event configs fs line app path = elim (next_config configs line app path) [
  | fail e ↦ record_failure path app
  | ok next ↦ reparse fs app next path
]
