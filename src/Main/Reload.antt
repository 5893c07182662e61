-- ===== src/Main/Reload.antt =====
-- One file event: it installs a valid new parse whole, or keeps all but the record of the failure.
use make_mcp.Common.{
  ◌≡◌, refl, sym, ap, ◌∙◌, ◌⊎◌, inl, inr, true, false, [], ◌∷◌, ◌++◌, arith, Bool-cases,
}
use make_mcp.Common.Outcome.{Outcome, ok, fail}
use make_mcp.Text.{Text}
use make_mcp.Schema.{ParseResult, valid}
use make_mcp.Parser.Lines.{ParseOptions}
use make_mcp.Parser.Files.{FileSystem, FileError, parse_makefiles}
use make_mcp.Config.{Config, ConfigFiles, ConfigError, load_config}
use make_mcp.Config.Merge.{load_config_reload}
use make_mcp.Server.Registry.{reload_recorded, list_changed, tools_registered, reload, ready}
use make_mcp.Server.Registry.Reload.{Serves, reload-Serves, ready-Serves}
use make_mcp.Main.{
  App, CommandLine, no_makefiles, parse_options, next_config, record_failure, install_recipes,
  reparse, watch_event, is_config_event, start, check_config,
}

-- The new parse of a configuration is installed.
pub record Installs (fs : FileSystem) (next : Config) (path : Text) (app app' : App) : Type 0 where
  pub parsed : ParseResult
  pub parses : parse_makefiles fs (parse_options next) next.makefiles ≡ ok parsed
  pub is_valid : valid parsed ≡ true
  pub cfg : app'.cfg ≡ next
  pub server_cfg : app'.server.cfg ≡ app.server.cfg
  pub serves : Serves app'.server parsed.recipes
  pub events :
      app'.server.events
      ≡ app.server.events
        ++ list_changed ∷ reload_recorded path true ∷ tools_registered parsed.recipes ∷ []

install_recipes-Installs :
    (fs : FileSystem) (app : App) (next : Config) (r : ParseResult) (path : Text)
    → parse_makefiles fs (parse_options next) next.makefiles ≡ ok r
    → valid r ≡ true
    → Installs fs next path app (install_recipes app next r.recipes path)
unfolding install_recipes
install_recipes-Installs fs app next r path p v =
    let (done, same, serves, told) = reload-Serves app.server r.recipes path in
    rw done (record {
      parsed = r;
      parses = p;
      is_valid = v;
      cfg = refl;
      server_cfg = same;
      serves = serves;
      events = told;
    })

reparse_cases :
    (fs : FileSystem) (app : App) (next : Config) (path : Text)
    → (reparse fs app next path ≡ record_failure path app)
      ⊎ Installs fs next path app (reparse fs app next path)
unfolding reparse
reparse_cases fs app next path = go (parse_makefiles fs (parse_options next) next.makefiles) refl
  where
    go :
        (o : Outcome FileError ParseResult)
        → parse_makefiles fs (parse_options next) next.makefiles ≡ o
        → (reparse fs app next path ≡ record_failure path app)
          ⊎ Installs fs next path app (reparse fs app next path)
    go (fail e) p = inl (rw (p, reparse))
    go (ok r) p = elim (Bool-cases (valid r)) [
      | inl v ↦ inr (rw (p, reparse) (rw v (install_recipes-Installs fs app next r path p v)))
      | inr v ↦ inl (rw (p, reparse) (rw v))
    ]

next_config_cases :
    (configs : ConfigFiles) (line : CommandLine) (app : App) (path : Text) {next : Config}
    → next_config configs line app path ≡ ok next
    → (is_config_event line path ≡ false) × (next ≡ app.cfg)
      ⊎ (is_config_event line path ≡ true)
        × (load_config configs line.config_path line.flags ≡ ok next)
unfolding next_config
next_config_cases configs line app path {next} h = elim (Bool-cases (is_config_event line path)) [
  | inl e ↦ inr (e, sym (load_config_reload configs line.config_path line.flags) ∙ (rw e at h))
  | inr e ↦ inl (e, ground arith)
]

-- A file event either changes nothing but the record of its failure, or installs a whole new parse: of
-- the current configuration, and, for an event on the configuration file, of the one that a fresh start
-- with the same command line would load. The installed server lists and answers exactly the recipes of
-- a valid parse, and the clients are told.
pub watch_event_cases :
    (configs : ConfigFiles) (fs : FileSystem) (line : CommandLine) (app : App) (path : Text)
    → (watch_event configs fs line app path ≡ record_failure path app)
      ⊎ (next : Config) × ((is_config_event line path ≡ false) × (next ≡ app.cfg)
          ⊎ (is_config_event line path ≡ true)
            × (load_config configs line.config_path line.flags ≡ ok next))
        × Installs fs next path app (watch_event configs fs line app path)
unfolding watch_event
watch_event_cases configs fs line app path = go (next_config configs line app path) refl
  where
    go :
        (o : Outcome ConfigError Config)
        → next_config configs line app path ≡ o
        → (watch_event configs fs line app path ≡ record_failure path app)
          ⊎ (next : Config) × ((is_config_event line path ≡ false) × (next ≡ app.cfg)
              ⊎ (is_config_event line path ≡ true)
                × (load_config configs line.config_path line.flags ≡ ok next))
            × Installs fs next path app (watch_event configs fs line app path)
    go (fail e) n = inl (rw (n, watch_event))
    go (ok next) n = elim (reparse_cases fs app next path) [
      | inl r ↦ inl (rw (n, watch_event) r)
      | inr i ↦ inr (next, next_config_cases configs line app path n, rw (n, watch_event) i)
    ]

-- No file event changes the configuration that the server itself works with, on any branch: the
-- timeouts, the debug flag and the root directory stay those of the start.
pub watch_event-server_cfg :
    (configs : ConfigFiles) (fs : FileSystem) (line : CommandLine) (app : App) (path : Text)
    → (watch_event configs fs line app path).server.cfg ≡ app.server.cfg
watch_event-server_cfg configs fs line app path =
    elim (watch_event_cases configs fs line app path) [
      | inl f ↦ ap (λ a. a.server.cfg) f
      | inr (next, why, i) ↦ i.server_cfg
    ]

parse_no_files :
    (fs : FileSystem) (opts : ParseOptions)
    → parse_makefiles fs opts [] ≡ ok (record { recipes = []; errors = [] })
unfolding parse_makefiles
parse_no_files fs opts = refl

reparse_no_files :
    (fs : FileSystem) (app : App) (next : Config) (path : Text)
    → next.makefiles ≡ []
    → reparse fs app next path ≡ install_recipes app next [] path
unfolding reparse valid
reparse_no_files fs app next path e =
    rw
      (
        ap (parse_makefiles fs (parse_options next)) e ∙ parse_no_files fs (parse_options next),
        reparse,
      )
      refl

next_config-config_event :
    (configs : ConfigFiles) (line : CommandLine) (app : App) (path : Text) {next : Config}
    → is_config_event line path ≡ true
    → load_config configs line.config_path line.flags ≡ ok next
    → next_config configs line app path ≡ ok next
unfolding next_config
next_config-config_event configs line app path e l =
    rw e (load_config_reload configs line.config_path line.flags ∙ l)

watch_event_no_files :
    (configs : ConfigFiles) (fs : FileSystem) (line : CommandLine) (app : App) (path : Text)
    {next : Config}
    → next_config configs line app path ≡ ok next
    → next.makefiles ≡ []
    → watch_event configs fs line app path ≡ install_recipes app next [] path
unfolding watch_event
watch_event_no_files configs fs line app path {next} n e =
    rw (n, watch_event) (reparse_no_files fs app next path e)

install_recipes_none :
    (app : App) (next : Config) (path : Text)
    → ((install_recipes app next [] path).cfg ≡ next)
      × (ready (install_recipes app next [] path).server ≡ false)
unfolding install_recipes
install_recipes_none app next path =
    let (done, same, serves, told) = reload-Serves app.server [] path in
    rw done (refl, ready-Serves (reload app.server [] path).0 [] serves)

start_no_files :
    (configs : ConfigFiles) (fs : FileSystem) (line : CommandLine) {next : Config}
    → load_config configs line.config_path line.flags ≡ ok next
    → next.makefiles ≡ []
    → start configs fs line ≡ fail no_makefiles
unfolding start check_config
start_no_files configs fs line {next} l e = rw (l, start) (rw e refl)

-- A configuration file that comes to list no Makefiles is installed by the reload, and leaves a server
-- that is not ready, while a start with the same files refuses it.
pub watch_event-no_makefiles :
    (configs : ConfigFiles) (fs : FileSystem) (line : CommandLine) (app : App) (path : Text)
    {next : Config}
    → is_config_event line path ≡ true
    → load_config configs line.config_path line.flags ≡ ok next
    → next.makefiles ≡ []
    → ((watch_event configs fs line app path).cfg ≡ next)
      × (ready (watch_event configs fs line app path).server ≡ false)
      × (start configs fs line ≡ fail no_makefiles)
watch_event-no_makefiles configs fs line app path {next} e l none_left =
    let same =
      watch_event_no_files configs fs line app path
        (next_config-config_event configs line app path e l) none_left in
    let (cfg, not_ready) = install_recipes_none app next path in
    (
      ap (λ a. a.cfg) same ∙ cfg,
      ap (λ a. ready a.server) same ∙ not_ready,
      start_no_files configs fs line l none_left,
    )
