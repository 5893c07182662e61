-- ===== src/Main/Reach.antt =====
-- What holds in every state that the program reaches, whatever the files hold at each event.
use make_mcp.Common.{
  ◌≡◌, refl, sym, ap, ◌∙◌, ◌⊎◌, inl, inr, Bool, true, none, List, [], ◌∷◌, arith, All,
}
use mathlib.Core.Path.{subst}
use make_mcp.Common.Outcome.{Outcome, ok, fail, ◌>>=◌, >>=-eq-ok, ok-injective}
use make_mcp.Text.{Text}
use make_mcp.Schema.{Recipe, ParseResult, valid}
use make_mcp.Parser.Params.Sound.{ParamsOf}
use make_mcp.Parser.Files.{FileSystem, parse_makefiles}
use make_mcp.Parser.Files.Sound.{IsFrom, parse_makefiles-IsFrom}
use make_mcp.Config.{Config, ConfigFiles, load_config}
use make_mcp.Server.Registry.{get_recipe}
use make_mcp.Server.Registry.Reload.{Serves, new-Serves}
use make_mcp.Runner.Stream.{Command, Execution}
use make_mcp.Server.Call.{CallRequest, handle_tool_call}
use make_mcp.Server.Call.Laws.{Runs, not_found, handle_tool_call-Runs}
use make_mcp.Main.{
  App, CommandLine, StartError, parse_options, record_failure, watch_event, start, serve,
  parse_and_serve, check_config, check_result, lift, config_error, file_error, marshal_error,
}
use make_mcp.Main.Reload.{Installs, watch_event_cases}

-- The program starts with some files, and then handles file events one by one, each with the contents
-- that the files have by then.
pub data Reached (line : CommandLine) : App → Type 0 where
  started :
      {app : App} (configs : ConfigFiles) (fs : FileSystem)
      → start configs fs line ≡ ok app
      → Reached line app
  event :
      {app app' : App} (configs : ConfigFiles) (fs : FileSystem) (path : Text)
      → Reached line app
      → app' ≡ watch_event configs fs line app path
      → Reached line app'

-- The server serves the recipes of a valid parse of some files under the configuration in force.
pub record IsLive (app : App) : Type 0 where
  pub fs : FileSystem
  pub parsed : ParseResult
  pub parses : parse_makefiles fs (parse_options app.cfg) app.cfg.makefiles ≡ ok parsed
  pub is_valid : valid parsed ≡ true
  pub serves : Serves app.server parsed.recipes

pub lift-eq-ok :
    {E A : Type 0} (f : E → StartError) (o : Outcome E A) {a : A} → lift f o ≡ ok a → o ≡ ok a
lift-eq-ok f (ok x) h = ground arith
lift-eq-ok f (fail e) h = cc

pub check_config-eq : (c : Config) {cfg : Config} → check_config c ≡ ok cfg → c ≡ cfg
unfolding check_config
check_config-eq c h = ground arith

pub check_result-eq :
    (r : ParseResult) {rs : List Recipe}
    → check_result r ≡ ok rs
    → (valid r ≡ true) × (r.recipes ≡ rs)
unfolding check_result
check_result-eq r h = ground arith

pub serve-Serves :
    (cfg : Config) (rs : List Recipe) {app : App}
    → serve cfg rs ≡ ok app
    → (app.cfg ≡ cfg) × (app.server.cfg ≡ cfg) × Serves app.server rs
unfolding serve
serve-Serves cfg rs {app} h =
    let (s, made, same, serves) = new-Serves cfg rs in
    let e : record { cfg = cfg; server = s } ≡ app = ok-injective (
      sym (
        ap (λ o. lift marshal_error o >>= λ server. ok (record { cfg = cfg; server = server }))
          made)
      ∙ h) in
    subst (λ (a : App). (a.cfg ≡ cfg) × (a.server.cfg ≡ cfg) × Serves a.server rs) e
      (refl, same, serves)

parse_and_serve-IsLive :
    (fs : FileSystem) (cfg : Config) {app : App}
    → parse_and_serve fs cfg ≡ ok app
    → (live : IsLive app) × (live.fs ≡ fs)
unfolding parse_and_serve
parse_and_serve-IsLive fs cfg {app} h =
    let parse = parse_makefiles fs (parse_options cfg) cfg.makefiles in
    let (parsed, p, h1) =
      >>=-eq-ok (lift file_error parse) (λ parsed. check_result parsed >>= λ rs. serve cfg rs) h in
    let (rs, c, h2) = >>=-eq-ok (check_result parsed) (λ rs. serve cfg rs) h1 in
    let (v, same) = check_result-eq parsed c in
    let (at, server_at, serves) = serve-Serves cfg rs h2 in
    (
      record {
        fs = fs;
        parsed = parsed;
        parses =
            ap (λ c. parse_makefiles fs (parse_options c) c.makefiles) at
            ∙ lift-eq-ok file_error parse p;
        is_valid = v;
        serves = subst (λ r. Serves app.server r) (sym same) serves;
      },
      refl,
    )

-- The files of the parse are those that the start reads.
pub start-IsLive :
    (configs : ConfigFiles) (fs : FileSystem) (line : CommandLine) {app : App}
    → start configs fs line ≡ ok app
    → (live : IsLive app) × (live.fs ≡ fs)
unfolding start
start-IsLive configs fs line {app} h =
    let load = load_config configs line.config_path line.flags in
    let (loaded, l, h1) =
      >>=-eq-ok (lift config_error load)
        (λ loaded. check_config loaded >>= λ cfg. parse_and_serve fs cfg) h in
    let (cfg, c, h2) = >>=-eq-ok (check_config loaded) (λ cfg. parse_and_serve fs cfg) h1 in
    parse_and_serve-IsLive fs cfg h2

record_failure-IsLive : (app : App) (path : Text) → IsLive app → IsLive (record_failure path app)
record_failure-IsLive app path l = record {
  fs = l.fs;
  parsed = l.parsed;
  parses = l.parses;
  is_valid = l.is_valid;
  serves = record { listed = l.serves.listed; names = l.serves.names; latest = l.serves.latest };
}

pub Installs-IsLive :
    (fs : FileSystem) (next : Config) (path : Text) (app app' : App)
    → Installs fs next path app app'
    → (live : IsLive app') × (live.fs ≡ fs)
Installs-IsLive fs next path app app' i = (
  record {
    fs = fs;
    parsed = i.parsed;
    parses = ap (λ c. parse_makefiles fs (parse_options c) c.makefiles) i.cfg ∙ i.parses;
    is_valid = i.is_valid;
    serves = i.serves;
  },
  refl,
)

-- In every state that the program reaches by file events, the server lists and answers exactly the
-- recipes of one parse, without violations, of the Makefiles of the configuration in force.
pub Reached-IsLive : {line : CommandLine} {app : App} → Reached line app → IsLive app
Reached-IsLive {line} (started configs fs h) = (start-IsLive configs fs line h).0
Reached-IsLive {line} (event {app} {app'} configs fs path r e) =
    subst IsLive (sym e) (elim (watch_event_cases configs fs line app path) [
      | inl f ↦ subst IsLive (sym f) (record_failure-IsLive app path (Reached-IsLive r))
      | inr (next, why, i) ↦
          (Installs-IsLive fs next path app (watch_event configs fs line app path) i).0
    ])

params_declared :
    (strict : Bool) (paths : List Text) (rs : List Recipe)
    → All (IsFrom strict paths) rs
    → All (λ r. ParamsOf r.params) rs
params_declared strict paths [] h = tt
params_declared strict paths (r ∷ rs) h = (h.0.sound.declared, params_declared strict paths rs h.1)

-- In every state that the program reaches, whatever the files held and whatever the caller sends, a
-- tool call either names no served recipe, and then nothing is run and the reply is the error for an
-- unknown method, or it runs the recipe of that name, which was read from one of the Makefiles of the
-- configuration in force and is sound, by a command with the recipe's own target and nothing but
-- assignments behind it.
pub Reached-handle_tool_call :
    {line : CommandLine} {app : App} (exec : Command → Execution) (req : CallRequest)
    → Reached line app
    → ((get_recipe app.server.registry req.name ≡ none)
        × (handle_tool_call exec app.server req ≡ not_found))
      ⊎ (rs : List Recipe) × All (IsFrom app.cfg.strict app.cfg.makefiles) rs
        × Runs exec app.server rs req
Reached-handle_tool_call {line} {app} exec req r =
    let live = Reached-IsLive r in
    let from =
      parse_makefiles-IsFrom live.fs (parse_options app.cfg) app.cfg.makefiles live.parses
        live.is_valid in
    elim (handle_tool_call-Runs exec app.server live.parsed.recipes req live.serves
      (params_declared app.cfg.strict app.cfg.makefiles live.parsed.recipes from)) [
        | inl n ↦ inl n
        | inr runs ↦ inr (live.parsed.recipes, from, runs)
      ]
