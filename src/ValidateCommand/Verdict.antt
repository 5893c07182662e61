-- ===== src/ValidateCommand/Verdict.antt =====
-- The exit status of the validate command says whether the server takes the same files.
use make_mcp.Common.{
  ◌≡◌, refl, sym, ap, ◌∙◌, ◌↔◌, inl, inr, true, false, List, [], ◌∷◌, arith, Bool-cases, is_nil,
}
use make_mcp.Common.Outcome.{Outcome, ok, fail, ◌>>=◌, >>=-eq-ok}
use make_mcp.Text.{Text}
use make_mcp.Schema.{Recipe, ParseResult, valid}
use make_mcp.Parser.Files.{FileSystem, FileError, parse_makefiles}
use make_mcp.Config.{Config, ConfigFiles, load_config}
use make_mcp.Server.Registry.Reload.{new-Serves}
use make_mcp.Main.{
  CommandLine, App, parse_options, start, check_config, check_result, serve, parse_and_serve, lift,
  config_error, file_error, marshal_error,
}
use make_mcp.Main.Reach.{lift-eq-ok, check_result-eq}
use make_mcp.ValidateCommand.{
  validate_run, validate_files, exit_status, layered_config, report_result, as_error, bad_config,
}
use make_mcp.Parser.Files.Quiet.{Quiet, parse_makefiles-Quiet}

layered_config-eq :
    (files : ConfigFiles) (line : CommandLine)
    → layered_config files line ≡ load_config files line.config_path line.flags
unfolding layered_config load_config
layered_config-eq files line = go line.config_path
  where
    go :
        (path : Text)
        → layered_config files (record line { config_path = path })
          ≡ load_config files path line.flags
    go [] = refl
    go (c ∷ path) = refl

report_result-status :
    (r : ParseResult) → Quiet r → ((report_result r).status ≡ 0) ↔ (valid r ≡ true)
unfolding report_result valid
report_result-status r q = ground arith

validate_files_none :
    (fs : FileSystem) (cfg : Config)
    → is_nil cfg.makefiles ≡ true
    → exit_status (validate_files fs cfg) ≡ 1
unfolding validate_files exit_status
validate_files_none fs cfg e = rw e refl

validate_files_ok :
    (fs : FileSystem) (cfg : Config) {r : ParseResult}
    → is_nil cfg.makefiles ≡ false
    → parse_makefiles fs (parse_options cfg) cfg.makefiles ≡ ok r
    → exit_status (validate_files fs cfg) ≡ (report_result r).status
unfolding validate_files exit_status
validate_files_ok fs cfg e p = rw (e, p) refl

validate_files_fail :
    (fs : FileSystem) (cfg : Config) {e : FileError}
    → is_nil cfg.makefiles ≡ false
    → parse_makefiles fs (parse_options cfg) cfg.makefiles ≡ fail e
    → exit_status (validate_files fs cfg) ≡ 1
unfolding validate_files exit_status
validate_files_fail fs cfg n p = rw (n, p) refl

validate_files-status :
    (fs : FileSystem) (cfg : Config)
    → exit_status (validate_files fs cfg) ≡ 0
    → (parsed : ParseResult) × (is_nil cfg.makefiles ≡ false)
      × (parse_makefiles fs (parse_options cfg) cfg.makefiles ≡ ok parsed)
      × (valid parsed ≡ true)
validate_files-status fs cfg h = elim (Bool-cases (is_nil cfg.makefiles)) [
  | inl e ↦ absurd (omega (arith, h, validate_files_none fs cfg e))
  | inr e ↦ go (parse_makefiles fs (parse_options cfg) cfg.makefiles) refl e
]
  where
    go :
        (o : Outcome FileError ParseResult)
        → parse_makefiles fs (parse_options cfg) cfg.makefiles ≡ o
        → is_nil cfg.makefiles ≡ false
        → (parsed : ParseResult) × (is_nil cfg.makefiles ≡ false)
          × (parse_makefiles fs (parse_options cfg) cfg.makefiles ≡ ok parsed)
          × (valid parsed ≡ true)
    go (fail f) p e = absurd (omega (arith, h, validate_files_fail fs cfg e p))
    go (ok r) p e = (
      r,
      e,
      p,
      (report_result-status r (parse_makefiles-Quiet fs (parse_options cfg) cfg.makefiles p)).0
          (sym (validate_files_ok fs cfg e p) ∙ h),
    )

validate_run_files :
    (files : ConfigFiles) (fs : FileSystem) (line : CommandLine) {cfg : Config}
    → load_config files line.config_path line.flags ≡ ok cfg
    → validate_run files fs line ≡ validate_files fs cfg
unfolding validate_run
validate_run_files files fs line {cfg} l =
    ap (λ o. as_error bad_config o >>= λ cfg. validate_files fs cfg)
      (layered_config-eq files line ∙ l)

start_parse :
    (files : ConfigFiles) (fs : FileSystem) (line : CommandLine) {cfg : Config}
    → load_config files line.config_path line.flags ≡ ok cfg
    → check_config cfg ≡ ok cfg
    → start files fs line ≡ parse_and_serve fs cfg
unfolding start
start_parse files fs line {cfg} l c =
    ap
      (λ o. lift config_error o >>= λ loaded. check_config loaded >>= λ cfg. parse_and_serve fs cfg)
      l
    ∙ ap (λ o. o >>= λ cfg. parse_and_serve fs cfg) c

serve_total : (cfg : Config) (rs : List Recipe) → (app : App) × (serve cfg rs ≡ ok app)
unfolding serve
serve_total cfg rs =
    let (s, made, same, serves) = new-Serves cfg rs in
    (
      record { cfg = cfg; server = s },
      ap (λ o. lift marshal_error o >>= λ server. ok (record { cfg = cfg; server = server })) made,
    )

parse_and_serve-valid :
    (fs : FileSystem) (cfg : Config) {r : ParseResult}
    → parse_makefiles fs (parse_options cfg) cfg.makefiles ≡ ok r
    → valid r ≡ true
    → (app : App) × (parse_and_serve fs cfg ≡ ok app)
unfolding parse_and_serve check_result
parse_and_serve-valid fs cfg {r} p v =
    let (app, served) = serve_total cfg r.recipes in
    (
      app,
      ap (λ o. lift file_error o >>= λ parsed. check_result parsed >>= λ rs. serve cfg rs) p
          ∙ (rw v served),
    )

parse_and_serve-parsed :
    (fs : FileSystem) (cfg : Config) {app : App}
    → parse_and_serve fs cfg ≡ ok app
    → (r : ParseResult) × (parse_makefiles fs (parse_options cfg) cfg.makefiles ≡ ok r)
      × (valid r ≡ true)
unfolding parse_and_serve
parse_and_serve-parsed fs cfg h =
    let parse = parse_makefiles fs (parse_options cfg) cfg.makefiles in
    let (parsed, p, rest) =
      >>=-eq-ok (lift file_error parse) (λ parsed. check_result parsed >>= λ rs. serve cfg rs) h in
    let (rs, c, served) = >>=-eq-ok (check_result parsed) (λ rs. serve cfg rs) rest in
    (parsed, lift-eq-ok file_error parse p, (check_result-eq parsed c).0)

check_config_files : (cfg : Config) → check_config cfg ≡ ok cfg → is_nil cfg.makefiles ≡ false
unfolding check_config
check_config_files cfg h = ground arith

-- For the same command line and the same files, where the configuration loads and passes the server's
-- own tests, the validate command exits with status 0 exactly if the server starts.
pub validate_run-start :
    (files : ConfigFiles) (fs : FileSystem) (line : CommandLine) {cfg : Config}
    → load_config files line.config_path line.flags ≡ ok cfg
    → check_config cfg ≡ ok cfg
    → (exit_status (validate_run files fs line) ≡ 0)
      ↔ ((app : App) × (start files fs line ≡ ok app))
validate_run-start files fs line {cfg} l c = (
  λ status.
      let (r, some_files, p, v) =
        validate_files-status fs cfg
          (sym (ap exit_status (validate_run_files files fs line l)) ∙ status) in
      let (app, served) = parse_and_serve-valid fs cfg p v in
      (app, start_parse files fs line l c ∙ served),
  λ (app, started).
      let (r, p, v) =
        parse_and_serve-parsed fs cfg (sym (start_parse files fs line l c) ∙ started) in
      ap exit_status (validate_run_files files fs line l)
      ∙ (validate_files_ok fs cfg (check_config_files cfg c) p
          ∙ (report_result-status r
                (parse_makefiles-Quiet fs (parse_options cfg) cfg.makefiles p)).1
              v),
)
