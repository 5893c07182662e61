-- ===== src/Main/Lifetime/Checks.antt =====
-- What `run` tests of the configuration that it has loaded.
use make_mcp.Common.{◌≡◌, sym, ap, ◌∙◌, ◌≢◌, true, [], arith, is_nil}
use mathlib.Core.Path.{subst}
use make_mcp.Common.Outcome.{ok, ◌>>=◌, >>=-eq-ok}
use make_mcp.Text.{codes}
use make_mcp.Text.Equal.{=?_iff}
use make_mcp.Config.{Config, ConfigFiles, load_config}
use make_mcp.Parser.Files.{FileSystem, parse_makefiles}
use make_mcp.Main.{
  CommandLine, App, config_error, file_error, lift, check_config, check_result, serve,
  parse_options, parse_and_serve, start, is_transport,
}
use make_mcp.Main.Reach.{check_config-eq, serve-Serves}

-- What the tests of `run` ensure.
pub record IsChecked (cfg : Config) : Type 0 where
  pub makefiles : cfg.makefiles ≢ []
  pub stdin : cfg.log_path ≢ codes "stdin"
  pub stdout : cfg.log_path ≢ codes "stdout"
  pub transport : is_transport cfg.transport ≡ true

pub check_config-IsChecked : (c : Config) {cfg : Config} → check_config c ≡ ok cfg → IsChecked c
unfolding check_config
check_config-IsChecked c h = record {
  makefiles = λ e.
      let none_left : is_nil c.makefiles ≡ true = ap is_nil e in
      absurd (ground (arith, h, none_left));
  stdin = λ e. absurd (ground (arith, h, (=?_iff c.log_path (codes "stdin")).1 e));
  stdout = λ e. absurd (ground (arith, h, (=?_iff c.log_path (codes "stdout")).1 e));
  transport = ground (arith, h);
}

pub start-IsChecked :
    (configs : ConfigFiles) (fs : FileSystem) (line : CommandLine) {app : App}
    → start configs fs line ≡ ok app
    → IsChecked app.cfg
unfolding start parse_and_serve
start-IsChecked configs fs line {app} h =
    let load = load_config configs line.config_path line.flags in
    let (loaded, l, h1) =
      >>=-eq-ok (lift config_error load)
        (λ loaded. check_config loaded >>= λ cfg. parse_and_serve fs cfg) h in
    let (cfg, c, h2) = >>=-eq-ok (check_config loaded) (λ cfg. parse_and_serve fs cfg) h1 in
    let parse = parse_makefiles fs (parse_options cfg) cfg.makefiles in
    let (parsed, p, h3) =
      >>=-eq-ok (lift file_error parse) (λ parsed. check_result parsed >>= λ rs. serve cfg rs) h2 in
    let (rs, q, h4) = >>=-eq-ok (check_result parsed) (λ rs. serve cfg rs) h3 in
    let (at, server_at, serves) = serve-Serves cfg rs h4 in
    subst IsChecked (check_config-eq loaded c ∙ sym at) (check_config-IsChecked loaded c)
