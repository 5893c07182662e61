-- ===== src/Tests/Validating.antt =====
-- Tests and examples of the validate command.
use make_mcp.Common.{◌≡◌, refl, ◌↔◌, false, some, [], ◌∷◌}
use make_mcp.Common.Outcome.{ok}
use make_mcp.Text.{codes, ◌=?◌, is_space}
use make_mcp.Go.Mime.{media_type_error}
use make_mcp.Schema.{validate_content_type, is_risk}
use make_mcp.Parser.Files.{FileSystem, parse_makefiles}
use make_mcp.Parser.Files.Quiet.{Quiet, parse_makefiles-Quiet}
use make_mcp.Config.{load_config, merge}
use make_mcp.Main.{App, start, check_config, is_transport}
use make_mcp.ValidateCommand.{validate_run, exit_status}
use make_mcp.ValidateCommand.Verdict.{validate_run-start}
use make_mcp.Tests.{sample_line, sample_cfg, empty_file, only_build, lax}

load_sample : load_config empty_file sample_line.config_path sample_line.flags ≡ ok sample_cfg
unfolding load_config merge
load_sample = refl

check_sample : check_config sample_cfg ≡ ok sample_cfg
unfolding check_config is_transport ◌=?◌
check_sample = refl

validate_run_test :
    validate_run empty_file only_build sample_line
    ≡ ok (record {
      output =
          codes "Found 1 annotated recipe(s):"
          ∷ []
          ∷ codes "  [build] Build  (Makefile)"
          ∷ codes "    description:  Compile"
          ∷ codes "    risk:         low"
          ∷ codes "    param:        jobs int | Parallel jobs"
          ∷ codes "    output:       Log"
          ∷ codes "    output-type:  text/plain"
          ∷ []
          ∷ codes "All recipes are valid."
          ∷ [];
      violations = [];
      status = 0;
    })
unfolding validate_run parse_makefiles ◌=?◌ is_space validate_content_type media_type_error is_risk
validate_run_test = refl

validate_run-start_example :
    (exit_status (validate_run empty_file only_build sample_line) ≡ 0)
    ↔ ((app : App) × (start empty_file only_build sample_line ≡ ok app))
validate_run-start_example =
    validate_run-start empty_file only_build sample_line load_sample check_sample

-- A Makefile without annotations.
abbrev plain_file : FileSystem
plain_file path = some (record { text = codes "build:"; read_fails = false })

plain_test :
    parse_makefiles plain_file lax (codes "Makefile" ∷ [])
    ≡ ok (record { recipes = []; errors = [] })
unfolding parse_makefiles is_space
plain_test = refl

parse_makefiles-Quiet_test : Quiet (record { recipes = []; errors = [] })
parse_makefiles-Quiet_test = parse_makefiles-Quiet plain_file lax (codes "Makefile" ∷ []) plain_test
