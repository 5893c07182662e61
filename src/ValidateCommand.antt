-- ===== src/ValidateCommand.antt =====
-- cmd/validate/main.go: the command that parses the Makefiles and prints what it found. Flag parsing is
-- outside; the flags come in as an override of the configuration.
pub mod Verdict
use make_mcp.Common.{
  ℕ, not, Option, none, some, List, [], ◌∷◌, ◌++◌, map, if◌then◌else◌, length, is_nil,
}
use make_mcp.Common.Outcome.{Outcome, ok, fail, ◌>>=◌}
use make_mcp.Text.{Text, codes}
use make_mcp.Go.Strconv.{format_nat}
use make_mcp.Schema.{Param, Recipe, ValidationError, ParseResult, valid}
use make_mcp.Parser.Files.{FileSystem, FileError, parse_makefiles}
use make_mcp.Config.{Config, ConfigFiles, ConfigError, merge, default_config}
use make_mcp.Main.{CommandLine, parse_options}

pub data CommandError : Type 0 where
  bad_config : ConfigError → CommandError
  no_files : CommandError
  bad_file : FileError → CommandError

-- What the command prints, the violations that it reports, and its exit status.
pub record Report : Type 0 where
  pub output : List Text
  pub violations : List ValidationError
  pub status : ℕ

-- The three layers: the defaults, the file where there is one, and the flags.
unfoldable pub layered_config : ConfigFiles → CommandLine → Outcome ConfigError Config
unfolding merge
layered_config files line = elim line.config_path [
  | [] ↦ ok (merge default_config line.flags)
  | c ∷ path ↦ files (c ∷ path) >>= λ file. ok (merge (merge default_config file) line.flags)
]

abbrev param_line : Param → Text
param_line p =
    codes "    param:        " ++ (p.name ++ (b' ' ∷ (p.type ++ (codes " | " ++ p.description))))

unfoldable pub param_lines : Option (List Param) → List Text
param_lines none = codes "    params:       none" ∷ []
param_lines (some []) = codes "    params:       none" ∷ []
param_lines (some (p ∷ ps)) = map param_line (p ∷ ps)

unfoldable pub title_line : Recipe → Text
title_line r =
    let head = codes "  [" ++ (r.id ++ (codes "] " ++ r.name)) in
    if not (is_nil r.source_file)
    then head ++ (codes "  (" ++ (r.source_file ++ codes ")"))
    else head

-- The body of the loop over the recipes.
unfoldable pub recipe_lines : Recipe → List Text
unfolding title_line param_lines
recipe_lines r =
    title_line r
    ∷ (codes "    description:  " ++ r.description)
    ∷ (codes "    risk:         " ++ r.risk)
    ∷ (param_lines r.params
        ++ (codes "    output:       " ++ r.output)
          ∷ (codes "    output-type:  " ++ r.output_type)
          ∷ []
          ∷ [])

unfoldable pub all_lines : List Recipe → List Text
unfolding recipe_lines
all_lines [] = []
all_lines (r ∷ rs) = recipe_lines r ++ all_lines rs

abbrev listing : List Recipe → List Text
listing rs =
    (codes "Found " ++ (format_nat (length rs) ++ codes " annotated recipe(s):"))
    ∷ []
    ∷ all_lines rs

-- What follows the parse.
unfoldable pub report_result : ParseResult → Report
unfolding all_lines valid format_nat
report_result r =
    if is_nil r.recipes
    then record { output = codes "No annotated recipes found." ∷ []; violations = []; status = 0 }
    else if not (valid r)
    then record { output = listing r.recipes; violations = r.errors; status = 2 }
    else record {
      output = listing r.recipes ++ codes "All recipes are valid." ∷ [];
      violations = [];
      status = 0;
    }

abbrev pub as_error : {E A : Type 0} → (E → CommandError) → Outcome E A → Outcome CommandError A
as_error f (ok a) = ok a
as_error f (fail e) = fail (f e)

-- `run` behind the configuration.
unfoldable pub validate_files : FileSystem → Config → Outcome CommandError Report
unfolding report_result
validate_files fs cfg =
    if is_nil cfg.makefiles
    then fail no_files
    else as_error bad_file (parse_makefiles fs (parse_options cfg) cfg.makefiles) >>= λ r.
        ok (report_result r)

-- `run`.
unfoldable pub validate_run : ConfigFiles → FileSystem → CommandLine → Outcome CommandError Report
unfolding layered_config validate_files
validate_run files fs line =
    as_error bad_config (layered_config files line) >>= λ cfg. validate_files fs cfg

-- `main`: the exit status.
unfoldable pub exit_status : Outcome CommandError Report → ℕ
exit_status (ok r) = r.status
exit_status (fail e) = 1
