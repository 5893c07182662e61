-- ===== src/CiDoc/Run.antt =====
-- `run` and `main`: from the files on the disk to the page, its write where it is outdated, and the exit status.
pub mod Settles
use make_mcp.Common.{ℕ, Bool, not, Option, none, some, List, [], if◌then◌else◌}
use make_mcp.Common.Outcome.{Outcome, ok, fail, ◌>>=◌}
use make_mcp.Text.{Text, ◌=?◌}
use make_mcp.Go.Path.{base}
use make_mcp.CiDoc.Workflow.{WorkflowFile, Nodes, parse_workflow}
use make_mcp.CiDoc.Ruleset.{BranchProtection, Rule, parse_ruleset}
use make_mcp.CiDoc.Newlines.{normalize_newlines}
use make_mcp.CiDoc.Files.{parse_workflow_dir}
use make_mcp.CiDoc.Page.{TemplateData, build_template_data}

-- The libraries: the content of a YAML document, the rules of a JSON ruleset, and the template that a text
-- is parsed to, with what it makes of the data; `none` is their error.
pub record Libraries : Type 0 where
  pub yaml : Text → Option Nodes
  pub json : Text → Option (List Rule)
  pub template : Text → Option (TemplateData → Option Text)

-- How a write ends: with the whole text in the file, or with an error and what it leaves in the file, if the
-- file is there.
pub data Written : Type 0 where
  complete : Written
  failed : Option Text → Written

-- The files, the paths that the glob of a directory finds, and how a write of a text to a file ends.
pub record Disk : Type 0 where
  pub file : Text → Option Text
  pub found : Text → Option (List Text)
  pub write : Text → Text → Written

pub record Paths : Type 0 where
  pub workflow_dir : Text
  pub ruleset_file : Text
  pub tmpl_file : Text
  pub out_file : Text

-- The errors of `buildTemplateData` and of the template, by what their messages say.
pub data BuildError : Type 0 where
  no_glob : BuildError
  not_read not_decoded : Text → BuildError
  no_ruleset bad_ruleset no_template bad_template not_executed : BuildError

-- The errors of `run`: in front of the write, of the write, and `errOutdated`.
pub data RunError : Type 0 where
  not_built : BuildError → RunError
  not_written outdated : RunError

unfoldable or_fail : {A : Type 0} → BuildError → Option A → Outcome BuildError A
or_fail e none = fail e
or_fail e (some a) = ok a

module _ (lib : Libraries) (d : Disk) where
  -- `parseWorkflowFile`, with its path in the error.
  unfoldable pub parse_workflow_file : Text → Outcome BuildError WorkflowFile
  unfolding or_fail
  parse_workflow_file path = or_fail (not_read path) (d.file path) >>= λ text.
      or_fail (not_decoded path) (lib.yaml text) >>= λ nodes. ok (parse_workflow (base path) nodes)

  -- `parseRuleset` at a path.
  unfoldable pub read_ruleset : Text → Outcome BuildError BranchProtection
  unfolding or_fail parse_ruleset
  read_ruleset path = or_fail no_ruleset (d.file path) >>= λ text.
      or_fail bad_ruleset (lib.json text) >>= λ rules.
      ok (parse_ruleset (record { rules = []; required_checks = [] }) rules)

  -- `buildTemplateData`.
  unfoldable pub read_template_data : Paths → Outcome BuildError TemplateData
  unfolding or_fail parse_workflow_dir parse_workflow_file read_ruleset build_template_data
  read_template_data p = or_fail no_glob (d.found p.workflow_dir) >>= λ entries.
      parse_workflow_dir parse_workflow_file entries >>= λ wfs.
      read_ruleset p.ruleset_file >>= λ bp. ok (build_template_data wfs bp)

  -- The page that `run` generates.
  unfoldable pub generate : Paths → Outcome BuildError Text
  unfolding or_fail read_template_data normalize_newlines
  generate p = read_template_data p >>= λ page_data.
      or_fail no_template (d.file p.tmpl_file) >>= λ text.
      or_fail bad_template (lib.template text) >>= λ template.
      or_fail not_executed (template page_data) >>= λ page. ok (normalize_newlines page)

-- What `os.ReadFile` gives where its error is not looked at.
abbrev pub text_of : Option Text → Text
text_of none = []
text_of (some text) = text

-- The disk with what a write leaves in the file.
unfoldable pub with_file : Text → Option Text → Disk → Disk
unfolding ◌=?◌
with_file path left d = record d { file = λ p. if p =? path then left else d.file p }

-- `os.WriteFile`, and the error of `run` behind it.
unfoldable pub write_file : Disk → Text → Text → Written → Disk × Option RunError
unfolding with_file
write_file d out generated complete = (with_file out (some generated) d, some outdated)
write_file d out generated (failed left) = (with_file out left d, some not_written)

-- The rest of `run` behind the generated page.
unfoldable pub write_page : Disk → Text → Text → Disk × Option RunError
unfolding write_file ◌=?◌
write_page d out generated =
    if text_of (d.file out) =? generated
    then (d, none)
    else write_file d out generated (d.write out generated)

unfoldable write_built : Disk → Text → Outcome BuildError Text → Disk × Option RunError
unfolding write_page
write_built d out (fail e) = (d, some (not_built e))
write_built d out (ok generated) = write_page d out generated

-- `run`: the disk afterwards, and the error.
unfoldable pub run : Libraries → Disk → Paths → Disk × Option RunError
unfolding write_built generate
run lib d p = write_built d p.out_file (generate lib d p)

-- The exit status of `main`.
unfoldable pub exit_status : Option RunError → ℕ
exit_status none = 0
exit_status (some e) = 1
