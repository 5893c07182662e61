-- ===== src/MetricsDoc/Run.antt =====
-- `run` and `main`: the write of the page where it is outdated, and the exit status.
pub mod Settles
use make_mcp.Common.{ℕ, Bool, not, Option, none, some, [], ◌∷◌, ◌++◌, if◌then◌else◌}
use make_mcp.Text.{Text, ◌=?◌}
use make_mcp.CiDoc.Newlines.{collapse, trim_newlines}
use make_mcp.MetricsDoc.Page.{TemplateData}

-- `normalizeNewlines`.
unfoldable pub normalize_newlines : Text → Text
unfolding collapse trim_newlines
normalize_newlines b = trim_newlines (collapse 0 b) ++ 10 ∷ []

-- The errors of `run`, by what their messages say, and `errOutdated`.
pub data RunError : Type 0 where
  not_parsed no_template bad_template not_executed no_docs not_written outdated : RunError

-- What `run` meets: the template file, what the template parser makes of it, the page file, empty where it
-- cannot be read, and whether `docs` can be made and the page written.
pub record Disk : Type 0 where
  pub template : Option Text
  pub parse : Text → Option (TemplateData → Option Text)
  pub existing : Text
  pub can_make_docs : Bool
  pub can_write : Bool

-- The rest of `run` behind the executed template: the page file afterwards, and the error.
unfoldable pub write_page : Disk → Text → Text × Option RunError
unfolding ◌=?◌
write_page d generated =
    if d.existing =? generated
    then (d.existing, none)
    else if not d.can_make_docs
    then (d.existing, some no_docs)
    else if not d.can_write
    then (d.existing, some not_written)
    else (generated, some outdated)

unfoldable pub execute :
    Disk → TemplateData → Option (TemplateData → Option Text) → Text × Option RunError
unfolding normalize_newlines write_page
execute d data_of none = (d.existing, some bad_template)
execute d data_of (some template) = elim (template data_of) [
  | none ↦ (d.existing, some not_executed)
  | some page ↦ write_page d (normalize_newlines page)
]

-- `run`, behind `buildTemplateData`.
unfoldable pub run : Disk → Option TemplateData → Text × Option RunError
unfolding execute
run d none = (d.existing, some not_parsed)
run d (some data_of) = elim d.template [
  | none ↦ (d.existing, some no_template)
  | some text ↦ execute d data_of (d.parse text)
]

-- The exit status of `main`.
unfoldable pub exit_status : Option RunError → ℕ
exit_status none = 0
exit_status (some e) = 1
