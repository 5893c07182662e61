-- ===== src/MetricsDoc/Run/Settles.antt =====
-- What a run leaves in the page file, and what the next one does.
use make_mcp.Common.{
  ◌≡◌, refl, sym, ◌≢◌, ◌⊎◌, inl, inr, ◌&&◌, Option, none, some, arith, Bool-cases, Option-cases,
}
use mathlib.Core.Path.{subst, fun_ext}
use make_mcp.Text.{Text, ◌=?◌}
use make_mcp.Text.Equal.{=?_iff}
use make_mcp.MetricsDoc.Page.{TemplateData}
use make_mcp.MetricsDoc.Run.{Disk, RunError, outdated, run, execute, write_page, normalize_newlines}

-- The disk after a run.
abbrev pub with_page : Disk → Text → Disk
with_page d page = record d { existing = page }

-- A result that keeps the page, or that changed it such that `again` is what the next run does.
abbrev pub Settles : Disk → Text × Option RunError → Text × Option RunError → Type 0
Settles d r again =
    ((r.1 ≢ some outdated) × (r.0 ≡ d.existing))
    ⊎ ((r.1 ≡ some outdated) × (r.0 ≢ d.existing) × (again ≡ (r.0, none)))

write_page-Settles :
    (d : Disk) (page : Text)
    → Settles d (write_page d page) (write_page (with_page d (write_page d page).0) page)
unfolding write_page
write_page-Settles d page = elim (Bool-cases (d.existing =? page)) [
  | inl e ↦ inl (λ h. ground (arith, e), ground (arith, e))
  | inr n ↦ elim (Bool-cases (d.can_make_docs && d.can_write)) [
    | inr m ↦ inl (λ h. ground (arith, n), ground (arith, n))
    | inl m ↦ inr (
      ground (arith, n),
      λ h. ground (arith, n, =?_iff d.existing page),
      ground (arith, n, =?_iff page page),
    )
  ]
]

execute_page :
    (d : Disk) (page_data : TemplateData) (t : TemplateData → Option Text) (page : Text)
    → t page_data ≡ some page
    → execute d page_data (some t) ≡ write_page d (normalize_newlines page)
unfolding execute
execute_page d page_data t page e = rw e refl

execute-Settles :
    (d : Disk) (page_data : TemplateData) (t : Option (TemplateData → Option Text))
    → Settles d
        (execute d page_data t)
        (execute (with_page d (execute d page_data t).0) page_data t)
unfolding execute
execute-Settles d page_data none = inl (λ h. ground arith, refl)
execute-Settles d page_data (some t) = elim (Option-cases (t page_data)) [
  | inl e ↦ inl (λ h. ground (arith, e), ground (arith, e))
  | inr (page, e) ↦
      subst (λ (g : Disk → Text × Option RunError). Settles d (g d) (g (with_page d (g d).0)))
        (fun_ext (λ d'. sym (execute_page d' page_data t page e)))
        (write_page-Settles d (normalize_newlines page))
]

-- A run either leaves the page as it was and does not report it as outdated, be it up to date or for an
-- error, or it changes the page and reports it as outdated, and then the next run on the same sources
-- changes nothing and succeeds.
pub run-Settles :
    (d : Disk) (page_data : Option TemplateData)
    → Settles d (run d page_data) (run (with_page d (run d page_data).0) page_data)
unfolding run
run-Settles d none = inl (λ h. ground arith, refl)
run-Settles d (some page_data) = elim (Option-cases d.template) [
  | inl e ↦ inl (λ h. ground (arith, e), ground (arith, e))
  | inr (text, e) ↦ rw e (execute-Settles d page_data (d.parse text))
]
