-- ===== src/CiDoc/Run/Settles.antt =====
-- What a run of the generator leaves on the disk, and what the next one does.
use make_mcp.Common.{
  ◌≡◌, refl, sym, ap, ◌∙◌, ◌≢◌, ◌⊎◌, inl, inr, false, Option, none, some, List, Bool-cases,
}
use mathlib.Core.List.{Memᴰ, Permᴰ}
use mathlib.Core.Path.{subst}
use make_mcp.Common.Outcome.{Outcome, ok, fail, ◌>>=◌, Outcome-cases}
use make_mcp.Text.{Text, ◌=?◌}
use make_mcp.Text.Equal.{=?_iff, =?_refl, =?_ne}
use make_mcp.CiDoc.Workflow.{WorkflowFile}
use make_mcp.CiDoc.Files.{sort_entries, parse_workflow_dir}
use make_mcp.CiDoc.Ruleset.{BranchProtection}
use make_mcp.CiDoc.Page.{TemplateData, build_template_data}
use make_mcp.CiDoc.Files.Parses.{sort_entries_sound, parse_entries_congr}
use make_mcp.CiDoc.Files.Sorted.{DistinctNames, parse_workflow_dir_order}
use make_mcp.CiDoc.Run.{
  Libraries, Disk, Paths, BuildError, RunError, not_built, outdated, or_fail, no_glob,
  parse_workflow_file, read_ruleset, read_template_data, generate, text_of, with_file, write_page,
  write_file, Written, complete, failed, not_written, write_built, run,
}

-- The paths that a second glob of the directory finds: those of the first, in any order.
abbrev pub SameFound : Option (List Text) → Option (List Text) → Type 0
SameFound none none = Unit
SameFound (some ps) (some qs) = Permᴰ ps qs × DistinctNames ps
SameFound _ _ = ⊥

-- The page is none of the files that it is made from.
pub record IsApart (d : Disk) (p : Paths) : Type 0 where
  pub from_workflows :
      (ps : List Text)
      → d.found p.workflow_dir ≡ some ps
      → (path : Text) → Memᴰ path ps
      → p.out_file ≢ path
  pub from_ruleset : p.out_file ≢ p.ruleset_file
  pub from_template : p.out_file ≢ p.tmpl_file

-- The disk with the page written, as the next run finds it.
abbrev rewritten : Disk → Text → Text → (Text → Option (List Text)) → Disk
rewritten d out page again = record (with_file out (some page) d) { found = again }

with_file-other :
    (d : Disk) (out : Text) (left : Option Text) (path : Text)
    → out ≢ path
    → (with_file out left d).file path ≡ d.file path
unfolding with_file
with_file-other d out left path n = rw (=?_ne path out (λ e. n (sym e))) refl

abbrev from_found :
    (Text → Outcome BuildError WorkflowFile)
    → Outcome BuildError BranchProtection
    → Option (List Text)
    → Outcome BuildError TemplateData
from_found parse rules found = or_fail no_glob found >>= λ entries.
    parse_workflow_dir parse entries >>= λ wfs. rules >>= λ bp. ok (build_template_data wfs bp)

from_found-SameFound :
    (f g : Text → Outcome BuildError WorkflowFile) (rules : Outcome BuildError BranchProtection)
    (found again : Option (List Text))
    → SameFound found again
    → ((ps : List Text) → found ≡ some ps → (path : Text) → Memᴰ path ps → f path ≡ g path)
    → from_found f rules again ≡ from_found g rules found
unfolding or_fail
from_found-SameFound f g rules none none same h = refl
from_found-SameFound f g rules none (some qs) same h = absurd same
from_found-SameFound f g rules (some ps) none same h = absurd same
from_found-SameFound f g rules (some ps) (some qs) (order, distinct) h =
    ap
      (λ (o : Outcome BuildError (List WorkflowFile)).
        o >>= λ wfs. rules >>= λ bp. ok (build_template_data wfs bp))
      (sym (parse_workflow_dir_order f ps qs order distinct)
        ∙ unfold parse_workflow_dir in
          parse_entries_congr f g (sort_entries ps)
            (λ path m. h ps refl path (sort_entries_sound path ps m)))

module _ (lib : Libraries) (d : Disk) (p : Paths) (page : Text)
    (again : Text → Option (List Text)) where
  parse_workflow_file-rewritten :
      (path : Text)
      → p.out_file ≢ path
      → parse_workflow_file lib (rewritten d p.out_file page again) path
        ≡ parse_workflow_file lib d path
  unfolding parse_workflow_file
  parse_workflow_file-rewritten path n = rw (with_file-other d p.out_file (some page) path n) refl

  read_ruleset-rewritten :
      IsApart d p
      → read_ruleset lib (rewritten d p.out_file page again) p.ruleset_file
        ≡ read_ruleset lib d p.ruleset_file
  unfolding read_ruleset
  read_ruleset-rewritten a =
      rw (with_file-other d p.out_file (some page) p.ruleset_file a.from_ruleset) refl

  read_template_data-rewritten :
      IsApart d p
      → SameFound (d.found p.workflow_dir) (again p.workflow_dir)
      → read_template_data lib (rewritten d p.out_file page again) p ≡ read_template_data lib d p
  unfolding read_template_data
  read_template_data-rewritten a same =
      ap
        (λ r.
          from_found (parse_workflow_file lib (rewritten d p.out_file page again)) r
            (again p.workflow_dir))
        (read_ruleset-rewritten a)
      ∙ from_found-SameFound _ (parse_workflow_file lib d) (read_ruleset lib d p.ruleset_file)
          (d.found p.workflow_dir) (again p.workflow_dir) same
          (λ ps e path m. parse_workflow_file-rewritten path (a.from_workflows ps e path m))

  -- The next run generates the same page.
  generate-rewritten :
      IsApart d p
      → SameFound (d.found p.workflow_dir) (again p.workflow_dir)
      → generate lib (rewritten d p.out_file page again) p ≡ generate lib d p
  unfolding generate
  generate-rewritten a same =
      rw
        (
          with_file-other d p.out_file (some page) p.tmpl_file a.from_template,
          read_template_data-rewritten a same,
        )
        refl

with_file-same : (d : Disk) (out page : Text) → (with_file out (some page) d).file out ≡ some page
unfolding with_file
with_file-same d out page = rw (=?_refl out) refl

-- What a run leaves: the disk as it was, the disk without a change of another file behind a write that has
-- failed, or the page changed such that the next run has nothing to do.
abbrev pub Settles :
    Libraries → Paths → Disk → (Text → Option (List Text)) → Disk × Option RunError → Type 0
Settles lib p d again r =
    ((r.1 ≢ some outdated) × (r.1 ≢ some not_written) × (r.0 ≡ d))
    ⊎ ((r.1 ≡ some not_written) × (left : Option Text) × (r.0 ≡ with_file p.out_file left d))
    ⊎ ((r.1 ≡ some outdated)
        × (text_of (d.file p.out_file) ≢ text_of (r.0.file p.out_file))
        × (run lib (record r.0 { found = again }) p ≡ (record r.0 { found = again }, none)))

write_page-again :
    (d : Disk) (out page : Text) → d.file out ≡ some page → write_page d out page ≡ (d, none)
unfolding write_page
write_page-again d out page e = rw (e, =?_refl page) refl

run_built :
    (lib : Libraries) (d : Disk) (p : Paths) (page : Text)
    → generate lib d p ≡ ok page
    → run lib d p ≡ write_page d p.out_file page
unfolding run write_built
run_built lib d p page e = rw e refl

run_failed :
    (lib : Libraries) (d : Disk) (p : Paths) (e : BuildError)
    → generate lib d p ≡ fail e
    → run lib d p ≡ (d, some (not_built e))
unfolding run write_built
run_failed lib d p e h = rw h refl

module _ (lib : Libraries) (d : Disk) (p : Paths) (again : Text → Option (List Text)) where
  write_file-Settles :
      (page : Text)
      → IsApart d p
      → SameFound (d.found p.workflow_dir) (again p.workflow_dir)
      → generate lib d p ≡ ok page
      → (text_of (d.file p.out_file) =? page) ≡ false
      → (written : Written) → Settles lib p d again (write_file d p.out_file page written)
  unfolding write_file
  write_file-Settles page a same e n (failed left) = inr (inl (refl, left, refl))
  write_file-Settles page a same e n complete = inr (
      inr (
        refl,
        λ h. absurd (
            cc (
              n,
              (=?_iff (text_of (d.file p.out_file)) page).1
                  (h ∙ ap text_of (with_file-same d p.out_file page)),
            )),
        run_built lib (rewritten d p.out_file page again) p page
              (generate-rewritten lib d p page again a same ∙ e)
            ∙ write_page-again (rewritten d p.out_file page again) p.out_file page
                (with_file-same d p.out_file page),
      ))

  write_page-Settles :
      (page : Text)
      → IsApart d p
      → SameFound (d.found p.workflow_dir) (again p.workflow_dir)
      → generate lib d p ≡ ok page
      → Settles lib p d again (write_page d p.out_file page)
  unfolding write_page
  write_page-Settles page a same e = elim (Bool-cases (text_of (d.file p.out_file) =? page)) [
    | inl y ↦ rw y (inl (λ h. cc, λ h. cc, refl))
    | inr n ↦ rw n (write_file-Settles page a same e n (d.write p.out_file page))
  ]

-- For a page that is none of the files it is made from, and workflow files of different base names: a run of
-- the generator leaves the disk as it was, be the page up to date or for an error in front of the write; or its
-- write of the page fails, and at most the page is changed; or it changes the page and reports it as outdated.
-- Then the next run on that disk writes nothing and succeeds, in whatever order its glob finds the workflow
-- files.
pub run-Settles :
    (lib : Libraries) (d : Disk) (p : Paths) (again : Text → Option (List Text))
    → IsApart d p
    → SameFound (d.found p.workflow_dir) (again p.workflow_dir)
    → Settles lib p d again (run lib d p)
run-Settles lib d p again a same = elim (Outcome-cases (generate lib d p)) [
  | inl (e, f) ↦
      subst (Settles lib p d again) (sym (run_failed lib d p e f)) (inl (λ h. cc, λ h. cc, refl))
  | inr (page, g) ↦
      subst (Settles lib p d again) (sym (run_built lib d p page g))
        (write_page-Settles lib d p again page a same g)
]
