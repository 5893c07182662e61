-- ===== src/CiDoc/Files.antt =====
-- `parseWorkflowDir`: the order of the workflow files, and the parse of each.
pub mod Sorted
pub mod Parses
use make_mcp.Common.{ℕ, Bool, true, false, not, List, [], ◌∷◌, ltb, ◌==◌, if◌then◌else◌}
use make_mcp.Common.Outcome.{Outcome, ok, fail, ◌>>=◌}
use make_mcp.Text.{Text, codes, ◌=?◌}
use make_mcp.Go.Path.{base}
use make_mcp.CiDoc.Workflow.{WorkflowFile}

-- `<` of strings. In UTF-8 the order of the bytes is that of the code points.
unfoldable pub text_ltb : Text → Text → Bool
text_ltb [] [] = false
text_ltb [] (b ∷ t) = true
text_ltb (a ∷ s) [] = false
text_ltb (a ∷ s) (b ∷ t) = if a == b then text_ltb s t else ltb a b

-- `workflowSortWeight`.
unfoldable pub workflow_sort_weight : Text → ℕ
unfolding ◌=?◌
workflow_sort_weight name =
    if name =? codes "ci.yml" then 0 else if name =? codes "release.yml" then 1 else 2

-- The comparison of two names that `sort.Slice` is given.
unfoldable pub name_less : Text → Text → Bool
unfolding text_ltb workflow_sort_weight
name_less a b =
    if not (workflow_sort_weight a == workflow_sort_weight b)
    then ltb (workflow_sort_weight a) (workflow_sort_weight b)
    else text_ltb a b

unfoldable pub entry_less : Text → Text → Bool
unfolding base name_less
entry_less p q = name_less (base p) (base q)

-- `p` goes in front of the first entry that is not less.
unfoldable pub insert_entry : Text → List Text → List Text
unfolding entry_less
insert_entry p [] = p ∷ []
insert_entry p (q ∷ qs) =
    let rest = insert_entry p qs in if entry_less q p then q ∷ rest else p ∷ q ∷ qs

-- `sort.Slice` of the entries.
unfoldable pub sort_entries : List Text → List Text
unfolding insert_entry
sort_entries [] = []
sort_entries (p ∷ ps) = insert_entry p (sort_entries ps)

-- `parse` is `parseWorkflowFile` at a path: the first error ends the loop.
unfoldable pub parse_entries :
    {E : Type 0} → (Text → Outcome E WorkflowFile) → List Text → Outcome E (List WorkflowFile)
parse_entries parse [] = ok []
parse_entries parse (p ∷ ps) = parse p >>= λ wf. parse_entries parse ps >>= λ wfs. ok (wf ∷ wfs)

-- `parseWorkflowDir`, with the paths that the glob finds.
unfoldable pub parse_workflow_dir :
    {E : Type 0} → (Text → Outcome E WorkflowFile) → List Text → Outcome E (List WorkflowFile)
unfolding sort_entries parse_entries
parse_workflow_dir parse entries = parse_entries parse (sort_entries entries)
