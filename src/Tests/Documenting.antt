-- ===== src/Tests/Documenting.antt =====
-- Tests and examples of the generator of the CI page.
use make_mcp.Common.{
  ◌≡◌, refl, sym, ap, ◌∙◌, ◌≢◌, ◌↔◌, Option, none, some, List, [], ◌∷◌, ◌++◌, map, arith,
  if◌then◌else◌,
}
use mathlib.Core.List.{Memᴰ}
use mathlib.Core.Path.{subst}
use make_mcp.Common.Outcome.{ok}
use make_mcp.Text.{Text, codes, ◌=?◌}
use make_mcp.CiDoc.Workflow.{
  Node, Nodes, node, more, no_nodes, scalar, sequence, mapping, WorkflowJob, parse_trigger,
  parse_jobs,
}
use make_mcp.CiDoc.Graph.{render_mermaid_graph}
use make_mcp.CiDoc.Graph.Arrows.{IsArrow, drawn_node, render_mermaid_graph_arrows}
use make_mcp.CiDoc.Newlines.{IsPage, normalize_newlines, normalize_newlines-IsPage}
use make_mcp.CiDoc.Workflow.{WorkflowFile}
use make_mcp.CiDoc.Files.{sort_entries, parse_workflow_dir}
use make_mcp.CiDoc.Files.Sorted.{DistinctNames, parse_workflow_dir_order}
use make_mcp.Common.Outcome.{Outcome, fail}
use make_mcp.Go.Path.{base}
use mathlib.Core.List.{Permᴰ}
use make_mcp.CiDoc.Run.{Libraries, Disk, Paths, complete, run, outdated}
use make_mcp.CiDoc.Run.Settles.{IsApart, Settles, run-Settles}

abbrev plain : Text → Node
plain v = node scalar v no_nodes

abbrev two_nodes : Node → Node → Nodes
two_nodes a b = more a (more b no_nodes)

-- `on: {push: {branches: [main, dev]}, workflow_call}`, with an empty second value.
abbrev trigger : Node
trigger = node mapping [] (
    more (plain (codes "push")) (
      more
        (node mapping [] (
          two_nodes (plain (codes "branches"))
            (node sequence [] (two_nodes (plain (codes "main")) (plain (codes "dev"))))))
        (two_nodes (plain (codes "workflow_call")) (plain []))))

parse_trigger_test : parse_trigger trigger ≡ codes "push (branches: main, dev), workflow_call"
unfolding parse_trigger ◌=?◌
parse_trigger_test = refl

abbrev jobs_node : Node
jobs_node = node mapping [] (
    more (plain (codes "unit-test")) (
      more (node mapping [] (two_nodes (plain (codes "name")) (plain (codes "Unit")))) (
        two_nodes (plain (codes "build"))
          (node mapping [] (two_nodes (plain (codes "needs")) (plain (codes "unit-test")))))))

abbrev jobs : List WorkflowJob
jobs =
    record { id = codes "unit-test"; name = codes "Unit"; needs = []; steps = [] }
    ∷ record { id = codes "build"; name = []; needs = codes "unit-test" ∷ []; steps = [] }
    ∷ []

parse_jobs_test : parse_jobs jobs_node ≡ jobs
unfolding parse_jobs ◌=?◌
parse_jobs_test = refl

graph_test :
    render_mermaid_graph jobs
    ≡ codes "```mermaid"
      ∷ codes "graph TD"
      ∷ codes "    unit_test[\"Unit\"]"
      ∷ codes "    build[\"build\"]"
      ∷ codes "    unit_test --> build"
      ∷ codes "```"
      ∷ []
unfolding render_mermaid_graph ◌=?◌
graph_test = refl

render_mermaid_graph_arrows_example :
    (arrows : List Text) × (render_mermaid_graph jobs
      ≡ codes "```mermaid"
        ∷ codes "graph TD"
        ∷ (map drawn_node jobs ++ (arrows ++ codes "```" ∷ [])))
    × ((line : Text) → Memᴰ line arrows ↔ IsArrow jobs line)
render_mermaid_graph_arrows_example =
    render_mermaid_graph_arrows
      (record { id = codes "unit-test"; name = codes "Unit"; needs = []; steps = [] })
      (record { id = codes "build"; name = []; needs = codes "unit-test" ∷ []; steps = [] } ∷ [])

-- A page with too many newlines.
abbrev loose : Text
loose = codes "a" ++ (10 ∷ 10 ∷ 10 ∷ 10 ∷ codes "b" ++ 10 ∷ 10 ∷ [])

normalize_newlines_test : normalize_newlines loose ≡ codes "a" ++ (10 ∷ 10 ∷ codes "b" ++ 10 ∷ [])
unfolding normalize_newlines
normalize_newlines_test = refl

normalize_newlines-IsPage_test :
    IsPage (normalize_newlines loose)
    × (normalize_newlines (normalize_newlines loose) ≡ normalize_newlines loose)
normalize_newlines-IsPage_test = normalize_newlines-IsPage loose

abbrev lint_path : Text
lint_path = codes "w/_lint.yml"

abbrev ci_path : Text
ci_path = codes "w/ci.yml"

abbrev release_path : Text
release_path = codes "w/release.yml"

sort_entries_test :
    sort_entries (lint_path ∷ release_path ∷ ci_path ∷ []) ≡ ci_path ∷ release_path ∷ lint_path ∷ []
unfolding sort_entries ◌=?◌
sort_entries_test = refl

-- A workflow of which only the file name is known.
abbrev named : Text → Outcome Text WorkflowFile
named path =
    if path =? lint_path
    then fail (codes "no such file")
    else ok (record { file_name = base path; name = []; trigger = []; jobs = [] })

names_differ : base lint_path ≢ base ci_path
unfolding base
names_differ e = absurd (ground (arith, e))

two_names : DistinctNames (lint_path ∷ ci_path ∷ [])
two_names p q (Memᴰ.head h) (Memᴰ.head k) e = h ∙ sym k
two_names p q (Memᴰ.head h) (Memᴰ.tail (Memᴰ.head k)) e =
    absurd (names_differ (sym (ap base h) ∙ e ∙ ap base k))
two_names p q (Memᴰ.head h) (Memᴰ.tail (Memᴰ.tail n)) e = elim n [ ]
two_names p q (Memᴰ.tail (Memᴰ.head h)) (Memᴰ.head k) e =
    absurd (names_differ (sym (ap base k) ∙ sym e ∙ ap base h))
two_names p q (Memᴰ.tail (Memᴰ.head h)) (Memᴰ.tail (Memᴰ.head k)) e = h ∙ sym k
two_names p q (Memᴰ.tail (Memᴰ.head h)) (Memᴰ.tail (Memᴰ.tail n)) e = elim n [ ]
two_names p q (Memᴰ.tail (Memᴰ.tail m)) n e = elim m [ ]

parse_workflow_dir_order_test :
    parse_workflow_dir named (lint_path ∷ ci_path ∷ [])
    ≡ parse_workflow_dir named (ci_path ∷ lint_path ∷ [])
parse_workflow_dir_order_test =
    parse_workflow_dir_order named (lint_path ∷ ci_path ∷ []) (ci_path ∷ lint_path ∷ [])
      (Permᴰ.swap refl refl) two_names

-- A disk with two workflow files, and libraries that make one page of everything.
abbrev one_page : Libraries
one_page = record {
  yaml = λ text. some no_nodes;
  json = λ text. some [];
  template = λ text. some (λ page_data. some loose);
}

abbrev page_paths : Paths
page_paths = record {
  workflow_dir = codes "w";
  ruleset_file = codes "main.json";
  tmpl_file = codes "ci.tmpl";
  out_file = codes "ci.md";
}

abbrev page_disk : Disk
page_disk = record {
  file = λ path. if path =? codes "ci.md" then none else some [];
  found = λ dir. some (lint_path ∷ ci_path ∷ []);
  write = λ path text. complete;
}

abbrev found_again : Text → Option (List Text)
found_again dir = some (ci_path ∷ lint_path ∷ [])

out_of_place : (path : Text) → Memᴰ path (lint_path ∷ ci_path ∷ []) → codes "ci.md" ≢ path
out_of_place path (Memᴰ.head h) e = absurd (cc (e ∙ h))
out_of_place path (Memᴰ.tail (Memᴰ.head h)) e = absurd (cc (e ∙ h))
out_of_place path (Memᴰ.tail (Memᴰ.tail m)) e = elim m [ ]

page_disk-IsApart : IsApart page_disk page_paths
page_disk-IsApart = record {
  from_workflows = λ ps e path m. out_of_place path (subst (Memᴰ path) (sym (cc e)) m);
  from_ruleset = λ e. cc;
  from_template = λ e. cc;
}

run-Settles_example :
    Settles one_page page_paths page_disk found_again (run one_page page_disk page_paths)
run-Settles_example =
    run-Settles one_page page_disk page_paths found_again page_disk-IsApart
      (Permᴰ.swap refl refl, two_names)

run_test : (run one_page page_disk page_paths).1 ≡ some outdated
unfolding run ◌=?◌
run_test = refl
