-- ===== src/CiDoc/Page.antt =====
-- `buildTemplateData` behind its readers: the data of the page.
use make_mcp.Common.{List, [], ◌∷◌, if◌then◌else◌}
use make_mcp.Text.{Text, codes, ◌=?◌}
use make_mcp.CiDoc.Workflow.{WorkflowFile, WorkflowJob}
use make_mcp.CiDoc.Graph.{render_mermaid_graph}
use make_mcp.CiDoc.Ruleset.{BranchProtection}

-- `templateData`.
pub record TemplateData : Type 0 where
  pub workflow_files : List WorkflowFile
  pub ci_graph : List Text
  pub release_graph : List Text
  pub branch_protection : BranchProtection

-- The jobs of the last file with the name, as the loop of `buildTemplateData` leaves them.
unfoldable pub jobs_named : Text → List WorkflowJob → List WorkflowFile → List WorkflowJob
unfolding ◌=?◌
jobs_named name jobs [] = jobs
jobs_named name jobs (wf ∷ wfs) =
    jobs_named name (if wf.file_name =? name then wf.jobs else jobs) wfs

-- `buildTemplateData` behind its two readers.
unfoldable pub build_template_data : List WorkflowFile → BranchProtection → TemplateData
unfolding jobs_named render_mermaid_graph
build_template_data wfs bp = record {
  workflow_files = wfs;
  ci_graph = render_mermaid_graph (jobs_named (codes "ci.yml") [] wfs);
  release_graph = render_mermaid_graph (jobs_named (codes "release.yml") [] wfs);
  branch_protection = bp;
}
