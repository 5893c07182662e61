-- ===== src/CiDoc/Workflow.antt =====
-- The reading of a decoded workflow: `parseTrigger`, `parseJobs` and what they call. The nodes are those
-- of the YAML decoder.
use make_mcp.Common.{not, List, [], ◌∷◌, ◌++◌, map, if◌then◌else◌, is_nil}
use make_mcp.Text.{Text, codes, ◌=?◌, join, split, trim_space}

-- `yaml.Kind`, as far as the code asks.
pub data Kind : Type 0 where
  scalar sequence mapping other_kind : Kind

mutual
  -- `yaml.Node`.
  pub data Node : Type 0 where
    node : Kind → Text → Nodes → Node

  -- `Content`.
  pub data Nodes : Type 0 where
    no_nodes : Nodes
    more : Node → Nodes → Nodes

abbrev pub kind : Node → Kind
kind (node k v c) = k

abbrev pub value : Node → Text
value (node k v c) = v

abbrev pub content : Node → Nodes
content (node k v c) = c

-- The loops over keys and values: `for i := 0; i+1 < len(c); i += 2`.
unfoldable pub pairs : Nodes → List (Node × Node)
pairs (more k (more v rest)) = (k, v) ∷ pairs rest
pairs _ = []

unfoldable pub values : Nodes → List Text
values no_nodes = []
values (more n rest) = value n ∷ values rest

pub record WorkflowStep : Type 0 where
  pub name : Text
  pub uses : Text
  pub run : Text

pub record WorkflowJob : Type 0 where
  pub id : Text
  pub name : Text
  pub needs : List Text
  pub steps : List WorkflowStep

pub record WorkflowFile : Type 0 where
  pub file_name : Text
  pub name : Text
  pub trigger : Text
  pub jobs : List WorkflowJob

-- `yamlSeqJoin`.
unfoldable pub yaml_seq_join : Node → Text
unfolding values join
yaml_seq_join (node scalar v c) = v
yaml_seq_join (node sequence v c) = join (codes ", ") (values c)
yaml_seq_join _ = []

-- The loop of `branchQualifier`: the first of the two keys decides.
unfoldable pub qualifier_of : List (Node × Node) → Text
unfolding ◌=?◌ yaml_seq_join
qualifier_of [] = []
qualifier_of ((k, v) ∷ rest) =
    let later = qualifier_of rest in
    if value k =? codes "branches"
    then codes "(branches: " ++ (yaml_seq_join v ++ codes ")")
    else if value k =? codes "branches-ignore"
    then codes "(branches-ignore: " ++ (yaml_seq_join v ++ codes ")")
    else later

-- `branchQualifier`.
unfoldable pub branch_qualifier : Node → Text
unfolding qualifier_of pairs
branch_qualifier (node mapping v c) = qualifier_of (pairs c)
branch_qualifier _ = []

unfoldable pub trigger_part : Node × Node → Text
unfolding branch_qualifier
trigger_part (event, n) =
    let qualifier = branch_qualifier n in
    if not (is_nil qualifier) then value event ++ (b' ' ∷ qualifier) else value event

-- `parseTrigger`.
unfoldable pub parse_trigger : Node → Text
unfolding values join pairs trigger_part
parse_trigger (node scalar v c) = v
parse_trigger (node sequence v c) = join (codes ", ") (values c)
parse_trigger (node mapping v c) = join (codes ", ") (map trigger_part (pairs c))
parse_trigger _ = []

-- `parseNeeds`.
unfoldable pub parse_needs : Node → List Text
unfolding values
parse_needs (node scalar [] c) = []
parse_needs (node scalar (d ∷ v) c) = (d ∷ v) ∷ []
parse_needs (node sequence v c) = values c
parse_needs _ = []

unfoldable pub first_full : List Text → Text
unfolding trim_space
first_full [] = []
first_full (line ∷ lines) =
    let later = first_full lines in let t = trim_space line in if not (is_nil t) then t else later

-- `firstLine`.
unfoldable pub first_line : Text → Text
unfolding first_full split
first_line s = first_full (split 10 s)

-- The loop over the keys of one step.
unfoldable pub step_of : WorkflowStep → List (Node × Node) → WorkflowStep
unfolding ◌=?◌ first_line
step_of step [] = step
step_of step ((k, v) ∷ rest) =
    step_of
      (if value k =? codes "name"
        then record step { name = value v }
        else if value k =? codes "uses"
        then record step { uses = value v }
        else if value k =? codes "run"
        then record step { run = first_line (value v) }
        else step)
      rest

abbrev no_step : WorkflowStep
no_step = record { name = []; uses = []; run = [] }

unfoldable pub steps_of : Nodes → List WorkflowStep
unfolding step_of pairs
steps_of no_nodes = []
steps_of (more n rest) = step_of no_step (pairs (content n)) ∷ steps_of rest

-- `parseSteps`.
unfoldable pub parse_steps : Node → List WorkflowStep
unfolding steps_of
parse_steps n = steps_of (content n)

-- The loop over the keys of one job.
unfoldable pub job_of : WorkflowJob → List (Node × Node) → WorkflowJob
unfolding ◌=?◌ parse_needs parse_steps
job_of job [] = job
job_of job ((k, v) ∷ rest) =
    job_of
      (if value k =? codes "name"
        then record job { name = value v }
        else if value k =? codes "needs"
        then record job { needs = parse_needs v }
        else if value k =? codes "steps"
        then record job { steps = parse_steps v }
        else job)
      rest

unfoldable pub jobs_of : List (Node × Node) → List WorkflowJob
unfolding job_of pairs
jobs_of [] = []
jobs_of ((k, def) ∷ rest) =
    job_of (record { id = value k; name = []; needs = []; steps = [] }) (pairs (content def))
    ∷ jobs_of rest

-- `parseJobs`.
unfoldable pub parse_jobs : Node → List WorkflowJob
unfolding jobs_of pairs
parse_jobs n = jobs_of (pairs (content n))

-- The loop over the keys of the root of a workflow.
unfoldable pub workflow_of : WorkflowFile → List (Node × Node) → WorkflowFile
unfolding ◌=?◌ parse_trigger parse_jobs
workflow_of wf [] = wf
workflow_of wf ((k, v) ∷ rest) =
    workflow_of
      (if value k =? codes "name"
        then record wf { name = value v }
        else if value k =? codes "on"
        then record wf { trigger = parse_trigger v }
        else if value k =? codes "jobs"
        then record wf { jobs = parse_jobs v }
        else wf)
      rest

-- `parseWorkflowFile` behind the decoder: the document's content, which is empty for an empty file.
unfoldable pub parse_workflow : Text → Nodes → WorkflowFile
unfolding workflow_of pairs
parse_workflow file_name no_nodes = record {
  file_name = file_name;
  name = [];
  trigger = [];
  jobs = [];
}
parse_workflow file_name (more root rest) =
    workflow_of (record { file_name = file_name; name = []; trigger = []; jobs = [] })
      (pairs (content root))
