-- ===== src/CiDoc/Graph.antt =====
-- `renderMermaidGraph`: the graph of the jobs and what its edges are.
pub mod Arrows
use make_mcp.Common.{
  ◌≡◌, refl, sym, ap, ◌∙◌, ◌↔◌, inl, inr, Bool, true, false, not, ◌||◌, List, [], ◌∷◌, ◌++◌, map,
  if◌then◌else◌, Bool-cases, is_nil,
}
use mathlib.Core.List.{Memᴰ}
use mathlib.Core.List.Memᴰ
use mathlib.Core.Path.{subst}
use make_mcp.Text.{Text, codes, ◌=?◌, replace_all}
use make_mcp.CiDoc.Workflow.{WorkflowJob}

-- `mermaidID`.
unfoldable pub mermaid_id : Text → Text
unfolding replace_all
mermaid_id = replace_all b'-' b'_'

-- `jobSet[id]`.
unfoldable pub in_jobs : Text → List WorkflowJob → Bool
unfolding ◌=?◌
in_jobs id [] = false
in_jobs id (j ∷ jobs) = j.id =? id || in_jobs id jobs

-- The edges of one job: the jobs that it needs and that exist, each with the job.
unfoldable pub edges_of : List WorkflowJob → Text → List Text → List (Text × Text)
unfolding in_jobs
edges_of all id [] = []
edges_of all id (dep ∷ needs) =
    let rest = edges_of all id needs in if in_jobs dep all then (dep, id) ∷ rest else rest

-- The second loop over the jobs.
unfoldable pub edges : List WorkflowJob → List WorkflowJob → List (Text × Text)
unfolding edges_of
edges all [] = []
edges all (j ∷ jobs) = edges_of all j.id j.needs ++ edges all jobs

unfoldable pub node_line : WorkflowJob → Text
unfolding mermaid_id
node_line j =
    let label = if not (is_nil j.name) then j.name else j.id in
    codes "    " ++ (mermaid_id j.id ++ (codes "[\"" ++ (label ++ codes "\"]")))

unfoldable pub edge_line : Text × Text → Text
unfolding mermaid_id
edge_line (dep, id) = codes "    " ++ (mermaid_id dep ++ (codes " --> " ++ mermaid_id id))

-- `renderMermaidGraph`, line by line.
unfoldable pub render_mermaid_graph : List WorkflowJob → List Text
unfolding edges node_line edge_line
render_mermaid_graph [] = codes "_no jobs found_" ∷ []
render_mermaid_graph (j ∷ jobs) =
    codes "```mermaid"
    ∷ codes "graph TD"
    ∷ (map node_line (j ∷ jobs)
        ++ (map edge_line (edges (j ∷ jobs) (j ∷ jobs)) ++ codes "```" ∷ []))

-- A job of the list needs another job of the list.
pub record IsEdge (all jobs : List WorkflowJob) (dep id : Text) : Type 0 where
  pub job : WorkflowJob
  pub listed : Memᴰ job jobs
  pub named : job.id ≡ id
  pub needed : Memᴰ dep job.needs
  pub exists : in_jobs dep all ≡ true

edges_of_sound :
    (all : List WorkflowJob) (id : Text) (needs : List Text) {d i : Text}
    → Memᴰ (d, i) (edges_of all id needs)
    → (i ≡ id) × Memᴰ d needs × (in_jobs d all ≡ true)
unfolding edges_of
edges_of_sound all id [] m = elim m [ ]
edges_of_sound all id (dep ∷ needs) {d} {i} m = elim (Bool-cases (in_jobs dep all)) [
  | inr n ↦ later (edges_of_sound all id needs (rw n at m))
  | inl e ↦ elim (rw e at m) [
    | Memᴰ.head q ↦ (ap (λ p. p.1) q, Memᴰ.head (ap (λ p. p.0) q), ap (λ p. in_jobs p.0 all) q ∙ e)
    | Memᴰ.tail t ↦ later (edges_of_sound all id needs t)
  ]
]
  where
    later :
        (i ≡ id) × Memᴰ d needs × (in_jobs d all ≡ true)
        → (i ≡ id) × Memᴰ d (dep ∷ needs) × (in_jobs d all ≡ true)
    later (q, t, e) = (q, Memᴰ.tail t, e)

edges_of_complete :
    (all : List WorkflowJob) (id : Text) (needs : List Text) {d : Text}
    → Memᴰ d needs
    → in_jobs d all ≡ true
    → Memᴰ (d, id) (edges_of all id needs)
unfolding edges_of
edges_of_complete all id [] m e = elim m [ ]
edges_of_complete all id (dep ∷ needs) {d} m e = elim m [
  | Memᴰ.head q ↦ rw (ap (λ t. in_jobs t all) (sym q) ∙ e) (Memᴰ.head (ap (λ t. (t, id)) q))
  | Memᴰ.tail t ↦ elim (Bool-cases (in_jobs dep all)) [
    | inl y ↦ rw y (Memᴰ.tail (edges_of_complete all id needs t e))
    | inr n ↦ rw n (edges_of_complete all id needs t e)
  ]
]

edges_sound :
    (all jobs : List WorkflowJob) {d i : Text} → Memᴰ (d, i) (edges all jobs) → IsEdge all jobs d i
unfolding edges
edges_sound all [] m = elim m [ ]
edges_sound all (j ∷ jobs) {d} {i} m = elim (Memᴰ.append_cases (edges_of all j.id j.needs) m) [
  | inl h ↦
      let (at, needed, exists) = edges_of_sound all j.id j.needs h in
      record { job = j; listed = Memᴰ.head refl; named = sym at; needed = needed; exists = exists }
  | inr h ↦
      let later = edges_sound all jobs h in
      record {
        job = later.job;
        listed = Memᴰ.tail later.listed;
        named = later.named;
        needed = later.needed;
        exists = later.exists;
      }
]

edges_of_listed :
    (all jobs : List WorkflowJob) (j : WorkflowJob) {p : Text × Text}
    → Memᴰ j jobs
    → Memᴰ p (edges_of all j.id j.needs)
    → Memᴰ p (edges all jobs)
unfolding edges
edges_of_listed all [] j m h = elim m [ ]
edges_of_listed all (x ∷ jobs) j {p} m h = elim m [
  | Memᴰ.head q ↦
      Memᴰ.append_left (edges all jobs) (subst (λ y. Memᴰ p (edges_of all y.id y.needs)) q h)
  | Memᴰ.tail t ↦ Memᴰ.append_right (edges_of all x.id x.needs) (edges_of_listed all jobs j t h)
]

-- The list of edges has one from one identifier to another exactly if a job with the second identifier
-- needs the first and a job with the first exists: needs of unknown jobs are left out, and no other
-- edge is drawn or forgotten.
pub edges_iff :
    (jobs : List WorkflowJob) (d i : Text) → Memᴰ (d, i) (edges jobs jobs) ↔ IsEdge jobs jobs d i
edges_iff jobs d i = (
  edges_sound jobs jobs,
  λ e.
      subst (λ k. Memᴰ (d, k) (edges jobs jobs)) e.named
        (edges_of_listed jobs jobs e.job e.listed
          (edges_of_complete jobs e.job.id e.job.needs e.needed e.exists)),
)
