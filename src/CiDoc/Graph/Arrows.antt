-- ===== src/CiDoc/Graph/Arrows.antt =====
-- The arrows of the rendered graph are the needs of the jobs.
use make_mcp.Common.{
  ◌≡◌, refl, sym, ap, ap₂, ◌∙◌, ◌↔◌, inl, inr, true, List, [], ◌∷◌, ◌++◌, map, ◌==◌, if◌then◌else◌,
  Bool-cases, is_nil,
}
use mathlib.Core.List.{Memᴰ}
use mathlib.Core.Path.{subst}
use make_mcp.Text.Equal.{=?_iff}
use make_mcp.Text.{Text, codes, ◌=?◌, replace_all}
use make_mcp.CiDoc.Workflow.{WorkflowJob}
use make_mcp.CiDoc.Graph.{
  mermaid_id, in_jobs, edges, node_line, edge_line, render_mermaid_graph, edges_iff,
}

-- A job with the identifier is listed.
in_jobs_iff :
    (id : Text) (jobs : List WorkflowJob)
    → (in_jobs id jobs ≡ true) ↔ ((j : WorkflowJob) × Memᴰ j jobs × (j.id ≡ id))
unfolding in_jobs
in_jobs_iff id [] = (λ e. cc, λ (j, m, e). elim m [ ])
in_jobs_iff id (x ∷ jobs) = (
  λ e. elim (Bool-cases (x.id =? id)) [
    | inl y ↦ (x, Memᴰ.head refl, (=?_iff x.id id).0 y)
    | inr n ↦ let (j, m, f) = (in_jobs_iff id jobs).0 (rw n at e) in (j, Memᴰ.tail m, f)
  ],
  λ (j, m, e). elim m [
    | Memᴰ.head q ↦ rw ((=?_iff x.id id).1 (ap (λ y. y.id) (sym q) ∙ e)) refl
    | Memᴰ.tail t ↦ elim (Bool-cases (x.id =? id)) [
      | inl y ↦ rw y refl
      | inr n ↦ rw n ((in_jobs_iff id jobs).1 (j, t, e))
    ]
  ],
)

-- The identifier of a node: hyphens become underscores.
abbrev pub underscored : Text → Text
underscored [] = []
underscored (c ∷ s) = (if c == b'-' then b'_' else c) ∷ underscored s

mermaid_id-underscored : (s : Text) → mermaid_id s ≡ underscored s
unfolding mermaid_id replace_all
mermaid_id-underscored [] = refl
mermaid_id-underscored (c ∷ s) =
    ap (λ t. (if c == b'-' then b'_' else c) ∷ t) (mermaid_id-underscored s)

-- The line of an arrow from a listed job to a listed job that needs it.
pub record IsArrow (jobs : List WorkflowJob) (line : Text) : Type 0 where
  pub job : WorkflowJob
  pub needed : WorkflowJob
  pub job_listed : Memᴰ job jobs
  pub needed_listed : Memᴰ needed jobs
  pub needs : Memᴰ needed.id job.needs
  pub drawn :
      line ≡ codes "    " ++ (underscored needed.id ++ (codes " --> " ++ underscored job.id))

edge_line-underscored :
    (dep id : Text)
    → edge_line (dep, id) ≡ codes "    " ++ (underscored dep ++ (codes " --> " ++ underscored id))
unfolding edge_line
edge_line-underscored dep id =
    ap₂ (λ x y. codes "    " ++ (x ++ (codes " --> " ++ y))) (mermaid_id-underscored dep)
      (mermaid_id-underscored id)

map_sound :
    {A B : Type 0} (f : A → B) {b : B} (xs : List A)
    → Memᴰ b (map f xs)
    → (a : A) × Memᴰ a xs × (b ≡ f a)
map_sound f [] m = elim m [ ]
map_sound f (x ∷ xs) m = elim m [
  | Memᴰ.head e ↦ (x, Memᴰ.head refl, e)
  | Memᴰ.tail t ↦ let (a, n, e) = map_sound f xs t in (a, Memᴰ.tail n, e)
]

map_complete : {A B : Type 0} (f : A → B) {a : A} (xs : List A) → Memᴰ a xs → Memᴰ (f a) (map f xs)
map_complete f [] m = elim m [ ]
map_complete f (x ∷ xs) m = elim m [
  | Memᴰ.head e ↦ Memᴰ.head (ap f e)
  | Memᴰ.tail t ↦ Memᴰ.tail (map_complete f xs t)
]

arrows_iff :
    (jobs : List WorkflowJob) (line : Text)
    → Memᴰ line (map edge_line (edges jobs jobs)) ↔ IsArrow jobs line
arrows_iff jobs line = (
  λ m.
      let ((d, i), n, e) = map_sound edge_line (edges jobs jobs) m in
      let edge = (edges_iff jobs d i).0 n in
      let (j, at, named) = (in_jobs_iff d jobs).0 edge.exists in
      record {
        job = edge.job;
        needed = j;
        job_listed = edge.listed;
        needed_listed = at;
        needs = subst (λ t. Memᴰ t edge.job.needs) (sym named) edge.needed;
        drawn =
            e
            ∙ edge_line-underscored d i
            ∙ ap₂ (λ x y. codes "    " ++ (underscored x ++ (codes " --> " ++ underscored y)))
                (sym named) (sym edge.named);
      },
  λ a.
      subst (λ l. Memᴰ l (map edge_line (edges jobs jobs)))
        (edge_line-underscored a.needed.id a.job.id ∙ sym a.drawn)
        (map_complete edge_line (edges jobs jobs) (
          (edges_iff jobs a.needed.id a.job.id).1 (record {
            job = a.job;
            listed = a.job_listed;
            named = refl;
            needed = a.needs;
            exists = (in_jobs_iff a.needed.id jobs).1 (a.needed, a.needed_listed, refl);
          }))),
)

-- The line of a node: the identifier, and the name or else the identifier as the label.
abbrev pub drawn_node : WorkflowJob → Text
drawn_node j =
    codes "    "
    ++ (underscored j.id
        ++ (codes "[\"" ++ ((if is_nil j.name then j.id else j.name) ++ codes "\"]")))

node_line-drawn_node : (j : WorkflowJob) → node_line j ≡ drawn_node j
unfolding node_line
node_line-drawn_node j = elim (Bool-cases (is_nil j.name)) [
  | inl e ↦ rw (e, mermaid_id-underscored j.id) refl
  | inr e ↦ rw (e, mermaid_id-underscored j.id) refl
]

node_lines : (jobs : List WorkflowJob) → map node_line jobs ≡ map drawn_node jobs
node_lines [] = refl
node_lines (j ∷ jobs) = ap₂ (λ x xs. x ∷ xs) (node_line-drawn_node j) (node_lines jobs)

-- The graph of at least one job is rendered as the opening of the fence, the line `graph TD`, one node for each
-- job in the order of the jobs, the arrows, and the end of the fence. A line is one of the arrows exactly if it
-- goes from a listed job to a listed job that needs it: needs of unknown jobs are left out, and no other arrow
-- is drawn or forgotten. Jobs stand by their identifiers with hyphens as underscores.
pub render_mermaid_graph_arrows :
    (j : WorkflowJob) (jobs : List WorkflowJob)
    → (arrows : List Text) × (render_mermaid_graph (j ∷ jobs)
        ≡ codes "```mermaid"
          ∷ codes "graph TD"
          ∷ (map drawn_node (j ∷ jobs) ++ (arrows ++ codes "```" ∷ [])))
      × ((line : Text) → Memᴰ line arrows ↔ IsArrow (j ∷ jobs) line)
unfolding render_mermaid_graph
render_mermaid_graph_arrows j jobs = (
  map edge_line (edges (j ∷ jobs) (j ∷ jobs)),
  ap
      (λ nodes.
        codes "```mermaid"
        ∷ codes "graph TD"
        ∷ (nodes ++ (map edge_line (edges (j ∷ jobs) (j ∷ jobs)) ++ codes "```" ∷ [])))
      (node_lines (j ∷ jobs)),
  arrows_iff (j ∷ jobs),
)
