-- ===== src/Server/Refines.antt =====
-- The tool server is a catalogue of recipes: no sequence of reloads, calls, lists and readiness tests tells
-- the registry with its tools and its index from the plain list of recipes.
use make_mcp.Common.{
  ◌≡◌, refl, ap, ap₂, ◌∙◌, inl, inr, Bool, true, not, none, some, List, [], ◌∷◌, arith,
  Option-cases, is_nil,
}
use make_mcp.Text.{Text}
use make_mcp.Schema.{Recipe}
use make_mcp.Config.{Config}
use make_mcp.Runner.Stream.{Command, Execution}
use make_mcp.Server.Tools.Index.{last_recipe, tool_names, recipe_ids}
use make_mcp.Server.Registry.{ToolServer, ready, reload}
use make_mcp.Server.Registry.Reload.{Serves, reload-Serves, ready-Serves}
use make_mcp.Server.Call.{CallRequest, Reply, handle_tool_call, call_recipe}
use make_mcp.Server.Call.Laws.{not_found}

-- What is asked of the server, and what it answers.
pub data Op : Type 0 where
  reload_with : List Recipe → Text → Op
  call : CallRequest → Op
  list_tools : Op
  ask_ready : Op

pub data Answer : Type 0 where
  reloaded : Bool → Answer
  replied : Reply → Answer
  names : List Text → Answer
  is_ready : Bool → Answer

module _ (exec : Command → Execution) where
  -- One operation of the server. A list shows what the server handed to the MCP library last.
  unfoldable pub serve_one : ToolServer → Op → ToolServer × Answer
  serve_one s (reload_with rs file) = ((reload s rs file).0, reloaded (reload s rs file).1)
  serve_one s (call req) = (s, replied (handle_tool_call exec s req))
  serve_one s list_tools = (s, names (tool_names s.listed))
  serve_one s ask_ready = (s, is_ready (ready s))

  unfoldable pub serve : ToolServer → List Op → List Answer
  unfolding serve_one
  serve s [] = []
  serve s (op ∷ ops) = (serve_one s op).1 ∷ serve (serve_one s op).0 ops

  -- The catalogue: the recipes of the last reload. A name means the last recipe with that identifier.
  unfoldable pub look_up : Config → List Recipe → Op → List Recipe × Answer
  look_up cfg rs (reload_with new file) = (new, reloaded true)
  look_up cfg rs (call req) = (
    rs,
    elim (last_recipe req.name rs none) [
      | none ↦ replied not_found
      | some r ↦ replied (call_recipe exec cfg r req)
    ],
  )
  look_up cfg rs list_tools = (rs, names (recipe_ids rs))
  look_up cfg rs ask_ready = (rs, is_ready (not (is_nil rs)))

  unfoldable pub consult : Config → List Recipe → List Op → List Answer
  unfolding look_up
  consult cfg rs [] = []
  consult cfg rs (op ∷ ops) = (look_up cfg rs op).1 ∷ consult cfg (look_up cfg rs op).0 ops

  call-look_up :
      (s : ToolServer) (rs : List Recipe) (req : CallRequest)
      → Serves s rs
      → replied (handle_tool_call exec s req) ≡ (look_up s.cfg rs (call req)).1
  unfolding handle_tool_call look_up
  call-look_up s rs req h = elim (Option-cases (last_recipe req.name rs none)) [
    | inl e ↦ ground (arith, h.latest req.name, e)
    | inr (r, e) ↦ ground (arith, h.latest req.name, e)
  ]

  -- A server that serves some recipes answers every sequence of reloads, calls, lists and readiness tests
  -- as the catalogue of those recipes does, under the configuration that the server had at the start.
  pub serve_refines :
      (s : ToolServer) (rs : List Recipe) (ops : List Op)
      → Serves s rs
      → serve s ops ≡ consult s.cfg rs ops
  unfolding serve consult
  serve_refines s rs [] h = refl
  serve_refines s rs (reload_with new file ∷ ops) h =
      let (done, cfg, serves, events) = reload-Serves s new file in
      ap₂ ◌∷◌ (ap reloaded done)
        (serve_refines (reload s new file).0 new ops serves ∙ ap (λ c. consult c new ops) cfg)
  serve_refines s rs (call req ∷ ops) h =
      ap₂ ◌∷◌ (call-look_up s rs req h) (serve_refines s rs ops h)
  serve_refines s rs (list_tools ∷ ops) h =
      ap₂ ◌∷◌ (ap names (ap tool_names h.listed ∙ h.names)) (serve_refines s rs ops h)
  serve_refines s rs (ask_ready ∷ ops) h =
      ap₂ ◌∷◌ (ap is_ready (ready-Serves s rs h)) (serve_refines s rs ops h)
