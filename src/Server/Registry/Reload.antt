-- ===== src/Server/Registry/Reload.antt =====
-- The registry after `New` and `Reload`: the listed tools, the callable names and the recipes agree.
use make_mcp.Common.{
  ◌≡◌, refl, sym, ap, ◌∙◌, ◌⊎◌, inl, inr, true, not, Option, none, some, List, [], ◌∷◌, ◌++◌, arith,
  if◌then◌else◌, Bool-cases, is_nil,
}
use mathlib.Core.List.{Memᴰ}
use make_mcp.Common.Outcome.{ok}
use make_mcp.Text.{Text, ◌=?◌}
use make_mcp.Text.Equal.{=?_iff}
use make_mcp.Schema.{Recipe}
use make_mcp.Config.{Config}
use make_mcp.Server.Tools.{Tool}
use make_mcp.Server.Tools.Index.{last_recipe, tool_names, recipe_ids, build_server_tools-Built}
use make_mcp.Server.Registry.{
  list_changed, reload_recorded, tools_registered, ToolServer, get_recipe, new, reload, ready,
}

-- The server serves the recipes: it lists their tools in order, and a name is answered by the last
-- recipe with that identifier.
pub record Serves (s : ToolServer) (rs : List Recipe) : Type 0 where
  pub listed : s.listed ≡ s.registry.tools
  pub names : tool_names s.registry.tools ≡ recipe_ids rs
  pub latest : (name : Text) → get_recipe s.registry name ≡ last_recipe name rs none

-- A new server always comes up, with the given configuration, and serves exactly the given recipes.
pub new-Serves :
    (cfg : Config) (rs : List Recipe)
    → (s : ToolServer) × (new cfg rs ≡ ok s) × (s.cfg ≡ cfg) × Serves s rs
unfolding new get_recipe
new-Serves cfg rs =
    let (tools, index, built, names, latest) = build_server_tools-Built rs in
    let s : ToolServer = record {
      cfg = cfg;
      registry = record { tools = tools; recipes = index };
      listed = tools;
      events = tools_registered rs ∷ [];
    } in
    (s, rw (built, new), refl, record { listed = refl; names = names; latest = latest })

-- A reload succeeds, leaves the configuration, makes the server serve exactly the new recipes, and tells
-- the outside three things in this order: the changed list to all clients, the recorded success for
-- the file, and the registered recipes.
pub reload-Serves :
    (s : ToolServer) (rs : List Recipe) (file : Text)
    → ((reload s rs file).1 ≡ true)
      × ((reload s rs file).0.cfg ≡ s.cfg)
      × Serves (reload s rs file).0 rs
      × ((reload s rs file).0.events
          ≡ s.events ++ list_changed ∷ reload_recorded file true ∷ tools_registered rs ∷ [])
unfolding reload get_recipe
reload-Serves s rs file =
    let (tools, index, built, names, latest) = build_server_tools-Built rs in
    rw (built, reload) (refl, refl, record { listed = refl; names = names; latest = latest }, refl)

-- What `last_recipe` finds is a recipe of the list with that identifier, or the one found before.
last_recipe-mem :
    (id : Text) (rs : List Recipe) (found : Option Recipe) {r : Recipe}
    → last_recipe id rs found ≡ some r
    → (found ≡ some r) ⊎ ((r.id ≡ id) × Memᴰ r rs)
last_recipe-mem id [] found h = inl h
last_recipe-mem id (x ∷ rs) found {r} h =
    elim (last_recipe-mem id rs (if x.id =? id then some x else found) h) [
      | inr (e, m) ↦ inr (e, Memᴰ.tail m)
      | inl e ↦ elim (Bool-cases (x.id =? id)) [
        | inr n ↦ inl (ground arith)
        | inl y ↦
            let same : x ≡ r = ground arith in
            inr (ap (λ z. z.id) (sym same) ∙ (=?_iff x.id id).0 y, Memᴰ.head (sym same))
      ]
    ]

-- A name that is answered is answered by one of the recipes served, with that identifier.
pub Serves-get_recipe :
    (s : ToolServer) (rs : List Recipe) (name : Text) {r : Recipe}
    → Serves s rs
    → get_recipe s.registry name ≡ some r
    → (r.id ≡ name) × Memᴰ r rs
Serves-get_recipe s rs name h e = elim (last_recipe-mem name rs none (sym (h.latest name) ∙ e)) [
  | inl n ↦ absurd (cc)
  | inr m ↦ m
]

-- The server is ready exactly if it serves a recipe.
pub ready-Serves : (s : ToolServer) (rs : List Recipe) → Serves s rs → ready s ≡ not (is_nil rs)
unfolding ready
ready-Serves s rs h = ap not (go s.registry.tools rs h.names)
  where
    go : (ts : List Tool) (rs : List Recipe) → tool_names ts ≡ recipe_ids rs → is_nil ts ≡ is_nil rs
    go [] [] e = refl
    go [] (r ∷ rs) e = absurd (cc)
    go (t ∷ ts) [] e = absurd (cc)
    go (t ∷ ts) (r ∷ rs) e = refl
