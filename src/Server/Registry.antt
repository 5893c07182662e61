-- ===== src/Server/Registry.antt =====
-- pkg/server/server.go: the registry, `New`, `Ready` and `Reload`. A lock-protected method is one step.
pub mod Reload
use make_mcp.Common.{Bool, true, false, not, Option, none, some, List, [], ◌∷◌, ◌++◌, is_nil}
use make_mcp.Common.Outcome.{Outcome, ok, fail, ◌>>=◌}
use make_mcp.Text.{Text}
use make_mcp.Dict.{Dict, lookup}
use make_mcp.Schema.{Recipe}
use make_mcp.Config.{Config}
use make_mcp.Server.Tools.{Tool, MarshalError, build_server_tools}

-- `Registry`.
pub record Registry : Type 0 where
  pub tools : List Tool
  pub recipes : Dict Recipe

-- What the server tells the outside: a notification to all clients, and its metrics of the tools.
pub data Event : Type 0 where
  list_changed : Event
  -- The file, and whether the reload succeeded.
  reload_recorded : Text → Bool → Event
  tools_registered : List Recipe → Event

-- `ToolServer`: `listed` is what `SetTools` was given last.
pub record ToolServer : Type 0 where
  pub cfg : Config
  pub registry : Registry
  pub listed : List Tool
  pub events : List Event

-- `Registry.swap`.
unfoldable pub swap : List Tool → Dict Recipe → Registry → Registry
swap tools recipes r = record { tools = tools; recipes = recipes }

-- `Registry.getRecipe`.
unfoldable pub get_recipe : Registry → Text → Option Recipe
unfolding lookup
get_recipe r name = lookup name r.recipes

-- `Registry.getRecipesByNames`.
unfoldable pub get_recipes_by_names : Registry → List Text → List Recipe
unfolding get_recipe
get_recipes_by_names r [] = []
get_recipes_by_names r (name ∷ names) =
    let rest = get_recipes_by_names r names in
    elim (get_recipe r name) [ none ↦ rest | some recipe ↦ recipe ∷ rest ]

abbrev empty_registry : Registry
empty_registry = record { tools = []; recipes = [] }

abbrev install : List Tool → Dict Recipe → List Event → ToolServer → ToolServer
install tools index events s = record s {
  registry = swap tools index s.registry;
  listed = tools;
  events = s.events ++ events;
}

-- `New`.
unfoldable pub new : Config → List Recipe → Outcome MarshalError ToolServer
unfolding swap build_server_tools
new cfg recipes = build_server_tools recipes >>= λ (tools, index). ok (
    install tools index (tools_registered recipes ∷ [])
      (record { cfg = cfg; registry = empty_registry; listed = []; events = [] }))

-- `Ready`.
unfoldable pub ready : ToolServer → Bool
ready s = not (is_nil s.registry.tools)

-- `Reload`: the server afterwards, and whether it succeeded.
unfoldable pub reload : ToolServer → List Recipe → Text → ToolServer × Bool
unfolding swap build_server_tools
reload s recipes changed_file = elim (build_server_tools recipes) [
  | fail e ↦ (record s { events = s.events ++ reload_recorded changed_file false ∷ [] }, false)
  | ok (tools, index) ↦ (
    install tools index
        (list_changed ∷ reload_recorded changed_file true ∷ tools_registered recipes ∷ []) s,
    true,
  )
]
