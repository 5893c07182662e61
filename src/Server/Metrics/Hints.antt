-- ===== src/Server/Metrics/Hints.antt =====
-- The labels of a tool in the metrics are the hints that it announces to the clients.
use make_mcp.Common.{◌≡◌, refl, Bool, true, false, Option, none, some, List, [], ◌∷◌, ◌++◌}
use make_mcp.Text.{Text, codes, ◌=?◌}
use make_mcp.Schema.{Recipe, risk_high}
use make_mcp.Server.Tools.{tool_annotations, bool_hint}
use make_mcp.Telemetry.Metrics.{
  Attribute, text, flag, resolve_hint, group_of, group_attributes, recipe_attrs,
}

-- The hints of a recipe's tool, each with a value.
pub record Announced (r : Recipe) : Type 0 where
  pub read_only : Bool
  pub destructive : Bool
  pub idempotent : Bool
  pub open_world : Bool
  pub read_only_hint : (tool_annotations r).read_only_hint ≡ some read_only
  pub destructive_hint : (tool_annotations r).destructive_hint ≡ some destructive
  pub idempotent_hint : (tool_annotations r).idempotent_hint ≡ some idempotent
  pub open_world_hint : (tool_annotations r).open_world_hint ≡ some open_world

-- The labels for the risk and for those hints.
abbrev pub hint_attributes : (r : Recipe) → Announced r → List Attribute
hint_attributes r a =
    text (codes "risk") r.risk
    ∷ flag (codes "read_only") a.read_only
    ∷ flag (codes "destructive") a.destructive
    ∷ flag (codes "idempotent") a.idempotent
    ∷ flag (codes "open_world") a.open_world
    ∷ []

bool_hint-resolve_hint : (o : Option Bool) (d : Bool) → bool_hint o d ≡ some (resolve_hint o d)
unfolding bool_hint resolve_hint
bool_hint-resolve_hint none d = refl
bool_hint-resolve_hint (some b) d = refl

-- The tool of a recipe announces a value for each of the four hints, and every metric about the recipe, of its
-- calls, its lists and its registration, has exactly the recipe's risk and these values as labels, that of a
-- call also the recipe's identifier, the status and whether it was streamed.
pub attributes-Announced :
    (r : Recipe) (status : Text) (streaming : Bool)
    → (a : Announced r) × (group_attributes (group_of r) ≡ hint_attributes r a)
      × (recipe_attrs r status streaming
          ≡ text (codes "tool") r.id
            ∷ (hint_attributes r a
                ++ text (codes "status") status ∷ flag (codes "streaming") streaming ∷ []))
unfolding tool_annotations group_attributes group_of recipe_attrs
attributes-Announced r status streaming = (
  record {
    read_only = resolve_hint r.tool_hints.read_only false;
    destructive = resolve_hint r.tool_hints.destructive (r.risk =? risk_high);
    idempotent = resolve_hint r.tool_hints.idempotent false;
    open_world = resolve_hint r.tool_hints.open_world true;
    read_only_hint = bool_hint-resolve_hint r.tool_hints.read_only false;
    destructive_hint = bool_hint-resolve_hint r.tool_hints.destructive (r.risk =? risk_high);
    idempotent_hint = bool_hint-resolve_hint r.tool_hints.idempotent false;
    open_world_hint = bool_hint-resolve_hint r.tool_hints.open_world true;
  },
  refl,
  refl,
)
