-- ===== src/Server/Tools/Index.antt =====
-- The index of recipes holds the last recipe of each identifier, and the tools are those recipes'.
use make_mcp.Common.{
  ◌≡◌, refl, sym, ap, ◌∙◌, Option, none, some, List, [], ◌∷◌, ◌++◌, map, append-nil, if◌then◌else◌,
}
use make_mcp.Common.Outcome.{ok, ◌>>=◌}
use make_mcp.Text.{Text, codes, ◌=?◌}
use make_mcp.Dict.{Dict, lookup, insert}
use make_mcp.Dict.Laws.{lookup-insert}
use make_mcp.Schema.{Recipe}
use make_mcp.Runner.Args.{params_of}
use make_mcp.Server.Tools.{
  Tool, recipe_to_tool, build_from, build_server_tools, tool_annotations, tool_metadata,
  build_input_schema, properties_of,
}

-- The last recipe with the identifier.
abbrev pub last_recipe : Text → List Recipe → Option Recipe → Option Recipe
last_recipe id [] found = found
last_recipe id (r ∷ rs) found = last_recipe id rs (if r.id =? id then some r else found)

abbrev pub tool_names : List Tool → List Text
tool_names = map (λ t. t.name)

abbrev pub recipe_ids : List Recipe → List Text
recipe_ids = map (λ r. r.id)

recipe_to_tool_total : (r : Recipe) → (t : Tool) × (recipe_to_tool r ≡ ok t) × (t.name ≡ r.id)
unfolding recipe_to_tool build_input_schema
recipe_to_tool_total r = (
  record {
    name = r.id;
    description = r.description;
    schema = record { type = codes "object"; properties = properties_of (params_of r) [] };
    annotations = tool_annotations r;
    meta = tool_metadata r;
  },
  refl,
  refl,
)

-- The tools and the index that the loop ends with.
pub record Built (tools : List Tool) (index : Dict Recipe) (rs : List Recipe) : Type 0 where
  pub tools_out : List Tool
  pub index_out : Dict Recipe
  pub built : build_from tools index rs ≡ ok (tools_out, index_out)
  pub names : tool_names tools_out ≡ tool_names tools ++ recipe_ids rs
  pub latest : (id : Text) → lookup id index_out ≡ last_recipe id rs (lookup id index)

tool_names-append :
    (ts : List Tool) (t : Tool) (id : Text) (ids : List Text)
    → t.name ≡ id
    → tool_names (ts ++ t ∷ []) ++ ids ≡ tool_names ts ++ id ∷ ids
tool_names-append [] t id ids e = ap (λ n. n ∷ ids) e
tool_names-append (x ∷ ts) t id ids e = ap (◌∷◌ x.name) (tool_names-append ts t id ids e)

build_from-Built :
    (tools : List Tool) (index : Dict Recipe) (rs : List Recipe) → Built tools index rs
unfolding build_from
build_from-Built tools index [] = record {
  tools_out = tools;
  index_out = index;
  built = refl;
  names = sym (append-nil (tool_names tools));
  latest = λ id. refl;
}
build_from-Built tools index (r ∷ rs) =
    let (t, made, named) = recipe_to_tool_total r in
    let b = build_from-Built (tools ++ t ∷ []) (insert r.id r index) rs in
    record {
      tools_out = b.tools_out;
      index_out = b.index_out;
      built =
          ap (λ o. o >>= λ tool. build_from (tools ++ tool ∷ []) (insert r.id r index) rs) made
          ∙ b.built;
      names = b.names ∙ tool_names-append tools t r.id (recipe_ids rs) named;
      latest = λ id. b.latest id ∙ ap (last_recipe id rs) (lookup-insert id r.id r index);
    }

-- Building the tools always succeeds; the tools carry the recipes' identifiers in order, and the index
-- holds, for each name, the last recipe with that identifier and nothing else.
pub build_server_tools-Built :
    (rs : List Recipe)
    → (tools : List Tool) × (index : Dict Recipe) × (build_server_tools rs ≡ ok (tools, index))
      × (tool_names tools ≡ recipe_ids rs)
      × ((id : Text) → lookup id index ≡ last_recipe id rs none)
unfolding build_server_tools lookup
build_server_tools-Built rs =
    let b = build_from-Built [] [] rs in (b.tools_out, b.index_out, b.built, b.names, b.latest)
