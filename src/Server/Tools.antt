-- ===== src/Server/Tools.antt =====
-- pkg/server/tools.go: from recipes to MCP tools.
pub mod Index
pub mod JsonType
pub mod Conforms
use make_mcp.Common.{
  Bool, true, false, Option, none, some, List, [], ◌∷◌, ◌++◌, if◌then◌else◌, is_nil,
}
use make_mcp.Common.Outcome.{Outcome, ok, ◌>>=◌}
use make_mcp.Text.{Text, codes, ◌=?◌}
use make_mcp.Dict.{Dict, insert}
use make_mcp.Schema.{Recipe, Param, type_int, type_bool, risk_high}
use make_mcp.Runner.Args.{params_of}

-- `schemaType`.
unfoldable pub schema_type : Text → Text
unfolding ◌=?◌
schema_type t =
    if t =? type_int
    then codes "integer"
    else if t =? type_bool
    then codes "boolean"
    else codes "string"

pub record Property : Type 0 where
  pub type : Text
  pub description : Text

-- The JSON object of a tool's input schema: its type and its properties.
pub record InputSchema : Type 0 where
  pub type : Text
  pub properties : Dict Property

unfoldable pub properties_of : List Param → Dict Property → Dict Property
unfolding schema_type insert
properties_of [] m = m
properties_of (p ∷ ps) m =
    properties_of ps
      (insert p.name (record { type = schema_type p.type; description = p.description }) m)

-- The error of `json.Marshal`.
pub data MarshalError : Type 0 where
  unsupported_value : MarshalError

-- `json.Marshal` takes every map of texts; the encoded text stands for the schema itself.
abbrev marshal : InputSchema → Outcome MarshalError InputSchema
marshal s = ok s

-- `buildInputSchema`.
unfoldable pub build_input_schema : List Param → Outcome MarshalError InputSchema
unfolding properties_of
build_input_schema ps = marshal (record { type = codes "object"; properties = properties_of ps [] })

pub record ToolAnnotation : Type 0 where
  pub title : Text
  pub read_only_hint : Option Bool
  pub destructive_hint : Option Bool
  pub idempotent_hint : Option Bool
  pub open_world_hint : Option Bool

-- `boolHint`.
unfoldable pub bool_hint : Option Bool → Bool → Option Bool
bool_hint (some b) d = some b
bool_hint none d = some d

-- `toolAnnotations`.
unfoldable pub tool_annotations : Recipe → ToolAnnotation
unfolding bool_hint ◌=?◌
tool_annotations r = record {
  title = r.name;
  read_only_hint = bool_hint r.tool_hints.read_only false;
  destructive_hint = bool_hint r.tool_hints.destructive (r.risk =? risk_high);
  idempotent_hint = bool_hint r.tool_hints.idempotent false;
  open_world_hint = bool_hint r.tool_hints.open_world true;
}

-- `toolMetadata`.
unfoldable pub tool_metadata : Recipe → Dict Text
unfolding insert
tool_metadata r =
    let meta =
      (codes "make-mcp.recipe.id", r.id)
      ∷ (codes "make-mcp.recipe.name", r.name)
      ∷ (codes "make-mcp.recipe.risk", r.risk)
      ∷ (codes "make-mcp.recipe.output", r.output)
      ∷ (codes "make-mcp.recipe.output_content_type", r.output_type)
      ∷ [] in
    if is_nil r.source_file
    then meta
    else insert (codes "make-mcp.recipe.source_file") r.source_file meta

pub record Tool : Type 0 where
  pub name : Text
  pub description : Text
  pub schema : InputSchema
  pub annotations : ToolAnnotation
  pub meta : Dict Text

-- `recipeToTool`, with `toolDescription`.
unfoldable pub recipe_to_tool : Recipe → Outcome MarshalError Tool
unfolding build_input_schema tool_annotations tool_metadata
recipe_to_tool r = build_input_schema (params_of r) >>= λ schema. ok (record {
  name = r.id;
  description = r.description;
  schema = schema;
  annotations = tool_annotations r;
  meta = tool_metadata r;
})

-- The loop of `buildServerTools`, with the tools and the index so far.
unfoldable pub build_from :
    List Tool → Dict Recipe → List Recipe → Outcome MarshalError (List Tool × Dict Recipe)
unfolding recipe_to_tool insert
build_from tools index [] = ok (tools, index)
build_from tools index (r ∷ rs) =
    recipe_to_tool r >>= λ tool. build_from (tools ++ tool ∷ []) (insert r.id r index) rs

-- `buildServerTools`.
unfoldable pub build_server_tools : List Recipe → Outcome MarshalError (List Tool × Dict Recipe)
unfolding build_from
build_server_tools rs = build_from [] [] rs
