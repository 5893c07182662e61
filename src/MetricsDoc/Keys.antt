-- ===== src/MetricsDoc/Keys.antt =====
-- The keys of attributes in a tree: `collectAttrKeys`, `buildHelperAttrKeys`, `collectHelperCallKeys`, and
-- `mergeKeys`.
pub mod Union
pub mod Occurs
use make_mcp.Common.{
  ℕ, Bool, true, false, not, ◌&&◌, ◌||◌, Option, none, some, List, [], ◌∷◌, ◌++◌, ◌==◌,
  if◌then◌else◌, is_nil, drop_while,
}
use make_mcp.Text.{Text, codes, ◌=?◌}
use make_mcp.Dict.{Dict, lookup, insert}
use make_mcp.MetricsDoc.Tree.{
  Node, Nodes, FuncDecl, Decl, visits, ident, basic_lit, selector_expr, call_expr, no_nodes, more,
  func_decl, other_decl,
}

abbrev pub is_quote : ℕ → Bool
is_quote c = c == 34

unfoldable pub trim_quotes_right : Text → Text
trim_quotes_right [] = []
trim_quotes_right (c ∷ s) =
    let r = trim_quotes_right s in if is_nil r && is_quote c then [] else c ∷ r

-- `strings.Trim(value, "\"")`.
unfoldable pub trim_quotes : Text → Text
unfolding trim_quotes_right
trim_quotes s = trim_quotes_right (drop_while is_quote s)

-- The callback of `collectAttrKeys` at one node: the key of a call `attribute.X("key", ...)`.
unfoldable pub attr_key : Node → List Text
unfolding ◌=?◌ trim_quotes
attr_key (call_expr (selector_expr (ident pkg) sel) (more (basic_lit true value) args)) =
    if pkg =? codes "attribute" then trim_quotes value ∷ [] else []
attr_key _ = []

unfoldable pub attr_keys : List Node → List Text
unfolding attr_key
attr_keys [] = []
attr_keys (n ∷ ns) = attr_key n ++ attr_keys ns

-- `collectAttrKeys`.
unfoldable pub collect_attr_keys : Node → List Text
unfolding attr_keys visits
collect_attr_keys expr = attr_keys (visits expr)

-- `m[k]` of a map of slices: nil where the key is missing.
abbrev pub slice_or_nil : Option (List Text) → List Text
slice_or_nil none = []
slice_or_nil (some keys) = keys

unfoldable pub get_keys : Text → Dict (List Text) → List Text
unfolding lookup
get_keys k m = slice_or_nil (lookup k m)

-- The name of the function that is called, empty where there is none.
unfoldable pub func_name : Node → Text
func_name (ident name) = name
func_name (selector_expr x sel) = sel
func_name _ = []

unfoldable pub helper_keys : Dict (List Text) → List Node → List Text
unfolding func_name get_keys
helper_keys helpers [] = []
helper_keys helpers (call_expr f args ∷ ns) =
    (if not (is_nil (func_name f)) then get_keys (func_name f) helpers else [])
    ++ helper_keys helpers ns
helper_keys helpers (n ∷ ns) = helper_keys helpers ns

-- `collectHelperCallKeys`.
unfoldable pub collect_helper_call_keys : Node → Dict (List Text) → List Text
unfolding helper_keys visits
collect_helper_call_keys expr helpers = helper_keys helpers (visits expr)

unfoldable pub add_helper : FuncDecl → Node → Dict (List Text) → Dict (List Text)
unfolding ◌=?◌ collect_attr_keys insert
add_helper fn body helpers =
    if fn.name =? codes "initMetrics"
    then helpers
    else if is_nil (collect_attr_keys body)
    then helpers
    else insert fn.name (collect_attr_keys body) helpers

unfoldable pub helpers_from : Dict (List Text) → List Decl → Dict (List Text)
unfolding add_helper
helpers_from helpers [] = helpers
helpers_from helpers (func_decl fn ∷ decls) =
    helpers_from (elim fn.body [ none ↦ helpers | some body ↦ add_helper fn body helpers ]) decls
helpers_from helpers (other_decl ∷ decls) = helpers_from helpers decls

-- `buildHelperAttrKeys`.
unfoldable pub build_helper_attr_keys : List Decl → Dict (List Text)
unfolding helpers_from
build_helper_attr_keys decls = helpers_from [] decls

-- `seen[k]`, for the keys put into the map `seen`.
unfoldable pub contains : Text → List Text → Bool
unfolding ◌=?◌
contains k [] = false
contains k (j ∷ js) = k =? j || contains k js

-- The loop of `mergeKeys` over the new keys, with `seen` and `result`.
unfoldable pub add_new : List Text → List Text → List Text → List Text
unfolding contains
add_new seen result [] = result
add_new seen result (k ∷ ks) =
    add_new (if contains k seen then seen else k ∷ seen)
      (if contains k seen then result else result ++ k ∷ []) ks

-- `mergeKeys`.
unfoldable pub merge_keys : List Text → List Text → List Text
unfolding add_new
merge_keys existing new_keys = add_new existing existing new_keys
