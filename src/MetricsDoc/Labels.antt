-- ===== src/MetricsDoc/Labels.antt =====
-- The labels of the instruments that a function records to: `extractLabelsFromFunc`.
use make_mcp.Common.{not, ◌&&◌, List, [], ◌∷◌, ◌++◌, if◌then◌else◌, is_nil}
use make_mcp.Text.{Text, codes, ◌=?◌}
use make_mcp.Dict.{Dict, insert}
use make_mcp.MetricsDoc.Tree.{
  Node, Nodes, visits, ident, selector_expr, call_expr, assign_stmt, no_nodes, more, define,
}
use make_mcp.MetricsDoc.Keys.{collect_attr_keys, collect_helper_call_keys, get_keys, merge_keys}

-- What is recorded of each variable, or of each instrument.
abbrev pub Labels : Type 0
Labels = Dict (List Text)

-- `if len(keys) > 0 { m[k] = keys }`.
unfoldable pub set_keys : Text → List Text → Labels → Labels
unfolding insert
set_keys k keys m = if is_nil keys then m else insert k keys m

-- The first pass of `extractLabelsFromFunc`, over the visited nodes.
unfoldable pub var_attrs : Labels → Labels → List Node → Labels
unfolding collect_attr_keys collect_helper_call_keys set_keys
var_attrs helpers vars [] = vars
var_attrs helpers vars (assign_stmt (more (ident v) no_nodes) define (more rhs no_nodes) ∷ ns) =
    var_attrs helpers
      (set_keys v (collect_attr_keys rhs ++ collect_helper_call_keys rhs helpers) vars) ns
var_attrs helpers vars (n ∷ ns) = var_attrs helpers vars ns

-- `extractInstrumentField`.
unfoldable pub extract_instrument_field : Node → Text
unfolding ◌=?◌
extract_instrument_field (selector_expr (selector_expr (call_expr f args) field) method) =
    if not (method =? codes "Add") && not (method =? codes "Record") then [] else field
extract_instrument_field (selector_expr (selector_expr (ident x) field) method) =
    if not (method =? codes "Add") && not (method =? codes "Record") then [] else field
extract_instrument_field _ = []

unfoldable pub var_keys : Labels → Node → List Text
unfolding get_keys
var_keys vars (ident name) = get_keys name vars
var_keys vars _ = []

-- The loop over the arguments of an Add or Record call.
unfoldable pub args_keys : Labels → Nodes → List Text
unfolding collect_attr_keys var_keys
args_keys vars no_nodes = []
args_keys vars (more arg args) = (collect_attr_keys arg ++ var_keys vars arg) ++ args_keys vars args

-- `result[field] = mergeKeys(result[field], keys)`.
unfoldable pub merge_field : Text → List Text → Labels → Labels
unfolding insert get_keys merge_keys
merge_field field keys m = insert field (merge_keys (get_keys field m) keys) m

unfoldable pub record_call : Labels → Node → Nodes → Labels → Labels
unfolding extract_instrument_field args_keys merge_field
record_call vars f args result =
    if is_nil (extract_instrument_field f)
    then result
    else if is_nil (args_keys vars args)
    then result
    else merge_field (extract_instrument_field f) (args_keys vars args) result

-- The second pass of `extractLabelsFromFunc`.
unfoldable pub labels_from : Labels → Labels → List Node → Labels
unfolding record_call
labels_from vars result [] = result
labels_from vars result (call_expr f args ∷ ns) =
    labels_from vars (record_call vars f args result) ns
labels_from vars result (n ∷ ns) = labels_from vars result ns

-- `extractLabelsFromFunc`, at the body of the function.
unfoldable pub extract_labels_from_func : Node → Labels → Labels
unfolding var_attrs labels_from visits
extract_labels_from_func body helpers =
    labels_from (var_attrs helpers [] (visits body)) [] (visits body)
