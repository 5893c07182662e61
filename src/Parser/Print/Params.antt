-- ===== src/Parser/Print/Params.antt =====
-- The notes of the parameters of a recipe, and the parameters that come of them.
use make_mcp.Common.{
  ◌≡◌, refl, sym, ap, ◌∙◌, ◌≢◌, true, false, Option, none, some, List, [], ◌∷◌, ◌++◌, map,
  append-nil, append_assoc, arith, All,
}
use make_mcp.Text.{Text, codes, ◌=?◌}
use make_mcp.Text.Equal.{=?_ne}
use make_mcp.Dict.{Dict}
use make_mcp.Schema.{Param}
use make_mcp.Parser.Params.{ok, parse_param, parse_params, build_params}
use make_mcp.Parser.Params.Print.{parse_param-param_line}
use make_mcp.Parser.Lines.{Pending, add_annotation}
use make_mcp.Parser.Print.{listed, print_param, param_notes, IsPrintableParam}
use make_mcp.Parser.Print.Notes.{add_notes, with_meta}

parse_param-print_param : (p : Param) → IsPrintableParam p → parse_param (print_param p) ≡ ok p
parse_param-print_param p h =
    parse_param-param_line p.name p.type p.description h.named h.typed
    ∙ ap (λ d. ok (record { name = p.name; type = p.type; description = d })) h.plain.trimmed

none_param : (p : Param) → parse_param (codes "none") ≢ ok p
unfolding parse_param
none_param p e = cc

-- A printed parameter is not the word for no parameters.
print_param-ne_none : (p : Param) → IsPrintableParam p → (print_param p =? codes "none") ≡ false
print_param-ne_none p h =
    =?_ne (print_param p) (codes "none")
      (λ e. none_param p (ap parse_param (sym e) ∙ parse_param-print_param p h))

parse_params_ok :
    (id raw : Text) (rest : List Text) {p : Param} {ps : List Param}
    → parse_param raw ≡ ok p
    → parse_params id rest ≡ (ps, [])
    → parse_params id (raw ∷ rest) ≡ (p ∷ ps, [])
unfolding parse_params
parse_params_ok id raw rest {p} e f = rw (e, parse_params) (ap (λ r. (p ∷ r.0, r.1)) f)

parse_params-print_param :
    (id : Text) (ps : List Param)
    → All IsPrintableParam ps
    → parse_params id (map print_param ps) ≡ (ps, [])
unfolding parse_params
parse_params-print_param id [] h = refl
parse_params-print_param id (p ∷ ps) h =
    parse_params_ok id (print_param p) (map print_param ps) (parse_param-print_param p h.0)
      (parse_params-print_param id ps h.1)

-- A pending block with these entries and these declared parameters.
abbrev pub with_params : Dict Text → Option (List Param) → Pending
with_params m none = with_meta m
with_params m (some []) = record (with_meta m) { params_seen = true; param_none_seen = true }
with_params m (some (p ∷ ps)) = record (with_meta m) {
  params_seen = true;
  param_strings = map print_param (p ∷ ps);
}

abbrev declared : Dict Text → List Text → Pending
declared m vals = record (with_meta m) { params_seen = true; param_strings = vals }

add_param :
    (m : Dict Text) (vals : List Text) (val : Text)
    → (val =? codes "none") ≡ false
    → add_annotation (codes "param") val (declared m vals) ≡ declared m (vals ++ val ∷ [])
unfolding add_annotation ◌=?◌
add_param m vals val h = ground (arith, h)

add_declared :
    (m : Dict Text) (vals : List Text) (ps : List Param)
    → All IsPrintableParam ps
    → add_notes (map (λ q. (codes "param", print_param q)) ps) (declared m vals)
      ≡ declared m (vals ++ map print_param ps)
unfolding add_annotation ◌=?◌
add_declared m vals [] h = rw append-nil
add_declared m vals (p ∷ ps) h =
    let vals' = vals ++ print_param p ∷ [] in
    let rest = map (λ q. (codes "param", print_param q)) ps in
    ap (add_notes rest) (add_param m vals (print_param p) (print_param-ne_none p h.0))
    ∙ add_declared m vals' ps h.1
    ∙ ap (declared m) (append_assoc vals (print_param p ∷ []) (map print_param ps))

first_param :
    (m : Dict Text) (val : Text)
    → (val =? codes "none") ≡ false
    → add_annotation (codes "param") val (with_meta m) ≡ declared m (val ∷ [])
unfolding add_annotation ◌=?◌
first_param m val h = ground (arith, h)

pub add_param_notes :
    (m : Dict Text) (o : Option (List Param))
    → All IsPrintableParam (listed o)
    → add_notes (param_notes o) (with_meta m) ≡ with_params m o
unfolding add_annotation ◌=?◌
add_param_notes m none h = refl
add_param_notes m (some []) h = refl
add_param_notes m (some (p ∷ ps)) h =
    let (hp, hps) = h in
    ap (add_notes (map (λ q. (codes "param", print_param q)) ps))
      (first_param m (print_param p) (print_param-ne_none p hp))
    ∙ add_declared m (print_param p ∷ []) ps hps

-- The parameters read back without a violation.
pub build_params-with_params :
    (id : Text) (m : Dict Text) (o : Option (List Param))
    → All IsPrintableParam (listed o)
    → (let p = with_params m o in build_params id p.params_seen p.param_none_seen p.param_strings)
      ≡ (o, [])
unfolding build_params
build_params-with_params id m none h = refl
build_params-with_params id m (some []) h = refl
build_params-with_params id m (some (p ∷ ps)) h =
    ap (λ r. (some r.0, r.1)) (parse_params-print_param id (p ∷ ps) h)
