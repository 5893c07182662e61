-- ===== src/Parser/Print/Block.antt =====
-- The whole pending block of a printed recipe: the recipe that comes of it, without a violation.
use make_mcp.Common.{
  ◌≡◌, refl, sym, ap, ap₂, ◌∙◌, ◌≢◌, Bool, true, false, Option, none, some, List, [], ◌∷◌, ◌++◌,
  map, All,
}
use make_mcp.Text.{Text, codes, ◌=?◌}
use make_mcp.Dict.{Dict, lookup, is_some}
use make_mcp.Schema.{validate, Param, Recipe}
use make_mcp.Schema.Validate.{validate_iff}
use make_mcp.Parser.Params.{build_params, at_recipe}
use make_mcp.Parser.Hints.{
  key_read_only, key_destructive, key_idempotent, key_open_world, build_tool_hints, validate_strict,
  missing_keys, required_keys,
}
use make_mcp.Parser.Lines.{meta_text, Pending, no_pending, make_recipe, recipe_errors}
use make_mcp.Parser.Lines.Sound.{AllHints}
use make_mcp.Parser.Print.{
  listed, text_notes, hint_note, param_notes, notes, IsPrintableParam, IsPrintable,
}
use make_mcp.Parser.Print.Notes.{
  hint_text, add_notes, add_notes-append, with_meta, text_meta, hint_meta, recipe_meta,
  add_text_notes, add_hint_note, recipe_meta-text, recipe_meta-hints, lookup-recipe_meta,
}
use make_mcp.Parser.Print.Params.{with_params, add_param_notes, build_params-with_params}

abbrev pub recipe_pending : Recipe → Pending
recipe_pending r = with_params (recipe_meta r) r.params

then_hint :
    (key : Text) (o : Option Bool) (rest : List (Text × Text)) (m : Dict Text)
    → (key =? codes "param") ≡ false
    → add_notes (hint_note key o ++ rest) (with_meta m)
      ≡ add_notes rest (with_meta (hint_meta key o m))
then_hint key o rest m h =
    add_notes-append (hint_note key o) rest (with_meta m)
    ∙ ap (add_notes rest) (add_hint_note key o m h)

pub add_notes-notes :
    (r : Recipe)
    → All IsPrintableParam (listed r.params)
    → add_notes (notes r) no_pending ≡ recipe_pending r
unfolding ◌=?◌
add_notes-notes r h =
    let t = r.tool_hints in
    let m0 = text_meta r in
    let m1 = hint_meta key_read_only t.read_only m0 in
    let m2 = hint_meta key_destructive t.destructive m1 in
    let m3 = hint_meta key_idempotent t.idempotent m2 in
    let n4 = hint_note key_open_world t.open_world ++ param_notes r.params in
    let n3 = hint_note key_idempotent t.idempotent ++ n4 in
    let n2 = hint_note key_destructive t.destructive ++ n3 in
    let n1 = hint_note key_read_only t.read_only ++ n2 in
    add_notes-append (text_notes r) n1 no_pending
    ∙ ap (add_notes n1) (add_text_notes r)
    ∙ then_hint key_read_only t.read_only n2 m0 refl
    ∙ then_hint key_destructive t.destructive n3 m1 refl
    ∙ then_hint key_idempotent t.idempotent n4 m2 refl
    ∙ then_hint key_open_world t.open_world (param_notes r.params) m3 refl
    ∙ add_param_notes (recipe_meta r) r.params h

with_params-meta : (m : Dict Text) (o : Option (List Param)) → (with_params m o).meta ≡ m
with_params-meta m none = refl
with_params-meta m (some []) = refl
with_params-meta m (some (p ∷ ps)) = refl

pub with_params-in_block :
    (m : Dict Text) (o : Option (List Param)) → (with_params m o).in_block ≡ true
with_params-in_block m none = refl
with_params-in_block m (some []) = refl
with_params-in_block m (some (p ∷ ps)) = refl

make_recipe_fields :
    (r : Recipe) (p : Pending)
    → r.source_file ≡ []
    → p.meta ≡ recipe_meta r
    → (build_params r.id p.params_seen p.param_none_seen p.param_strings).0 ≡ r.params
    → make_recipe r.id p ≡ r
unfolding make_recipe build_tool_hints
make_recipe_fields r p src m ps =
    let (name, description, risk, output, output_type) = recipe_meta-text r in
    let hints =
      ap (λ x. (build_tool_hints r.id x).0) m ∙ ap (λ x. x.0) (recipe_meta-hints r.id r) in
    λ i. record {
      source_file = sym src i;
      id = r.id;
      name = (ap (λ x. meta_text x (codes "name")) m ∙ name) i;
      description = (ap (λ x. meta_text x (codes "description")) m ∙ description) i;
      risk = (ap (λ x. meta_text x (codes "risk")) m ∙ risk) i;
      params = ps i;
      output = (ap (λ x. meta_text x (codes "output")) m ∙ output) i;
      output_type = (ap (λ x. meta_text x (codes "output-type")) m ∙ output_type) i;
      tool_hints = hints i;
    }

pub make_recipe-recipe_pending :
    (r : Recipe)
    → r.source_file ≡ []
    → All IsPrintableParam (listed r.params)
    → make_recipe r.id (recipe_pending r) ≡ r
make_recipe-recipe_pending r src h =
    make_recipe_fields r (recipe_pending r) src (with_params-meta (recipe_meta r) r.params)
      (ap (λ x. x.0) (build_params-with_params r.id (recipe_meta r) r.params h))

-- A printed hint is there.
hint_text-is_some : (o : Option Bool) → o ≢ none → is_some (hint_text o none) ≡ true
hint_text-is_some none h = absurd (h refl)
hint_text-is_some (some b) h = refl

missing_keys-recipe_meta :
    (id : Text) (r : Recipe)
    → AllHints r.tool_hints
    → missing_keys id (recipe_meta r) required_keys ≡ []
unfolding missing_keys ◌=?◌ lookup
missing_keys-recipe_meta id r h =
    let t = r.tool_hints in
    rw (
      lookup-recipe_meta key_read_only r,
      lookup-recipe_meta key_destructive r,
      lookup-recipe_meta key_idempotent r,
      lookup-recipe_meta key_open_world r,
      hint_text-is_some t.read_only h.read_only,
      hint_text-is_some t.destructive h.destructive,
      hint_text-is_some t.idempotent h.idempotent,
      hint_text-is_some t.open_world h.open_world,
    )

validate_strict-recipe_meta :
    (id : Text) (r : Recipe) (strict : Bool)
    → (strict ≡ true → AllHints r.tool_hints)
    → validate_strict id (recipe_meta r) strict ≡ []
unfolding validate_strict
validate_strict-recipe_meta id r false h = refl
validate_strict-recipe_meta id r true h = missing_keys-recipe_meta id r (h refl)

pub recipe_errors-recipe_pending :
    (strict : Bool) (r : Recipe)
    → IsPrintable strict r
    → recipe_errors strict r.id (recipe_pending r) ≡ []
unfolding recipe_errors
recipe_errors-recipe_pending strict r h =
    let p = recipe_pending r in
    let m = with_params-meta (recipe_meta r) r.params in
    ap₂ ◌++◌ (ap (λ x. x.1) (build_params-with_params r.id (recipe_meta r) r.params h.params)) (
      ap₂ ◌++◌ (ap (λ x. (build_tool_hints r.id x).1) m ∙ ap (λ x. x.1) (recipe_meta-hints r.id r))
        (ap₂ ◌++◌
          (ap (λ x. validate_strict r.id x strict) m
            ∙ validate_strict-recipe_meta r.id r strict h.hints)
          (ap (λ x. map (at_recipe r.id) (validate x))
              (make_recipe-recipe_pending r h.no_source h.params)
            ∙ ap (map (at_recipe r.id)) ((validate_iff r).1 h.valid))))
