-- ===== src/Parser/Print/Notes.antt =====
-- What the notes of a recipe make of the pending block, and the recipe that comes of it.
use make_mcp.Common.{
  ◌≡◌, refl, ◌∙◌, Bool, true, false, Option, none, some, List, [], ◌∷◌, ◌++◌, arith, if◌then◌else◌,
}
use make_mcp.Text.{Text, codes, ◌=?◌}
use make_mcp.Dict.{Dict, lookup, insert}
use make_mcp.Dict.Laws.{lookup-insert}
use make_mcp.Go.Strconv.{format_bool, parse_bool}
use make_mcp.Schema.{Recipe}
use make_mcp.Parser.Hints.{
  key_read_only, key_destructive, key_idempotent, key_open_world, optional_bool, build_tool_hints,
  append_error,
}
use make_mcp.Parser.Lines.{Pending, no_pending, add_annotation, meta_text}
use make_mcp.Parser.Print.{text_notes, hint_note}

-- The notes in their order.
abbrev pub add_notes : List (Text × Text) → Pending → Pending
add_notes [] p = p
add_notes (n ∷ ns) p = add_notes ns (add_annotation n.0 n.1 p)

pub add_notes-append :
    (ms ns : List (Text × Text)) (p : Pending)
    → add_notes (ms ++ ns) p ≡ add_notes ns (add_notes ms p)
add_notes-append [] ns p = refl
add_notes-append (m ∷ ms) ns p = add_notes-append ms ns (add_annotation m.0 m.1 p)

-- A pending block with these entries and nothing else.
abbrev pub with_meta : Dict Text → Pending
with_meta m = record {
  meta = m;
  param_strings = [];
  params_seen = false;
  param_none_seen = false;
  in_block = true;
}

abbrev pub text_meta : Recipe → Dict Text
text_meta r =
    (codes "name", r.name)
    ∷ (codes "description", r.description)
    ∷ (codes "risk", r.risk)
    ∷ (codes "output", r.output)
    ∷ (codes "output-type", r.output_type)
    ∷ []

abbrev pub hint_meta : Text → Option Bool → Dict Text → Dict Text
hint_meta key none m = m
hint_meta key (some b) m = insert key (format_bool b) m

abbrev pub recipe_meta : Recipe → Dict Text
recipe_meta r = hint_meta key_open_world r.tool_hints.open_world (
    hint_meta key_idempotent r.tool_hints.idempotent (
      hint_meta key_destructive r.tool_hints.destructive
        (hint_meta key_read_only r.tool_hints.read_only (text_meta r))))

pub add_text_notes : (r : Recipe) → add_notes (text_notes r) no_pending ≡ with_meta (text_meta r)
unfolding add_annotation insert ◌=?◌
add_text_notes r = refl

pub add_hint_note :
    (key : Text) (o : Option Bool) (m : Dict Text)
    → (key =? codes "param") ≡ false
    → add_notes (hint_note key o) (with_meta m) ≡ with_meta (hint_meta key o m)
unfolding add_annotation
add_hint_note key none m h = refl
add_hint_note key (some b) m h = rw h

abbrev pub hint_text : Option Bool → Option Text → Option Text
hint_text none o = o
hint_text (some b) o = some (format_bool b)

lookup-hint_meta :
    (j key : Text) (o : Option Bool) (m : Dict Text)
    → lookup j (hint_meta key o m) ≡ (if key =? j then hint_text o (lookup j m) else lookup j m)
lookup-hint_meta j key none m = ground arith
lookup-hint_meta j key (some b) m = lookup-insert j key (format_bool b) m

-- A hint that was printed reads back.
parse_bool-format_bool : (b : Bool) → parse_bool (format_bool b) ≡ some b
unfolding parse_bool format_bool ◌=?◌
parse_bool-format_bool true = refl
parse_bool-format_bool false = refl

optional_bool_of :
    (m : Dict Text) (key : Text) (o : Option Bool)
    → lookup key m ≡ hint_text o none
    → optional_bool m key ≡ (o, none)
unfolding optional_bool
optional_bool_of m key none e = rw (e, optional_bool)
optional_bool_of m key (some b) e = rw (e, optional_bool) (rw (parse_bool-format_bool b))

abbrev pub hinted : Text → Text → Option Bool → Option Text → Option Text
hinted j key o rest = if key =? j then hint_text o rest else rest

-- What the entries of a recipe hold at a key.
abbrev pub entry : Text → Recipe → Option Text
entry j r = hinted j key_open_world r.tool_hints.open_world (
    hinted j key_idempotent r.tool_hints.idempotent (
      hinted j key_destructive r.tool_hints.destructive
        (hinted j key_read_only r.tool_hints.read_only (lookup j (text_meta r)))))

pub lookup-recipe_meta : (j : Text) (r : Recipe) → lookup j (recipe_meta r) ≡ entry j r
lookup-recipe_meta j r =
    let h = r.tool_hints in
    let m0 = text_meta r in
    let m1 = hint_meta key_read_only h.read_only m0 in
    let m2 = hint_meta key_destructive h.destructive m1 in
    let m3 = hint_meta key_idempotent h.idempotent m2 in
    rw (
      lookup-hint_meta j key_open_world h.open_world m3,
      lookup-hint_meta j key_idempotent h.idempotent m2,
      lookup-hint_meta j key_destructive h.destructive m1,
      lookup-hint_meta j key_read_only h.read_only m0,
    )

-- The tool hints read back without a violation.
pub recipe_meta-hints :
    (id : Text) (r : Recipe) → build_tool_hints id (recipe_meta r) ≡ (r.tool_hints, [])
unfolding ◌=?◌ lookup build_tool_hints append_error
recipe_meta-hints id r =
    let m = recipe_meta r in
    let h = r.tool_hints in
    rw (
      optional_bool_of m key_read_only h.read_only (lookup-recipe_meta key_read_only r),
      optional_bool_of m key_destructive h.destructive (lookup-recipe_meta key_destructive r),
      optional_bool_of m key_idempotent h.idempotent (lookup-recipe_meta key_idempotent r),
      optional_bool_of m key_open_world h.open_world (lookup-recipe_meta key_open_world r),
    )

meta_text-entry :
    (key v : Text) (r : Recipe) → entry key r ≡ some v → meta_text (recipe_meta r) key ≡ v
unfolding meta_text
meta_text-entry key v r e = let e' = lookup-recipe_meta key r ∙ e in rw (e', meta_text)

pub recipe_meta-text :
    (r : Recipe)
    → (meta_text (recipe_meta r) (codes "name") ≡ r.name)
      × (meta_text (recipe_meta r) (codes "description") ≡ r.description)
      × (meta_text (recipe_meta r) (codes "risk") ≡ r.risk)
      × (meta_text (recipe_meta r) (codes "output") ≡ r.output)
      × (meta_text (recipe_meta r) (codes "output-type") ≡ r.output_type)
unfolding ◌=?◌ lookup
recipe_meta-text r = (
  meta_text-entry (codes "name") r.name r refl,
  meta_text-entry (codes "description") r.description r refl,
  meta_text-entry (codes "risk") r.risk r refl,
  meta_text-entry (codes "output") r.output r refl,
  meta_text-entry (codes "output-type") r.output_type r refl,
)
