-- ===== src/Parser/Print/Readable.antt =====
-- Each line of a printed recipe is read as what it stands for.
use make_mcp.Common.{
  ◌≡◌, refl, sym, ◌≢◌, ◌⊎◌, inl, inr, Bool, true, false, Option, none, some, List, [], ◌∷◌, ◌++◌,
  map, arith, All, All-append,
}
use make_mcp.Text.{Text, codes, is_space, trim_space, trim_right, has_prefix, strip_prefix}
use make_mcp.Text.Trim.{NoLeadingSpace, trim_space-NoLeadingSpace}
use make_mcp.Go.Strconv.{format_bool}
use make_mcp.Schema.{Param, Recipe, risk_low, risk_medium, risk_high}
use make_mcp.Parser.Annotation.{is_dot, is_letter, is_key_char, find_annotation, extract_annotation}
use make_mcp.Parser.Annotation.Match.{IsKey}
use make_mcp.Parser.Annotation.Print.{extract_annotation-annotation_line}
use make_mcp.Parser.Target.{is_target_char}
use make_mcp.Parser.Target.Shape.{match_target_line_iff}
use make_mcp.Parser.Hints.{key_read_only, key_destructive, key_idempotent, key_open_world}
use make_mcp.Parser.Lines.{Pending, add_annotation}
use make_mcp.Parser.Lines.Blocks.{Block, done, note, IsTargetLine}
use make_mcp.Parser.Print.{
  listed, print_param, text_notes, hint_note, param_notes, notes, note_lines, IsPlain,
  IsPrintableParam, IsPrintable,
}
use make_mcp.Parser.Print.Texts.{trim_space-append, print_param-IsPlain}
use make_mcp.Parser.Print.Notes.{add_notes}

-- A note with a well-formed key and a trimmed value on one line.
abbrev IsNote : Text × Text → Type 0
IsNote n = IsKey n.0 × IsPlain n.1

true_false-IsPlain : (b : Bool) → IsPlain (format_bool b)
unfolding format_bool trim_space is_space is_dot
true_false-IsPlain true = record { one_line = ground arith; trimmed = refl }
true_false-IsPlain false = record { one_line = ground arith; trimmed = refl }

risk-IsPlain : (r : Text) → (r ≡ risk_low) ⊎ (r ≡ risk_medium) ⊎ (r ≡ risk_high) → IsPlain r
unfolding trim_space is_space is_dot
risk-IsPlain r (inl e) = rw e (record { one_line = ground arith; trimmed = refl })
risk-IsPlain r (inr (inl e)) = rw e (record { one_line = ground arith; trimmed = refl })
risk-IsPlain r (inr (inr e)) = rw e (record { one_line = ground arith; trimmed = refl })

hint_note-IsNote : (key : Text) (o : Option Bool) → IsKey key → All IsNote (hint_note key o)
hint_note-IsNote key none k = tt
hint_note-IsNote key (some b) k = ((k, true_false-IsPlain b), tt)

params-IsNote :
    (ps : List Param)
    → All IsPrintableParam ps
    → All IsNote (map (λ q. (codes "param", print_param q)) ps)
unfolding is_letter is_key_char
params-IsNote [] h = tt
params-IsNote (p ∷ ps) h = ((ground arith, print_param-IsPlain p h.0), params-IsNote ps h.1)

param_notes-IsNote :
    (o : Option (List Param)) → All IsPrintableParam (listed o) → All IsNote (param_notes o)
unfolding is_letter is_key_char trim_space is_space is_dot
param_notes-IsNote none h = tt
param_notes-IsNote (some []) h =
    ((ground arith, record { one_line = ground arith; trimmed = refl }), tt)
param_notes-IsNote (some (p ∷ ps)) h = params-IsNote (p ∷ ps) h

pub notes-IsNote : (strict : Bool) (r : Recipe) → IsPrintable strict r → All IsNote (notes r)
unfolding is_letter is_key_char
notes-IsNote strict r h =
    let t = r.tool_hints in
    let risk = risk-IsPlain r.risk h.valid.risk_level in
    All-append IsNote (text_notes r) _
      (
        (ground arith, h.name),
        (
          (ground arith, h.description),
          ((ground arith, risk), ((ground arith, h.output), ((ground arith, h.output_type), tt))),
        ),
      )
      (All-append IsNote (hint_note key_read_only t.read_only) _
        (hint_note-IsNote key_read_only t.read_only (ground arith))
        (All-append IsNote (hint_note key_destructive t.destructive) _
          (hint_note-IsNote key_destructive t.destructive (ground arith))
          (All-append IsNote (hint_note key_idempotent t.idempotent) _
            (hint_note-IsNote key_idempotent t.idempotent (ground arith))
            (All-append IsNote (hint_note key_open_world t.open_world) (param_notes r.params)
              (hint_note-IsNote key_open_world t.open_world (ground arith))
              (param_notes-IsNote r.params h.params)))))

-- The lines of the notes are a block of annotations.
pub note_lines-Block :
    (delim : Text) (ns : List (Text × Text)) (p : Pending)
    → delim ≢ []
    → NoLeadingSpace delim
    → All IsNote ns
    → Block delim (add_notes ns p) p (note_lines delim ns)
note_lines-Block delim [] p d n h = done refl
note_lines-Block delim ((key, value) ∷ ns) p d n ((k, v), hs) =
    note (extract_annotation-annotation_line delim key value d n k v.one_line v.trimmed)
      (note_lines-Block delim ns (add_annotation key value p) d n hs)

target-no_note :
    (delim id : Text)
    → All (λ c. is_target_char c ≡ true) id
    → find_annotation delim (id ++ b':' ∷ []) ≡ none
unfolding find_annotation is_target_char is_letter
target-no_note delim [] h = refl
target-no_note delim (c ∷ s) h = ground (arith, target-no_note delim s)

target-no_comment :
    (id : Text)
    → All (λ c. is_target_char c ≡ true) id
    → has_prefix (codes "#") (id ++ b':' ∷ []) ≡ false
unfolding has_prefix strip_prefix is_target_char is_letter
target-no_comment [] h = refl
target-no_comment (c ∷ s) h = ground arith

trim_space-target :
    (id : Text) → id ≢ [] → trim_space id ≡ id → trim_space (id ++ b':' ∷ []) ≡ id ++ b':' ∷ []
unfolding trim_right is_space
trim_space-target [] n t = absurd (n refl)
trim_space-target (c ∷ s) n t =
    let lead : NoLeadingSpace (c ∷ s) = rw t at (trim_space-NoLeadingSpace (c ∷ s)) in
    trim_space-append (c ∷ s) (b':' ∷ []) lead (λ e. cc) refl

pub target-IsTargetLine :
    (delim id : Text)
    → All (λ c. is_target_char c ≡ true) id
    → id ≢ []
    → trim_space id ≡ id
    → IsTargetLine delim id (id ++ b':' ∷ [])
unfolding extract_annotation
target-IsTargetLine delim id h n t = record {
  no_note = rw (target-no_note delim id h, extract_annotation);
  no_comment = rw (trim_space-target id n t) (target-no_comment id h);
  target = rw (trim_space-target id n t) (
      (match_target_line_iff (id ++ b':' ∷ []) id).1 (record {
        name = id;
        behind = [];
        cut = refl;
        name_pass = h;
        named = n;
        no_equals = tt;
        id_is = sym t;
      }));
}
