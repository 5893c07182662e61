-- ===== src/Parser/Target/Shape.antt =====
-- The target pattern against its reading by concatenation.
use make_mcp.Common.{
  ◌≡◌, refl, sym, ap, ◌∙◌, ◌≢◌, ◌↔◌, true, some, [], ◌∷◌, ◌++◌, arith, take_while, drop_while,
}
use make_mcp.Common.Spans.{
  AllPass, take-append-drop_while, take_while-AllPass, take_while-append, drop_while-append,
}
use make_mcp.Text.{Text, trim_space}
use make_mcp.Parser.Annotation.{is_letter}
use make_mcp.Parser.Target.{is_target_char, ends_target, match_target_line}

-- The text does not begin with `=`.
abbrev pub NoEquals : Text → Type 0
NoEquals [] = Unit
NoEquals (c ∷ s) = c ≢ b'='

-- A name, a colon, and something that does not begin with `=`.
pub record IsTarget (s id : Text) : Type 0 where
  pub name : Text
  pub behind : Text
  pub cut : s ≡ name ++ b':' ∷ behind
  pub name_pass : AllPass is_target_char name
  pub named : name ≢ []
  pub no_equals : NoEquals behind
  pub id_is : id ≡ trim_space name

ends_target_sound :
    (s : Text) → ends_target s ≡ true → (behind : Text) × (s ≡ b':' ∷ behind) × NoEquals behind
unfolding ends_target
ends_target_sound [] h = cc
ends_target_sound (c ∷ []) h = ([], ground arith, tt)
ends_target_sound (c ∷ d ∷ s) h = (d ∷ s, ground arith, ground arith)

ends_target_complete : (behind : Text) → NoEquals behind → ends_target (b':' ∷ behind) ≡ true
unfolding ends_target
ends_target_complete [] h = refl
ends_target_complete (d ∷ s) h = ground arith

match_target_line_sound : (s : Text) {id : Text} → match_target_line s ≡ some id → IsTarget s id
unfolding match_target_line
match_target_line_sound s {id} h =
    let name = take_while is_target_char s in
    let rest = drop_while is_target_char s in
    let (behind, at, ok) = ends_target_sound rest (ground arith) in
    record {
      name = name;
      behind = behind;
      cut = sym (take-append-drop_while is_target_char s) ∙ ap (λ t. name ++ t) at;
      name_pass = take_while-AllPass is_target_char s;
      named = ground arith;
      no_equals = ok;
      id_is = ground arith;
    }

match_target_line_complete : (s : Text) {id : Text} → IsTarget s id → match_target_line s ≡ some id
unfolding match_target_line is_target_char is_letter
match_target_line_complete s t =
    rw
      (
        t.cut,
        t.id_is,
        take_while-append is_target_char t.name (b':' ∷ t.behind) t.name_pass refl,
        drop_while-append is_target_char t.name (b':' ∷ t.behind) t.name_pass refl,
      )
      (ground (arith, ends_target_complete t.behind t.no_equals))

-- `matchTargetLine` returns an identifier exactly if the line is a non-empty run of name characters,
-- a colon and something that does not begin with `=`, and the identifier is the trimmed run.
pub match_target_line_iff : (s id : Text) → (match_target_line s ≡ some id) ↔ IsTarget s id
match_target_line_iff s id = (match_target_line_sound s, match_target_line_complete s)

-- A POSIX assignment `x ::= value` is read as a target: for every non-empty name of name characters
-- and every value, the line is matched, with the trimmed name for its identifier.
pub match_target_line-double_colon :
    (name value : Text)
    → AllPass is_target_char name
    → name ≢ []
    → match_target_line (name ++ b':' ∷ b':' ∷ b'=' ∷ value) ≡ some (trim_space name)
match_target_line-double_colon name value p n =
    match_target_line_complete (name ++ b':' ∷ b':' ∷ b'=' ∷ value) (record {
      name = name;
      behind = b':' ∷ b'=' ∷ value;
      cut = refl;
      name_pass = p;
      named = n;
      no_equals = λ e. omega arith;
      id_is = refl;
    })
