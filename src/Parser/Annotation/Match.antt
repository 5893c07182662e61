-- ===== src/Parser/Annotation/Match.antt =====
-- The annotation pattern against its reading by concatenation: a line is an annotation exactly if
-- it can be cut into the parts that the pattern names.
use make_mcp.Common.{
  ℕ, ◌≡◌, refl, sym, ap, ◌∙◌, ◌≢◌, inl, inr, true, false, some, [], ◌∷◌, ◌++◌, arith, Bool-cases,
  take_while, drop_while,
}
use make_mcp.Common.Spans.{
  AllPass, take-append-drop_while, take_while-AllPass, take_while-append, drop_while-append,
}
use make_mcp.Text.{Text}
use make_mcp.Parser.Annotation.{
  is_re_space, is_letter, is_key_char, is_dot, match_value, match_key, match_spaces,
}

-- `[a-zA-Z][a-zA-Z0-9-]*`.
abbrev pub IsKey : Text → Type 0
IsKey [] = ⊥
IsKey (c ∷ s) = (is_letter c ≡ true) × AllPass is_key_char s

-- `\s+`, the key, `:\s*` and the value, which ends at a newline.
pub record Noted (s key value : Text) : Type 0 where
  pub spaces : Text
  pub behind : Text
  pub cut : s ≡ spaces ++ (key ++ b':' ∷ behind)
  pub spaces_pass : AllPass is_re_space spaces
  pub spaced : spaces ≢ []
  pub keyed : IsKey key
  pub value_is : value ≡ take_while is_dot (drop_while is_re_space behind)

match_value_sound :
    (key s : Text) {k v : Text}
    → match_value key s ≡ some (k, v)
    → (behind : Text) × (s ≡ b':' ∷ behind)
      × (k ≡ key)
      × (v ≡ take_while is_dot (drop_while is_re_space behind))
unfolding match_value
match_value_sound key [] h = cc
match_value_sound key (c ∷ s) h = (s, ground arith, ground arith, ground arith)

match_key_sound :
    (s : Text) {k v : Text}
    → match_key s ≡ some (k, v)
    → (behind : Text) × (s ≡ k ++ b':' ∷ behind)
      × IsKey k
      × (v ≡ take_while is_dot (drop_while is_re_space behind))
unfolding match_key
match_key_sound [] h = cc
match_key_sound (c ∷ s) {k} {v} h = elim (Bool-cases (is_letter c)) [
  | inr e ↦ ground arith
  | inl e ↦
      let name = c ∷ take_while is_key_char s in
      let h' : match_value name (drop_while is_key_char s) ≡ some (k, v) = ground arith in
      let (behind, at, same, val) = match_value_sound name (drop_while is_key_char s) h' in
      (
        behind,
        ap (◌∷◌ c) (
              sym (take-append-drop_while is_key_char s)
              ∙ ap (λ t. take_while is_key_char s ++ t) at)
            ∙ ap (λ n. n ++ b':' ∷ behind) (sym same),
        rw same (e, take_while-AllPass is_key_char s),
        val,
      )
]

pub match_spaces_sound : (s : Text) {k v : Text} → match_spaces s ≡ some (k, v) → Noted s k v
unfolding match_spaces
match_spaces_sound [] h = cc
match_spaces_sound (c ∷ s) {k} {v} h = elim (Bool-cases (is_re_space c)) [
  | inr e ↦ ground arith
  | inl e ↦
      let h' : match_key (drop_while is_re_space s) ≡ some (k, v) = ground arith in
      let (behind, at, key, val) = match_key_sound (drop_while is_re_space s) h' in
      record {
        spaces = c ∷ take_while is_re_space s;
        behind = behind;
        cut = ap (◌∷◌ c) (
            sym (take-append-drop_while is_re_space s)
            ∙ ap (λ t. take_while is_re_space s ++ t) at);
        spaces_pass = (e, take_while-AllPass is_re_space s);
        spaced = λ q. cc;
        keyed = key;
        value_is = val;
      }
]

-- A letter is no space of the pattern, and a colon is no character of a key.
letter-not_space : (c : ℕ) → is_letter c ≡ true → is_re_space c ≡ false
unfolding is_letter is_re_space
letter-not_space c h = ground arith

match_key_complete :
    (key behind : Text)
    → IsKey key
    → match_key (key ++ b':' ∷ behind)
      ≡ some (key, take_while is_dot (drop_while is_re_space behind))
unfolding match_key match_value is_key_char is_letter
match_key_complete [] behind h = absurd h
match_key_complete (c ∷ s) behind (h, k) = rw (
  h,
  take_while-append is_key_char s (b':' ∷ behind) k refl,
  drop_while-append is_key_char s (b':' ∷ behind) k refl,
)

pub match_spaces_complete :
    (spaces key behind : Text)
    → AllPass is_re_space spaces
    → spaces ≢ []
    → IsKey key
    → match_spaces (spaces ++ (key ++ b':' ∷ behind))
      ≡ some (key, take_while is_dot (drop_while is_re_space behind))
unfolding match_spaces
match_spaces_complete [] key behind p n k = absurd (n refl)
match_spaces_complete (w ∷ ws) [] behind p n k = absurd k
match_spaces_complete (w ∷ ws) (c ∷ key) behind (p, ps) n k =
    rw
      (p, drop_while-append is_re_space ws (c ∷ (key ++ b':' ∷ behind)) ps (letter-not_space c k.0))
      (match_key_complete (c ∷ key) behind k)
