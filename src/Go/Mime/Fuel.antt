-- ===== src/Go/Mime/Fuel.antt =====
-- The fuel of the loop over the parameters is enough: each round takes a character.
use make_mcp.Common.{
  ℕ, zero, suc, ◌≤◌, ◌<◌, ◌≡◌, refl, sym, ap, ◌∙◌, inl, inr, Bool, true, false, ◌&&◌, ◌||◌, Option,
  none, some, [], ◌∷◌, arith, ◌==◌, if◌then◌else◌, Bool-cases, Option-cases, length, drop_while,
}
use make_mcp.Text.{Text, trim_left, is_space, to_lower, ◌=?◌}
use make_mcp.Dict.{Dict, lookup, insert}
use make_mcp.Go.Mime.{
  quoted, prepend, token_value, consume_value, behind, with_value, consume_media_param, parameters,
  consume_token, is_token_char, is_tspecial,
}

length-drop_while : (p : ℕ → Bool) (s : Text) → length (drop_while p s) ≤ length s
length-drop_while p [] = omega arith
length-drop_while p (c ∷ s) = ground (arith, length-drop_while p s)

prepend-length :
    (x : ℕ) (o : Option (Text × Text)) {v rest : Text}
    → prepend x o ≡ some (v, rest)
    → (w : Text) × (o ≡ some (w, rest))
unfolding prepend
prepend-length x none h = cc
prepend-length x (some (w, r)) h = (w, ground arith)

quoted-length : (s : Text) {v rest : Text} → quoted s ≡ some (v, rest) → length rest ≤ length s
unfolding quoted
quoted-length [] h = cc
quoted-length (c ∷ []) h = ground arith
quoted-length (c ∷ d ∷ s) {v} {rest} h = elim (Bool-cases (c == b'"')) [
  | inl e ↦ ground arith
  | inr e ↦ elim (Bool-cases (c == 92 && is_tspecial d)) [
    | inl f ↦
        let h' : prepend d (quoted s) ≡ some (v, rest) = rw (e, f) at h in
        let (w, q) = prepend-length d (quoted s) h' in omega (arith, quoted-length s q)
    | inr f ↦ elim (Bool-cases (c == 10 || c == 13)) [
      | inl g ↦ ground arith
      | inr g ↦
          let h' : prepend c (quoted (d ∷ s)) ≡ some (v, rest) = rw (e, f, g) at h in
          let (w, q) = prepend-length c (quoted (d ∷ s)) h' in
          omega (arith, quoted-length (d ∷ s) q)
    ]
  ]
]

behind-length : (sep : ℕ) (s : Text) {r : Text} → behind sep s ≡ some r → length r < length s
unfolding behind
behind-length sep [] h = cc
behind-length sep (c ∷ s) h = ground arith

token_value-rest : (t : Text × Text) {v rest : Text} → token_value t ≡ some (v, rest) → t.1 ≡ rest
unfolding token_value
token_value-rest ([], r) h = cc
token_value-rest (c ∷ v, r) h = ground arith

if_false : {A : Type 0} (b : Bool) (x y : A) → b ≡ false → (if b then x else y) ≡ y
if_false true x y e = cc
if_false false x y e = refl

consume_value-length :
    (s : Text) {v rest : Text} → consume_value s ≡ some (v, rest) → length rest ≤ length s
unfolding consume_value
consume_value-length [] h = cc
consume_value-length (c ∷ s) {v} {rest} h = elim (Bool-cases (c == b'"')) [
  | inl e ↦ let h' : quoted s ≡ some (v, rest) = rw e at h in omega (arith, quoted-length s h')
  | inr e ↦
      let h' : token_value (consume_token (c ∷ s)) ≡ some (v, rest) =
        sym (if_false (c == b'"') (quoted s) (token_value (consume_token (c ∷ s))) e) ∙ h in
      let at = token_value-rest (consume_token (c ∷ s)) h' in
      omega (arith, ap length at, length-drop_while is_token_char (c ∷ s))
]

with_value-length :
    (key s : Text) {k v rest : Text} → with_value key s ≡ some (k, v, rest) → length rest ≤ length s
unfolding with_value
with_value-length [] s h = cc
with_value-length (x ∷ key) s {k} {v} {rest} h = elim (Option-cases (behind b'=' (trim_left s))) [
  | inl n ↦ ground arith
  | inr (r, e) ↦ elim (Option-cases (consume_value (trim_left r))) [
    | inl n ↦ ground arith
    | inr ((v', r'), f) ↦
        let same : r' ≡ rest = ground arith in
        omega (
          arith,
          ap length same,
          consume_value-length (trim_left r) f,
          length-drop_while is_space r,
          behind-length b'=' (trim_left s) e,
          length-drop_while is_space s,
        )
  ]
]

consume_media_param-length :
    (s : Text) {k v rest : Text}
    → consume_media_param s ≡ some (k, v, rest)
    → length rest < length s
unfolding consume_media_param
consume_media_param-length s {k} {v} {rest} h = elim (Option-cases (behind b';' (trim_left s))) [
  | inl n ↦ ground arith
  | inr (r, e) ↦
      let t = consume_token (trim_left r) in
      let h' : with_value (to_lower t.0) t.1 ≡ some (k, v, rest) = ground arith in
      omega (
        arith,
        with_value-length (to_lower t.0) t.1 h',
        length-drop_while is_token_char (trim_left r),
        length-drop_while is_space r,
        behind-length b';' (trim_left s) e,
        length-drop_while is_space s,
      )
]

-- Any two amounts of fuel above the length of the text give the same verdict on the parameters.
pub parameters_fuel :
    (f g : ℕ) (s : Text) (seen : Dict Text)
    → length s < f
    → length s < g
    → parameters f s seen ≡ parameters g s seen
unfolding parameters
parameters_fuel zero g s seen hf hg = absurd (omega (arith, hf))
parameters_fuel (suc f) zero s seen hf hg = absurd (omega (arith, hg))
parameters_fuel (suc f) (suc g) [] seen hf hg = refl
parameters_fuel (suc f) (suc g) (c ∷ s) seen hf hg =
    elim (Option-cases (consume_media_param (c ∷ s))) [
      | inl n ↦ rw (n, parameters) refl
      | inr ((k, v, rest), e) ↦
          let shorter = consume_media_param-length (c ∷ s) e in
          let same = λ (m : Dict Text).
            parameters_fuel f g rest m (omega (arith, hf, shorter)) (omega (arith, hg, shorter)) in
          elim (Option-cases (lookup k seen)) [
            | inl l ↦ rw (e, l, parameters) (same (insert k v seen))
            | inr (w, l) ↦ elim (Bool-cases (w =? v)) [
              | inl q ↦ rw (e, l, q, parameters) (same seen)
              | inr q ↦ rw (e, l, q, parameters) refl
            ]
          ]
    ]
