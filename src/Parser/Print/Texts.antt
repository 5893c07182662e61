-- ===== src/Parser/Print/Texts.antt =====
-- The values that the notes of a recipe print.
use make_mcp.Common.{
  ℕ, ◌≡◌, refl, sym, ap, ◌∙◌, ◌≢◌, ◌⊎◌, inl, inr, true, false, List, [], ◌∷◌, ◌++◌, append_assoc,
  arith, is_nil,
}
use make_mcp.Text.{Text, codes, is_space, trim_right, trim_space}
use make_mcp.Text.Trim.{NoLeadingSpace, trim_left_id, trim_space-NoLeadingSpace}
use make_mcp.Common.Spans.{AllPass, AllPass-append}
use make_mcp.Schema.{Param, type_string, type_int, type_bool}
use make_mcp.Parser.Annotation.{is_letter, is_dot}
use make_mcp.Parser.Params.{is_name_char, all_chars, is_param_name}
use make_mcp.Parser.Print.{IsPlain, IsPrintableParam, print_param}

is_nil-append {ℓ} : {A : Type ℓ} (xs ys : List A) → ys ≢ [] → is_nil (xs ++ ys) ≡ false
is_nil-append [] [] h = absurd (h refl)
is_nil-append [] (y ∷ ys) h = refl
is_nil-append (x ∷ xs) ys h = refl

-- A text in front keeps what `trim_right` leaves of a text that is not all space.
pub trim_right-append :
    (xs s : Text) → trim_right s ≢ [] → trim_right (xs ++ s) ≡ xs ++ trim_right s
unfolding trim_right
trim_right-append [] s h = refl
trim_right-append (x ∷ xs) s h =
    let e = trim_right-append xs s h in rw (e, is_nil-append xs (trim_right s) h)

-- A text that begins with no space and ends with a trimmed one is trimmed.
pub trim_space-append :
    (xs s : Text)
    → NoLeadingSpace (xs ++ s)
    → s ≢ []
    → trim_right s ≡ s
    → trim_space (xs ++ s) ≡ xs ++ s
unfolding trim_space
trim_space-append xs s lead n e =
    ap trim_right (trim_left_id (xs ++ s) lead)
    ∙ trim_right-append xs s (λ q. n (sym e ∙ q))
    ∙ ap (λ t. xs ++ t) e

pub trim_right-trimmed : (s : Text) → trim_space s ≡ s → trim_right s ≡ s
unfolding trim_space
trim_right-trimmed s h =
    let lead : NoLeadingSpace s = rw h at (trim_space-NoLeadingSpace s) in
    sym (ap trim_right (trim_left_id s lead)) ∙ h

name_chars-one_line : (s : Text) → all_chars is_name_char s ≡ true → AllPass is_dot s
unfolding all_chars is_name_char is_letter is_dot
name_chars-one_line [] h = tt
name_chars-one_line (c ∷ s) h = ground (arith, name_chars-one_line s)

letter-no_space : (c : ℕ) → is_letter c ≡ true → is_space c ≡ false
unfolding is_letter is_space
letter-no_space c h = ground arith

type-one_line :
    (type : Text)
    → (type ≡ type_string) ⊎ (type ≡ type_int) ⊎ (type ≡ type_bool)
    → AllPass is_dot type
unfolding is_dot
type-one_line type (inl e) = rw e (ground arith)
type-one_line type (inr (inl e)) = rw e (ground arith)
type-one_line type (inr (inr e)) = rw e (ground arith)

name-NoLeadingSpace : (s rest : Text) → is_param_name s ≡ true → NoLeadingSpace (s ++ rest)
unfolding is_param_name
name-NoLeadingSpace [] rest h = cc
name-NoLeadingSpace (c ∷ s) rest h = letter-no_space c (ground arith)

name-one_line : (s : Text) → is_param_name s ≡ true → AllPass is_dot s
unfolding is_param_name is_letter is_dot
name-one_line [] h = tt
name-one_line (c ∷ s) h = (ground arith, name_chars-one_line s (ground arith))

-- A printed parameter stands on one line and is trimmed.
pub print_param-IsPlain : (p : Param) → IsPrintableParam p → IsPlain (print_param p)
unfolding is_dot
print_param-IsPlain p h =
    let front = p.name ++ (b' ' ∷ (p.type ++ codes " | ")) in
    let whole : front ++ p.description ≡ print_param p = simp append_assoc in
    record {
      one_line = AllPass-append is_dot p.name _ (name-one_line p.name h.named) (
        refl,
        AllPass-append is_dot p.type _ (type-one_line p.type h.typed)
            (refl, (refl, (refl, h.plain.one_line))),
      );
      trimmed = rw whole at (
          trim_space-append front p.description (rw whole (name-NoLeadingSpace p.name _ h.named))
            h.described (trim_right-trimmed p.description h.plain.trimmed));
    }
