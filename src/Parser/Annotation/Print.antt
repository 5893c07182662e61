-- ===== src/Parser/Annotation/Print.antt =====
-- Printing an annotation line and reading it back.
use make_mcp.Common.{
  ℕ, ◌≡◌, refl, sym, ap, ◌∙◌, ◌≢◌, Bool, false, none, some, List, [], ◌∷◌, ◌++◌, arith, take_while,
  drop_while,
}
use make_mcp.Text.{Text, is_space, trim_space}
use make_mcp.Text.Trim.{NoLeadingSpace, trim_space-NoLeadingSpace}
use make_mcp.Common.Spans.{AllPass}
use make_mcp.Parser.Annotation.{
  is_re_space, is_dot, match_delimiter, find_delimiter, find_annotation, extract_annotation,
}
use make_mcp.Parser.Annotation.Match.{IsKey, Noted}
use make_mcp.Parser.Annotation.Find.{match_delimiter_complete}

-- The line `# <delim> <key>: <value>`.
abbrev pub annotation_line : Text → Text → Text → Text
annotation_line delim key value = b'#' ∷ b' ' ∷ (delim ++ (b' ' ∷ (key ++ (b':' ∷ b' ' ∷ value))))

re_space-space : (c : ℕ) → is_space c ≡ false → is_re_space c ≡ false
unfolding is_space is_re_space
re_space-space c h = ground arith

drop_re_space : (value : Text) → NoLeadingSpace value → drop_while is_re_space value ≡ value
drop_re_space [] h = refl
drop_re_space (c ∷ s) h = rw (re_space-space c h)

take_all {ℓ} : {A : Type ℓ} (p : A → Bool) (xs : List A) → AllPass p xs → take_while p xs ≡ xs
take_all p [] h = refl
take_all p (x ∷ xs) h = ground (arith, take_all p xs)

Noted-line :
    (key value : Text)
    → IsKey key
    → AllPass is_dot value
    → NoLeadingSpace value
    → Noted (b' ' ∷ (key ++ (b':' ∷ b' ' ∷ value))) key value
unfolding is_re_space
Noted-line key value k one_line lead = record {
  spaces = b' ' ∷ [];
  behind = b' ' ∷ value;
  cut = refl;
  spaces_pass = (refl, tt);
  spaced = λ e. cc;
  keyed = k;
  value_is =
      sym (ap (take_while is_dot) (drop_re_space value lead) ∙ take_all is_dot value one_line);
}

-- A delimiter that begins with no space does not begin at the space in front of it.
not_at_space :
    (delim s : Text) → delim ≢ [] → NoLeadingSpace delim → match_delimiter delim (b' ' ∷ s) ≡ none
unfolding match_delimiter is_space
not_at_space [] s n h = absurd (n refl)
not_at_space (c ∷ d) s n h = ground arith

find_delimiter_gap :
    (delim s : Text) {m : Text × Text}
    → match_delimiter delim (b' ' ∷ (delim ++ s)) ≡ none
    → match_delimiter delim (delim ++ s) ≡ some m
    → find_delimiter delim (b' ' ∷ (delim ++ s)) ≡ some m
unfolding find_delimiter
find_delimiter_gap [] s e f = ground arith
find_delimiter_gap (c ∷ d) s e f = ground arith

extract_of_find :
    (delim s key value : Text)
    → find_delimiter delim s ≡ some (key, value)
    → extract_annotation delim (b'#' ∷ s) ≡ some (key, trim_space value)
unfolding extract_annotation find_annotation
extract_of_find delim s key value e = ground arith

-- The line `# <delim> <key>: <value>` reads back as its key and value, for a delimiter that is not
-- empty and begins with no space, a well-formed key, and a trimmed value on one line.
pub extract_annotation-annotation_line :
    (delim key value : Text)
    → delim ≢ []
    → NoLeadingSpace delim
    → IsKey key
    → AllPass is_dot value
    → trim_space value ≡ value
    → extract_annotation delim (annotation_line delim key value) ≡ some (key, value)
extract_annotation-annotation_line delim key value n d k one_line trimmed =
    let rest = b' ' ∷ (key ++ (b':' ∷ b' ' ∷ value)) in
    let lead : NoLeadingSpace value = rw trimmed at (trim_space-NoLeadingSpace value) in
    extract_of_find delim (b' ' ∷ (delim ++ rest)) key value (
      find_delimiter_gap delim rest (not_at_space delim (delim ++ rest) n d)
        (match_delimiter_complete delim rest (Noted-line key value k one_line lead)))
    ∙ ap (λ v. some (key, v)) trimmed
