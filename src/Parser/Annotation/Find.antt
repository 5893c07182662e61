-- ===== src/Parser/Annotation/Find.antt =====
-- `extractAnnotation` finds an annotation exactly in the lines that hold one.
use make_mcp.Common.{
  ℕ, ◌≡◌, ap, ap₂, ◌≢◌, inl, inr, true, none, some, [], ◌∷◌, ◌++◌, arith, ◌==◌, if◌then◌else◌,
  Option-cases,
}
use make_mcp.Common.Spans.{AllPass}
use make_mcp.Text.{Text, strip_prefix, trim_space}
use make_mcp.Text.Cut.{strip_prefix-append, strip_prefix_sound}
use make_mcp.Parser.Annotation.{
  is_dot, match_spaces, match_delimiter, find_delimiter, find_annotation, extract_annotation,
}
use make_mcp.Parser.Annotation.Match.{Noted, match_spaces_sound, match_spaces_complete}

-- A `#`, a gap with no newline in it, the delimiter, and the key and value behind it.
pub record IsAnnotation (delim line key value : Text) : Type 0 where
  pub before : Text
  pub gap : Text
  pub behind : Text
  pub cut : line ≡ before ++ b'#' ∷ (gap ++ (delim ++ behind))
  pub gap_pass : AllPass is_dot gap
  pub noted : Noted behind key value

record Gapped (delim s key value : Text) : Type 0 where
  gap : Text
  behind : Text
  cut : s ≡ gap ++ (delim ++ behind)
  gap_pass : AllPass is_dot gap
  noted : Noted behind key value

module _ (delim : Text) where
  match_delimiter_sound :
      (s : Text) {k v : Text} → match_delimiter delim s ≡ some (k, v) → Gapped delim s k v
  unfolding match_delimiter
  match_delimiter_sound s {k} {v} h = elim (Option-cases (strip_prefix delim s)) [
    | inl e ↦ ground arith
    | inr (r, e) ↦
        let h' : match_spaces r ≡ some (k, v) = ground arith in
        record {
          gap = [];
          behind = r;
          cut = strip_prefix_sound delim s e;
          gap_pass = tt;
          noted = match_spaces_sound r h';
        }
  ]

  pub match_delimiter_complete :
      (behind : Text) {k v : Text}
      → Noted behind k v
      → match_delimiter delim (delim ++ behind) ≡ some (k, v)
  unfolding match_delimiter
  match_delimiter_complete behind {k} n =
      rw (strip_prefix-append delim behind, match_delimiter)
        (rw (n.cut, n.value_is)
          (match_spaces_complete n.spaces k n.behind n.spaces_pass n.spaced n.keyed))

  find_delimiter_sound :
      (s : Text) {k v : Text} → find_delimiter delim s ≡ some (k, v) → Gapped delim s k v
  unfolding find_delimiter
  find_delimiter_sound [] h = match_delimiter_sound [] h
  find_delimiter_sound (c ∷ s) {k} {v} h = elim (Option-cases (match_delimiter delim (c ∷ s))) [
    | inr (m, e) ↦ match_delimiter_sound (c ∷ s) (ground arith)
    | inl e ↦
        let d : is_dot c ≡ true = ground arith in
        let h' : find_delimiter delim s ≡ some (k, v) = ground arith in
        let g = find_delimiter_sound s h' in
        record {
          gap = c ∷ g.gap;
          behind = g.behind;
          cut = ap (◌∷◌ c) g.cut;
          gap_pass = (d, g.gap_pass);
          noted = g.noted;
        }
  ]

  find_delimiter_here :
      (s : Text) {m : Text × Text}
      → match_delimiter delim s ≡ some m
      → find_delimiter delim s ≢ none
  unfolding find_delimiter
  find_delimiter_here [] e = ground arith
  find_delimiter_here (c ∷ s) e = ground arith

  find_delimiter_complete :
      (gap behind : Text) {k v : Text}
      → AllPass is_dot gap
      → Noted behind k v
      → find_delimiter delim (gap ++ (delim ++ behind)) ≢ none
  unfolding find_delimiter
  find_delimiter_complete [] behind p n =
      find_delimiter_here (delim ++ behind) (match_delimiter_complete behind n)
  find_delimiter_complete (c ∷ gap) behind (p, ps) n =
      let later = find_delimiter_complete gap behind ps n in
      elim (Option-cases (match_delimiter delim (c ∷ (gap ++ (delim ++ behind))))) [
        | inl e ↦ rw (e, find_delimiter) (rw (p, find_delimiter) later)
        | inr (m, e) ↦ find_delimiter_here (c ∷ (gap ++ (delim ++ behind))) e
      ]

  find_annotation_sound :
      (line : Text) {k v : Text}
      → find_annotation delim line ≡ some (k, v)
      → IsAnnotation delim line k v
  unfolding find_annotation
  find_annotation_sound [] h = cc
  find_annotation_sound (c ∷ s) {k} {v} h =
      elim (Option-cases (if c == b'#' then find_delimiter delim s else none)) [
        | inr (m, e) ↦
            let at : c ≡ b'#' = ground arith in
            let g = find_delimiter_sound s {k = k} {v = v} (ground arith) in
            record {
              before = [];
              gap = g.gap;
              behind = g.behind;
              cut = ap₂ ◌∷◌ at g.cut;
              gap_pass = g.gap_pass;
              noted = g.noted;
            }
        | inl e ↦
            let a = find_annotation_sound s {k = k} {v = v} (ground arith) in
            record {
              before = c ∷ a.before;
              gap = a.gap;
              behind = a.behind;
              cut = ap (◌∷◌ c) a.cut;
              gap_pass = a.gap_pass;
              noted = a.noted;
            }
      ]

  find_annotation_hash :
      (s : Text) → find_delimiter delim s ≢ none → find_annotation delim (b'#' ∷ s) ≢ none
  unfolding find_annotation
  find_annotation_hash s h = ground arith

  find_annotation_later :
      (c : ℕ) (s : Text) → find_annotation delim s ≢ none → find_annotation delim (c ∷ s) ≢ none
  unfolding find_annotation
  find_annotation_later c s h = ground arith

  find_annotation_complete :
      (before gap behind : Text) {k v : Text}
      → AllPass is_dot gap
      → Noted behind k v
      → find_annotation delim (before ++ b'#' ∷ (gap ++ (delim ++ behind))) ≢ none
  find_annotation_complete [] gap behind p n =
      find_annotation_hash (gap ++ (delim ++ behind)) (find_delimiter_complete gap behind p n)
  find_annotation_complete (c ∷ before) gap behind p n =
      find_annotation_later c (before ++ b'#' ∷ (gap ++ (delim ++ behind)))
        (find_annotation_complete before gap behind p n)

  -- What `extractAnnotation` returns is an annotation of the line: the line can be cut into a `#`, a
  -- gap, the delimiter, spaces, the returned key, a colon and a value, whose trim is the one returned.
  pub extract_annotation_sound :
      (line : Text) {k v : Text}
      → extract_annotation delim line ≡ some (k, v)
      → (raw : Text) × IsAnnotation delim line k raw × (v ≡ trim_space raw)
  unfolding extract_annotation
  extract_annotation_sound line {k} {v} h = elim (Option-cases (find_annotation delim line)) [
    | inl e ↦ ground arith
    | inr ((k', raw), e) ↦ (raw, find_annotation_sound line (ground arith), ground arith)
  ]

  -- `extractAnnotation` refuses a line only if no cut of the line, with any key and value, is an
  -- annotation for the delimiter.
  pub extract_annotation_complete :
      (line : Text) {k v : Text}
      → extract_annotation delim line ≡ none
      → ¬ IsAnnotation delim line k v
  unfolding extract_annotation
  extract_annotation_complete line h a = elim (Option-cases (find_annotation delim line)) [
    | inl e ↦ find_annotation_complete a.before a.gap a.behind a.gap_pass a.noted (rw a.cut at e)
    | inr (m, e) ↦ ground arith
  ]
