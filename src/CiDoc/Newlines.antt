-- ===== src/CiDoc/Newlines.antt =====
-- `normalizeNewlines`: what it does to a page.
use make_mcp.Common.{
  ℕ, suc, ◌≤◌, ◌<◌, ◌≡◌, refl, ap, ◌∙◌, ◌≢◌, ◌⊎◌, inl, inr, false, ◌&&◌, [], ◌∷◌, ◌++◌, arith, ltb,
  ◌==◌, if◌then◌else◌, Bool-cases, is_nil,
}
use make_mcp.Text.{Text}

-- `multiBlank.ReplaceAll` with two newlines, behind `k` newlines.
unfoldable pub collapse : ℕ → Text → Text
collapse k [] = []
collapse k (c ∷ s) =
    let more = collapse (suc k) s in
    let other = collapse 0 s in if c == 10 then (if ltb k 2 then c ∷ more else more) else c ∷ other

-- `bytes.TrimRight(b, "\n")`.
unfoldable pub trim_newlines : Text → Text
trim_newlines [] = []
trim_newlines (c ∷ s) = let r = trim_newlines s in if is_nil r && c == 10 then [] else c ∷ r

-- `normalizeNewlines`.
unfoldable pub normalize_newlines : Text → Text
unfolding collapse trim_newlines
normalize_newlines b = trim_newlines (collapse 0 b) ++ 10 ∷ []

-- Behind `k` newlines, no more than two newlines follow one another.
abbrev pub IsFlat : ℕ → Text → Type 0
IsFlat k [] = Unit
IsFlat k (c ∷ s) = (c ≡ 10) × (k < 2) × IsFlat (suc k) s ⊎ (c ≢ 10) × IsFlat 0 s

-- A page with at most two newlines in a row, and one newline at its end, behind another character or
-- alone.
pub record IsPage (s : Text) : Type 0 where
  pub flat : IsFlat 0 s
  pub text : Text
  pub ends : s ≡ text ++ 10 ∷ []
  pub trimmed : trim_newlines text ≡ text

IsFlat-less : (j k : ℕ) (s : Text) → j ≤ k → IsFlat k s → IsFlat j s
IsFlat-less j k [] l h = tt
IsFlat-less j k (c ∷ s) l h = elim h [
  | inl (e, b, f) ↦ inl (e, omega (arith, l, b), IsFlat-less (suc j) (suc k) s (omega (arith, l)) f)
  | inr f ↦ inr f
]

collapse-IsFlat : (k : ℕ) (s : Text) → IsFlat k (collapse k s)
unfolding collapse
collapse-IsFlat k [] = tt
collapse-IsFlat k (c ∷ s) = elim (Bool-cases (c == 10)) [
  | inr n ↦ rw n (inr (λ e. ground arith, collapse-IsFlat 0 s))
  | inl e ↦ elim (Bool-cases (ltb k 2)) [
    | inl b ↦ rw (e, b) (inl (ground arith, ground arith, collapse-IsFlat (suc k) s))
    | inr b ↦
        rw (e, b)
          (IsFlat-less k (suc k) (collapse (suc k) s) (omega arith) (collapse-IsFlat (suc k) s))
  ]
]

IsFlat-collapse : (k : ℕ) (s : Text) → IsFlat k s → collapse k s ≡ s
unfolding collapse
IsFlat-collapse k [] h = refl
IsFlat-collapse k (c ∷ s) h = elim h [
  | inl (e, b, f) ↦ ground (arith, IsFlat-collapse (suc k) s f)
  | inr (n, f) ↦ ground (arith, IsFlat-collapse 0 s f)
]

trim_newlines-IsFlat : (k : ℕ) (s : Text) → IsFlat k s → IsFlat k (trim_newlines s)
unfolding trim_newlines
trim_newlines-IsFlat k [] h = tt
trim_newlines-IsFlat k (c ∷ s) h = elim (Bool-cases (is_nil (trim_newlines s) && c == 10)) [
  | inl e ↦ rw e tt
  | inr n ↦ rw n (elim h [
    | inl (e, b, f) ↦ inl (e, b, trim_newlines-IsFlat (suc k) s f)
    | inr (d, f) ↦ inr (d, trim_newlines-IsFlat 0 s f)
  ])
]

trim_newlines_idem : (s : Text) → trim_newlines (trim_newlines s) ≡ trim_newlines s
unfolding trim_newlines
trim_newlines_idem [] = refl
trim_newlines_idem (c ∷ s) = ground (arith, trim_newlines_idem s)

trim_newlines_end : (s : Text) → trim_newlines (s ++ 10 ∷ []) ≡ trim_newlines s
unfolding trim_newlines
trim_newlines_end [] = ground arith
trim_newlines_end (c ∷ s) = ground (arith, trim_newlines_end s)

-- A newline behind a trimmed text keeps it flat.
end-IsFlat :
    (k : ℕ) (s : Text)
    → IsFlat k s
    → trim_newlines s ≡ s
    → (is_nil s ≡ false) ⊎ (k < 2)
    → IsFlat k (s ++ 10 ∷ [])
unfolding trim_newlines
end-IsFlat k [] h t b = inl (refl, ground arith, tt)
end-IsFlat k (c ∷ s) h t b = elim h [
  | inl (e, l, f) ↦ inl (e, l, end-IsFlat (suc k) s f (ground arith) (inl (ground arith)))
  | inr (n, f) ↦ inr (n, end-IsFlat 0 s f (ground arith) (inr (omega arith)))
]

-- Whatever the page, `normalizeNewlines` leaves at most two newlines in a row and exactly one at the end,
-- and changes nothing in a page that it has made.
pub normalize_newlines-IsPage :
    (s : Text)
    → IsPage (normalize_newlines s)
      × (normalize_newlines (normalize_newlines s) ≡ normalize_newlines s)
unfolding normalize_newlines
normalize_newlines-IsPage s =
    let text = trim_newlines (collapse 0 s) in
    let trimmed = trim_newlines_idem (collapse 0 s) in
    let flat =
      end-IsFlat 0 text (trim_newlines-IsFlat 0 (collapse 0 s) (collapse-IsFlat 0 s)) trimmed
        (inr (omega arith)) in
    (
      record { flat = flat; text = text; ends = refl; trimmed = trimmed },
      ap (λ t. trim_newlines t ++ 10 ∷ []) (IsFlat-collapse 0 (text ++ 10 ∷ []) flat)
          ∙ ap (λ t. t ++ 10 ∷ []) (trim_newlines_end text ∙ trimmed),
    )
