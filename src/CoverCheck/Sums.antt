-- ===== src/CoverCheck/Sums.antt =====
-- The sums over the files are those over the lines of the profile.
use make_mcp.Common.{
  ℕ, ◌+◌, ◌^◌, ◌≡◌, refl, sym, ap, ap₂, ◌∙◌, inl, inr, Bool, true, false, none, some, List, [], ◌∷◌,
  map, arith, ◌==◌, if◌then◌else◌, Bool-cases, Option-cases,
}
use native.Mathlib.Nat.{mod-add-mod}
use mathlib.Core.List.{Permᴰ}
use make_mcp.Text.{Text, ◌=?◌}
use make_mcp.Dict.{Dict, lookup, insert}
use make_mcp.CoverCheck.{
  wrap, is_positive, FileEntry, Scan, counted, entry_or_new, grow, add_line, add_lines, sums_from,
  Floats, statement_coverage,
}

-- The sums of a dictionary without wrap-around.
abbrev covered_sum : Dict FileEntry → ℕ
covered_sum [] = 0
covered_sum ((file, e) ∷ rest) = e.covered + covered_sum rest

abbrev total_sum : Dict FileEntry → ℕ
total_sum [] = 0
total_sum ((file, e) ∷ rest) = e.total + total_sum rest

-- The statements of a line, and those of it that were run.
abbrev pub statements : Scan → Text → ℕ
statements scan line = elim (counted scan line) [ none ↦ 0 | some (file, n, count) ↦ n ]

abbrev pub run_statements : Scan → Text → ℕ
run_statements scan line = elim (counted scan line) [
  | none ↦ 0
  | some (file, n, count) ↦ if is_positive count then n else 0
]

abbrev pub sum : List ℕ → ℕ
sum [] = 0
sum (n ∷ ns) = n + sum ns

sums_from-wrap :
    (c t : ℕ) (m : Dict FileEntry)
    → sums_from (wrap c, wrap t) m ≡ (wrap (c + covered_sum m), wrap (t + total_sum m))
unfolding sums_from
sums_from-wrap c t [] = ap₂ (λ x y. (wrap x, wrap y)) (omega arith) (omega arith)
sums_from-wrap c t ((file, e) ∷ rest) =
    ap₂ (λ x y. sums_from (x, y) rest) (mod-add-mod c (2 ^ 64) e.covered)
      (mod-add-mod t (2 ^ 64) e.total)
    ∙ sums_from-wrap (c + e.covered) (t + e.total) rest
    ∙ ap₂ (λ x y. (wrap x, wrap y)) (omega arith) (omega arith)

-- An assignment replaces the entry of its file in the sums.
insert-total :
    (file : Text) (v : FileEntry) (m : Dict FileEntry)
    → total_sum (insert file v m) + (entry_or_new (lookup file m)).total ≡ total_sum m + v.total
unfolding insert lookup
insert-total file v [] = omega arith
insert-total file v ((j, e) ∷ m) = elim (Bool-cases (j =? file)) [
  | inl h ↦ rw h (omega arith)
  | inr h ↦ rw h (omega (arith, insert-total file v m))
]

insert-covered :
    (file : Text) (v : FileEntry) (m : Dict FileEntry)
    → covered_sum (insert file v m) + (entry_or_new (lookup file m)).covered
      ≡ covered_sum m + v.covered
unfolding insert lookup
insert-covered file v [] = omega arith
insert-covered file v ((j, e) ∷ m) = elim (Bool-cases (j =? file)) [
  | inl h ↦ rw h (omega arith)
  | inr h ↦ rw h (omega (arith, insert-covered file v m))
]

grown :
    (after before old n : ℕ)
    → after + old ≡ before + wrap (old + n)
    → wrap after ≡ wrap (before + n)
grown after before old n h = omega (arith, h)

add_line-total :
    (scan : Scan) (m : Dict FileEntry) (line : Text)
    → wrap (total_sum (add_line scan m line)) ≡ wrap (total_sum m + statements scan line)
unfolding add_line
add_line-total scan m line = elim (Option-cases (counted scan line)) [
  | inl e ↦ rw (e, add_line) (omega arith)
  | inr ((file, n, count), e) ↦
      let old = entry_or_new (lookup file m) in
      rw (e, add_line)
        (grown (total_sum (insert file (grow n count old) m)) (total_sum m) old.total n
          (insert-total file (grow n count old) m))
]

grown_if :
    (b : Bool) (after before old n : ℕ)
    → after + old ≡ before + (if b then wrap (old + n) else old)
    → wrap after ≡ wrap (before + (if b then n else 0))
grown_if true after before old n h = grown after before old n h
grown_if false after before old n h = omega (arith, h)

add_line-covered :
    (scan : Scan) (m : Dict FileEntry) (line : Text)
    → wrap (covered_sum (add_line scan m line)) ≡ wrap (covered_sum m + run_statements scan line)
unfolding add_line
add_line-covered scan m line = elim (Option-cases (counted scan line)) [
  | inl e ↦ rw (e, add_line) (omega arith)
  | inr ((file, n, count), e) ↦
      let old = entry_or_new (lookup file m) in
      rw (e, add_line)
        (grown_if (is_positive count) (covered_sum (insert file (grow n count old) m))
          (covered_sum m) old.covered n (insert-covered file (grow n count old) m))
]

then_more :
    (after before more rest : ℕ)
    → wrap after ≡ wrap (before + more)
    → wrap (after + rest) ≡ wrap (before + (more + rest))
then_more after before more rest h =
    sym (mod-add-mod after (2 ^ 64) rest)
    ∙ ap (λ x. wrap (x + rest)) h
    ∙ mod-add-mod (before + more) (2 ^ 64) rest
    ∙ ap wrap (omega arith)

add_lines-total :
    (scan : Scan) (m : Dict FileEntry) (lines : List Text)
    → wrap (total_sum (add_lines scan m lines))
      ≡ wrap (total_sum m + sum (map (statements scan) lines))
unfolding add_lines
add_lines-total scan m [] = omega arith
add_lines-total scan m (line ∷ lines) =
    let m' = add_line scan m line in
    add_lines-total scan m' lines
    ∙ then_more (total_sum m') (total_sum m) (statements scan line)
        (sum (map (statements scan) lines)) (add_line-total scan m line)

add_lines-covered :
    (scan : Scan) (m : Dict FileEntry) (lines : List Text)
    → wrap (covered_sum (add_lines scan m lines))
      ≡ wrap (covered_sum m + sum (map (run_statements scan) lines))
unfolding add_lines
add_lines-covered scan m [] = omega arith
add_lines-covered scan m (line ∷ lines) =
    let m' = add_line scan m line in
    add_lines-covered scan m' lines
    ∙ then_more (covered_sum m') (covered_sum m) (run_statements scan line)
        (sum (map (run_statements scan) lines)) (add_line-covered scan m line)

-- The order of the entries does not change the sums.
sums_of_order :
    {ms ns : Dict FileEntry}
    → Permᴰ ms ns
    → (covered_sum ms ≡ covered_sum ns) × (total_sum ms ≡ total_sum ns)
sums_of_order Permᴰ.nil = (refl, refl)
sums_of_order (Permᴰ.cons {a} {b} {l₁} {l₂} e r) =
    let (c, t) = sums_of_order r in
    (omega (arith, c, ap (λ x. x.1.covered) e), omega (arith, t, ap (λ x. x.1.total) e))
sums_of_order (Permᴰ.swap e f) = (
  omega (arith, ap (λ x. x.1.covered) e, ap (λ x. x.1.covered) f),
  omega (arith, ap (λ x. x.1.total) e, ap (λ x. x.1.total) f),
)
sums_of_order (Permᴰ.trans r s) =
    let (c, t) = sums_of_order r in let (d, u) = sums_of_order s in (c ∙ d, t ∙ u)

wrap-zero_add : (n : ℕ) → wrap (0 + n) ≡ wrap n
wrap-zero_add n = omega arith

sums_from-lines :
    (scan : Scan) (lines : List Text) (entries : Dict FileEntry)
    → Permᴰ (add_lines scan [] lines) entries
    → sums_from (0, 0) entries
      ≡ (wrap (sum (map (run_statements scan) lines)), wrap (sum (map (statements scan) lines)))
sums_from-lines scan lines entries r =
    let (c, t) = sums_of_order r in
    sums_from-wrap 0 0 entries
    ∙ ap₂ (λ x y. (x, y))
        (wrap-zero_add _ ∙ ap wrap (sym c) ∙ add_lines-covered scan [] lines ∙ wrap-zero_add _)
        (wrap-zero_add _ ∙ ap wrap (sym t) ∙ add_lines-total scan [] lines ∙ wrap-zero_add _)

-- The coverage that is reported for a profile is the quotient of the statements on the lines of the profile
-- that were run by all the statements on its lines, and -1 if there are none: the split into files and the
-- order in which Go hands out their entries have no influence, nor does a line that is no block of the profile.
pub statement_coverage-lines :
    {F : Type 0} (floats : Floats F) (scan : Scan) (lines : List Text) (entries : Dict FileEntry)
    → Permᴰ (add_lines scan [] lines) entries
    → statement_coverage floats entries ≡ (
        let covered = wrap (sum (map (run_statements scan) lines)) in
        let total = wrap (sum (map (statements scan) lines)) in
        if total == 0 then floats.minus_one else floats.quotient covered total)
unfolding statement_coverage
statement_coverage-lines floats scan lines entries r =
    ap (λ s. if s.1 == 0 then floats.minus_one else floats.quotient s.0 s.1)
      (sums_from-lines scan lines entries r)
