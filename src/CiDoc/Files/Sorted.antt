-- ===== src/CiDoc/Files/Sorted.antt =====
-- The order of the workflow files does not depend on the order in which they are found.
use make_mcp.Common.{
  ◌≡◌, refl, sym, ap, ap₂, ◌∙◌, ◌⊎◌, inl, inr, true, false, List, [], ◌∷◌, arith, Bool-cases,
}
use mathlib.Core.List.{Memᴰ, Permᴰ}
use make_mcp.Common.Outcome.{Outcome}
use make_mcp.Text.{Text}
use make_mcp.Go.Path.{base}
use make_mcp.CiDoc.Workflow.{WorkflowFile}
use make_mcp.CiDoc.Files.{
  text_ltb, name_less, entry_less, insert_entry, sort_entries, parse_entries, parse_workflow_dir,
}

text_ltb_total : (s t : Text) → text_ltb s t ≡ false → text_ltb t s ≡ false → s ≡ t
unfolding text_ltb
text_ltb_total [] [] h k = refl
text_ltb_total [] (b ∷ t) h k = absurd (ground arith)
text_ltb_total (a ∷ s) [] h k = absurd (ground arith)
text_ltb_total (a ∷ s) (b ∷ t) h k = ground (arith, text_ltb_total s t)

text_ltb_asym : (s t : Text) → text_ltb s t ≡ true → text_ltb t s ≡ false
unfolding text_ltb
text_ltb_asym [] [] h = absurd (ground arith)
text_ltb_asym [] (b ∷ t) h = refl
text_ltb_asym (a ∷ s) [] h = absurd (ground arith)
text_ltb_asym (a ∷ s) (b ∷ t) h = ground (arith, text_ltb_asym s t)

text_ltb_trans : (s t u : Text) → text_ltb s t ≡ true → text_ltb t u ≡ true → text_ltb s u ≡ true
unfolding text_ltb
text_ltb_trans [] [] u h k = absurd (ground arith)
text_ltb_trans [] (b ∷ t) [] h k = absurd (ground arith)
text_ltb_trans [] (b ∷ t) (c ∷ u) h k = refl
text_ltb_trans (a ∷ s) [] u h k = absurd (ground arith)
text_ltb_trans (a ∷ s) (b ∷ t) [] h k = absurd (ground arith)
text_ltb_trans (a ∷ s) (b ∷ t) (c ∷ u) h k = ground (arith, text_ltb_trans s t u)

name_less_total : (a b : Text) → name_less a b ≡ false → name_less b a ≡ false → a ≡ b
unfolding name_less
name_less_total a b h k = ground (arith, text_ltb_total a b)

name_less_asym : (a b : Text) → name_less a b ≡ true → name_less b a ≡ false
unfolding name_less
name_less_asym a b h = ground (arith, text_ltb_asym a b)

name_less_trans :
    (a b c : Text) → name_less a b ≡ true → name_less b c ≡ true → name_less a c ≡ true
unfolding name_less
name_less_trans a b c h k = ground (arith, text_ltb_trans a b c)

entry_less_asym : (p q : Text) → entry_less p q ≡ true → entry_less q p ≡ false
unfolding entry_less
entry_less_asym p q = name_less_asym (base p) (base q)

entry_less_trans :
    (p q r : Text) → entry_less p q ≡ true → entry_less q r ≡ true → entry_less p r ≡ true
unfolding entry_less
entry_less_trans p q r = name_less_trans (base p) (base q) (base r)

entry_less_cases :
    (p q : Text) → (entry_less p q ≡ true) ⊎ (entry_less q p ≡ true) ⊎ (base p ≡ base q)
unfolding entry_less
entry_less_cases p q = elim (Bool-cases (name_less (base p) (base q))) [
  | inl lt ↦ inl lt
  | inr ge ↦ elim (Bool-cases (name_less (base q) (base p))) [
    | inl lt ↦ inr (inl lt)
    | inr ge' ↦ inr (inr (name_less_total (base p) (base q) ge ge'))
  ]
]

insert_entry_comm_less :
    (p q : Text) (s : List Text)
    → entry_less p q ≡ true
    → insert_entry p (insert_entry q s) ≡ insert_entry q (insert_entry p s)
unfolding insert_entry
insert_entry_comm_less p q [] lt = ground (arith, lt, entry_less_asym p q lt)
insert_entry_comm_less p q (r ∷ rs) lt =
    ground
      (arith, lt, entry_less_asym p q lt, entry_less_trans r p q, insert_entry_comm_less p q rs lt)

-- Two entries of different names are inserted in any order.
insert_entry_comm :
    (p q : Text) (s : List Text)
    → (base p ≡ base q → p ≡ q)
    → insert_entry p (insert_entry q s) ≡ insert_entry q (insert_entry p s)
insert_entry_comm p q s d = elim (entry_less_cases p q) [
  | inl lt ↦ insert_entry_comm_less p q s lt
  | inr (inl lt) ↦ sym (insert_entry_comm_less q p s lt)
  | inr (inr e) ↦ ap₂ (λ x y. insert_entry x (insert_entry y s)) (d e) (sym (d e))
]

-- No two of the paths have one base name.
abbrev pub DistinctNames : List Text → Type 0
DistinctNames ps = (p q : Text) → Memᴰ p ps → Memᴰ q ps → base p ≡ base q → p ≡ q

found_before : {ps qs : List Text} {p : Text} → Permᴰ ps qs → Memᴰ p qs → Memᴰ p ps
found_before Permᴰ.nil m = elim m [ ]
found_before (Permᴰ.cons e r) (Memᴰ.head h) = Memᴰ.head (h ∙ sym e)
found_before (Permᴰ.cons e r) (Memᴰ.tail m) = Memᴰ.tail (found_before r m)
found_before (Permᴰ.swap e f) (Memᴰ.head h) = Memᴰ.tail (Memᴰ.head (h ∙ sym f))
found_before (Permᴰ.swap e f) (Memᴰ.tail (Memᴰ.head h)) = Memᴰ.head (h ∙ sym e)
found_before (Permᴰ.swap e f) (Memᴰ.tail (Memᴰ.tail m)) = Memᴰ.tail (Memᴰ.tail m)
found_before (Permᴰ.trans r s) m = found_before r (found_before s m)

sort_entries_order :
    (ps qs : List Text) → Permᴰ ps qs → DistinctNames ps → sort_entries ps ≡ sort_entries qs
unfolding sort_entries
sort_entries_order ps qs Permᴰ.nil d = refl
sort_entries_order ps qs (Permᴰ.cons {a} {b} {l₁} {l₂} e r) d =
    ap₂ insert_entry e (sort_entries_order l₁ l₂ r (λ p q m n. d p q (Memᴰ.tail m) (Memᴰ.tail n)))
sort_entries_order ps qs (Permᴰ.swap {a} {b} {a'} {b'} {l} e f) d =
    insert_entry_comm a b (sort_entries l) (d a b (Memᴰ.head refl) (Memᴰ.tail (Memᴰ.head refl)))
    ∙ ap₂ (λ x y. insert_entry x (insert_entry y (sort_entries l))) f e
sort_entries_order ps qs (Permᴰ.trans {l₁ = l₁} {l₂ = l₂} {l₃ = l₃} r s) d =
    sort_entries_order ps l₂ r d
    ∙ sort_entries_order l₂ qs s (λ p q m n. d p q (found_before r m) (found_before r n))

-- For paths of which no two have one base name, the order in which they are found has no influence on the
-- outcome of `parseWorkflowDir`: neither on the workflows and their order, nor on the error.
pub parse_workflow_dir_order :
    {E : Type 0} (parse : Text → Outcome E WorkflowFile) (ps qs : List Text)
    → Permᴰ ps qs
    → DistinctNames ps
    → parse_workflow_dir parse ps ≡ parse_workflow_dir parse qs
unfolding parse_workflow_dir
parse_workflow_dir_order parse ps qs r d = ap (parse_entries parse) (sort_entries_order ps qs r d)
