-- ===== src/MetricsDoc/Page/Sorted.antt =====
-- `sort.Strings` on labels, and the labels of the page.
use make_mcp.Common.{◌≡◌, refl, ◌∙◌, inl, inr, true, false, ◌||◌, List, [], ◌∷◌, arith, Bool-cases}
use make_mcp.Text.{Text, ◌=?◌}
use make_mcp.Text.Equal.{=?_iff}
use make_mcp.MetricsDoc.Keys.{contains}
use make_mcp.MetricsDoc.Keys.Union.{Distinct}
use make_mcp.MetricsDoc.Page.{text_leb, insert_sorted, sort_strings}

-- Each label comes strictly before the next one in the order of its bytes.
abbrev pub IsAscending : List Text → Type 0
IsAscending [] = Unit
IsAscending (s ∷ []) = Unit
IsAscending (s ∷ t ∷ ts) = (text_leb t s ≡ false) × IsAscending (t ∷ ts)

text_leb_antisym : (s t : Text) → text_leb s t ≡ true → text_leb t s ≡ true → s ≡ t
unfolding text_leb
text_leb_antisym [] [] h k = refl
text_leb_antisym [] (b ∷ t) h k = absurd (ground arith)
text_leb_antisym (a ∷ s) [] h k = absurd (ground arith)
text_leb_antisym (a ∷ s) (b ∷ t) h k = ground (arith, text_leb_antisym s t)

pub contains-insert_sorted :
    (k s : Text) (ts : List Text) → contains k (insert_sorted s ts) ≡ ((k =? s) || contains k ts)
unfolding insert_sorted contains
contains-insert_sorted k s [] = refl
contains-insert_sorted k s (t ∷ ts) = ground (arith, contains-insert_sorted k s ts)

pub contains-sort_strings :
    (k : Text) (ss : List Text) → contains k (sort_strings ss) ≡ contains k ss
unfolding sort_strings contains
contains-sort_strings k [] = refl
contains-sort_strings k (s ∷ ss) =
    ground (arith, contains-insert_sorted k s (sort_strings ss), contains-sort_strings k ss)

IsAscending-tail : (t : Text) (ts : List Text) → IsAscending (t ∷ ts) → IsAscending ts
IsAscending-tail t [] a = tt
IsAscending-tail t (u ∷ us) a = a.1

-- A strict start in front of an insertion.
insert_sorted-behind :
    (t s : Text) (ts : List Text)
    → text_leb s t ≡ false
    → IsAscending (t ∷ ts)
    → IsAscending (insert_sorted s ts)
    → IsAscending (t ∷ insert_sorted s ts)
unfolding insert_sorted
insert_sorted-behind t s [] h a i = (h, tt)
insert_sorted-behind t s (u ∷ us) h a i = elim (Bool-cases (text_leb s u)) [
  | inl e ↦ rw e (h, rw e at i)
  | inr n ↦ rw n (a.0, rw n at i)
]

insert_sorted-IsAscending :
    (s : Text) (ts : List Text)
    → contains s ts ≡ false
    → IsAscending ts
    → IsAscending (insert_sorted s ts)
unfolding insert_sorted contains
insert_sorted-IsAscending s [] h a = tt
insert_sorted-IsAscending s (t ∷ ts) h a = elim (Bool-cases (text_leb s t)) [
  | inl e ↦ rw e (ground (arith, text_leb_antisym s t, =?_iff s t), a)
  | inr n ↦ rw n (
      insert_sorted-behind t s ts n a
        (insert_sorted-IsAscending s ts (ground arith) (IsAscending-tail t ts a)))
]

pub sort_strings-IsAscending : (ss : List Text) → Distinct ss → IsAscending (sort_strings ss)
unfolding sort_strings
sort_strings-IsAscending [] d = tt
sort_strings-IsAscending (s ∷ ss) d =
    insert_sorted-IsAscending s (sort_strings ss) (contains-sort_strings s ss ∙ d.0)
      (sort_strings-IsAscending ss d.1)
