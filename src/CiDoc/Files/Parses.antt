-- ===== src/CiDoc/Files/Parses.antt =====
-- What `parseWorkflowDir` reads: only the paths that are found.
use make_mcp.Common.{◌≡◌, refl, ap₂, ◌⊎◌, inl, inr, List, [], ◌∷◌, Bool-cases}
use mathlib.Core.List.{Memᴰ}
use mathlib.Core.List.Memᴰ as Memᴰ
use make_mcp.Common.Outcome.{Outcome, ok, ◌>>=◌}
use make_mcp.Text.{Text}
use make_mcp.CiDoc.Workflow.{WorkflowFile}
use make_mcp.CiDoc.Files.{entry_less, insert_entry, sort_entries, parse_entries}

found_in : (p q : Text) (qs : List Text) → Memᴰ p (insert_entry q qs) → (p ≡ q) ⊎ Memᴰ p qs
unfolding insert_entry
found_in p q [] m = Memᴰ.cases_cons m
found_in p q (r ∷ rs) m = elim (Bool-cases (entry_less r q)) [
  | inr n ↦ Memᴰ.cases_cons (rw n at m)
  | inl l ↦ elim (Memᴰ.cases_cons (rw l at m)) [
    | inl e ↦ inr (Memᴰ.head e)
    | inr t ↦ elim (found_in p q rs t) [ inl e ↦ inl e | inr t ↦ inr (Memᴰ.tail t) ]
  ]
]

pub sort_entries_sound : (p : Text) (ps : List Text) → Memᴰ p (sort_entries ps) → Memᴰ p ps
unfolding sort_entries
sort_entries_sound p [] m = m
sort_entries_sound p (q ∷ qs) m = elim (found_in p q (sort_entries qs) m) [
  | inl e ↦ Memᴰ.head e
  | inr t ↦ Memᴰ.tail (sort_entries_sound p qs t)
]

pub parse_entries_congr :
    {E : Type 0} (f g : Text → Outcome E WorkflowFile) (ps : List Text)
    → ((p : Text) → Memᴰ p ps → f p ≡ g p)
    → parse_entries f ps ≡ parse_entries g ps
unfolding parse_entries
parse_entries_congr f g [] h = refl
parse_entries_congr f g (p ∷ ps) h =
    ap₂
      (λ (o : Outcome _ WorkflowFile) (l : Outcome _ (List WorkflowFile)).
        o >>= λ wf. l >>= λ wfs. ok (wf ∷ wfs))
      (h p (Memᴰ.head refl)) (parse_entries_congr f g ps (λ q m. h q (Memᴰ.tail m)))
