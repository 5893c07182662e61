-- ===== src/Watcher/Waits.antt =====
-- One round of the loop of `flush` where the channel has room, and the wait that it leaves.
use make_mcp.Common.{
  ℕ, zero, suc, ◌+◌, ◌-◌, ◌≤◌, ◌<◌, ◌≡◌, refl, sym, ap, ap₂, ◌∙◌, inl, inr, false, Option, none,
  some, [], ◌∷◌, ◌++◌, arith, ltb, leb, Bool-cases, length, length-append,
}
use mathlib.Core.Path.{subst}
use make_mcp.Text.{Text}
use make_mcp.Go.Strconv.{ℤ, pos, negsuc}
use make_mcp.Text.Equal.{=?_iff}
use make_mcp.Dict.{lookup, delete}
use make_mcp.Dict.Laws.{lookup-delete}
use make_mcp.Watcher.{Watcher, capacity, visit, nearer, until, less}
use make_mcp.Watcher.Sends.{send_room, visit_due}
use make_mcp.Watcher.Flush.{lookup_behind_delete}

-- A positive wait of at most `b`.
abbrev pub Within : ℤ → ℕ → Type 0
Within next b = (d : ℕ) × (next ≡ pos (suc d)) × (suc d ≤ b)

abbrev pub IsWait : ℤ → Type 0
IsWait next = (n : ℕ) × (next ≡ pos n)

abbrev pred_of : ℤ → ℕ
pred_of (pos zero) = 0
pred_of (pos (suc n)) = n
pred_of (negsuc n) = 0

nearer-Within :
    (n e : ℕ)
    → Within (nearer (pos n) (pos (suc e))) (suc e)
      × ((b : ℕ) → Within (pos n) b → Within (nearer (pos n) (pos (suc e))) b)
      × IsWait (nearer (pos n) (pos (suc e)))
unfolding nearer less
nearer-Within zero e = ((e, refl, omega arith), λ b (d, q, l). cc, (suc e, refl))
nearer-Within (suc n) e = elim (Bool-cases (ltb (suc e) (suc n))) [
  | inl h ↦ rw h (
    (e, refl, omega arith),
    λ b (d, q, l). (e, refl, (let same : n ≡ d = ap (λ z. pred_of z) q in ground arith)),
    (suc e, refl),
  )
  | inr h ↦ rw h ((n, refl, ground arith), λ b w. w, (suc n, refl))
]

until-wait :
    (ready_at now : ℕ)
    → leb ready_at now ≡ false
    → (e : ℕ) × (until ready_at now ≡ pos (suc e)) × (suc e + now ≡ ready_at)
unfolding until
until-wait ready_at now h = (ready_at - now - 1, ground arith, ground arith)

-- What one round does to the paths and to the wait.
pub record Visited (now : ℕ) (path : Text) (s s' : Watcher × ℤ) : Type 0 where
  pub shrinks : (p : Text) {t : ℕ} → lookup p s'.0.pending ≡ some t → lookup p s.0.pending ≡ some t
  pub grows : length s'.0.events ≤ suc (length s.0.events)
  pub closed : s'.0.closed ≡ false
  pub is_wait : IsWait s'.1
  pub keeps : (b : ℕ) → Within s.1 b → Within s'.1 b
  pub here : (r : ℕ) → lookup path s'.0.pending ≡ some r → (now < r) × Within s'.1 (r - now)

pub visit-none :
    (now : ℕ) (path : Text) (later : ℕ) (s : Watcher × ℤ)
    → lookup path s.0.pending ≡ none
    → visit now path later s ≡ s
unfolding visit
visit-none now path later s l = rw (l, visit) refl

visit_wait :
    (now : ℕ) (path : Text) (later : ℕ) (s : Watcher × ℤ) {t : ℕ}
    → lookup path s.0.pending ≡ some t
    → leb t now ≡ false
    → visit now path later s ≡ (s.0, nearer s.1 (until t later))
unfolding visit
visit_wait now path later s l d = rw (l, visit) (rw d refl)

-- Where the path is pending and not ready, the clock is read in its round before it becomes ready.
abbrev pub IsTimely : ℕ → Text → ℕ → Option ℕ → Type 0
IsTimely now path later found = (t : ℕ) → found ≡ some t → now < t → (now ≤ later) × (later < t)

Within_more : (next : ℤ) (b c : ℕ) → b ≤ c → Within next b → Within next c
Within_more next b c h (d, q, l) = (d, q, omega (arith, h, l))

Visited-none :
    (now : ℕ) (path : Text) (s : Watcher × ℤ)
    → lookup path s.0.pending ≡ none
    → s.0.closed ≡ false
    → IsWait s.1
    → Visited now path s s
Visited-none now path s l c q = record {
  shrinks = λ p h. h;
  grows = omega arith;
  closed = c;
  is_wait = q;
  keeps = λ b h. h;
  here = λ t h. absurd (cc);
}

Visited-due :
    (now : ℕ) (path : Text) (s : Watcher × ℤ)
    → s.0.closed ≡ false
    → IsWait s.1
    → Visited now path s
        (record s.0 { pending = delete path s.0.pending; events = s.0.events ++ path ∷ [] }, s.1)
Visited-due now path s c q = record {
  shrinks = λ p h. lookup_behind_delete p path s.0.pending h;
  grows = omega (arith, length-append s.0.events (path ∷ []));
  closed = c;
  is_wait = q;
  keeps = λ b h. h;
  here = λ t h. absurd (ground (arith, lookup-delete path path s.0.pending, =?_iff path path));
}

Visited-wait :
    (now : ℕ) (path : Text) (later : ℕ) (s : Watcher × ℤ) {t : ℕ}
    → lookup path s.0.pending ≡ some t
    → leb t now ≡ false
    → (now ≤ later) × (later < t)
    → s.0.closed ≡ false
    → IsWait s.1
    → Visited now path s (s.0, nearer s.1 (until t later))
Visited-wait now path later s {t} l d (past, soon) c (n, q) =
    let (e, u, at) = until-wait t later (ground (arith, soon)) in
    let (near, keep, wait) = nearer-Within n e in
    let same : nearer (pos n) (pos (suc e)) ≡ nearer s.1 (until t later) =
      ap₂ nearer (sym q) (sym u) in
    record {
      shrinks = λ p h. h;
      grows = omega arith;
      closed = c;
      is_wait = subst IsWait same wait;
      keeps = λ b w. subst (λ z. Within z b) same (keep b (subst (λ z. Within z b) q w));
      here = λ r h.
          let again : t ≡ r = ground arith in
          (
            ground (arith, past, soon),
            subst (λ z. Within z (r - now)) same
                (Within_more _ (suc e) (r - now) (omega (arith, at, again, past)) near),
          );
    }

pub visit-Visited :
    (now : ℕ) (path : Text) (later : ℕ) (s : Watcher × ℤ)
    → IsTimely now path later (lookup path s.0.pending)
    → s.0.closed ≡ false
    → length s.0.events < capacity
    → IsWait s.1
    → Visited now path s (visit now path later s)
visit-Visited now path later s timely c room q = go (lookup path s.0.pending) refl
  where
    go : (o : Option ℕ) → lookup path s.0.pending ≡ o → Visited now path s (visit now path later s)
    go none l =
        subst (Visited now path s) (sym (visit-none now path later s l))
          (Visited-none now path s l c q)
    go (some t) l = elim (Bool-cases (leb t now)) [
      | inl e ↦
          subst (Visited now path s)
            (sym (
              visit_due now path later s l e
              ∙ ap (λ w. (w, s.1))
                  (send_room now path (record s.0 { pending = delete path s.0.pending }) c
                    (ground arith))))
            (Visited-due now path s c q)
      | inr e ↦
          subst (Visited now path s) (sym (visit_wait now path later s l e))
            (Visited-wait now path later s l e (timely t l (ground (arith, e))) c q)
    ]
