-- ===== src/Watcher/Safe.antt =====
-- What holds in every state that the watcher reaches.
use make_mcp.Common.{
  ℕ, zero, suc, ◌≤◌, ◌<◌, ◌≡◌, refl, sym, ap, ◌∙◌, inl, inr, Bool, true, false, not, ◌||◌, Option,
  none, some, List, [], ◌∷◌, ◌++◌, arith, ltb, leb, if◌then◌else◌, Bool-cases, length,
  length-append,
}
use mathlib.Core.Path.{subst}
use make_mcp.Text.{Text}
use make_mcp.Go.Strconv.{ℤ, pos, negsuc}
use make_mcp.Dict.{lookup, delete}
use make_mcp.Config.{Duration}
use make_mcp.Watcher.{
  Watcher, FsEvent, unset, effective_settle, should_handle, enqueue, capacity, new_watcher,
  on_event, on_error, add, remove, send, visit, visit_all, nearer, until, rearm, flush, close,
  end_loop,
}
use make_mcp.Watcher.Steps.{
  Step, file_event, source_error, fire, flushes, receive, closes, loop_ends, receive_error, adds,
  removes, Reached, started, after, IsSafe,
}

abbrev fresh : List Text → Duration → Watcher
fresh paths settle = record {
  settle = effective_settle settle;
  events = [];
  errors = [];
  stopped = false;
  closed = false;
  pending = [];
  timer = unset;
  added = paths;
  flushing = 0;
  panicked = false;
}

effective_settle-positive : (d : Duration) → 0 < effective_settle d
effective_settle-positive (pos zero) = omega arith
effective_settle-positive (pos (suc n)) = omega arith
effective_settle-positive (negsuc n) = omega arith

fits-append :
    (xs : List Text) (x : Text) → ltb (length xs) capacity ≡ true → length (xs ++ x ∷ []) ≤ capacity
fits-append xs x h = ground (arith, length-append xs (x ∷ []))

fresh-IsSafe : (paths : List Text) (settle : Duration) → IsSafe (fresh paths settle)
fresh-IsSafe paths settle = record {
  fine = refl;
  events_fit = omega arith;
  errors_fit = omega arith;
  in_order = λ e. cc;
  settles = effective_settle-positive settle;
}

pub new_watcher-IsSafe :
    (can_add : Text → Bool) (paths : List Text) (settle : Duration) {w : Watcher}
    → new_watcher can_add paths settle ≡ some w
    → IsSafe w
unfolding new_watcher
new_watcher-IsSafe can_add paths settle {w} h =
    let same : fresh paths settle ≡ w = ground arith in
    subst IsSafe same (fresh-IsSafe paths settle)

-- Safety does not look at the other fields.
pub IsSafe-same :
    (w w' : Watcher)
    → w'.panicked ≡ w.panicked
    → w'.events ≡ w.events
    → w'.errors ≡ w.errors
    → w'.closed ≡ w.closed
    → w'.stopped ≡ w.stopped
    → w'.settle ≡ w.settle
    → IsSafe w
    → IsSafe w'
IsSafe-same w w' p ev er c st se h = record {
  fine = p ∙ h.fine;
  events_fit = rw ev h.events_fit;
  errors_fit = rw er h.errors_fit;
  in_order = rw (c, st) h.in_order;
  settles = rw se h.settles;
}

on_event-IsSafe : (now : ℕ) (e : FsEvent) (w : Watcher) → IsSafe w → IsSafe (on_event now e w)
unfolding on_event enqueue
on_event-IsSafe now e w h = elim (Bool-cases (not (should_handle e))) [
  | inl n ↦ rw n h
  | inr y ↦ elim (Bool-cases (e.create || e.rename)) [
    | inl c ↦ rw (y, c) (IsSafe-same w _ refl refl refl refl refl refl h)
    | inr c ↦ rw (y, c) (IsSafe-same w _ refl refl refl refl refl refl h)
  ]
]

on_error-IsSafe : (err : Text) (w : Watcher) → IsSafe w → IsSafe (on_error err w)
unfolding on_error
on_error-IsSafe err w h = elim (Bool-cases (ltb (length w.errors) capacity)) [
  | inr e ↦ rw e h
  | inl e ↦ rw e (record {
    fine = h.fine;
    events_fit = h.events_fit;
    errors_fit = fits-append w.errors err e;
    in_order = h.in_order;
    settles = h.settles;
  })
]

-- A safe watcher whose channels are open.
abbrev IsOpen : Watcher → Type 0
IsOpen w = IsSafe w × (w.closed ≡ false)

send-IsOpen : (now : ℕ) (path : Text) (w : Watcher) → IsOpen w → IsOpen (send now path w)
unfolding send
send-IsOpen now path w (h, c) = elim (Bool-cases (ltb (length w.events) capacity)) [
  | inl e ↦
      rw (c, e)
        (
          record {
            fine = h.fine;
            events_fit = fits-append w.events path e;
            errors_fit = h.errors_fit;
            in_order = λ t. cc;
            settles = h.settles;
          },
          refl,
        )
  | inr e ↦ rw (c, e) (IsSafe-same w _ refl refl refl (sym c) refl refl h, refl)
]

visit-IsOpen :
    (now : ℕ) (path : Text) (later : ℕ) (s : Watcher × ℤ)
    → IsOpen s.0
    → IsOpen (visit now path later s).0
unfolding visit
visit-IsOpen now path later s (h, c) = go (lookup path s.0.pending)
  where
    go :
        (o : Option ℕ)
        → IsOpen
            (elim o as (λ x. Watcher × ℤ) [
              | none ↦ s
              | some ready_at ↦
                  if leb ready_at now
                  then (send now path (record s.0 { pending = delete path s.0.pending }), s.1)
                  else (s.0, nearer s.1 (until ready_at later))
            ]).0
    go none = (h, c)
    go (some ready_at) = elim (Bool-cases (leb ready_at now)) [
      | inl e ↦ rw e (
          send-IsOpen now path (record s.0 { pending = delete path s.0.pending })
            (IsSafe-same s.0 _ refl refl refl refl refl refl h, c))
      | inr e ↦ rw e (h, c)
    ]

visit_all-IsOpen :
    (now : ℕ) (visits : List (Text × ℕ)) (s : Watcher × ℤ)
    → IsOpen s.0
    → IsOpen (visit_all now visits s).0
unfolding visit_all
visit_all-IsOpen now [] s h = h
visit_all-IsOpen now ((path, later) ∷ visits) s h =
    visit_all-IsOpen now visits (visit now path later s) (visit-IsOpen now path later s h)

rearm-IsSafe : (at : ℕ) (next : ℤ) (w : Watcher) → IsSafe w → IsSafe (rearm at next w)
unfolding rearm
rearm-IsSafe at (pos zero) w h = h
rearm-IsSafe at (pos (suc d)) w h = IsSafe-same w _ refl refl refl refl refl refl h
rearm-IsSafe at (negsuc n) w h = h

flush-IsSafe :
    (now : ℕ) (visits : List (Text × ℕ)) (at : ℕ) (w : Watcher)
    → IsSafe w
    → IsSafe (flush now visits at w)
unfolding flush
flush-IsSafe now visits at w h = go w.stopped refl
  where
    go :
        (b : Bool)
        → w.stopped ≡ b
        → IsSafe (if b then w else let s = visit_all now visits (w, pos 0) in rearm at s.1 s.0)
    go true e = h
    go false e =
        let still_open : w.closed ≡ false = elim (Bool-cases w.closed) [
          | inl c ↦ absurd (cc (h.in_order c))
          | inr c ↦ c
        ] in
        rearm-IsSafe at _ _ (visit_all-IsOpen now visits (w, pos 0) (h, still_open)).0

add-IsSafe :
    (can_add : Text → Bool) (path : Text) (w : Watcher) → IsSafe w → IsSafe (add can_add path w).0
unfolding add
add-IsSafe can_add path w h = elim (Bool-cases (can_add path)) [
  | inl e ↦ rw e (IsSafe-same w _ refl refl refl refl refl refl h)
  | inr n ↦ rw n h
]

remove-IsSafe :
    (can_remove : Text → Bool) (path : Text) (w : Watcher)
    → IsSafe w
    → IsSafe (remove can_remove path w).0
unfolding remove
remove-IsSafe can_remove path w h = elim (Bool-cases (can_remove path)) [
  | inl e ↦ rw e (IsSafe-same w _ refl refl refl refl refl refl h)
  | inr n ↦ rw n h
]

pub Step-IsSafe : {w w' : Watcher} → Step w w' → IsSafe w → IsSafe w'
unfolding close end_loop
Step-IsSafe {w} (file_event now e c) h = on_event-IsSafe now e w h
Step-IsSafe {w} (source_error err c) h = on_error-IsSafe err w h
Step-IsSafe {w} (fire now t d) h = IsSafe-same w _ refl refl refl refl refl refl h
Step-IsSafe {w} (flushes {waiting} now visits at f) h =
    flush-IsSafe now visits at (record w { flushing = waiting })
      (IsSafe-same w _ refl refl refl refl refl refl h)
Step-IsSafe {w} (receive {path} {rest} e) h = record {
  fine = h.fine;
  events_fit = omega (arith, h.events_fit, ap length e);
  errors_fit = h.errors_fit;
  in_order = h.in_order;
  settles = h.settles;
}
Step-IsSafe {w} (receive_error {err} {rest} e) h = record {
  fine = h.fine;
  events_fit = h.events_fit;
  errors_fit = omega (arith, h.errors_fit, ap length e);
  in_order = h.in_order;
  settles = h.settles;
}
Step-IsSafe {w} (adds can_add path) h = add-IsSafe can_add path w h
Step-IsSafe {w} (removes can_remove path) h = remove-IsSafe can_remove path w h
Step-IsSafe {w} (closes n) h = rw n (record {
  fine = h.fine;
  events_fit = h.events_fit;
  errors_fit = h.errors_fit;
  in_order = λ c. refl;
  settles = h.settles;
})
Step-IsSafe {w} (loop_ends c s) h = rw c (record {
  fine = h.fine;
  events_fit = h.events_fit;
  errors_fit = h.errors_fit;
  in_order = λ t. s;
  settles = h.settles;
})

-- In every state that the watcher reaches, in any order of file events, timer runs, reads, added and removed
-- paths and one `Close`, nothing has been sent on a closed channel or closed twice, both buffers fit their channels,
-- the channels are closed only behind `Close`, and the delay is positive.
pub Reached-IsSafe : {w : Watcher} → Reached w → IsSafe w
Reached-IsSafe (started can_add paths settle h) = new_watcher-IsSafe can_add paths settle h
Reached-IsSafe (after r s) = Step-IsSafe s (Reached-IsSafe r)
