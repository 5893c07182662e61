-- ===== src/Watcher/Drains.antt =====
-- The chain of timers ends: once every pending path is ready, a run of `flush` empties the pending map.
use make_mcp.Common.{
  ℕ, ◌+◌, ◌≤◌, ◌≡◌, refl, sym, ap, ◌∙◌, inl, inr, false, none, some, List, [], ◌∷◌, arith,
  Option-cases, length,
}
use mathlib.Core.List.{Memᴰ}
use make_mcp.Text.{Text}
use make_mcp.Go.Strconv.{ℤ, pos}
use make_mcp.Dict.{lookup, delete}
use make_mcp.Watcher.{Watcher, capacity, visit, visit_all, rearm, flush, send}
use make_mcp.Watcher.Waits.{IsWait, visit-Visited, visit-none}
use make_mcp.Watcher.Rearm.{AllTimely, visited, flush-armed, flush_runs}
use make_mcp.Watcher.Sends.{visit_due}

-- Every pending path has been ready by the time `now`.
abbrev pub AllReady : ℕ → Watcher → Type 0
AllReady now w = (path : Text) (t : ℕ) → lookup path w.pending ≡ some t → t ≤ now

send_timer : (now : ℕ) (path : Text) (w : Watcher) → (send now path w).timer ≡ w.timer
unfolding send
send_timer now path w = ground arith

-- A path that is ready asks nothing of the clock.
AllReady-AllTimely :
    (now : ℕ) (w : Watcher) (visits : List (Text × ℕ))
    → AllReady now w
    → AllTimely now w.pending visits
AllReady-AllTimely now w [] r = tt
AllReady-AllTimely now w ((path, later) ∷ visits) r =
    (λ t e late. absurd (omega (arith, r path t e, late)), AllReady-AllTimely now w visits r)

-- No round of the loop finds a wait, or sets the timer.
visit-ready :
    (now : ℕ) (path : Text) (later : ℕ) (s : Watcher × ℤ)
    → AllReady now s.0
    → ((visit now path later s).1 ≡ s.1) × ((visit now path later s).0.timer ≡ s.0.timer)
visit-ready now path later s r = elim (Option-cases (lookup path s.0.pending)) [
  | inl e ↦ rw (visit-none now path later s e) (refl, refl)
  | inr (t, e) ↦
      rw (visit_due now path later s e (ground (arith, r path t e)))
        (refl, send_timer now path (record s.0 { pending = delete path s.0.pending }))
]

record Drained (now : ℕ) (s s' : Watcher × ℤ) : Type 0 where
  next : s'.1 ≡ s.1
  timer : s'.0.timer ≡ s.0.timer
  shrinks : (p : Text) {t : ℕ} → lookup p s'.0.pending ≡ some t → lookup p s.0.pending ≡ some t

visit_all-Drained :
    (now : ℕ) (visits : List (Text × ℕ)) (s : Watcher × ℤ)
    → s.0.closed ≡ false
    → length s.0.events + length visits ≤ capacity
    → IsWait s.1
    → AllReady now s.0
    → Drained now s (visit_all now visits s)
unfolding visit_all
visit_all-Drained now [] s c room q r = record { next = refl; timer = refl; shrinks = λ p h. h }
visit_all-Drained now ((path, later) ∷ visits) s c room q r =
    let first =
      visit-Visited now path later s (AllReady-AllTimely now s.0 ((path, later) ∷ []) r).0 c
        (omega (arith, room)) q in
    let rest =
      visit_all-Drained now visits (visit now path later s) first.closed
        (omega (arith, room, first.grows)) first.is_wait (λ k t h. r k t (first.shrinks k h)) in
    let here = visit-ready now path later s r in
    record {
      next = rest.next ∙ here.0;
      timer = rest.timer ∙ here.1;
      shrinks = λ k h. first.shrinks k (rest.shrinks k h);
    }

-- Once the clock has passed the time of every pending path, one run of `flush` that goes through all of them,
-- with room for them in the channel, leaves no path pending and does not set the
-- timer, so that without new file events the chain of timers ends there.
pub flush-drains :
    (now : ℕ) (visits : List (Text × ℕ)) (at : ℕ) (w : Watcher)
    → w.stopped ≡ false
    → w.closed ≡ false
    → length w.events + length visits ≤ capacity
    → AllReady now w
    → ((path : Text) (t : ℕ) → lookup path w.pending ≡ some t → Memᴰ path (visited visits))
    → ((path : Text) → lookup path (flush now visits at w).pending ≡ none)
      × ((flush now visits at w).timer ≡ w.timer)
unfolding rearm visit_all
flush-drains now visits at w s c room r all =
    let left = visit_all now visits (w, pos 0) in
    let drained = visit_all-Drained now visits (w, pos 0) c room (0, refl) r in
    let same = flush_runs now visits at w s ∙ ap (λ n. rearm at n left.0) drained.next in
    (
      λ path. elim (Option-cases (lookup path (flush now visits at w).pending)) [
        | inl e ↦ e
        | inr (t, e) ↦
            let before = drained.shrinks path (sym (ap (λ v. lookup path v.pending) same) ∙ e) in
            let late =
              flush-armed now visits at w path t s c (AllReady-AllTimely now w visits r) room
                (all path t before) e in
            absurd (omega (arith, late.0, r path t before))
      ],
      ap (λ v. v.timer) same ∙ drained.timer,
    )
