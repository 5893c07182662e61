-- ===== src/Watcher/Rearm.antt =====
-- Where the channel has room, a run of `flush` leaves its timer running for what it keeps.
use make_mcp.Common.{
  ℕ, zero, suc, ◌+◌, ◌-◌, ◌≤◌, ◌<◌, ◌≡◌, refl, sym, ap, ◌∙◌, false, some, List, [], ◌∷◌, map, arith,
  length, All,
}
use mathlib.Core.List.{Memᴰ}
use make_mcp.Text.{Text}
use make_mcp.Go.Strconv.{ℤ, pos, negsuc}
use make_mcp.Dict.{Dict, lookup}
use make_mcp.Watcher.{Watcher, armed, capacity, visit, visit_all, rearm, flush}
use make_mcp.Watcher.Waits.{Within, IsTimely, IsWait, visit-Visited}

-- In its round each pending path that is not ready is seen before it becomes ready.
abbrev pub AllTimely : ℕ → Dict ℕ → List (Text × ℕ) → Type 0
AllTimely now pending = All (λ v. IsTimely now v.0 v.1 (lookup v.0 pending))

pub AllTimely-fewer :
    (now : ℕ) (pending fewer : Dict ℕ) (visits : List (Text × ℕ))
    → ((p : Text) (t : ℕ) → lookup p fewer ≡ some t → lookup p pending ≡ some t)
    → AllTimely now pending visits
    → AllTimely now fewer visits
AllTimely-fewer now pending fewer [] less h = tt
AllTimely-fewer now pending fewer ((path, later) ∷ visits) less h =
    (λ t e. h.0 t (less path t e), AllTimely-fewer now pending fewer visits less h.1)

abbrev pub visited : List (Text × ℕ) → List Text
visited = map (λ v. v.0)

-- What the whole loop does, where the channel has room for all its paths.
record Looped (now : ℕ) (paths : List Text) (s s' : Watcher × ℤ) : Type 0 where
  shrinks : (p : Text) {t : ℕ} → lookup p s'.0.pending ≡ some t → lookup p s.0.pending ≡ some t
  is_wait : IsWait s'.1
  keeps : (b : ℕ) → Within s.1 b → Within s'.1 b
  all :
      (path : Text) (r : ℕ)
      → Memᴰ path paths
      → lookup path s'.0.pending ≡ some r
      → (now < r) × Within s'.1 (r - now)

visit_all-Looped :
    (now : ℕ) (visits : List (Text × ℕ)) (s : Watcher × ℤ)
    → AllTimely now s.0.pending visits
    → s.0.closed ≡ false
    → length s.0.events + length visits ≤ capacity
    → IsWait s.1
    → Looped now (visited visits) s (visit_all now visits s)
unfolding visit_all
visit_all-Looped now [] s p c room q = record {
  shrinks = λ p h. h;
  is_wait = q;
  keeps = λ b h. h;
  all = λ path r m h. elim m [ ];
}
visit_all-Looped now ((path, later) ∷ visits) s (on_time, p) c room q =
    let first = visit-Visited now path later s on_time c (omega (arith, room)) q in
    let rest =
      visit_all-Looped now visits (visit now path later s)
        (AllTimely-fewer now s.0.pending _ visits (λ k t h. first.shrinks k h) p) first.closed
        (omega (arith, room, first.grows)) first.is_wait in
    record {
      shrinks = λ p h. first.shrinks p (rest.shrinks p h);
      is_wait = rest.is_wait;
      keeps = λ b h. rest.keeps b (first.keeps b h);
      all = λ p r m h. elim m [
        | Memᴰ.head e ↦
            let (late, near) = first.here r (
              rest.shrinks path (
                ap (λ k. lookup k (visit_all now visits (visit now path later s)).0.pending) (sym e)
                ∙ h)) in
            (late, rest.keeps (r - now) near)
        | Memᴰ.tail t ↦ rest.all p r t h
      ];
    }

rearm-armed :
    (at b : ℕ) (next : ℤ) (w : Watcher)
    → Within next b
    → (deadline : ℕ) × ((rearm at next w).timer ≡ armed deadline) × (deadline ≤ at + b)
unfolding rearm
rearm-armed at b next w (d, q, l) = rw q (at + suc d, refl, omega (arith, l))

rearm_pending : (at : ℕ) (next : ℤ) (w : Watcher) → (rearm at next w).pending ≡ w.pending
unfolding rearm
rearm_pending at (pos zero) w = refl
rearm_pending at (pos (suc d)) w = refl
rearm_pending at (negsuc n) w = refl

pub flush_runs :
    (now : ℕ) (visits : List (Text × ℕ)) (at : ℕ) (w : Watcher)
    → w.stopped ≡ false
    → flush now visits at w
      ≡ rearm at (visit_all now visits (w, pos 0)).1 (visit_all now visits (w, pos 0)).0
unfolding flush
flush_runs now visits at w s = simp s refl

-- Where the channel has room for all the paths of the loop, and each pending path that is not ready when `flush`
-- begins is still not ready when its round reads the clock again, a path that `flush` leaves pending is not
-- ready at its beginning, and the timer is left running and runs out no later than the path becomes ready,
-- counted from the moment it is set. Where a round comes too late for its path, nothing is shown.
pub flush-armed :
    (now : ℕ) (visits : List (Text × ℕ)) (at : ℕ) (w : Watcher) (path : Text) (ready_at : ℕ)
    → w.stopped ≡ false
    → w.closed ≡ false
    → AllTimely now w.pending visits
    → length w.events + length visits ≤ capacity
    → Memᴰ path (visited visits)
    → lookup path (flush now visits at w).pending ≡ some ready_at
    → (now < ready_at)
      × (deadline : ℕ) × ((flush now visits at w).timer ≡ armed deadline)
      × (deadline ≤ at + (ready_at - now))
flush-armed now visits at w path ready_at s c p room m h =
    let looped = visit_all-Looped now visits (w, pos 0) p c room (0, refl) in
    let same = flush_runs now visits at w s in
    let left = visit_all now visits (w, pos 0) in
    let still =
      sym (ap (lookup path) (rearm_pending at left.1 left.0))
      ∙ sym (ap (λ v. lookup path v.pending) same)
      ∙ h in
    let (late, near) = looped.all path ready_at m still in
    let (deadline, timer, soon) = rearm-armed at (ready_at - now) left.1 left.0 near in
    (late, deadline, ap (λ v. v.timer) same ∙ timer, soon)
