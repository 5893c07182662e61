-- ===== src/Watcher/Full.antt =====
-- What becomes of a ready path where the channel is full.
use make_mcp.Common.{
  ℕ, ◌+◌, ◌≤◌, ◌≡◌, refl, ap, ◌∙◌, true, false, some, [], ◌∷◌, arith, ltb, length,
}
use make_mcp.Text.{Text, ◌=?◌}
use make_mcp.Text.Equal.{=?_iff}
use make_mcp.Go.Strconv.{pos}
use make_mcp.Dict.{lookup, insert, delete}
use make_mcp.Watcher.{Watcher, fired, capacity, visit, visit_all, rearm, flush}
use make_mcp.Watcher.Sends.{send_full, visit_due}

flush_one :
    (now at later : ℕ) (path : Text) (w w' : Watcher)
    → w.stopped ≡ false
    → visit now path later (w, pos 0) ≡ (w', pos 0)
    → flush now ((path, later) ∷ []) at w ≡ w'
unfolding flush visit_all rearm
flush_one now at later path w w' s v = simp s (ap (λ t. rearm at t.1 t.0) v)

flush_one_full :
    (now at later : ℕ) (path : Text) (w : Watcher) {ready_at : ℕ}
    → w.stopped ≡ false
    → w.closed ≡ false
    → ltb (length w.events) capacity ≡ false
    → w.pending ≡ (path, ready_at) ∷ []
    → ready_at ≤ now
    → flush now ((path, later) ∷ []) at w ≡ record w { pending = (path, now + w.settle) ∷ [] }
unfolding delete insert lookup
flush_one_full now at later path w {ready_at} s c f p r =
    let same : (path =? path) ≡ true = (=?_iff path path).1 refl in
    let found : lookup path w.pending ≡ some ready_at = ap (lookup path) p ∙ (rw same refl) in
    let gone : delete path w.pending ≡ [] = ap (delete path) p ∙ (rw same refl) in
    flush_one now at later path w _ s (
      visit_due now path later (w, pos 0) found (ground arith)
      ∙ ap (λ v. (v, pos 0))
          (send_full now path (record w { pending = delete path w.pending }) c f
            ∙ ap (λ m. record w { pending = insert path (now + w.settle) m }) gone))

-- Where the event channel is full, a run over a single ready path puts it back, and leaves it pending
-- with no timer running: nothing sends it before another file event comes.
pub flush-full :
    (now at later : ℕ) (path : Text) (w : Watcher) {ready_at : ℕ}
    → w.stopped ≡ false
    → w.closed ≡ false
    → ltb (length w.events) capacity ≡ false
    → w.timer ≡ fired
    → w.pending ≡ (path, ready_at) ∷ []
    → ready_at ≤ now
    → ((flush now ((path, later) ∷ []) at w).events ≡ w.events)
      × ((flush now ((path, later) ∷ []) at w).pending ≡ (path, now + w.settle) ∷ [])
      × ((flush now ((path, later) ∷ []) at w).timer ≡ fired)
flush-full now at later path w s c f t p r =
    let same = flush_one_full now at later path w s c f p r in
    (ap (λ v. v.events) same, ap (λ v. v.pending) same, ap (λ v. v.timer) same ∙ t)
