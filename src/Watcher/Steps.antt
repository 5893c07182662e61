-- ===== src/Watcher/Steps.antt =====
-- The steps of the watcher's goroutines, in any order, and the states that they reach.
use make_mcp.Common.{ℕ, suc, ◌≤◌, ◌<◌, ◌≡◌, Bool, true, false, some, List, ◌∷◌, length}
use make_mcp.Text.{Text}
use make_mcp.Config.{Duration}
use make_mcp.Watcher.{
  Watcher, FsEvent, armed, fired, capacity, new_watcher, on_event, on_error, add, remove, flush,
  close, end_loop,
}

-- One step of the loop, the timer, a run of `flush`, the consumer, or the owner. The loop handles
-- events until it ends, and it ends only behind `Close`, which alone closes the source's channels.
pub data Step (w : Watcher) : Watcher → Type 0 where
  file_event : (now : ℕ) (e : FsEvent) → w.closed ≡ false → Step w (on_event now e w)
  source_error : (err : Text) → w.closed ≡ false → Step w (on_error err w)
  fire :
      {deadline : ℕ} (now : ℕ)
      → w.timer ≡ armed deadline
      → deadline ≤ now
      → Step w (record w { timer = fired; flushing = suc w.flushing })
  flushes :
      {waiting : ℕ} (now : ℕ) (visits : List (Text × ℕ)) (at : ℕ)
      → w.flushing ≡ suc waiting
      → Step w (flush now visits at (record w { flushing = waiting }))
  receive :
      {path : Text} {rest : List Text}
      → w.events ≡ path ∷ rest
      → Step w (record w { events = rest })
  receive_error :
      {err : Text} {rest : List Text} → w.errors ≡ err ∷ rest → Step w (record w { errors = rest })
  adds : (can_add : Text → Bool) (path : Text) → Step w (add can_add path w).0
  removes : (can_remove : Text → Bool) (path : Text) → Step w (remove can_remove path w).0
  closes : w.stopped ≡ false → Step w (close w)
  loop_ends : w.closed ≡ false → w.stopped ≡ true → Step w (end_loop w)

pub data Reached : Watcher → Type 0 where
  started :
      {w : Watcher} (can_add : Text → Bool) (paths : List Text) (settle : Duration)
      → new_watcher can_add paths settle ≡ some w
      → Reached w
  after : {w w' : Watcher} → Reached w → Step w w' → Reached w'

-- Nothing has panicked, the buffers fit the channels, the outputs are closed only behind `Close`, and
-- the delay is positive.
pub record IsSafe (w : Watcher) : Type 0 where
  pub fine : w.panicked ≡ false
  pub events_fit : length w.events ≤ capacity
  pub errors_fit : length w.errors ≤ capacity
  pub in_order : w.closed ≡ true → w.stopped ≡ true
  pub settles : 0 < w.settle
