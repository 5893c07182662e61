-- ===== src/Main/System/Room.antt =====
-- A watcher with room in its channel: what an event and a run of `flush` leave of it.
use make_mcp.Common.{
  ℕ, suc, ◌+◌, ◌≤◌, ◌≡◌, refl, sym, ap, inl, inr, Bool, true, false, ◌||◌, none, some, List, [],
  ◌∷◌, ◌++◌, arith, if◌then◌else◌, Bool-cases, length,
}
use mathlib.Core.List.{Memᴰ}
use make_mcp.Text.{Text, ◌=?◌}
use make_mcp.Text.Equal.{=?_iff}
use make_mcp.Dict.{Dict, lookup, insert}
use make_mcp.Go.Path.{clean}
use make_mcp.Watcher.{capacity, Watcher, FsEvent, armed, should_handle, enqueue, on_event, flush}
use make_mcp.Watcher.Rearm.{visited}
use make_mcp.Watcher.Drains.{flush-drains}

-- A path that waits has a timer, or a run of `flush` that the timer has started.
pub data IsTimed (w : Watcher) : Type 0 where
  no_path : w.pending ≡ [] → IsTimed w
  has_timer : {deadline : ℕ} → w.timer ≡ armed deadline → IsTimed w
  has_flush : {waiting : ℕ} → w.flushing ≡ suc waiting → IsTimed w

-- The watcher runs, and its channel can take what waits and `n` paths more.
pub record Fits (n : ℕ) (w : Watcher) : Type 0 where
  pub running : w.stopped ≡ false
  pub opened : w.closed ≡ false
  pub timed : IsTimed w
  pub room : length w.pending + n ≤ capacity

length-insert : (k : Text) (v : ℕ) (m : Dict ℕ) → length (insert k v m) ≤ suc (length m)
unfolding insert
length-insert k v [] = omega arith
length-insert k v ((j, w) ∷ m) = ground (arith, length-insert k v m)

added-Fits :
    (b : Bool) (n : ℕ) (paths : List Text) (w : Watcher)
    → Fits n w
    → Fits n (if b then record w { added = paths } else w)
added-Fits true n paths w h = record {
  running = h.running;
  opened = h.opened;
  timed = elim h.timed [
    | no_path e ↦ no_path e
    | has_timer e ↦ has_timer e
    | has_flush e ↦ has_flush e
  ];
  room = h.room;
}
added-Fits false n paths w h = h

enqueue-Fits :
    (now n : ℕ) (path : Text) (w : Watcher) → Fits (suc n) w → Fits n (enqueue now path w)
unfolding enqueue
enqueue-Fits now n path w h = record {
  running = h.running;
  opened = h.opened;
  timed = has_timer refl;
  room = omega (arith, h.room, length-insert (clean path) (now + w.settle) w.pending);
}

less-Fits : (n : ℕ) (w : Watcher) → Fits (suc n) w → Fits n w
less-Fits n w h = record {
  running = h.running;
  opened = h.opened;
  timed = h.timed;
  room = omega (arith, h.room);
}

-- An event makes at most one path wait, and sets the timer for it.
pub on_event-Fits :
    (now n : ℕ) (e : FsEvent) (w : Watcher) → Fits (suc n) w → Fits n (on_event now e w)
unfolding on_event
on_event-Fits now n e w h = elim (Bool-cases (should_handle e)) [
  | inr k ↦ rw (k, on_event) (less-Fits n w h)
  | inl k ↦
      rw (k, on_event)
        (enqueue-Fits now n e.name _
          (added-Fits (e.create || e.rename) (suc n) (w.added ++ e.name ∷ []) w h))
]

-- A time that no pending path waits for longer than.
abbrev pub bound : Dict ℕ → ℕ
bound [] = 0
bound ((path, t) ∷ m) = t + bound m

abbrev pub visits_at : ℕ → Dict ℕ → List (Text × ℕ)
visits_at now [] = []
visits_at now ((path, t) ∷ m) = (path, now) ∷ visits_at now m

lookup-bound : (path : Text) (t : ℕ) (m : Dict ℕ) → lookup path m ≡ some t → t ≤ bound m
unfolding lookup
lookup-bound path t [] e = cc
lookup-bound path t ((j, u) ∷ m) e = elim (Bool-cases (j =? path)) [
  | inl y ↦ let same : u ≡ t = cc (rw y at e) in omega (arith, same)
  | inr n ↦ omega (arith, lookup-bound path t m (rw n at e))
]

length-visits_at : (now : ℕ) (m : Dict ℕ) → length (visits_at now m) ≡ length m
length-visits_at now [] = refl
length-visits_at now ((path, t) ∷ m) = ap suc (length-visits_at now m)

lookup-visited :
    (now : ℕ) (path : Text) (t : ℕ) (m : Dict ℕ)
    → lookup path m ≡ some t
    → Memᴰ path (visited (visits_at now m))
unfolding lookup
lookup-visited now path t [] e = cc
lookup-visited now path t ((j, u) ∷ m) e = elim (Bool-cases (j =? path)) [
  | inl y ↦ Memᴰ.head (sym ((=?_iff j path).0 y))
  | inr n ↦ Memᴰ.tail (lookup-visited now path t m (rw n at e))
]

-- A run of `flush` late enough leaves no path pending.
pub flush-clears :
    (now : ℕ) (w : Watcher)
    → w.stopped ≡ false
    → w.closed ≡ false
    → w.events ≡ []
    → length w.pending ≤ capacity
    → bound w.pending ≤ now
    → (path : Text) → lookup path (flush now (visits_at now w.pending) now w).pending ≡ none
flush-clears now w s c e room late path =
    (flush-drains now (visits_at now w.pending) now w s c
        (omega (arith, room, ap length e, length-visits_at now w.pending))
        (λ p t l. omega (arith, late, lookup-bound p t w.pending l))
        (λ p t l. lookup-visited now p t w.pending l)).0
      path

-- The same watcher with its channel empty.
pub events-Fits : (w : Watcher) → Fits 0 w → Fits 0 (record w { events = [] })
events-Fits w h = record {
  running = h.running;
  opened = h.opened;
  timed = elim h.timed [
    | no_path e ↦ no_path e
    | has_timer e ↦ has_timer e
    | has_flush e ↦ has_flush e
  ];
  room = h.room;
}
