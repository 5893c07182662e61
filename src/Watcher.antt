-- ===== src/Watcher.antt =====
-- pkg/watcher/watcher.go: the file watcher that joins quick writes into one event. `fsnotify` is
-- outside: its events come in as arguments. A clock reading is an argument, in nanoseconds, and the
-- order in which Go hands out the entries of a map is an argument too.
pub mod Steps
pub mod Safe
pub mod Sends
pub mod Flush
pub mod Full
pub mod Waits
pub mod Rearm
pub mod Drains
use make_mcp.Common.{
  ℕ, zero, suc, ◌+◌, ◌-◌, Bool, true, false, not, ◌&&◌, ◌||◌, Option, none, some, List, [], ◌∷◌,
  ◌++◌, ltb, leb, if◌then◌else◌, length,
}
use make_mcp.Text.{Text, ◌=?◌}
use make_mcp.Dict.{Dict, lookup, insert, delete}
use make_mcp.Go.Strconv.{ℤ, pos, negsuc}
use make_mcp.Go.Path.{clean}
use make_mcp.Config.{Duration}

-- `fsnotify.Event`: the path, and the operations that the code asks for.
pub record FsEvent : Type 0 where
  pub name : Text
  pub write : Bool
  pub create : Bool
  pub rename : Bool

-- `*time.Timer`: nil, not running, or running until a time.
pub data Timer : Type 0 where
  unset fired : Timer
  armed : ℕ → Timer

-- `Watcher`. `stopped` and `closed` tell whether `done` and the two output channels are closed,
-- `added` is what was handed to `raw.Add`, `flushing` counts the runs of `flush` that the timer has
-- started and that wait for the lock, and `panicked` stands for a send on a closed channel or a
-- second close.
pub record Watcher : Type 0 where
  pub settle : ℕ
  pub events : List Text
  pub errors : List Text
  pub stopped : Bool
  pub closed : Bool
  pub pending : Dict ℕ
  pub timer : Timer
  pub added : List Text
  pub flushing : ℕ
  pub panicked : Bool

-- The size of both channels.
abbrev pub capacity : ℕ
capacity = 16

-- `if settle <= 0`.
abbrev pub effective_settle : Duration → ℕ
effective_settle (pos zero) = 200_000_000
effective_settle (pos (suc n)) = suc n
effective_settle (negsuc n) = 200_000_000

-- The paths up to the first one that `raw.Add` refuses, if it refuses one.
unfoldable pub add_all : (Text → Bool) → List Text → Bool
add_all can_add [] = true
add_all can_add (path ∷ paths) = can_add path && add_all can_add paths

-- `New`.
unfoldable pub new_watcher : (Text → Bool) → List Text → Duration → Option Watcher
unfolding add_all
new_watcher can_add paths settle =
    if add_all can_add paths
    then some (record {
      settle = effective_settle settle;
      events = [];
      errors = [];
      stopped = false;
      closed = false;
      pending = [];
      timer = unset;
      added = paths;
      flushing = 0;
      panicked = false;
    })
    else none

-- `shouldHandle`.
unfoldable pub should_handle : FsEvent → Bool
should_handle e = e.write || e.create || e.rename

-- `enqueue`: both branches leave the timer running for `settle`.
unfoldable pub enqueue : ℕ → Text → Watcher → Watcher
unfolding insert clean
enqueue now path w = record w {
  pending = insert (clean path) (now + w.settle) w.pending;
  timer = armed (now + w.settle);
}

-- `case event, ok := <-w.raw.Events`.
unfoldable pub on_event : ℕ → FsEvent → Watcher → Watcher
unfolding should_handle enqueue
on_event now e w =
    if not (should_handle e)
    then w
    else enqueue now e.name
        (if e.create || e.rename then record w { added = w.added ++ e.name ∷ [] } else w)

-- `case err, ok := <-w.raw.Errors`.
unfoldable pub on_error : Text → Watcher → Watcher
on_error err w =
    if ltb (length w.errors) capacity then record w { errors = w.errors ++ err ∷ [] } else w

-- The `select` of `flush` that sends a path or puts it back.
unfoldable pub send : ℕ → Text → Watcher → Watcher
unfolding insert
send now path w =
    if w.closed
    then record w { panicked = true }
    else if ltb (length w.events) capacity
    then record w { events = w.events ++ path ∷ [] }
    else record w { pending = insert path (now + w.settle) w.pending }

-- `time.Until`.
unfoldable pub until : ℕ → ℕ → ℤ
until ready_at later =
    if leb later ready_at then pos (ready_at - later) else negsuc (later - ready_at - 1)

unfoldable pub less : ℤ → ℤ → Bool
less (pos a) (pos b) = ltb a b
less (negsuc a) (pos b) = true
less (pos a) (negsuc b) = false
less (negsuc a) (negsuc b) = ltb b a

abbrev pub is_zero : ℤ → Bool
is_zero (pos zero) = true
is_zero _ = false

-- `if nextSettle == 0 || wait < nextSettle`.
unfoldable pub nearer : ℤ → ℤ → ℤ
unfolding less
nearer next wait = if is_zero next || less wait next then wait else next

-- One round of the loop of `flush`: a path, and the clock that `time.Until` reads in that round. A
-- path that is no longer pending is not handed out.
unfoldable pub visit : ℕ → Text → ℕ → Watcher × ℤ → Watcher × ℤ
unfolding lookup delete send until nearer
visit now path later s = elim (lookup path s.0.pending) [
  | none ↦ s
  | some ready_at ↦
      if leb ready_at now
      then (send now path (record s.0 { pending = delete path s.0.pending }), s.1)
      else (s.0, nearer s.1 (until ready_at later))
]

unfoldable pub visit_all : ℕ → List (Text × ℕ) → Watcher × ℤ → Watcher × ℤ
unfolding visit
visit_all now [] s = s
visit_all now ((path, later) ∷ visits) s = visit_all now visits (visit now path later s)

-- `if nextSettle > 0`.
unfoldable pub rearm : ℕ → ℤ → Watcher → Watcher
rearm at (pos (suc d)) w = record w { timer = armed (at + suc d) }
rearm at _ w = w

-- `flush`, with the rounds of its loop and the clock behind it.
unfoldable pub flush : ℕ → List (Text × ℕ) → ℕ → Watcher → Watcher
unfolding visit_all rearm
flush now visits at w =
    if w.stopped then w else let s = visit_all now visits (w, pos 0) in rearm at s.1 s.0

-- `Add` and `Remove`: whether `fsnotify` takes the path is an argument, and the result says whether it did.
unfoldable pub add : (Text → Bool) → Text → Watcher → Watcher × Bool
add can_add path w =
    if can_add path then (record w { added = w.added ++ path ∷ [] }, true) else (w, false)

abbrev without : Text → List Text → List Text
without path [] = []
without path (p ∷ ps) = let rest = without path ps in if p =? path then rest else p ∷ rest

unfoldable pub remove : (Text → Bool) → Text → Watcher → Watcher × Bool
unfolding ◌=?◌
remove can_remove path w =
    if can_remove path then (record w { added = without path w.added }, true) else (w, false)

-- `Close`.
unfoldable pub close : Watcher → Watcher
close w = if w.stopped then record w { panicked = true } else record w { stopped = true }

-- The deferred end of `loop`.
unfoldable pub end_loop : Watcher → Watcher
end_loop w = if w.closed then record w { panicked = true } else record w { closed = true }
