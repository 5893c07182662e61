-- ===== src/Tests/Watching.antt =====
-- Tests and examples of the file watcher.
use make_mcp.Common.{
  ℕ, ◌+◌, ◌-◌, ◌≤◌, ◌<◌, ◌≡◌, refl, true, false, some, List, [], ◌∷◌, ◌++◌, arith, none, Bool-cases,
  inl, inr, sym,
}
use mathlib.Core.List.{Memᴰ}
use mathlib.Core.Path.{subst}
use make_mcp.Text.{Text, codes, ◌=?◌}
use make_mcp.Dict.{lookup}
use make_mcp.Go.Strconv.{pos}
use make_mcp.Watcher.{Watcher, FsEvent, unset, fired, armed, new_watcher, on_event, flush}
use make_mcp.Watcher.Steps.{Reached, IsSafe, started, after, file_event, fire, flushes}
use make_mcp.Watcher.Safe.{Reached-IsSafe}
use make_mcp.Watcher.Flush.{Moves, flush-Moves}
use make_mcp.Watcher.Full.{flush-full}
use make_mcp.Watcher.Rearm.{AllTimely, flush-armed}
use make_mcp.Watcher.Drains.{AllReady, flush-drains}
use make_mcp.Text.Equal.{=?_iff}

abbrev makefile : Text
makefile = codes "Makefile"

abbrev watch_one : Watcher
watch_one = record {
  settle = 200_000_000;
  events = [];
  errors = [];
  stopped = false;
  closed = false;
  pending = [];
  timer = unset;
  added = makefile ∷ [];
  flushing = 0;
  panicked = false;
}

new_watcher_test : new_watcher (λ p. true) (makefile ∷ []) (pos 0) ≡ some watch_one
unfolding new_watcher
new_watcher_test = refl

abbrev saved : FsEvent
saved = record { name = codes "./Makefile"; write = false; create = true; rename = false }

-- Behind a save, the timer's run of `flush` waits for the lock.
abbrev watch_saved : Watcher
watch_saved = record watch_one {
  pending = (makefile, 200_000_100) ∷ [];
  timer = armed 200_000_100;
  added = makefile ∷ codes "./Makefile" ∷ [];
}

on_event_test : on_event 100 saved watch_one ≡ watch_saved
unfolding on_event
on_event_test = refl

saved-Reached : Reached (on_event 100 saved watch_one)
saved-Reached =
    after (started (λ p. true) (makefile ∷ []) (pos 0) new_watcher_test) (file_event 100 saved refl)

abbrev watch_fired : Watcher
watch_fired = record watch_saved { timer = fired; flushing = 1 }

fired-Reached : Reached watch_fired
fired-Reached =
    after (subst Reached on_event_test saved-Reached) (fire 200_000_200 refl (omega arith))

Reached-IsSafe_example : IsSafe (
    flush 200_000_200
      ((makefile, 200_000_300) ∷ [])
      200_000_400
      (record watch_fired { flushing = 0 }))
Reached-IsSafe_example =
    Reached-IsSafe
      (after fired-Reached (flushes 200_000_200 ((makefile, 200_000_300) ∷ []) 200_000_400 refl))

flush_test :
    (flush 200_000_200 ((makefile, 200_000_300) ∷ []) 200_000_400 watch_fired).events
    ≡ makefile ∷ []
unfolding flush ◌=?◌
flush_test = refl

flush-Moves_example :
    Moves 200_000_200 watch_fired
      (flush 200_000_200 ((makefile, 200_000_300) ∷ []) 200_000_400 watch_fired)
flush-Moves_example =
    flush-Moves 200_000_200 ((makefile, 200_000_300) ∷ []) 200_000_400 watch_fired refl

abbrev four : List Text
four = makefile ∷ makefile ∷ makefile ∷ makefile ∷ []

abbrev watch_full : Watcher
watch_full = record watch_fired { events = four ++ (four ++ (four ++ four)) }

flush-full_test :
    ((flush 200_000_200 ((makefile, 200_000_300) ∷ []) 200_000_400 watch_full).events
      ≡ watch_full.events)
    × ((flush 200_000_200 ((makefile, 200_000_300) ∷ []) 200_000_400 watch_full).pending
        ≡ (makefile, 200_000_200 + watch_full.settle) ∷ [])
    × ((flush 200_000_200 ((makefile, 200_000_300) ∷ []) 200_000_400 watch_full).timer ≡ fired)
flush-full_test =
    flush-full 200_000_200 200_000_400 200_000_300 makefile watch_full refl refl refl refl refl
      (omega arith)

still_pending :
    lookup makefile (flush 150 ((makefile, 150) ∷ []) 160 watch_fired).pending ≡ some 200_000_100
unfolding flush lookup ◌=?◌
still_pending = refl

-- The clock is read again 20 nanoseconds later.
seen_in_time : AllTimely 150 watch_fired.pending ((makefile, 170) ∷ [])
unfolding lookup
seen_in_time = (
  λ t e late. elim (Bool-cases (makefile =? makefile)) [
    | inl y ↦ (omega arith, ground (arith, e))
    | inr y ↦ absurd (ground (arith, e, y))
  ],
  tt,
)

later_pending :
    lookup makefile (flush 150 ((makefile, 170) ∷ []) 180 watch_fired).pending ≡ some 200_000_100
unfolding flush lookup ◌=?◌
later_pending = refl

flush-armed_example :
    (150 < 200_000_100)
    × (deadline : ℕ) × ((flush 150 ((makefile, 170) ∷ []) 180 watch_fired).timer ≡ armed deadline)
    × (deadline ≤ 180 + (200_000_100 - 150))
flush-armed_example =
    flush-armed 150 ((makefile, 170) ∷ []) 180 watch_fired makefile 200_000_100 refl refl
      seen_in_time (omega arith) (Memᴰ.head refl) later_pending

-- Where the path becomes ready between the two readings, no timer is set for it.
late_round :
    (lookup makefile (flush 150 ((makefile, 200_000_100) ∷ []) 200_000_110 watch_fired).pending
      ≡ some 200_000_100)
    × ((flush 150 ((makefile, 200_000_100) ∷ []) 200_000_110 watch_fired).timer ≡ fired)
unfolding flush lookup ◌=?◌
late_round = (refl, refl)

-- The Makefile has been ready for a while.
ready_by_now : AllReady 300_000_000 watch_fired
unfolding lookup
ready_by_now path t h = elim (Bool-cases (makefile =? path)) [
  | inl e ↦ ground (arith, h)
  | inr e ↦ absurd (ground (arith, h))
]

makefile_only :
    (path : Text) (t : ℕ) → lookup path watch_fired.pending ≡ some t → Memᴰ path (makefile ∷ [])
unfolding lookup
makefile_only path t h = elim (Bool-cases (makefile =? path)) [
  | inl e ↦ Memᴰ.head (sym ((=?_iff makefile path).0 e))
  | inr e ↦ absurd (ground (arith, h))
]

flush-drains_example :
    ((path : Text)
      → lookup path
          (flush 300_000_000 ((makefile, 300_000_000) ∷ []) 300_000_000 watch_fired).pending
        ≡ none)
    × ((flush 300_000_000 ((makefile, 300_000_000) ∷ []) 300_000_000 watch_fired).timer
        ≡ watch_fired.timer)
flush-drains_example =
    flush-drains 300_000_000 ((makefile, 300_000_000) ∷ []) 300_000_000 watch_fired refl refl
      (omega arith) ready_by_now makefile_only
