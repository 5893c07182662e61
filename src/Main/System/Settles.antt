-- ===== src/Main/System/Settles.antt =====
-- Without further changes the program comes to rest, and then it is up to date.
use make_mcp.Common.{
  ℕ, suc, ◌+◌, ◌≤◌, ◌≡◌, refl, sym, ap, ◌∙◌, false, none, List, [], ◌∷◌, arith, length, true,
}
use mathlib.Core.Path.{subst}
use make_mcp.Text.{Text}
use make_mcp.Dict.{lookup}
use make_mcp.Watcher.{capacity, Watcher, FsEvent, fired, on_event}
use make_mcp.Main.{CommandLine}
use make_mcp.Main.System.{System, add_again, added_since, file_event, fire, flushes, Reached}
use make_mcp.Main.System.Room.{
  IsTimed, no_path, has_timer, has_flush, Fits, on_event-Fits, bound, visits_at, flush-clears,
  events-Fits,
}
use make_mcp.Main.System.Runs.{
  Runs, stays, goes, Runs-Reached, Runs-trans, Runs-disk, Runs-unseen, Runs-reload, Runs-events,
}
use make_mcp.Main.System.Accounted.{Reached-IsAccounted}
use make_mcp.Main.System.Current.{IsQuiet, IsCurrent, IsAccounted-IsCurrent}

module _ {line : CommandLine} where
  -- The watcher takes the events that `fsnotify` holds.
  Runs-raw :
      (raw : List FsEvent) (s : System)
      → s.raw ≡ raw
      → s.reload ≡ none
      → Fits (length raw) s.watcher
      → (t : System) × Runs line s t × (t.reload ≡ none) × (t.raw ≡ []) × Fits 0 t.watcher
  Runs-raw [] s e n h = (s, stays, n, e, h)
  Runs-raw (e ∷ rest) s r n h =
      let taken : System = record s {
        raw = rest;
        watcher = on_event 0 e s.watcher;
        watch = add_again true (added_since s.watcher.added (on_event 0 e s.watcher).added) s.watch;
      } in
      let (t, run, q, x, f) =
        Runs-raw rest taken refl n (on_event-Fits 0 (length rest) e s.watcher h) in
      (t, Runs-trans (goes stays (file_event 0 true r h.opened) tt) run, q, x, f)

  -- A run of `flush` that has started sends every path that waits.
  Runs-flush :
      (s : System) {waiting : ℕ}
      → s.watcher.flushing ≡ suc waiting
      → s.watcher.events ≡ []
      → Fits 0 s.watcher
      → (t : System) × Runs line s t
        × (t.reload ≡ s.reload)
        × (t.raw ≡ s.raw)
        × ((path : Text) → lookup path t.watcher.pending ≡ none)
  Runs-flush s {waiting} f e h =
      let w : Watcher = record s.watcher { flushing = waiting } in
      let now = bound w.pending in
      (
        _,
        goes stays (flushes now (visits_at now w.pending) now f) tt,
        refl,
        refl,
        flush-clears now w h.running h.opened e (omega (arith, h.room)) (omega arith),
      )

  -- Every path that waits is sent.
  Runs-pending :
      (s : System)
      → s.watcher.events ≡ []
      → Fits 0 s.watcher
      → (t : System) × Runs line s t
        × (t.reload ≡ s.reload)
        × (t.raw ≡ s.raw)
        × ((path : Text) → lookup path t.watcher.pending ≡ none)
  Runs-pending s e h = elim h.timed [
    | no_path n ↦ (s, stays, refl, refl, λ path. ap (lookup path) n ∙ unfold lookup in refl)
    | has_flush f ↦ Runs-flush s f e h
    | has_timer {deadline} a ↦
        let late : System = record s {
          watcher = record s.watcher { timer = fired; flushing = suc s.watcher.flushing };
        } in
        let (t, run, r, w, p) = Runs-flush late refl e (record {
          running = h.running;
          opened = h.opened;
          timed = has_flush refl;
          room = h.room;
        }) in
        (t, Runs-trans (goes stays (fire deadline a (omega arith)) tt) run, r, w, p)
  ]

  -- The parts one behind the other: the reload, `fsnotify`, the channel, the pending paths, the channel.
  Runs-IsQuiet :
      (s : System) → Fits (length s.raw) s.watcher → (t : System) × Runs line s t × IsQuiet t
  Runs-IsQuiet s h =
      let (a, run_a, reload_a, raw_a, w_a) = Runs-reload s in
      let (b, run_b, reload_b, raw_b, fits_b) =
        Runs-raw s.raw a raw_a reload_a (subst (Fits (length s.raw)) (sym w_a) h) in
      let (c, run_c, reload_c, raw_c, w_c) = Runs-events b.watcher.events b refl reload_b in
      let (d, run_d, reload_d, raw_d, clear) =
        Runs-pending c (ap (λ w. w.events) w_c)
          (subst (Fits 0) (sym w_c) (events-Fits b.watcher fits_b)) in
      let (e, run_e, reload_e, raw_e, w_e) =
        Runs-events d.watcher.events d refl (reload_d ∙ reload_c) in
      (
        e,
        Runs-trans run_a (Runs-trans run_b (Runs-trans run_c (Runs-trans run_d run_e))),
        record {
          no_raw = raw_e ∙ raw_d ∙ raw_c ∙ raw_b;
          no_pending = λ path. ap (λ w. lookup path w.pending) w_e ∙ clear path;
          no_event = ap (λ w. w.events) w_e;
          no_reload = reload_e;
        },
      )

-- In every state that the program reaches with the watcher running and without an unseen change: if a timer or
-- a run of `flush` is set for the paths that wait, and the channel can take them together with the events that `fsnotify` holds,
-- then the goroutines have a run of finitely many own steps, without a change of the disk or a further event,
-- to a state in which nothing is under way. There the server serves a valid parse of the Makefiles, which are
-- those on the disk now, or the last event has failed on just these files.
pub Reached-settles :
    (line : CommandLine) {s : System}
    → Reached line s
    → s.unseen ≡ false
    → s.watcher.stopped ≡ false
    → IsTimed s.watcher
    → length s.watcher.pending + length s.raw ≤ capacity
    → (t : System) × Runs line s t
      × IsQuiet t
      × IsCurrent line t
      × (t.configs ≡ s.configs)
      × (t.files ≡ s.files)
Reached-settles line {s} reached seen running timed room =
    let safe = (Reached-IsAccounted reached).safe in
    let fits : Fits (length s.raw) s.watcher = record {
      running = running;
      opened = ground (arith, safe.in_order, running);
      timed = timed;
      room = room;
    } in
    let (t, run, q) = Runs-IsQuiet s fits in
    let (c, f) = Runs-disk run in
    (
      t,
      run,
      q,
      IsAccounted-IsCurrent line (Reached-IsAccounted (Runs-Reached run reached)) q
          (Runs-unseen run seen),
      c,
      f,
    )
