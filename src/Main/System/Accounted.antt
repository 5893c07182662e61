-- ===== src/Main/System/Accounted.antt =====
-- A change that `fsnotify` reports is on its way to a reload until the program has read the disk behind it.
use make_mcp.Common.{◌≡◌, refl, sym, ap₂, ◌∙◌, Bool, true, false, none, some, List, [], ◌∷◌, ◌++◌}
use mathlib.Core.List.{Memᴰ}
use mathlib.Core.List.Memᴰ as Memᴰ
use make_mcp.Common.Outcome.{ok}
use make_mcp.Text.{Text}
use make_mcp.Go.Strconv.{pos}
use make_mcp.Parser.Files.{FileSystem}
use make_mcp.Config.{ConfigFiles}
use make_mcp.Watcher.{Watcher, FsEvent, on_event, on_error, flush, close, end_loop}
use make_mcp.Watcher.Steps.{IsSafe}
use make_mcp.Watcher.Steps as Steps
use make_mcp.Main.System.Waits.{
  Waits, in_raw, Waits-same, Waits-raw, Waits-on_event, Waits-on_error, Waits-flush, Waits-close,
  Waits-end_loop,
}
use make_mcp.Main.System.Watched.{
  IsWatching, IsWatching-raw, IsWatching-edit, IsWatching-gone, IsWatching-on_event,
  first_watch-IsWatching, Waits-due,
}
use make_mcp.Watcher.Safe.{IsSafe-same, Step-IsSafe, new_watcher-IsSafe}
use make_mcp.Main.{CommandLine, App, start, watch_event}
use make_mcp.Main.System.{
  System, Watch, Step, edit, edit_due, replace, edit_gone, noise, file_event, source_error, fire,
  flushes, logs_error, begins, ends, closes, loop_ends, Reached, boots, next,
}

-- The program has started on, or has handled an event with, the disk as it is now.
pub data Handled (line : CommandLine) (s : System) : Type 0 where
  at_start : start s.configs s.files line ≡ ok s.app → Handled line s
  at_event :
      (app : App) (path : Text)
      → s.app ≡ watch_event s.configs s.files line app path
      → Handled line s

-- A change waits, or a reload has begun behind the last change, or the last change has been handled.
pub data Accounted (line : CommandLine) (s : System) : Type 0 where
  waits : Waits s.raw s.watcher → Accounted line s
  reads : {path : Text} → s.reload ≡ some (path, false) → Accounted line s
  handled : s.reload ≡ none → Handled line s → Accounted line s

-- The invariant of the whole program.
pub record IsAccounted (line : CommandLine) (s : System) : Type 0 where
  pub safe : IsSafe s.watcher
  pub watched : IsWatching s.raw s.watch
  pub accounted : s.unseen ≡ false → Accounted line s

-- A step that leaves the disk and `watchLoop` alone, and keeps what waits.
kept :
    {line : CommandLine} {s : System} (raw : List FsEvent) (w : Watcher) (watch : Text → Watch)
    → (Waits s.raw s.watcher → Waits raw w)
    → Accounted line s
    → Accounted line (record s { raw = raw; watcher = w; watch = watch })
kept raw w watch keeps (waits h) = waits (keeps h)
kept raw w watch keeps (reads h) = reads h
kept raw w watch keeps (handled n (at_start h)) = handled n (at_start h)
kept raw w watch keeps (handled n (at_event app path h)) = handled n (at_event app path h)

-- A step of the watcher that takes nothing from `fsnotify`.
moved :
    {line : CommandLine} {s : System} (w : Watcher)
    → IsSafe w
    → (Waits s.raw s.watcher → Waits s.raw w)
    → IsAccounted line s
    → IsAccounted line (record s { watcher = w })
moved {line} {s} w safe keeps i = record {
  safe = safe;
  watched = i.watched;
  accounted = λ n. kept s.raw w s.watch keeps (i.accounted n);
}

-- The end of a reload: what it has read is the disk, unless a change has come in and waits.
ends-Accounted :
    {line : CommandLine} {s : System} {path : Text} (edited : Bool) (configs : ConfigFiles)
    (files : FileSystem)
    → s.reload ≡ some (path, edited)
    → (edited ≡ false → (configs ≡ s.configs) × (files ≡ s.files))
    → Accounted line s
    → Accounted line (record s { app = watch_event configs files line s.app path; reload = none })
ends-Accounted edited configs files r same (waits h) = waits h
ends-Accounted {line} {s} {path} true configs files r same (reads h) = absurd (cc (sym r ∙ h))
ends-Accounted {line} {s} {path} false configs files r same (reads h) =
    let (c, f) = same refl in
    handled refl (at_event s.app path (ap₂ (λ x y. watch_event x y line s.app path) c f))
ends-Accounted edited configs files r same (handled n h) = absurd (cc (sym r ∙ n))

Step-IsAccounted :
    {line : CommandLine} {s t : System} → Step line s t → IsAccounted line s → IsAccounted line t
Step-IsAccounted {line} {s} (edit configs files e stops h l k) i = record {
  safe = i.safe;
  watched = IsWatching-edit s.raw e s.watch stops k i.watched;
  accounted = λ n. waits (in_raw (Memᴰ.append_right s.raw (Memᴰ.head refl)) h);
}
Step-IsAccounted {line} {s} (edit_due {path} configs files d) i = record {
  safe = i.safe;
  watched = i.watched;
  accounted = λ n. waits (Waits-due s.raw s.watcher (i.watched path d));
}
Step-IsAccounted {line} {s} (replace configs files e h l) i = record {
  safe = i.safe;
  watched = IsWatching-gone s.raw e s.watch i.watched;
  accounted = λ n. absurd (cc n);
}
Step-IsAccounted {line} {s} (edit_gone configs files g) i = record {
  safe = i.safe;
  watched = i.watched;
  accounted = λ n. absurd (cc n);
}
Step-IsAccounted {line} {s} (noise e) i = record {
  safe = i.safe;
  watched = IsWatching-raw s.raw e s.watch i.watched;
  accounted = λ n. kept (s.raw ++ e ∷ []) s.watcher s.watch (Waits-raw e) (i.accounted n);
}
Step-IsAccounted {line} {s} (file_event now adds {e} {rest} r o) i = record {
  safe = Step-IsSafe (Steps.file_event now e o) i.safe;
  watched = IsWatching-on_event now adds e s.watcher s.raw rest s.watch r i.watched;
  accounted = λ n.
      kept rest (on_event now e s.watcher) _ (Waits-on_event now e s.watcher s.raw rest r)
        (i.accounted n);
}
Step-IsAccounted {line} {s} (source_error err o) i =
    moved (on_error err s.watcher) (Step-IsSafe (Steps.source_error err o) i.safe)
      (Waits-on_error err s.raw s.watcher) i
Step-IsAccounted {line} {s} (fire now a d) i =
    moved _ (Step-IsSafe (Steps.fire now a d) i.safe) (Waits-same s.raw s.watcher _ refl refl) i
Step-IsAccounted {line} {s} (flushes {waiting} now visits at f) i =
    let w = record s.watcher { flushing = waiting } in
    moved (flush now visits at w) (Step-IsSafe (Steps.flushes now visits at f) i.safe)
      (λ h.
        Waits-flush now visits at s.raw w
          (IsSafe-same s.watcher w refl refl refl refl refl refl i.safe)
          (Waits-same s.raw s.watcher w refl refl h))
      i
Step-IsAccounted {line} {s} (logs_error {err} {rest} n e) i =
    moved _ (Step-IsSafe (Steps.receive_error e) i.safe) (Waits-same s.raw s.watcher _ refl refl) i
Step-IsAccounted {line} {s} (begins {path} {rest} n e) i = record {
  safe = Step-IsSafe (Steps.receive e) i.safe;
  watched = i.watched;
  accounted = λ k. reads refl;
}
Step-IsAccounted {line} {s} (ends {path} {edited} configs files r same) i = record {
  safe = i.safe;
  watched = i.watched;
  accounted = λ n. ends-Accounted edited configs files r same (i.accounted n);
}
Step-IsAccounted {line} {s} (closes n) i =
    moved (close s.watcher) (Step-IsSafe (Steps.closes n) i.safe) (Waits-close s.raw s.watcher) i
Step-IsAccounted {line} {s} (loop_ends c n) i =
    moved (end_loop s.watcher) (Step-IsSafe (Steps.loop_ends c n) i.safe)
      (Waits-end_loop s.raw s.watcher) i

pub Reached-IsAccounted : {line : CommandLine} {s : System} → Reached line s → IsAccounted line s
Reached-IsAccounted (boots configs files can_add {app} {w} h k) = record {
  safe = new_watcher-IsSafe can_add _ (pos 0) k;
  watched = first_watch-IsWatching w.added [];
  accounted = λ n. handled refl (at_start h);
}
Reached-IsAccounted (next r st) = Step-IsAccounted st (Reached-IsAccounted r)
