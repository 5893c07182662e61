-- ===== src/Main/System.antt =====
-- The running program as a whole: the disk, `fsnotify`, the watcher and `watchLoop`, which act in any order.
pub mod Waits
pub mod Watched
pub mod Accounted
pub mod Current
pub mod Runs
pub mod Room
pub mod Settles
use make_mcp.Common.{
  ℕ, suc, ◌≤◌, ◌≡◌, Bool, true, false, ◌||◌, Option, none, some, List, [], ◌∷◌, ◌++◌, if◌then◌else◌,
}
use make_mcp.Common.Outcome.{ok}
use make_mcp.Text.{Text, ◌=?◌}
use make_mcp.Parser.Files.{FileSystem}
use make_mcp.Config.{ConfigFiles}
use make_mcp.Watcher.{
  Watcher, FsEvent, armed, fired, new_watcher, should_handle, on_event, on_error, flush, close,
  end_loop,
}
use make_mcp.Go.Strconv.{pos}
use make_mcp.Main.{CommandLine, App, start, watch_paths, watch_event}

-- What `fsnotify` does with a path: it reports its changes; or the watch has ended with a creation or a rename,
-- whose event has the loop of the watcher add the path again; or there is no watch.
pub data Watch : Type 0 where
  live : Watch
  due : Watch
  gone : Watch

unfoldable pub set : Text → Watch → (Text → Watch) → Text → Watch
set path now watch p = if path =? p then now else watch p

-- `raw.Add` of some paths: `adds` says whether `fsnotify` takes them.
unfoldable pub add_again : Bool → List Text → (Text → Watch) → Text → Watch
unfolding set
add_again adds [] watch = watch
add_again adds (path ∷ paths) watch =
    set path (if adds then live else gone) (add_again adds paths watch)

-- What the second list has behind the first.
unfoldable pub added_since : List Text → List Text → List Text
added_since [] ys = ys
added_since (x ∷ xs) [] = []
added_since (x ∷ xs) (y ∷ ys) = added_since xs ys

-- The watches of `New`.
unfoldable pub first_watch : List Text → Text → Watch
unfolding set
first_watch [] p = gone
first_watch (path ∷ paths) p = set path live (first_watch paths) p

-- `configs` and `files` are what the disk holds, `raw` the events that `fsnotify` has seen and the watcher has
-- not. `reload` is the path that `watchLoop` handles, with whether the disk has changed since it began. `unseen`
-- records a change of the disk that no event reports and no reload has begun behind.
pub record System : Type 0 where
  pub configs : ConfigFiles
  pub files : FileSystem
  pub watch : Text → Watch
  pub raw : List FsEvent
  pub watcher : Watcher
  pub app : App
  pub reload : Option (Text × Bool)
  pub unseen : Bool

-- The operations behind which the watch of a path can be at its end, and the path is added again.
abbrev pub is_replaced : FsEvent → Bool
is_replaced e = e.create || e.rename

abbrev changed : Option (Text × Bool) → Option (Text × Bool)
changed none = none
changed (some (path, edited)) = some (path, true)

abbrev with_watcher : System → Watcher → System
with_watcher s w = record s { watcher = w }

-- One step of the disk, the watcher's goroutines or `watchLoop`. A reload reads its files one by one: where
-- the disk has changed since it began, what it has read need not be the content at any one time.
pub data Step (line : CommandLine) (s : System) : System → Type 0 where
  -- A change of the disk that `fsnotify` reports as a write, a creation or a rename of a path that it watches.
  edit :
      (configs : ConfigFiles) (files : FileSystem) (e : FsEvent) (stops : Bool)
      → should_handle e ≡ true
      → s.watch e.name ≡ live
      → (stops ≡ true → is_replaced e ≡ true)
      → Step line s (record s {
        configs = configs;
        files = files;
        watch = if stops then set e.name due s.watch else s.watch;
        raw = s.raw ++ e ∷ [];
        reload = changed s.reload;
      })
  -- A change that no event reports, of a path that the loop has yet to add again.
  edit_due :
      {path : Text} (configs : ConfigFiles) (files : FileSystem)
      → s.watch path ≡ due
      → Step line s (record s { configs = configs; files = files; reload = changed s.reload })
  -- A change of the disk that comes as `Remove` or `Chmod` and ends the watch, such as an atomic replacement.
  replace :
      (configs : ConfigFiles) (files : FileSystem) (e : FsEvent)
      → should_handle e ≡ false
      → s.watch e.name ≡ live
      → Step line s (record s {
        configs = configs;
        files = files;
        watch = set e.name gone s.watch;
        raw = s.raw ++ e ∷ [];
        reload = changed s.reload;
        unseen = true;
      })
  -- A change that no event reports, of a path without a watch.
  edit_gone :
      {path : Text} (configs : ConfigFiles) (files : FileSystem)
      → s.watch path ≡ gone
      → Step line s
          (record s { configs = configs; files = files; reload = changed s.reload; unseen = true })
  -- An event without a change of the files that the program reads.
  noise : (e : FsEvent) → Step line s (record s { raw = s.raw ++ e ∷ [] })
  -- `adds` says whether `fsnotify` takes the path that the loop adds again, if it adds one.
  file_event :
      (now : ℕ) (adds : Bool) {e : FsEvent} {rest : List FsEvent}
      → s.raw ≡ e ∷ rest
      → s.watcher.closed ≡ false
      → Step line s (record s {
        raw = rest;
        watcher = on_event now e s.watcher;
        watch =
            add_again adds (added_since s.watcher.added (on_event now e s.watcher).added) s.watch;
      })
  source_error :
      (err : Text)
      → s.watcher.closed ≡ false
      → Step line s (with_watcher s (on_error err s.watcher))
  fire :
      {deadline : ℕ} (now : ℕ)
      → s.watcher.timer ≡ armed deadline
      → deadline ≤ now
      → Step line s
          (with_watcher s (record s.watcher { timer = fired; flushing = suc s.watcher.flushing }))
  flushes :
      {waiting : ℕ} (now : ℕ) (visits : List (Text × ℕ)) (at : ℕ)
      → s.watcher.flushing ≡ suc waiting
      → Step line s (with_watcher s (flush now visits at (record s.watcher { flushing = waiting })))
  -- `case err, ok := <-fileWatcher.Errors()`.
  logs_error :
      {err : Text} {rest : List Text}
      → s.reload ≡ none
      → s.watcher.errors ≡ err ∷ rest
      → Step line s (with_watcher s (record s.watcher { errors = rest }))
  -- `case event, ok := <-fileWatcher.Events()`.
  begins :
      {path : Text} {rest : List Text}
      → s.reload ≡ none
      → s.watcher.events ≡ path ∷ rest
      → Step line s (record s {
        watcher = record s.watcher { events = rest };
        reload = some (path, false);
        unseen = false;
      })
  ends :
      {path : Text} {edited : Bool} (configs : ConfigFiles) (files : FileSystem)
      → s.reload ≡ some (path, edited)
      → (edited ≡ false → (configs ≡ s.configs) × (files ≡ s.files))
      → Step line s (record s { app = watch_event configs files line s.app path; reload = none })
  closes : s.watcher.stopped ≡ false → Step line s (with_watcher s (close s.watcher))
  loop_ends :
      s.watcher.closed ≡ false
      → s.watcher.stopped ≡ true
      → Step line s (with_watcher s (end_loop s.watcher))

-- The disk is as `start` has read it until the watcher runs.
pub data Reached (line : CommandLine) : System → Type 0 where
  boots :
      (configs : ConfigFiles) (files : FileSystem) (can_add : Text → Bool) {app : App} {w : Watcher}
      → start configs files line ≡ ok app
      → new_watcher can_add (watch_paths line app.cfg) (pos 0) ≡ some w
      → Reached line (record {
        configs = configs;
        files = files;
        watch = first_watch w.added;
        raw = [];
        watcher = w;
        app = app;
        reload = none;
        unseen = false;
      })
  next : {s t : System} → Reached line s → Step line s t → Reached line t
