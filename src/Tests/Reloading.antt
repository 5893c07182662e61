-- ===== src/Tests/Reloading.antt =====
-- Tests and examples of the program as a whole: an edit on its way to the reload.
use make_mcp.Common.{◌≡◌, refl, true, false, none, some, [], ◌∷◌, arith}
use make_mcp.Text.{Text, codes, ◌=?◌}
use make_mcp.Dict.{lookup}
use make_mcp.Parser.Files.{FileSystem}
use make_mcp.Watcher.{should_handle, Watcher, FsEvent, unset, fired, armed, new_watcher, on_event}
use make_mcp.Main.{watch_event, watch_paths}
use make_mcp.Main.System.{
  System, Watch, live, due, set, first_watch, add_again, added_since, Reached, boots, next, edit,
  edit_due, gone, replace, file_event,
}
use make_mcp.Main.System.Current.{IsQuiet, IsCurrent}
use make_mcp.Main.System.Runs.{Runs}
use make_mcp.Main.System.Room.{has_timer}
use make_mcp.Main.System.Settles.{Reached-settles}
use make_mcp.Tests.{sample_app, sample_line, empty_file, only_build}
use make_mcp.Tests.Serving.{start_test}

abbrev makefile : Text
makefile = codes "Makefile"

abbrev two_watched : Watcher
two_watched = record {
  settle = 200_000_000;
  events = [];
  errors = [];
  stopped = false;
  closed = false;
  pending = [];
  timer = unset;
  added = makefile ∷ codes "make-mcp.yml" ∷ [];
  flushing = 0;
  panicked = false;
}

abbrev booted : System
booted = record {
  configs = empty_file;
  files = only_build;
  watch = first_watch two_watched.added;
  raw = [];
  watcher = two_watched;
  app = sample_app;
  reload = none;
  unseen = false;
}

booted-Reached : Reached sample_line booted
unfolding new_watcher watch_paths
booted-Reached = boots empty_file only_build (λ p. true) start_test refl

-- The Makefile is renamed, and made anew without a recipe.
abbrev emptied : FileSystem
emptied path = some (record { text = []; read_fails = false })

abbrev remade : FsEvent
remade = record { name = makefile; write = false; create = false; rename = true }

abbrev pending_watcher : Watcher
pending_watcher = record two_watched {
  pending = (makefile, 200_000_000) ∷ [];
  timer = armed 200_000_000;
  added = makefile ∷ codes "make-mcp.yml" ∷ makefile ∷ [];
}

abbrev moved_away : Text → Watch
moved_away = set makefile due (first_watch two_watched.added)

abbrev noticed : System
noticed = record booted {
  files = emptied;
  watcher = pending_watcher;
  watch = set makefile live moved_away;
}

watched_test : booted.watch makefile ≡ live
unfolding first_watch set ◌=?◌
watched_test = refl

due_test : moved_away makefile ≡ due
unfolding set ◌=?◌
due_test = refl

live_test : noticed.watch makefile ≡ live
unfolding set ◌=?◌
live_test = refl

noticed-Reached : Reached sample_line noticed
unfolding on_event added_since add_again
noticed-Reached =
    next
      (next
        (next booted-Reached (edit empty_file only_build remade true refl watched_test (λ h. refl)))
        (edit_due {path = makefile} empty_file emptied due_test))
      (file_event 0 true refl refl)

abbrev sent_watcher : Watcher
sent_watcher = record pending_watcher { pending = []; events = makefile ∷ []; timer = fired }

abbrev sent : System
sent = record noticed { watcher = sent_watcher }

abbrev reloaded : System
reloaded = record sent {
  watcher = record sent_watcher { events = [] };
  app = watch_event empty_file emptied sample_line sample_app makefile;
}

-- The file is written once more while the first change waits for its timer.
abbrev edited_again : System
edited_again = record noticed { raw = remade ∷ [] }

edited_again-Reached : Reached sample_line edited_again
unfolding should_handle
edited_again-Reached =
    next noticed-Reached (edit empty_file emptied remade false refl live_test (λ h. absurd (cc h)))

Reached-settles_example :
    (t : System) × Runs sample_line edited_again t
    × IsQuiet t
    × IsCurrent sample_line t
    × (t.configs ≡ empty_file)
    × (t.files ≡ emptied)
Reached-settles_example =
    Reached-settles sample_line edited_again-Reached refl refl (has_timer refl) (omega arith)

-- An atomic replacement: the watch ends with an event that the watcher does not handle.
abbrev removed : FsEvent
removed = record { name = makefile; write = false; create = false; rename = false }

abbrev replaced : System
replaced = record booted { files = emptied; watch = set makefile gone booted.watch; unseen = true }

replaced-Reached : Reached sample_line replaced
unfolding on_event added_since add_again
replaced-Reached =
    next (next booted-Reached (replace empty_file emptied removed refl watched_test))
      (file_event 0 true refl refl)

replaced-IsQuiet : IsQuiet replaced
unfolding lookup
replaced-IsQuiet = record {
  no_raw = refl;
  no_pending = λ path. refl;
  no_event = refl;
  no_reload = refl;
}

-- Nothing is under way, and the server still has the recipe that the file no longer holds.
replaced_test : replaced.app ≡ sample_app
replaced_test = refl
