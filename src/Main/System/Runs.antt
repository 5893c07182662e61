-- ===== src/Main/System/Runs.antt =====
-- What the program does of itself, without a change of the disk, an event that reports none, or the end of the
-- run; and how it takes up the events in `fsnotify` and in the channel.
use make_mcp.Common.{◌≡◌, refl, ap, ◌∙◌, inl, inr, false, none, some, List, [], ◌∷◌, Option-cases}
use make_mcp.Text.{Text}
use make_mcp.Main.{CommandLine, watch_event}
use make_mcp.Main.System.{
  System, Step, edit, edit_due, replace, edit_gone, noise, file_event, source_error, fire, flushes,
  logs_error, begins, ends, closes, loop_ends, Reached, next,
}

-- A step of the watcher's goroutines or of `watchLoop`, in which neither the disk nor `fsnotify` has a part.
abbrev pub IsOwn : {line : CommandLine} {s t : System} → Step line s t → Type 0
IsOwn (edit configs files e stops h l k) = ⊥
IsOwn (edit_due configs files d) = ⊥
IsOwn (replace configs files e h l) = ⊥
IsOwn (edit_gone configs files g) = ⊥
IsOwn (noise e) = ⊥
IsOwn (source_error err o) = ⊥
IsOwn (closes n) = ⊥
IsOwn (loop_ends o n) = ⊥
IsOwn _ = Unit

-- Some such steps, one behind the other.
pub data Runs (line : CommandLine) (s : System) : System → Type 0 where
  stays : Runs line s s
  goes : {t u : System} → Runs line s t → (st : Step line t u) → IsOwn st → Runs line s u

module _ {line : CommandLine} where
  pub Runs-Reached : {s t : System} → Runs line s t → Reached line s → Reached line t
  Runs-Reached stays r = r
  Runs-Reached (goes run st o) r = next (Runs-Reached run r) st

  pub Runs-trans : {s t u : System} → Runs line s t → Runs line t u → Runs line s u
  Runs-trans r stays = r
  Runs-trans r (goes run st o) = goes (Runs-trans r run) st o

  Step-disk :
      {s t : System} (st : Step line s t) → IsOwn st → (t.configs ≡ s.configs) × (t.files ≡ s.files)
  Step-disk (edit configs files e stops h l k) o = absurd o
  Step-disk (edit_due configs files d) o = absurd o
  Step-disk (replace configs files e h l) o = absurd o
  Step-disk (edit_gone configs files g) o = absurd o
  Step-disk (noise e) o = absurd o
  Step-disk (source_error err c) o = absurd o
  Step-disk (closes n) o = absurd o
  Step-disk (loop_ends c n) o = absurd o
  Step-disk (file_event now adds r c) o = (refl, refl)
  Step-disk (fire now a d) o = (refl, refl)
  Step-disk (flushes now visits at f) o = (refl, refl)
  Step-disk (logs_error n e) o = (refl, refl)
  Step-disk (begins n e) o = (refl, refl)
  Step-disk (ends configs files r same) o = (refl, refl)

  Step-unseen : {s t : System} (st : Step line s t) → IsOwn st → s.unseen ≡ false → t.unseen ≡ false
  Step-unseen (edit configs files e stops h l k) o n = absurd o
  Step-unseen (edit_due configs files d) o n = absurd o
  Step-unseen (replace configs files e h l) o n = absurd o
  Step-unseen (edit_gone configs files g) o n = absurd o
  Step-unseen (noise e) o n = absurd o
  Step-unseen (source_error err c) o n = absurd o
  Step-unseen (closes m) o n = absurd o
  Step-unseen (loop_ends c m) o n = absurd o
  Step-unseen (file_event now adds r c) o n = n
  Step-unseen (fire now a d) o n = n
  Step-unseen (flushes now visits at f) o n = n
  Step-unseen (logs_error m e) o n = n
  Step-unseen (begins m e) o n = refl
  Step-unseen (ends configs files r same) o n = n

  pub Runs-unseen : {s t : System} → Runs line s t → s.unseen ≡ false → t.unseen ≡ false
  Runs-unseen stays n = n
  Runs-unseen (goes run st o) n = Step-unseen st o (Runs-unseen run n)

  pub Runs-disk : {s t : System} → Runs line s t → (t.configs ≡ s.configs) × (t.files ≡ s.files)
  Runs-disk stays = (refl, refl)
  Runs-disk (goes run st o) =
      let (c, f) = Runs-disk run in let (d, g) = Step-disk st o in (d ∙ c, g ∙ f)

  -- The reload that is under way comes to its end.
  pub Runs-reload :
      (s : System)
      → (t : System) × Runs line s t × (t.reload ≡ none) × (t.raw ≡ s.raw) × (t.watcher ≡ s.watcher)
  Runs-reload s = elim (Option-cases s.reload) [
    | inl n ↦ (s, stays, n, refl, refl)
    | inr ((path, edited), e) ↦
        (_, goes stays (ends s.configs s.files e (λ h. (refl, refl))) tt, refl, refl, refl)
  ]

  -- `watchLoop` takes the paths in the channel, and handles each.
  pub Runs-events :
      (events : List Text) (s : System)
      → s.watcher.events ≡ events
      → s.reload ≡ none
      → (t : System) × Runs line s t
        × (t.reload ≡ none)
        × (t.raw ≡ s.raw)
        × (t.watcher ≡ record s.watcher { events = [] })
  Runs-events [] s e n = (s, stays, n, refl, ap (λ l. record s.watcher { events = l }) e)
  Runs-events (path ∷ rest) s e n =
      let begun : System = record s {
        watcher = record s.watcher { events = rest };
        reload = some (path, false);
        unseen = false;
      } in
      let done : System = record begun {
        app = watch_event s.configs s.files line s.app path;
        reload = none;
      } in
      let (t, run, r, w, v) = Runs-events rest done refl refl in
      (
        t,
        Runs-trans
            (goes (goes stays (begins n e) tt)
              (ends {path = path} {edited = false} s.configs s.files refl (λ h. (refl, refl))) tt)
            run,
        r,
        w,
        v,
      )
