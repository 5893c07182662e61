-- ===== src/Main/System/Current.antt =====
-- At rest the server is up to date with the disk.
use make_mcp.Common.{◌≡◌, sym, ap, ◌∙◌, inl, inr, false, none, []}
use mathlib.Core.List.{Memᴰ}
use mathlib.Core.List.Memᴰ as Memᴰ
use mathlib.Core.Path.{subst}
use make_mcp.Text.{Text}
use make_mcp.Dict.{lookup, is_some}
use make_mcp.Main.System.Waits.{Waits, in_raw, in_pending, in_channel}
use make_mcp.Main.{CommandLine, App, record_failure, watch_event}
use make_mcp.Main.Reload.{watch_event_cases}
use make_mcp.Main.Reach.{IsLive, start-IsLive, Installs-IsLive}
use make_mcp.Main.System.{System}
use make_mcp.Main.System.Accounted.{
  Handled, at_start, at_event, Accounted, waits, reads, handled, IsAccounted,
}

-- Nothing is under way: no event in `fsnotify`, no pending path, no path in the channel, and no reload.
pub record IsQuiet (s : System) : Type 0 where
  pub no_raw : s.raw ≡ []
  pub no_pending : (path : Text) → lookup path s.watcher.pending ≡ none
  pub no_event : s.watcher.events ≡ []
  pub no_reload : s.reload ≡ none

quiet : (s : System) → IsQuiet s → Waits s.raw s.watcher → ⊥
quiet s q (in_raw m h) = Memᴰ.not-nil (subst (Memᴰ _) q.no_raw m)
quiet s q (in_pending path k) = absurd (cc (sym k ∙ ap is_some (q.no_pending path)))
quiet s q (in_channel c) = absurd (cc (sym c ∙ q.no_event))

-- The server serves a valid parse of the Makefiles as they are on the disk, or the last event has failed on
-- them and left the server as it was.
pub data IsCurrent (line : CommandLine) (s : System) : Type 0 where
  up_to_date : (live : IsLive s.app) → live.fs ≡ s.files → IsCurrent line s
  failed_on :
      (app : App) (path : Text)
      → watch_event s.configs s.files line app path ≡ record_failure path app
      → s.app ≡ record_failure path app
      → IsCurrent line s

Handled-IsCurrent : (line : CommandLine) (s : System) → Handled line s → IsCurrent line s
Handled-IsCurrent line s (at_start h) =
    let live = start-IsLive s.configs s.files line h in up_to_date live.0 live.1
Handled-IsCurrent line s (at_event app path h) =
    elim (watch_event_cases s.configs s.files line app path) [
      | inl f ↦ failed_on app path f (h ∙ f)
      | inr (cfg, why, i) ↦
          let live =
            Installs-IsLive s.files cfg path app (watch_event s.configs s.files line app path) i in
          let here = subst (λ a. (l : IsLive a) × (l.fs ≡ s.files)) (sym h) live in
          up_to_date here.0 here.1
    ]

pub IsAccounted-IsCurrent :
    (line : CommandLine) {s : System}
    → IsAccounted line s
    → IsQuiet s
    → s.unseen ≡ false
    → IsCurrent line s
IsAccounted-IsCurrent line {s} i q n = go (i.accounted n)
  where
    go : Accounted line s → IsCurrent line s
    go (waits h) = absurd (quiet s q h)
    go (reads h) = absurd (cc (sym h ∙ q.no_reload))
    go (handled m h) = Handled-IsCurrent line s h
