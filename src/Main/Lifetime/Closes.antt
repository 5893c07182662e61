-- ===== src/Main/Lifetime/Closes.antt =====
-- What `run` closes when it returns.
use make_mcp.Common.{
  ◌≡◌, refl, sym, ap, ap₂, ◌∙◌, inl, inr, ◌||◌, List, [], ◌∷◌, ◌++◌, map, append-nil, Bool-cases,
  Option-cases, is_nil,
}
use mathlib.Core.List.{reverse, reverse-cons, reverse-append, reverse-reverse}
use make_mcp.Common.Outcome.{Outcome, ok, fail, Outcome-cases}
use make_mcp.Text.{codes, ◌=?◌}
use make_mcp.Config.{Config}
use make_mcp.Telemetry.Setup.{Closer, init, shutdown}
use make_mcp.Telemetry.Setup.Shutdown.{shutdown-reverse}
use make_mcp.Main.{CommandLine, App, parse_and_serve}
use make_mcp.Main.Lifetime.{
  Resource, telemetry, World, RunError, start_error, no_log, telemetry_error, watcher_error,
  Running, Held, Ending, take, nothing, take_telemetry, run_watcher, run_server, run_telemetry,
  run_log, run_program, watcher_of, running_of, loaded_config, file_watcher, signals, log_file,
}

-- What a failed `Init` has started.
abbrev pub leaked : World → Outcome RunError Running → List Resource
leaked w (fail (telemetry_error e)) = map telemetry (init w.env w.library).0
leaked w _ = []

-- Everything is closed in the reverse order but what leaks.
abbrev pub IsClosed : World → Ending → Type 0
IsClosed w e = e.held.acquired ≡ reverse e.held.deferred ++ leaked w e.outcome

abbrev IsBalanced : Held → Type 0
IsBalanced h = h.acquired ≡ reverse h.deferred

map-append : {A B : Type 0} (f : A → B) (xs ys : List A) → map f (xs ++ ys) ≡ map f xs ++ map f ys
map-append f [] ys = refl
map-append f (x ∷ xs) ys = ap (◌∷◌ (f x)) (map-append f xs ys)

reverse-map : {A B : Type 0} (f : A → B) (xs : List A) → reverse (map f xs) ≡ map f (reverse xs)
reverse-map f [] = refl
reverse-map f (x ∷ xs) =
    reverse-cons (f x) (map f xs)
    ∙ ap (λ l. l ++ f x ∷ []) (reverse-map f xs)
    ∙ sym (map-append f (reverse xs) (x ∷ []))
    ∙ ap (map f) (sym (reverse-cons x xs))

balanced-IsClosed :
    (w : World) (h : Held) (o : Outcome RunError Running)
    → IsBalanced h
    → leaked w o ≡ []
    → IsClosed w (record { held = h; outcome = o })
balanced-IsClosed w h o b l =
    b ∙ sym (append-nil (reverse h.deferred)) ∙ ap (λ x. reverse h.deferred ++ x) (sym l)

running-IsClosed :
    (w : World) (h : Held) (r : Running)
    → IsBalanced h
    → IsClosed w (record { held = h; outcome = ok r })
running-IsClosed w h r b = balanced-IsClosed w h (ok r) b refl

take-IsBalanced : (r : Resource) (h : Held) → IsBalanced h → IsBalanced (take r h)
take-IsBalanced r h b = ap (λ l. l ++ r ∷ []) b ∙ sym (reverse-cons r h.deferred)

take_telemetry-IsBalanced :
    (w : World) (fns : List Closer) (h : Held) → IsBalanced h → IsBalanced (take_telemetry w fns h)
unfolding take_telemetry
take_telemetry-IsBalanced w fns h b =
    let called = (shutdown w.close_result fns).0 in
    let back : reverse (map telemetry called) ≡ map telemetry fns =
      reverse-map telemetry called
      ∙ ap (map telemetry)
          (ap (λ r. reverse r.0) (shutdown-reverse w.close_result fns) ∙ reverse-reverse fns) in
    ap₂ ◌++◌ b (sym back) ∙ sym (reverse-append (map telemetry called) h.deferred)

run_watcher-IsClosed :
    (w : World) (line : CommandLine) (app : App) (h : Held)
    → IsBalanced h
    → IsClosed w (run_watcher w line app h)
unfolding run_watcher
run_watcher-IsClosed w line app h b = elim (Option-cases (watcher_of w line app)) [
  | inl e ↦ rw (e, run_watcher) (balanced-IsClosed w h (fail watcher_error) b refl)
  | inr (watcher, e) ↦
      rw (e, run_watcher)
        (running-IsClosed w (take file_watcher h) (running_of app watcher)
          (take-IsBalanced file_watcher h b))
]

run_server-IsClosed :
    (w : World) (line : CommandLine) (cfg : Config) (h : Held)
    → IsBalanced h
    → IsClosed w (run_server w line cfg h)
unfolding run_server
run_server-IsClosed w line cfg h b = elim (Outcome-cases (parse_and_serve w.files cfg)) [
  | inl (e, p) ↦ rw (p, run_server) (balanced-IsClosed w h (fail (start_error e)) b refl)
  | inr (app, p) ↦ rw (p, run_server) (run_watcher-IsClosed w line app h b)
]

run_telemetry-IsClosed :
    (w : World) (line : CommandLine) (cfg : Config) (h : Held)
    → IsBalanced h
    → IsClosed w (run_telemetry w line cfg h)
unfolding run_telemetry
run_telemetry-IsClosed w line cfg h b = elim (Option-cases (init w.env w.library).1) [
  | inl e ↦
      rw (e, run_telemetry)
        (run_server-IsClosed w line cfg (take_telemetry w (init w.env w.library).0 h)
          (take_telemetry-IsBalanced w (init w.env w.library).0 h b))
  | inr (why, e) ↦ rw (e, run_telemetry) (ap (λ l. l ++ map telemetry (init w.env w.library).0) b)
]

run_log-IsClosed : (w : World) (line : CommandLine) (cfg : Config) → IsClosed w (run_log w line cfg)
unfolding run_log
run_log-IsClosed w line cfg =
    elim (Bool-cases (cfg.log_path =? codes "stderr" || is_nil cfg.log_path)) [
      | inl e ↦ rw (e, run_log) (run_telemetry-IsClosed w line cfg (take signals nothing) refl)
      | inr n ↦ elim (Bool-cases (w.log_opens cfg.log_path)) [
        | inl e ↦
            rw (n, e, run_log)
              (run_telemetry-IsClosed w line cfg (take signals (take log_file nothing)) refl)
        | inr m ↦
            rw (n, m, run_log) (balanced-IsClosed w nothing (fail (no_log cfg.log_path)) refl refl)
      ]
    ]

-- Whatever fails, `run` closes what it has opened, each once and in the reverse of the order in which it was
-- opened: the log file, the signals, the parts of the telemetry and the file watcher. The one exception is a
-- `telemetry.Init` that fails: what it has started until then is not shut down.
pub run_program-IsClosed : (w : World) (line : CommandLine) → IsClosed w (run_program w line)
unfolding run_program
run_program-IsClosed w line = elim (Outcome-cases (loaded_config w line)) [
  | inl (e, p) ↦ rw (p, run_program) (balanced-IsClosed w nothing (fail (start_error e)) refl refl)
  | inr (cfg, p) ↦ rw (p, run_program) (run_log-IsClosed w line cfg)
]
