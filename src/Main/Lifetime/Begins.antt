-- ===== src/Main/Lifetime/Begins.antt =====
-- What a run has set up when it goes on to wait, and why it returns before that.
use make_mcp.Common.{
  ◌≡◌, refl, sym, ap, ◌≢◌, ◌↔◌, ◌⊎◌, inl, inr, Bool, true, false, Option, none, some, List, [], ◌∷◌,
  arith, Bool-cases, is_nil,
}
use mathlib.Core.List.{Memᴰ}
use mathlib.Core.List.Memᴰ as Memᴰ
use mathlib.Core.Path.{subst}
use make_mcp.Common.Outcome.{Outcome, ok, fail}
use make_mcp.Text.{Text, codes, ◌=?◌}
use make_mcp.Text.Equal.{=?_iff}
use make_mcp.Config.{Config}
use make_mcp.Telemetry.Setup.{init}
use make_mcp.Watcher.{Watcher, new_watcher, add_all}
use make_mcp.Main.{CommandLine, App, start, watch_paths, is_transport}
use make_mcp.Main.Transports.{Transports, not_started, serving, start_transports}
use make_mcp.Main.Lifetime.{
  World, RunError, start_error, no_log, telemetry_error, watcher_error, Running, run_program,
  watcher_of,
}
use make_mcp.Main.Lifetime.Checks.{IsChecked, start-IsChecked}
use make_mcp.Main.Lifetime.Serves.{Agrees, run_program-Agrees}

-- The files to watch: the Makefiles, and the configuration file where one is given.
abbrev pub IsWatched : CommandLine → Config → Text → Type 0
IsWatched line cfg path =
    Memᴰ path cfg.makefiles ⊎ ((line.config_path ≢ []) × (path ≡ line.config_path))

-- The goroutines of one of the three transports, and the gauge of the connected clients.
abbrev pub AreTransports : Text → Transports → Type 0
AreTransports name t =
    ((name ≡ codes "stdio") × (t.stdio ≡ serving) × (t.http ≡ not_started) × (t.clients ≡ 1))
    ⊎ ((name ≡ codes "http") × (t.stdio ≡ not_started) × (t.http ≡ serving) × (t.clients ≡ 1))
    ⊎ ((name ≡ codes "both") × (t.stdio ≡ serving) × (t.http ≡ serving) × (t.clients ≡ 2))

-- What a run has set up.
pub record IsSetUp (line : CommandLine) (r : Running) : Type 0 where
  pub has_makefiles : r.app.cfg.makefiles ≢ []
  pub no_stdin_log : r.app.cfg.log_path ≢ codes "stdin"
  pub no_stdout_log : r.app.cfg.log_path ≢ codes "stdout"
  pub watches : (path : Text) → Memᴰ path r.watcher.added ↔ IsWatched line r.app.cfg path
  pub idle : (r.watcher.pending ≡ []) × (r.watcher.events ≡ []) × (r.watcher.stopped ≡ false)
  pub transports : AreTransports r.app.cfg.transport r.transports

-- The outcome of a run.
abbrev pub Begins : World → CommandLine → Outcome RunError Running → Type 0
Begins w line (ok r) = (start w.configs w.files line ≡ ok r.app) × IsSetUp line r
Begins w line (fail (start_error e)) = start w.configs w.files line ≡ fail e
Begins w line (fail (no_log path)) = w.log_opens path ≡ false
Begins w line (fail (telemetry_error e)) = (init w.env w.library).1 ≡ some e
Begins w line (fail watcher_error) =
    (app : App) × (start w.configs w.files line ≡ ok app)
    × ((w.notify ≡ false)
        ⊎ ((path : Text) × IsWatched line app.cfg path × (w.can_add path ≡ false)))

-- The configuration with another transport.
abbrev Starts : Config → Text → Type 0
Starts cfg name = AreTransports name (start_transports (record cfg { transport = name }))

Starts-each :
    (cfg : Config)
    → Starts cfg (codes "stdio") × Starts cfg (codes "http") × Starts cfg (codes "both")
unfolding start_transports ◌=?◌
Starts-each cfg = (
  inl (refl, refl, refl, refl),
  inr (inl (refl, refl, refl, refl)),
  inr (inr (refl, refl, refl, refl)),
)

is_transport_sound :
    (t : Text)
    → is_transport t ≡ true
    → (t ≡ codes "stdio") ⊎ (t ≡ codes "http") ⊎ (t ≡ codes "both")
unfolding is_transport
is_transport_sound t h =
    ground (arith, =?_iff t (codes "stdio"), =?_iff t (codes "http"), =?_iff t (codes "both"))

start_transports-AreTransports :
    (cfg : Config)
    → is_transport cfg.transport ≡ true
    → AreTransports cfg.transport (start_transports cfg)
start_transports-AreTransports cfg h =
    let (stdio, http, both) = Starts-each cfg in
    elim (is_transport_sound cfg.transport h) [
      | inl e ↦ subst (Starts cfg) (sym e) stdio
      | inr (inl e) ↦ subst (Starts cfg) (sym e) http
      | inr (inr e) ↦ subst (Starts cfg) (sym e) both
    ]

is_nil-eq : {A : Type 0} (xs : List A) → is_nil xs ≡ true → xs ≡ []
is_nil-eq [] e = refl
is_nil-eq (x ∷ xs) e = cc

watch_paths-IsWatched :
    (line : CommandLine) (cfg : Config) (path : Text)
    → Memᴰ path (watch_paths line cfg) ↔ IsWatched line cfg path
unfolding watch_paths
watch_paths-IsWatched line cfg path = elim (Bool-cases (is_nil line.config_path)) [
  | inl e ↦
      rw e
        (inl, λ w. elim w [ inl m ↦ m | inr (n, same) ↦ absurd (n (is_nil-eq line.config_path e)) ])
  | inr e ↦ rw e (
    λ m. elim (Memᴰ.append_cases cfg.makefiles m) [
      | inl h ↦ inl h
      | inr h ↦ elim h [
        | Memᴰ.head q ↦ inr (λ none_given. absurd (cc (ap is_nil none_given, e)), q)
        | Memᴰ.tail t ↦ elim t [ ]
      ]
    ],
    λ w. elim w [
      | inl m ↦ Memᴰ.append_left (line.config_path ∷ []) m
      | inr (n, q) ↦ Memᴰ.append_right cfg.makefiles (Memᴰ.head q)
    ],
  )
]

add_all-refused :
    (can_add : Text → Bool) (paths : List Text)
    → add_all can_add paths ≡ false
    → (path : Text) × Memᴰ path paths × (can_add path ≡ false)
unfolding add_all
add_all-refused can_add [] h = cc
add_all-refused can_add (p ∷ ps) h = elim (Bool-cases (can_add p)) [
  | inr n ↦ (p, Memᴰ.head refl, n)
  | inl y ↦ let (q, m, n) = add_all-refused can_add ps (rw y at h) in (q, Memᴰ.tail m, n)
]

-- The run with a watcher, where there is one.
abbrev SetUpWith : CommandLine → App → Option Watcher → Type 0
SetUpWith line app none = Unit
SetUpWith line app (some v) =
    IsSetUp line (record { app = app; watcher = v; transports = start_transports app.cfg })

watcher_of-SetUpWith :
    (w : World) (line : CommandLine) (app : App)
    → IsChecked app.cfg
    → SetUpWith line app (watcher_of w line app)
unfolding new_watcher
watcher_of-SetUpWith w line app checked = elim (Bool-cases w.notify) [
  | inr n ↦ rw n tt
  | inl n ↦ elim (Bool-cases (add_all w.can_add (watch_paths line app.cfg))) [
    | inr m ↦ rw (n, m) tt
    | inl m ↦
        rw (n, m)
          (record {
            has_makefiles = checked.makefiles;
            no_stdin_log = checked.stdin;
            no_stdout_log = checked.stdout;
            watches = watch_paths-IsWatched line app.cfg;
            idle = (refl, refl, refl);
            transports = start_transports-AreTransports app.cfg checked.transport;
          })
  ]
]

watcher_of-refused :
    (w : World) (line : CommandLine) (app : App)
    → watcher_of w line app ≡ none
    → (w.notify ≡ false) ⊎ ((path : Text) × IsWatched line app.cfg path × (w.can_add path ≡ false))
unfolding new_watcher
watcher_of-refused w line app e = elim (Bool-cases w.notify) [
  | inr n ↦ inl n
  | inl n ↦ elim (Bool-cases (add_all w.can_add (watch_paths line app.cfg))) [
    | inl m ↦ absurd (ground (arith, n, m, e))
    | inr m ↦
        let (path, at, refused) = add_all-refused w.can_add (watch_paths line app.cfg) m in
        inr (path, (watch_paths-IsWatched line app.cfg path).0 at, refused)
  ]
]

Agrees-Begins :
    (w : World) (line : CommandLine) (o : Outcome RunError Running)
    → Agrees w line (start w.configs w.files line) o
    → Begins w line o
Agrees-Begins w line (ok r) (begun, made, same) = (
  begun,
  subst (λ t. IsSetUp line (record { app = r.app; watcher = r.watcher; transports = t })) (sym same)
      (subst (SetUpWith line r.app) made
        (watcher_of-SetUpWith w line r.app (start-IsChecked w.configs w.files line begun))),
)
Agrees-Begins w line (fail (start_error e)) h = h
Agrees-Begins w line (fail (no_log path)) h = h
Agrees-Begins w line (fail (telemetry_error e)) h = h
Agrees-Begins w line (fail watcher_error) (app, begun, none_made) =
    (app, begun, watcher_of-refused w line app none_made)

-- The whole of `run` behind the command line. Where it goes on to wait: it has the server that `start` gives for
-- the same files; its configuration lists a Makefile and does not log to the standard input or output; an idle
-- watcher watches the Makefiles, the configuration file where one is given, and no other path; the transport is
-- one of the three, its goroutines serve, and the gauge counts them. Where it returns an error of the
-- configuration, the parse or the server, `start` gives that error. Any other error is that of a log file that
-- does not open, of `telemetry.Init`, or, behind a server that `start` gives, of a watcher that cannot be made
-- or refuses one of those paths.
pub run_program-Begins :
    (w : World) (line : CommandLine) → Begins w line (run_program w line).outcome
run_program-Begins w line =
    Agrees-Begins w line (run_program w line).outcome (run_program-Agrees w line)
