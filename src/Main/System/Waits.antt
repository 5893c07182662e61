-- ===== src/Main/System/Waits.antt =====
-- A change of the disk waits until `watchLoop` takes it.
use make_mcp.Common.{
  ℕ, ◌≡◌, refl, sym, ap, ◌∙◌, ◌⊎◌, inl, inr, Bool, true, false, ◌||◌, Option, none, some, List, [],
  ◌∷◌, ◌++◌, arith, ltb, if◌then◌else◌, Bool-cases, length,
}
use mathlib.Core.List.{Memᴰ}
use mathlib.Core.List.Memᴰ as Memᴰ
use mathlib.Core.Path.{subst}
use make_mcp.Text.{Text}
use make_mcp.Text.Equal.{=?_iff}
use make_mcp.Dict.{Dict, lookup, insert, is_some}
use make_mcp.Dict.Laws.{lookup-insert}
use make_mcp.Go.Path.{clean}
use make_mcp.Watcher.{
  capacity, Watcher, FsEvent, should_handle, enqueue, on_event, on_error, flush, close, end_loop,
}
use make_mcp.Watcher.Flush.{Moves, flush-Moves}
use make_mcp.Watcher.Steps.{IsSafe}

-- A change of the disk that waits in front of `watchLoop`: in `fsnotify`, as a pending path, or in the channel.
pub data Waits (raw : List FsEvent) (w : Watcher) : Type 0 where
  in_raw : {e : FsEvent} → Memᴰ e raw → should_handle e ≡ true → Waits raw w
  in_pending : (path : Text) → is_some (lookup path w.pending) ≡ true → Waits raw w
  in_channel : {path : Text} {rest : List Text} → w.events ≡ path ∷ rest → Waits raw w

-- An assignment keeps every entry, and makes its own.
is_some-insert :
    (key path : Text) (at : ℕ) (m : Dict ℕ)
    → (key ≡ path) ⊎ (is_some (lookup path m) ≡ true)
    → is_some (lookup path (insert key at m)) ≡ true
is_some-insert key path at m h =
    rw (lookup-insert path key at m) (ground (arith, h, =?_iff key path))

added-pending :
    (b : Bool) (paths : List Text) (w : Watcher)
    → (if b then record w { added = paths } else w).pending ≡ w.pending
added-pending true paths w = refl
added-pending false paths w = refl

-- The fields that a change can wait in.
pub Waits-same :
    (raw : List FsEvent) (w w' : Watcher)
    → w'.pending ≡ w.pending
    → w'.events ≡ w.events
    → Waits raw w
    → Waits raw w'
Waits-same raw w w' p ev (in_raw m h) = in_raw m h
Waits-same raw w w' p ev (in_pending path k) =
    in_pending path (ap (λ m. is_some (lookup path m)) p ∙ k)
Waits-same raw w w' p ev (in_channel c) = in_channel (ev ∙ c)

module _ (now : ℕ) (e : FsEvent) (w : Watcher) where
  on_event-events : (on_event now e w).events ≡ w.events
  unfolding on_event enqueue
  on_event-events = ground arith

  on_event-pending :
      (path : Text)
      → is_some (lookup path w.pending) ≡ true
      → is_some (lookup path (on_event now e w).pending) ≡ true
  unfolding on_event enqueue
  on_event-pending path h = elim (Bool-cases (should_handle e)) [
    | inl k ↦
        let kept = added-pending (e.create || e.rename) (w.added ++ e.name ∷ []) w in
        rw (k, on_event)
          (is_some-insert (clean e.name) path _ _
            (inr (ap (λ m. is_some (lookup path m)) kept ∙ h)))
    | inr n ↦ rw (n, on_event) h
  ]

  on_event-handled :
      should_handle e ≡ true → is_some (lookup (clean e.name) (on_event now e w).pending) ≡ true
  unfolding on_event enqueue
  on_event-handled h =
      rw (h, on_event) (is_some-insert (clean e.name) (clean e.name) _ _ (inl refl))

  -- The watcher takes an event from `fsnotify`.
  pub Waits-on_event :
      (raw rest : List FsEvent) → raw ≡ e ∷ rest → Waits raw w → Waits rest (on_event now e w)
  Waits-on_event raw rest r (in_raw m h) = elim (Memᴰ.cases_cons (subst (Memᴰ _) r m)) [
    | inl q ↦ in_pending (clean e.name) (on_event-handled (ap should_handle (sym q) ∙ h))
    | inr k ↦ in_raw k h
  ]
  Waits-on_event raw rest r (in_pending path k) = in_pending path (on_event-pending path k)
  Waits-on_event raw rest r (in_channel c) = in_channel (on_event-events ∙ c)

pub Waits-on_error :
    (err : Text) (raw : List FsEvent) (w : Watcher) → Waits raw w → Waits raw (on_error err w)
unfolding on_error
Waits-on_error err raw w h = elim (Bool-cases (ltb (length w.errors) capacity)) [
  | inl k ↦ rw k (Waits-same raw w _ refl refl h)
  | inr k ↦ rw k h
]

is_some-eq : {A : Type 0} (o : Option A) → is_some o ≡ true → (a : A) × (o ≡ some a)
is_some-eq none h = cc
is_some-eq (some a) h = (a, refl)

append-cons :
    (xs ys : List Text)
    → (path : Text) × (rest : List Text) × (ys ≡ path ∷ rest)
    → (path : Text) × (rest : List Text) × (xs ++ ys ≡ path ∷ rest)
append-cons [] ys h = h
append-cons (x ∷ xs) ys h = (x, xs ++ ys, refl)

Memᴰ-cons :
    {path : Text} (paths : List Text)
    → Memᴰ path paths
    → (first : Text) × (rest : List Text) × (paths ≡ first ∷ rest)
Memᴰ-cons [] m = elim m [ ]
Memᴰ-cons (x ∷ xs) m = (x, xs, refl)

pub Waits-Moves :
    (now : ℕ) (raw : List FsEvent) (w w' : Watcher) → Moves now w w' → Waits raw w → Waits raw w'
Waits-Moves now raw w w' moves (in_raw m h) = in_raw m h
Waits-Moves now raw w w' moves (in_pending path k) =
    elim (moves.kept path (is_some-eq (lookup path w.pending) k).1) [
      | inl m ↦
          let sent = append-cons w.events moves.sent (Memᴰ-cons moves.sent m) in
          in_channel (moves.events ∙ sent.2)
      | inr l ↦ in_pending path l
    ]
Waits-Moves now raw w w' moves (in_channel {path} {rest} c) =
    in_channel {path = path} {rest = rest ++ moves.sent}
      (moves.events ∙ ap (λ l. l ++ moves.sent) c)

flush_stopped :
    (now : ℕ) (visits : List (Text × ℕ)) (at : ℕ) (w : Watcher)
    → w.stopped ≡ true
    → flush now visits at w ≡ w
unfolding flush
flush_stopped now visits at w e = simp e

-- A run of `flush` loses no change: behind `Close` it does nothing.
pub Waits-flush :
    (now : ℕ) (visits : List (Text × ℕ)) (at : ℕ) (raw : List FsEvent) (w : Watcher)
    → IsSafe w
    → Waits raw w
    → Waits raw (flush now visits at w)
unfolding flush
Waits-flush now visits at raw w safe h = elim (Bool-cases w.closed) [
  | inl c ↦ subst (Waits raw) (sym (flush_stopped now visits at w (safe.in_order c))) h
  | inr o ↦ Waits-Moves now raw w _ (flush-Moves now visits at w o) h
]

pub Waits-raw :
    {raw : List FsEvent} {w : Watcher} (e : FsEvent) → Waits raw w → Waits (raw ++ e ∷ []) w
Waits-raw e (in_raw m h) = in_raw (Memᴰ.append_left (e ∷ []) m) h
Waits-raw e (in_pending path k) = in_pending path k
Waits-raw e (in_channel c) = in_channel c

pub Waits-close : (raw : List FsEvent) (w : Watcher) → Waits raw w → Waits raw (close w)
unfolding close
Waits-close raw w h = elim (Bool-cases w.stopped) [
  | inl e ↦ rw e (Waits-same raw w _ refl refl h)
  | inr e ↦ rw e (Waits-same raw w _ refl refl h)
]

pub Waits-end_loop : (raw : List FsEvent) (w : Watcher) → Waits raw w → Waits raw (end_loop w)
unfolding end_loop
Waits-end_loop raw w h = elim (Bool-cases w.closed) [
  | inl e ↦ rw e (Waits-same raw w _ refl refl h)
  | inr e ↦ rw e (Waits-same raw w _ refl refl h)
]
