-- ===== src/Watcher/Flush.antt =====
-- What one run of `flush` sends, keeps and leaves running.
use make_mcp.Common.{
  ℕ, zero, suc, ◌+◌, ◌≤◌, ◌≡◌, refl, sym, ap, ◌∙◌, ◌⊎◌, inl, inr, Bool, true, false, Option, none,
  some, List, [], ◌∷◌, ◌++◌, append-nil, append_assoc, arith, ltb, leb, if◌then◌else◌, Bool-cases,
  length, All, All-append,
}
use mathlib.Core.List.{Memᴰ}
use mathlib.Core.List.Memᴰ
use mathlib.Core.Path.{subst}
use make_mcp.Text.{Text, ◌=?◌}
use make_mcp.Text.Equal.{=?_iff}
use make_mcp.Go.Strconv.{ℤ, pos, negsuc}
use make_mcp.Dict.{Dict, lookup, insert, delete, is_some}
use make_mcp.Dict.Laws.{lookup-insert, lookup-delete}
use make_mcp.Watcher.{Watcher, capacity, send, visit, visit_all, rearm, flush, nearer, until}
use make_mcp.Watcher.Sends.{send_room, send_full}

-- A path that was pending, and ready by now.
abbrev pub WasReady : ℕ → Watcher → Text → Type 0
WasReady now w path = (at : ℕ) × (lookup path w.pending ≡ some at) × (at ≤ now)

-- What a run sent and kept: the sent paths were pending and ready, a pending path was sent or is
-- still pending, and no path has become ready that was not.
pub record Moves (now : ℕ) (w w' : Watcher) : Type 0 where
  pub sent : List Text
  pub events : w'.events ≡ w.events ++ sent
  pub ready : All (λ path. (at : ℕ) × (lookup path w.pending ≡ some at) × (at ≤ now)) sent
  pub kept :
      (path : Text) {at : ℕ}
      → lookup path w.pending ≡ some at
      → Memᴰ path sent ⊎ (is_some (lookup path w'.pending) ≡ true)
  pub none_new : (path : Text) → WasReady now w' path → WasReady now w path
  pub closed : w'.closed ≡ w.closed

Moves-refl : (now : ℕ) (w : Watcher) → Moves now w w
Moves-refl now w = record {
  sent = [];
  events = sym (append-nil w.events);
  ready = tt;
  kept = λ path h. inr (ap is_some h);
  none_new = λ path r. r;
  closed = refl;
}

-- A pending path is the one taken out, or still pending.
kept_by_delete :
    (p path : Text) (m : Dict ℕ) {at : ℕ}
    → lookup p m ≡ some at
    → (p ≡ path) ⊎ (is_some (lookup p (delete path m)) ≡ true)
kept_by_delete p path m h = elim (Bool-cases (path =? p)) [
  | inl e ↦ inl (sym ((=?_iff path p).0 e))
  | inr e ↦ inr (rw (lookup-delete p path m) (rw e (ap is_some h)))
]

kept_by_insert :
    (p path : Text) (v : ℕ) (m : Dict ℕ) {at : ℕ}
    → lookup p m ≡ some at
    → is_some (lookup p (insert path v (delete path m))) ≡ true
kept_by_insert p path v m h = elim (Bool-cases (path =? p)) [
  | inl e ↦ rw (lookup-insert p path v (delete path m)) (rw e refl)
  | inr e ↦
      rw (lookup-insert p path v (delete path m))
        (rw e (rw (lookup-delete p path m) (rw e (ap is_some h))))
]

pub lookup_behind_delete :
    (p path : Text) (m : Dict ℕ) {at : ℕ}
    → lookup p (delete path m) ≡ some at
    → lookup p m ≡ some at
lookup_behind_delete p path m {at} h = ground (arith, lookup-delete p path m)

ready_behind_insert :
    (now : ℕ) (path : Text) (at : ℕ) (w : Watcher)
    → lookup path w.pending ≡ some at
    → at ≤ now
    → (p : Text)
    → WasReady now (record w { pending = insert path (now + w.settle) (delete path w.pending) }) p
    → WasReady now w p
ready_behind_insert now path at w l d p (r, e, b) = elim (Bool-cases (path =? p)) [
  | inl q ↦ (at, ap (λ k. lookup k w.pending) (sym ((=?_iff path p).0 q)) ∙ l, d)
  | inr q ↦
      let f : lookup p (delete path w.pending) ≡ some r =
        ground (arith, lookup-insert p path (now + w.settle) (delete path w.pending)) in
      (r, lookup_behind_delete p path w.pending f, b)
]

-- Sending one ready path.
send-Moves :
    (now : ℕ) (path : Text) (at : ℕ) (w : Watcher)
    → w.closed ≡ false
    → lookup path w.pending ≡ some at
    → at ≤ now
    → Moves now w (send now path (record w { pending = delete path w.pending }))
send-Moves now path at w c l d = elim (Bool-cases (ltb (length w.events) capacity)) [
  | inl e ↦
      subst (Moves now w)
        (sym (send_room now path (record w { pending = delete path w.pending }) c e))
        (record {
          sent = path ∷ [];
          events = refl;
          ready = ((at, l, d), tt);
          kept = λ p h. elim (kept_by_delete p path w.pending h) [
            | inl q ↦ inl (Memᴰ.head q)
            | inr k ↦ inr k
          ];
          none_new = λ p (r, e, b). (r, lookup_behind_delete p path w.pending e, b);
          closed = refl;
        })
  | inr e ↦
      subst (Moves now w)
        (sym (send_full now path (record w { pending = delete path w.pending }) c e))
        (record {
          sent = [];
          events = sym (append-nil w.events);
          ready = tt;
          kept = λ p h. inr (kept_by_insert p path (now + w.settle) w.pending h);
          none_new = λ p r. ready_behind_insert now path at w l d p r;
          closed = refl;
        })
]

All-none_new :
    (now : ℕ) (w w' : Watcher) (paths : List Text)
    → Moves now w w'
    → All (WasReady now w') paths
    → All (WasReady now w) paths
All-none_new now w w' [] m h = tt
All-none_new now w w' (p ∷ paths) m h = (m.none_new p h.0, All-none_new now w w' paths m h.1)

is_some-lookup : (o : Option ℕ) → is_some o ≡ true → (at : ℕ) × (o ≡ some at)
is_some-lookup none h = cc
is_some-lookup (some at) h = (at, refl)

Moves-trans : (now : ℕ) (u v w : Watcher) → Moves now u v → Moves now v w → Moves now u w
Moves-trans now u v w a b = record {
  sent = a.sent ++ b.sent;
  events = b.events ∙ ap (λ t. t ++ b.sent) a.events ∙ append_assoc u.events a.sent b.sent;
  ready = All-append (WasReady now u) a.sent b.sent a.ready (All-none_new now u v b.sent a b.ready);
  kept = λ p h. elim (a.kept p h) [
    | inl m ↦ inl (Memᴰ.append_left b.sent m)
    | inr k ↦ elim (b.kept p (is_some-lookup (lookup p v.pending) k).1) [
      | inl m ↦ inl (Memᴰ.append_right a.sent m)
      | inr l ↦ inr l
    ]
  ];
  none_new = λ p r. a.none_new p (b.none_new p r);
  closed = b.closed ∙ a.closed;
}

visit-Moves :
    (now : ℕ) (path : Text) (later : ℕ) (s : Watcher × ℤ)
    → s.0.closed ≡ false
    → Moves now s.0 (visit now path later s).0
unfolding visit
visit-Moves now path later s c = go (lookup path s.0.pending) refl
  where
    go :
        (o : Option ℕ)
        → lookup path s.0.pending ≡ o
        → Moves now s.0
            (elim o as (λ x. Watcher × ℤ) [
              | none ↦ s
              | some ready_at ↦
                  if leb ready_at now
                  then (send now path (record s.0 { pending = delete path s.0.pending }), s.1)
                  else (s.0, nearer s.1 (until ready_at later))
            ]).0
    go none l = Moves-refl now s.0
    go (some ready_at) l = elim (Bool-cases (leb ready_at now)) [
      | inl e ↦ rw e (send-Moves now path ready_at s.0 c l (ground arith))
      | inr e ↦ rw e (Moves-refl now s.0)
    ]

visit_all-Moves :
    (now : ℕ) (visits : List (Text × ℕ)) (s : Watcher × ℤ)
    → s.0.closed ≡ false
    → Moves now s.0 (visit_all now visits s).0
unfolding visit_all
visit_all-Moves now [] s c = Moves-refl now s.0
visit_all-Moves now ((path, later) ∷ visits) s c =
    let first = visit-Moves now path later s c in
    Moves-trans now s.0 (visit now path later s).0 (visit_all now visits (visit now path later s)).0
      first (visit_all-Moves now visits (visit now path later s) (first.closed ∙ c))

rearm-Moves :
    (now at : ℕ) (next : ℤ) (u w : Watcher) → Moves now u w → Moves now u (rearm at next w)
unfolding rearm
rearm-Moves now at (pos zero) u w m = m
rearm-Moves now at (pos (suc d)) u w m = record {
  sent = m.sent;
  events = m.events;
  ready = m.ready;
  kept = m.kept;
  none_new = m.none_new;
  closed = m.closed;
}
rearm-Moves now at (negsuc n) u w m = m

-- A run of `flush` with open channels, whatever the order of its loop and the clocks it reads, sends
-- only paths that were pending and ready, and loses none: each path that was pending has been sent or
-- is still pending, also where the channel is full. No path becomes ready that was not.
pub flush-Moves :
    (now : ℕ) (visits : List (Text × ℕ)) (at : ℕ) (w : Watcher)
    → w.closed ≡ false
    → Moves now w (flush now visits at w)
unfolding flush
flush-Moves now visits at w c = go w.stopped
  where
    go :
        (b : Bool)
        → Moves now w (if b then w else let s = visit_all now visits (w, pos 0) in rearm at s.1 s.0)
    go true = Moves-refl now w
    go false = rearm-Moves now at _ w _ (visit_all-Moves now visits (w, pos 0) c)
