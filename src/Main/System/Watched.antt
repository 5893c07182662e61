-- ===== src/Main/System/Watched.antt =====
-- A path whose watch has ended with a creation or a rename is added again when the loop takes up that event.
use make_mcp.Common.{
  ℕ, ◌≡◌, refl, sym, ap, ◌∙◌, ◌≢◌, ◌⊎◌, inl, inr, Bool, true, false, ◌||◌, List, [], ◌∷◌, ◌++◌,
  arith, if◌then◌else◌, Bool-cases,
}
use mathlib.Core.List.{Memᴰ}
use mathlib.Core.List.Memᴰ as Memᴰ
use mathlib.Core.Path.{subst}
use make_mcp.Text.{Text, ◌=?◌}
use make_mcp.Text.Equal.{=?_iff}
use make_mcp.Watcher.{Watcher, FsEvent, should_handle, enqueue, on_event}
use make_mcp.Main.System.{
  Watch, live, due, gone, set, add_again, added_since, first_watch, is_replaced,
}
use make_mcp.Main.System.Waits.{Waits, in_raw}

-- The event that has the path added again waits in `fsnotify`.
pub record IsDue (path : Text) (raw : List FsEvent) : Type 0 where
  pub event : FsEvent
  pub waits_in : Memᴰ event raw
  pub named : event.name ≡ path
  pub replaced : is_replaced event ≡ true

-- Every path whose watch has to be set again has such an event.
abbrev pub IsWatching : List FsEvent → (Text → Watch) → Type 0
IsWatching raw watch = (path : Text) → watch path ≡ due → IsDue path raw

set_cases :
    (key : Text) (now : Watch) (watch : Text → Watch) (path : Text)
    → (key ≡ path) × (set key now watch path ≡ now)
      ⊎ (key ≢ path) × (set key now watch path ≡ watch path)
unfolding set
set_cases key now watch path = elim (Bool-cases (key =? path)) [
  | inl e ↦ inl ((=?_iff key path).0 e, rw e refl)
  | inr n ↦ inr (λ e. absurd (cc (sym n ∙ (=?_iff key path).1 e)), rw n refl)
]

IsDue-raw :
    {path : Text} {raw : List FsEvent} (e : FsEvent) → IsDue path raw → IsDue path (raw ++ e ∷ [])
IsDue-raw e d = record {
  event = d.event;
  waits_in = Memᴰ.append_left (e ∷ []) d.waits_in;
  named = d.named;
  replaced = d.replaced;
}

pub Waits-due : {path : Text} (raw : List FsEvent) (w : Watcher) → IsDue path raw → Waits raw w
unfolding should_handle
Waits-due raw w d = in_raw d.waits_in (ground (arith, d.replaced))

pub IsWatching-raw :
    (raw : List FsEvent) (e : FsEvent) (watch : Text → Watch)
    → IsWatching raw watch
    → IsWatching (raw ++ e ∷ []) watch
IsWatching-raw raw e watch i path d = IsDue-raw e (i path d)

pub IsWatching-gone :
    (raw : List FsEvent) (e : FsEvent) (watch : Text → Watch)
    → IsWatching raw watch
    → IsWatching (raw ++ e ∷ []) (set e.name gone watch)
IsWatching-gone raw e watch i path d = elim (set_cases e.name gone watch path) [
  | inl (_, g) ↦ absurd (cc (sym d ∙ g))
  | inr (_, k) ↦ IsDue-raw e (i path (sym k ∙ d))
]

pub IsWatching-edit :
    (raw : List FsEvent) (e : FsEvent) (watch : Text → Watch) (stops : Bool)
    → (stops ≡ true → is_replaced e ≡ true)
    → IsWatching raw watch
    → IsWatching (raw ++ e ∷ []) (if stops then set e.name due watch else watch)
IsWatching-edit raw e watch false h i path d = IsDue-raw e (i path d)
IsWatching-edit raw e watch true h i path d = elim (set_cases e.name due watch path) [
  | inl (n, _) ↦ record {
    event = e;
    waits_in = Memᴰ.append_right raw (Memᴰ.head refl);
    named = n;
    replaced = h refl;
  }
  | inr (_, k) ↦ IsDue-raw e (i path (sym k ∙ d))
]

added_since-append : (xs ys : List Text) → added_since xs (xs ++ ys) ≡ ys
unfolding added_since
added_since-append [] ys = refl
added_since-append (x ∷ xs) ys = added_since-append xs ys

added_since_self : (xs : List Text) → added_since xs xs ≡ []
unfolding added_since
added_since_self [] = refl
added_since_self (x ∷ xs) = added_since_self xs

-- What the loop adds for an event.
abbrev re_added : FsEvent → List Text
re_added e = if is_replaced e then e.name ∷ [] else []

on_event-added :
    (now : ℕ) (e : FsEvent) (w : Watcher)
    → added_since w.added (on_event now e w).added ≡ re_added e
unfolding on_event enqueue should_handle
on_event-added now e w = elim (Bool-cases (is_replaced e)) [
  | inl k ↦
      let h : (e.write || e.create || e.rename) ≡ true = ground (arith, k) in
      rw (h, k) (added_since-append w.added (e.name ∷ []))
  | inr n ↦ elim (Bool-cases (e.write || e.create || e.rename)) [
    | inl h ↦ rw (h, n) (added_since_self w.added)
    | inr h ↦ rw (h, n) (added_since_self w.added)
  ]
]

-- An event that is taken up was not the one a path waits for, if the path still waits.
IsDue-rest :
    {path : Text} {e : FsEvent} {rest : List FsEvent}
    → IsDue path (e ∷ rest)
    → ((e.name ≡ path) → is_replaced e ≡ true → ⊥)
    → IsDue path rest
IsDue-rest d other = elim (Memᴰ.cases_cons d.waits_in) [
  | inl q ↦
      absurd (other (ap (λ x. x.name) (sym q) ∙ d.named) (ap is_replaced (sym q) ∙ d.replaced))
  | inr m ↦ record { event = d.event; waits_in = m; named = d.named; replaced = d.replaced }
]

none_added : (e : FsEvent) → is_replaced e ≡ false → re_added e ≡ []
none_added e n = rw n refl

one_added : (e : FsEvent) → is_replaced e ≡ true → re_added e ≡ e.name ∷ []
one_added e k = rw k refl

not-due : (adds : Bool) → (if adds then live else gone) ≢ due
not-due true e = cc e
not-due false e = cc e

-- The loop adds the path of the event again, or the event is not one that a path waits for.
IsWatching-taken :
    (adds : Bool) (e : FsEvent) (rest : List FsEvent) (watch : Text → Watch)
    → IsWatching (e ∷ rest) watch
    → IsWatching rest (add_again adds (re_added e) watch)
unfolding add_again
IsWatching-taken adds e rest watch i path d = elim (Bool-cases (is_replaced e)) [
  | inr n ↦
      IsDue-rest (i path (subst (λ l. add_again adds l watch path ≡ due) (none_added e n) d))
        (λ q k. absurd (cc (sym n ∙ k)))
  | inl k ↦
      let d' : set e.name (if adds then live else gone) watch path ≡ due =
        subst (λ l. add_again adds l watch path ≡ due) (one_added e k) d in
      elim (set_cases e.name (if adds then live else gone) watch path) [
        | inl (_, l) ↦ absurd (not-due adds (sym l ∙ d'))
        | inr (other, l) ↦ IsDue-rest (i path (sym l ∙ d')) (λ q k. other q)
      ]
]

pub IsWatching-on_event :
    (now : ℕ) (adds : Bool) (e : FsEvent) (w : Watcher) (raw rest : List FsEvent)
    (watch : Text → Watch)
    → raw ≡ e ∷ rest
    → IsWatching raw watch
    → IsWatching rest (add_again adds (added_since w.added (on_event now e w).added) watch)
IsWatching-on_event now adds e w raw rest watch r i =
    rw (on_event-added now e w)
      (IsWatching-taken adds e rest watch (subst (λ l. IsWatching l watch) r i))

pub first_watch-IsWatching :
    (paths : List Text) (raw : List FsEvent) → IsWatching raw (first_watch paths)
unfolding first_watch
first_watch-IsWatching [] raw path d = absurd (cc d)
first_watch-IsWatching (key ∷ keys) raw path d = elim (set_cases key live (first_watch keys) path) [
  | inl (_, l) ↦ absurd (cc (sym d ∙ l))
  | inr (_, k) ↦ first_watch-IsWatching keys raw path (sym k ∙ d)
]
