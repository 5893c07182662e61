-- ===== src/Runner/Args/Accepts.antt =====
-- Which arguments `buildArgs` takes: the map of declared parameters, and the loop over them.
use make_mcp.Common.{
  ◌≡◌, refl, ◌∙◌, ◌↔◌, ◌⊎◌, inl, inr, false, Option, none, some, List, [], ◌∷◌, ◌++◌, arith,
  Bool-cases, All,
}
use mathlib.Core.Path.{subst}
use make_mcp.Common.Outcome.{Outcome, ok, fail, Outcome-cases}
use make_mcp.Text.{Text, ◌=?◌}
use make_mcp.Text.Equal.{=?_iff, =?_refl}
use make_mcp.Dict.{Dict, lookup, insert}
use make_mcp.Dict.Laws.{lookup-insert}
use make_mcp.Schema.{Param}
use make_mcp.Runner.Args.{
  Value, RunnerError, make_variable_name, stringify_value, assign, assignments, allowed,
}

-- The parameter's argument, where one is given, is printed.
abbrev pub Accepts : Dict Value → Param → Type 0
Accepts provided p =
    (v : Value) → lookup p.name provided ≡ some v → (text : Text) × (stringify_value p v ≡ ok text)

abbrev AcceptsOf : Param → Option Value → Type 0
AcceptsOf p o = (v : Value) → o ≡ some v → (text : Text) × (stringify_value p v ≡ ok text)

abbrev IsOk : {A : Type 0} → Outcome RunnerError A → Type 0
IsOk {A} o = (a : A) × (o ≡ ok a)

assign-AcceptsOf :
    (p : Param) (o : Option Value) (later : Outcome RunnerError (List Text))
    → IsOk (assign p o later)
    → AcceptsOf p o × IsOk later
unfolding assign
assign-AcceptsOf p none later h = (λ v e. cc, h)
assign-AcceptsOf p (some v) later (args, e) =
    go (Outcome-cases (stringify_value p v)) (Outcome-cases later)
  where
    go :
        ((x : RunnerError) × (stringify_value p v ≡ fail x)) ⊎ IsOk (stringify_value p v)
        → ((x : RunnerError) × (later ≡ fail x)) ⊎ IsOk later
        → AcceptsOf p (some v) × IsOk later
    go (inl (x, f)) l = absurd (ground (arith, f))
    go (inr (text, t)) (inl (x, f)) = absurd (ground (arith, t, f))
    go (inr (text, t)) (inr l) =
        (λ w same. (text, subst (λ x. stringify_value p x ≡ ok text) (cc same) t), l)

AcceptsOf-assign :
    (p : Param) (o : Option Value) (rest : List Text) → AcceptsOf p o → IsOk (assign p o (ok rest))
unfolding assign
AcceptsOf-assign p none rest h = (rest, refl)
AcceptsOf-assign p (some v) rest h =
    let (text, t) = h v refl in ((make_variable_name p.name ++ b'=' ∷ text) ∷ rest, rw t refl)

-- The loop over the declared parameters succeeds exactly if it prints the argument of each of them.
pub assignments_iff :
    (ps : List Param) (provided : Dict Value)
    → ((args : List Text) × (assignments ps provided ≡ ok args)) ↔ All (Accepts provided) ps
unfolding assignments
assignments_iff [] provided = (λ h. tt, λ h. ([], refl))
assignments_iff (p ∷ ps) provided = (
  λ h.
      let (a, l) = assign-AcceptsOf p (lookup p.name provided) (assignments ps provided) h in
      (a, (assignments_iff ps provided).0 l),
  λ h.
      let (rest, e) = (assignments_iff ps provided).1 h.1 in
      rw e (AcceptsOf-assign p (lookup p.name provided) rest h.0),
)

-- No two parameters have one name.
abbrev pub DistinctNames : List Param → Type 0
DistinctNames [] = Unit
DistinctNames (p ∷ ps) = All (λ q. (q.name =? p.name) ≡ false) ps × DistinctNames ps

allowed-other :
    (k : Text) (ps : List Param) (m : Dict Param)
    → All (λ q. (q.name =? k) ≡ false) ps
    → lookup k (allowed ps m) ≡ lookup k m
unfolding allowed
allowed-other k [] m h = refl
allowed-other k (p ∷ ps) m h =
    allowed-other k ps (insert p.name p m) h.1 ∙ lookup-insert k p.name p m ∙ rw h.0 refl

-- Where the names are distinct, the map of declared parameters holds each of them under its name.
pub allowed-Distinct :
    (ps : List Param) (m : Dict Param)
    → DistinctNames ps
    → All (λ p. lookup p.name (allowed ps m) ≡ some p) ps
unfolding allowed
allowed-Distinct [] m h = tt
allowed-Distinct (p ∷ ps) m h = (
  allowed-other p.name ps (insert p.name p m) h.0
      ∙ lookup-insert p.name p.name p m
      ∙ rw (=?_refl p.name) refl,
  allowed-Distinct ps (insert p.name p m) h.1,
)

allowed-from :
    (P : Param → Type 0) (k : Text) {p : Param} (ps : List Param) (m : Dict Param)
    → All P ps
    → (lookup k m ≡ some p → P p × (p.name ≡ k))
    → lookup k (allowed ps m) ≡ some p
    → P p × (p.name ≡ k)
unfolding allowed
allowed-from P k [] m h base e = base e
allowed-from P k {p} (q ∷ ps) m h base e = allowed-from P k ps (insert q.name q m) h.1 widened e
  where
    widened : lookup k (insert q.name q m) ≡ some p → P p × (p.name ≡ k)
    widened e = elim (Bool-cases (q.name =? k)) [
      | inl y ↦
          subst (λ r. P r × (r.name ≡ k)) (cc (rw (lookup-insert k q.name q m, y) at e))
            (h.0, (=?_iff q.name k).0 y)
      | inr n ↦ base (rw (lookup-insert k q.name q m, n) at e)
    ]

-- What the map of declared parameters holds under a key is one of them, and has that name.
pub allowed_sound :
    (P : Param → Type 0) (k : Text) {p : Param} (ps : List Param)
    → All P ps
    → lookup k (allowed ps []) ≡ some p
    → P p × (p.name ≡ k)
unfolding lookup
allowed_sound P k ps h = allowed-from P k ps [] h (λ e. cc)
