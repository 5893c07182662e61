-- ===== src/Runner/Args/Order.antt =====
-- The order in which the map of arguments hands out its keys does not change a successful result.
use make_mcp.Common.{
  ◌≡◌, refl, ap, ap₂, ◌∙◌, inl, inr, true, none, List, [], ◌∷◌, arith, Option-cases,
}
use make_mcp.Common.Outcome.{ok}
use make_mcp.Text.{Text}
use make_mcp.Text.Equal.{=?_iff, =?_refl}
use make_mcp.Dict.{Dict, lookup, is_some}
use make_mcp.Schema.{Recipe, Param}
use make_mcp.Runner.Args.{Value, assign, assignments, params_of, build_args, allowed, unknown_key}

-- Two maps that hold the same values.
abbrev pub SameMap : Dict Value → Dict Value → Type 0
SameMap p q = (k : Text) → lookup k p ≡ lookup k q

assignments-SameMap :
    (ps : List Param) (p q : Dict Value) → SameMap p q → assignments ps p ≡ assignments ps q
unfolding assignments
assignments-SameMap [] p q h = refl
assignments-SameMap (x ∷ ps) p q h = ap₂ (assign x) (h x.name) (assignments-SameMap ps p q h)

-- Every key that the map holds is declared.
abbrev pub Declared : Dict Param → Dict Value → Type 0
Declared known provided =
    (k : Text) → is_some (lookup k provided) ≡ true → is_some (lookup k known) ≡ true

pub unknown_key-Declared :
    (known : Dict Param) (provided : Dict Value)
    → unknown_key known provided ≡ none
    → Declared known provided
unfolding unknown_key
unknown_key-Declared known [] h k s = unfold lookup in ground arith
unknown_key-Declared known ((key, v) ∷ rest) h k s =
    unfold lookup in ground (arith, =?_iff key k, unknown_key-Declared known rest (ground arith) k)

Declared-rest :
    (known : Dict Param) (key : Text) (v : Value) (rest : Dict Value)
    → Declared known ((key, v) ∷ rest)
    → Declared known rest
unfolding lookup
Declared-rest known key v rest h k s = ground (arith, h k, =?_iff key k)

pub Declared-unknown_key :
    (known : Dict Param) (provided : Dict Value)
    → Declared known provided
    → unknown_key known provided ≡ none
unfolding unknown_key lookup
Declared-unknown_key known [] h = refl
Declared-unknown_key known ((key, v) ∷ rest) h =
    ground (
      arith,
      h key,
      =?_refl key,
      Declared-unknown_key known rest (Declared-rest known key v rest h),
    )

Declared-same :
    (known : Dict Param) (p q : Dict Value) → SameMap p q → Declared known p → Declared known q
Declared-same known p q same h k s = h k (ap is_some (same k) ∙ s)

-- Two orders of the same arguments give the same argument vector whenever one of them gives one: the
-- result depends on the values held and not on the order of the map's keys.
pub build_args-SameMap :
    (recipe : Recipe) (p q : Dict Value) (source : Text) {argv : List Text}
    → SameMap p q
    → build_args recipe p source ≡ ok argv
    → build_args recipe q source ≡ ok argv
unfolding build_args
build_args-SameMap recipe p q source same e =
    elim (Option-cases (unknown_key (allowed (params_of recipe) []) p)) [
      | inr (key, n) ↦ absurd (ground arith)
      | inl n ↦ ground (
        arith,
        assignments-SameMap (params_of recipe) p q same,
        Declared-unknown_key (allowed (params_of recipe) []) q (
            Declared-same (allowed (params_of recipe) []) p q same
              (unknown_key-Declared (allowed (params_of recipe) []) p n)),
      )
    ]
