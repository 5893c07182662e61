-- ===== src/Runner/Args/Shape.antt =====
-- The argument vector: the caller's values stand only behind `NAME=`.
use make_mcp.Common.{
  ℕ, ◌≡◌, refl, inl, inr, Bool, true, ◌||◌, Option, none, some, List, [], ◌∷◌, ◌++◌, arith, ◌==◌,
  within, if◌then◌else◌, Option-cases, All,
}
use make_mcp.Common.Outcome.{Outcome, ok, fail, ◌>>=◌}
use make_mcp.Common.Spans.{AllPass}
use make_mcp.Text.{Text, codes, to_upper_rune}
use make_mcp.Dict.{Dict, lookup}
use make_mcp.Schema.{Recipe, Param}
use make_mcp.Parser.Annotation.{is_letter}
use make_mcp.Parser.Params.{is_param_name, is_name_char, all_chars}
use make_mcp.Parser.Params.Sound.{IsParam, ParamsOf}
use make_mcp.Runner.Args.{
  Value, RunnerError, make_variable_name, stringify_value, assign, assignments, params_of,
  file_args, build_args, allowed, unknown_key,
}

-- `[A-Z0-9_]`.
abbrev pub is_variable_char : ℕ → Bool
is_variable_char c = within b'A' b'Z' c || within b'0' b'9' c || c == b'_'

-- `[A-Z][A-Z0-9_]*`.
abbrev pub IsVariable : Text → Type 0
IsVariable [] = ⊥
IsVariable (c ∷ s) = (within b'A' b'Z' c ≡ true) × AllPass is_variable_char s

pub record IsAssignment (arg : Text) : Type 0 where
  pub variable : Text
  pub value : Text
  pub cut : arg ≡ variable ++ b'=' ∷ value
  pub is_variable : IsVariable variable

abbrev dashed : ℕ → ℕ
dashed c = if c == b'-' then b'_' else c

variable_char : (c : ℕ) → is_name_char c ≡ true → is_variable_char (to_upper_rune (dashed c)) ≡ true
unfolding is_name_char is_letter to_upper_rune
variable_char c h = ground arith

variable_head : (c : ℕ) → is_letter c ≡ true → within b'A' b'Z' (to_upper_rune (dashed c)) ≡ true
unfolding is_letter to_upper_rune
variable_head c h = ground arith

variable_chars :
    (s : Text) → all_chars is_name_char s ≡ true → AllPass is_variable_char (make_variable_name s)
unfolding all_chars make_variable_name
variable_chars [] h = tt
variable_chars (c ∷ s) h = (variable_char c (ground arith), variable_chars s (ground arith))

-- The Make variable of an accepted parameter name is a capital followed by capitals, digits and
-- underscores.
pub make_variable_name-IsVariable :
    (name : Text) → is_param_name name ≡ true → IsVariable (make_variable_name name)
unfolding is_param_name make_variable_name
make_variable_name-IsVariable [] h = cc
make_variable_name-IsVariable (c ∷ s) h =
    (variable_head c (ground arith), variable_chars s (ground arith))

abbrev OkAll : Outcome RunnerError (List Text) → Type 0
OkAll (ok args) = All IsAssignment args
OkAll (fail e) = Unit

assign-OkAll :
    (p : Param) (given : Option Value) (later : Outcome RunnerError (List Text))
    → IsParam p
    → OkAll later
    → OkAll (assign p given later)
unfolding assign
assign-OkAll p none later h l = l
assign-OkAll p (some v) later h l = go (stringify_value p v) later l
  where
    go :
        (o : Outcome RunnerError Text) (later : Outcome RunnerError (List Text))
        → OkAll later
        → OkAll
            (o >>= λ text. later >>= λ rest. ok ((make_variable_name p.name ++ b'=' ∷ text) ∷ rest))
    go (ok text) (ok rest) l = (
      record {
        variable = make_variable_name p.name;
        value = text;
        cut = refl;
        is_variable = make_variable_name-IsVariable p.name h.named;
      },
      l,
    )
    go (ok text) (fail e) l = tt
    go (fail e) later l = tt

assignments-OkAll :
    (ps : List Param) (provided : Dict Value) → All IsParam ps → OkAll (assignments ps provided)
unfolding assignments
assignments-OkAll [] provided h = tt
assignments-OkAll (p ∷ ps) provided h =
    assign-OkAll p (lookup p.name provided) (assignments ps provided) h.0
      (assignments-OkAll ps provided h.1)

pub params_of-IsParam : (recipe : Recipe) → ParamsOf recipe.params → All IsParam (params_of recipe)
params_of-IsParam recipe h = elim (Option-cases recipe.params) [
  | inl e ↦ rw e tt
  | inr (ps, e) ↦ rw e (rw e at h)
]

shape_of :
    (source id : Text) (o : Outcome RunnerError (List Text)) {argv : List Text}
    → OkAll o
    → (o >>= λ rest. ok (codes "--no-print-directory" ∷ (file_args source ++ id ∷ rest))) ≡ ok argv
    → (assigns : List Text) × (argv
        ≡ codes "--no-print-directory" ∷ (file_args source ++ id ∷ assigns))
      × All IsAssignment assigns
shape_of source id (ok rest) h e = (rest, ground arith, h)
shape_of source id (fail x) h e = cc

-- The argument vector that `buildArgs` makes for a recipe with well-formed parameters is the fixed
-- option, the `-f` option where a file is given, the recipe's identifier, and behind it only
-- assignments `NAME=value` whose name is a capital followed by capitals, digits and underscores: no
-- value from the caller can add an option or a target.
pub build_args-shape :
    (recipe : Recipe) (provided : Dict Value) (source : Text) {argv : List Text}
    → ParamsOf recipe.params
    → build_args recipe provided source ≡ ok argv
    → (assigns : List Text) × (argv
        ≡ codes "--no-print-directory" ∷ (file_args source ++ recipe.id ∷ assigns))
      × All IsAssignment assigns
unfolding build_args
build_args-shape recipe provided source {argv} h e =
    elim (Option-cases (unknown_key (allowed (params_of recipe) []) provided)) [
      | inr (key, n) ↦ absurd (ground arith)
      | inl n ↦
          shape_of source recipe.id (assignments (params_of recipe) provided)
            (assignments-OkAll (params_of recipe) provided (params_of-IsParam recipe h))
            (ground arith)
    ]
