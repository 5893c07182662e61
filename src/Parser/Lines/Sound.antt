-- ===== src/Parser/Lines/Sound.antt =====
-- A parse that reports no violation yields well-formed recipes only.
use make_mcp.Common.{
  ◌≡◌, refl, ◌≢◌, inl, inr, Bool, true, false, not, ◌&&◌, ◌||◌, Option, none, some, List, [], ◌∷◌,
  ◌++◌, map, arith, Bool-cases, Option-cases, is_nil, All, All-append,
}
use make_mcp.Text.{Text, codes, has_prefix, trim_space}
use make_mcp.Dict.{Dict, lookup, is_some}
use make_mcp.Schema.{Recipe, ToolHints, ValidationError, valid}
use make_mcp.Schema.Validate.{IsValidRecipe, validate_iff}
use make_mcp.Parser.Annotation.{extract_annotation}
use make_mcp.Parser.Target.{match_target_line}
use make_mcp.Parser.Params.{at_recipe, build_params}
use make_mcp.Parser.Params.Sound.{ParamsOf, build_params-IsParam}
use make_mcp.Parser.Hints.{
  build_tool_hints, optional_bool, append_error, validate_strict, missing_keys, required_keys,
  key_read_only, key_destructive, key_idempotent, key_open_world,
}
use make_mcp.Parser.Lines.{
  ParseOptions, Pending, State, at_target, plain_line, step, run, start, make_recipe, recipe_errors,
  delimiter_of, parse_lines,
}

-- Every hint is declared.
pub record AllHints (h : ToolHints) : Type 0 where
  pub read_only : h.read_only ≢ none
  pub destructive : h.destructive ≢ none
  pub idempotent : h.idempotent ≢ none
  pub open_world : h.open_world ≢ none

pub record IsSound (strict : Bool) (r : Recipe) : Type 0 where
  pub fields : IsValidRecipe r
  pub declared : ParamsOf r.params
  pub not_special : has_prefix (codes ".") r.id ≡ false
  pub hints : strict ≡ true → AllHints r.tool_hints

pub append-eq-nil {ℓ} : {A : Type ℓ} (xs ys : List A) → xs ++ ys ≡ [] → (xs ≡ []) × (ys ≡ [])
append-eq-nil [] ys h = (refl, h)
append-eq-nil (x ∷ xs) ys h = cc

map-eq-nil {ℓ κ} : {A : Type ℓ} {B : Type κ} (f : A → B) (xs : List A) → map f xs ≡ [] → xs ≡ []
map-eq-nil f [] h = refl
map-eq-nil f (x ∷ xs) h = cc

optional_bool-present :
    (meta : Dict Text) (key : Text)
    → (optional_bool meta key).1 ≡ none
    → is_some (lookup key meta) ≡ true
    → (optional_bool meta key).0 ≢ none
unfolding optional_bool
optional_bool-present meta key e h = ground arith

append_error-eq-nil :
    (errs : List ValidationError) (id : Text) (e : Option _)
    → append_error errs id e ≡ []
    → (errs ≡ []) × (e ≡ none)
unfolding append_error
append_error-eq-nil errs id none h = (h, refl)
append_error-eq-nil errs id (some e) h =
    absurd (ground (arith, append-eq-nil errs (at_recipe id e ∷ []) h))

missing_keys-eq-nil :
    (id : Text) (meta : Dict Text) (keys : List Text)
    → missing_keys id meta keys ≡ []
    → All (λ k. is_some (lookup k meta) ≡ true) keys
unfolding missing_keys
missing_keys-eq-nil id meta [] h = tt
missing_keys-eq-nil id meta (k ∷ keys) h = ground (arith, missing_keys-eq-nil id meta keys)

hints-AllHints :
    (id : Text) (meta : Dict Text)
    → (build_tool_hints id meta).1 ≡ []
    → validate_strict id meta true ≡ []
    → AllHints (build_tool_hints id meta).0
unfolding build_tool_hints validate_strict
hints-AllHints id meta e s =
    let (r4, e4) = append_error-eq-nil _ id _ e in
    let (r3, e3) = append_error-eq-nil _ id _ r4 in
    let (r2, e2) = append_error-eq-nil _ id _ r3 in
    let (r1, e1) = append_error-eq-nil _ id _ r2 in
    let present = missing_keys-eq-nil id meta required_keys s in
    record {
      read_only = optional_bool-present meta key_read_only e1 present.0;
      destructive = optional_bool-present meta key_destructive e2 present.1.0;
      idempotent = optional_bool-present meta key_idempotent e3 present.1.1.0;
      open_world = optional_bool-present meta key_open_world e4 present.1.1.1.0;
    }

make_recipe-IsSound :
    (strict : Bool) (id : Text) (p : Pending)
    → recipe_errors strict id p ≡ []
    → has_prefix (codes ".") id ≡ false
    → IsSound strict (make_recipe id p)
unfolding recipe_errors
make_recipe-IsSound strict id p e dot =
    let params = build_params id p.params_seen p.param_none_seen p.param_strings in
    let (e1, rest) = append-eq-nil params.1 _ e in
    let (e2, rest2) = append-eq-nil (build_tool_hints id p.meta).1 _ rest in
    let (e3, e4) = append-eq-nil (validate_strict id p.meta strict) _ rest2 in
    record {
      fields = (validate_iff (make_recipe id p)).0 (map-eq-nil (at_recipe id) _ e4);
      declared =
          unfold make_recipe in
          build_params-IsParam id p.params_seen p.param_none_seen p.param_strings;
      not_special = unfold make_recipe in dot;
      hints = λ s. unfold make_recipe in hints-AllHints id p.meta e2 (rw s at e3);
    }

abbrev SoundSoFar : Bool → State → Type 0
SoundSoFar strict s = s.result.errors ≡ [] → All (IsSound strict) s.result.recipes

at_target-SoundSoFar :
    (strict : Bool) (id : Text) (s : State)
    → SoundSoFar strict s
    → SoundSoFar strict (at_target strict id s)
unfolding at_target
at_target-SoundSoFar strict id s h =
    elim (Bool-cases
      (not s.pending.in_block || is_nil s.pending.meta && not s.pending.params_seen)) [
        | inl a ↦ rw a h
        | inr a ↦ elim (Bool-cases (has_prefix (codes ".") id)) [
          | inl b ↦ rw (a, b) h
          | inr b ↦
              rw (a, b)
                (λ e.
                  let (e1, e2) = append-eq-nil s.result.errors _ e in
                  All-append (IsSound strict) s.result.recipes _ (h e1)
                    (make_recipe-IsSound strict id s.pending e2 b, tt))
        ]
      ]

plain_line-SoundSoFar :
    (strict : Bool) (trimmed : Text) (s : State)
    → SoundSoFar strict s
    → SoundSoFar strict (plain_line strict trimmed s)
unfolding plain_line
plain_line-SoundSoFar strict trimmed s h = elim (Option-cases (match_target_line trimmed)) [
  | inl e ↦ ground arith
  | inr (id, e) ↦ ground (arith, at_target-SoundSoFar strict id s h)
]

step-SoundSoFar :
    (delim : Text) (strict : Bool) (s : State) (line : Text)
    → SoundSoFar strict s
    → SoundSoFar strict (step delim strict s line)
unfolding step
step-SoundSoFar delim strict s line h = elim (Option-cases (extract_annotation delim line)) [
  | inl e ↦ rw (e, step) (plain_line-SoundSoFar strict (trim_space line) s h)
  | inr ((key, val), e) ↦ rw (e, step) h
]

run-SoundSoFar :
    (delim : Text) (strict : Bool) (s : State) (lines : List Text)
    → SoundSoFar strict s
    → SoundSoFar strict (run delim strict s lines)
unfolding run
run-SoundSoFar delim strict s [] h = h
run-SoundSoFar delim strict s (line ∷ lines) h =
    run-SoundSoFar delim strict (step delim strict s line) lines
      (step-SoundSoFar delim strict s line h)

-- If the parse of some lines reports no violation, then every recipe that it returns has all its
-- fields well formed, only parameters with an accepted name and type, an identifier that does not
-- begin with a dot, and, in strict mode, all four hints declared.
pub parse_lines-IsSound :
    (opts : ParseOptions) (lines : List Text)
    → valid (parse_lines opts lines) ≡ true
    → All (IsSound opts.strict) (parse_lines opts lines).recipes
unfolding parse_lines valid
parse_lines-IsSound opts lines h =
    run-SoundSoFar (delimiter_of opts) opts.strict start lines (λ _. tt) (ground arith)
