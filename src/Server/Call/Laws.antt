-- ===== src/Server/Call/Laws.antt =====
-- What a tool call runs, answers and streams.
use make_mcp.Common.{
  ◌≡◌, refl, sym, ◌⊎◌, inl, inr, Bool, true, false, Option, none, some, List, [], ◌∷◌, ◌++◌, arith,
  All,
}
use mathlib.Core.List.{Memᴰ}
use make_mcp.Common.Outcome.{Outcome, ok, fail}
use make_mcp.Text.{Text, ◌=?◌}
use make_mcp.Schema.{Recipe, risk_high}
use make_mcp.Parser.Params.Sound.{ParamsOf}
use make_mcp.Runner.Stream.{
  Command, Execution, RunResult, RunError, structured, unstructured, captured, prepare, run_stream,
}
use make_mcp.Runner.Stream.Outcomes.{IsCommand, prepare-IsCommand, Streamed, run_stream-Streamed}
use make_mcp.Server.Registry.{ToolServer, get_recipe}
use make_mcp.Server.Registry.Reload.{Serves, Serves-get_recipe}
use make_mcp.Server.Tools.{tool_annotations, bool_hint}
use make_mcp.Server.Call.{
  CallRequest, Reply, result, respond, rpc_error, method_not_found, Progress, progress_of,
  handle_tool_call, call_recipe, run_request, resolve_hint, stream_token,
}

-- What a call may come to: the error for a name that no recipe has, with nothing run, or the run of a
-- served recipe with that identifier, whose command is its own target with assignments behind it.
pub record Runs (exec : Command → Execution) (s : ToolServer) (rs : List Recipe) (req : CallRequest)
    : Type 0 where
  pub recipe : Recipe
  pub served : Memᴰ recipe rs
  pub named : recipe.id ≡ req.name
  pub reply : handle_tool_call exec s req ≡ call_recipe exec s.cfg recipe req
  pub command :
      (cmd : Command)
      → prepare (run_request s.cfg recipe req.arguments) ≡ ok cmd
      → IsCommand (run_request s.cfg recipe req.arguments) cmd

abbrev pub not_found : Reply
not_found = record { response = rpc_error method_not_found; progress = []; invocations = [] }

mem-All {ℓ κ} : {A : Type ℓ} (P : A → Type κ) {a : A} (xs : List A) → All P xs → Memᴰ a xs → P a
mem-All P [] h m = elim m [ ]
mem-All P (x ∷ xs) h (Memᴰ.head e) = rw e h.0
mem-All P (x ∷ xs) h (Memᴰ.tail m) = mem-All P xs h.1 m

pub handle_tool_call-Runs :
    (exec : Command → Execution) (s : ToolServer) (rs : List Recipe) (req : CallRequest)
    → Serves s rs
    → All (λ r. ParamsOf r.params) rs
    → ((get_recipe s.registry req.name ≡ none) × (handle_tool_call exec s req ≡ not_found))
      ⊎ Runs exec s rs req
unfolding handle_tool_call
handle_tool_call-Runs exec s rs req h all = go (get_recipe s.registry req.name) refl
  where
    go :
        (o : Option Recipe)
        → get_recipe s.registry req.name ≡ o
        → ((get_recipe s.registry req.name ≡ none) × (handle_tool_call exec s req ≡ not_found))
          ⊎ Runs exec s rs req
    go none e = inl (e, rw (e, handle_tool_call))
    go (some r) e =
        let (named, served) = Serves-get_recipe s rs req.name h e in
        inr (record {
          recipe = r;
          served = served;
          named = named;
          reply = rw (e, handle_tool_call);
          command = λ cmd c.
              prepare-IsCommand (run_request s.cfg r req.arguments)
                (unfold run_request in mem-All (λ r. ParamsOf r.params) rs all served) c;
        })

-- The messages are the pieces of two texts, in the order of each.
pub data Interleaves : List Progress → Text → Text → Type 0 where
  all_sent : Interleaves [] [] []
  from_stdout :
      {p : Progress} {ps : List Progress} {out err : Text}
      → Interleaves ps out err
      → Interleaves (p ∷ ps) (p.message ++ out) err
  from_stderr :
      {p : Progress} {ps : List Progress} {out err : Text}
      → Interleaves ps out err
      → Interleaves (p ∷ ps) out (p.message ++ err)

progress_of-Interleaves :
    (token : Text) (w : List (Bool × Text))
    → Interleaves (progress_of (some token) w) (captured true w) (captured false w)
unfolding captured progress_of
progress_of-Interleaves token [] = all_sent
progress_of-Interleaves token ((true, s) ∷ w) = from_stdout (progress_of-Interleaves token w)
progress_of-Interleaves token ((false, s) ∷ w) = from_stderr (progress_of-Interleaves token w)

progress_tokens :
    (token : Text) (w : List (Bool × Text))
    → All (λ p. p.token ≡ token) (progress_of (some token) w)
unfolding progress_of
progress_tokens token [] = tt
progress_tokens token (x ∷ w) = (refl, progress_tokens token w)

-- What the result of a call shows of the run.
respond-Streamed :
    (w : List (Bool × Text)) (o : Outcome RunError RunResult) {b : Bool} {out err : Text}
    → Streamed w o
    → respond o ≡ result (record { is_error = b; content = out ∷ err ∷ [] })
    → (captured true w ≡ out) × (captured false w ≡ err)
unfolding respond
respond-Streamed w (ok r) h e = (ground (arith, h, e), ground (arith, h, e))
respond-Streamed w (fail (structured x)) h e = (ground (arith, h, e), ground (arith, h, e))
respond-Streamed w (fail unstructured) h e = cc

-- A streaming call whose request is in order sends all its messages under the caller's token. Where its
-- result shows a standard output and a standard error, also for a run that fails, the messages are the pieces
-- of these two texts, each in its order: together they hold exactly what the result holds.
pub call_recipe-progress :
    (exec : Command → Execution) (s : ToolServer) (recipe : Recipe) (req : CallRequest)
    {cmd : Command} {token out err : Text} {b : Bool}
    → prepare (run_request s.cfg recipe req.arguments) ≡ ok cmd
    → stream_token req ≡ some token
    → (call_recipe exec s.cfg recipe req).response
      ≡ result (record { is_error = b; content = out ∷ err ∷ [] })
    → All (λ p. p.token ≡ token) (call_recipe exec s.cfg recipe req).progress
      × Interleaves (call_recipe exec s.cfg recipe req).progress out err
unfolding call_recipe
call_recipe-progress exec s recipe req {cmd} {token} c t shown =
    let run = run_stream exec (run_request s.cfg recipe req.arguments) true in
    let streamed : Streamed run.1 run.0 =
      elim (run_stream-Streamed exec (run_request s.cfg recipe req.arguments)) [
        | inl h ↦ h
        | inr h ↦ absurd (h.1 cmd c)
      ] in
    let (o, e) = respond-Streamed run.1 run.0 streamed (rw t at shown) in
    rw t (progress_tokens token run.1, rw (sym o, sym e) (progress_of-Interleaves token run.1))

-- The hints of a recipe's tool are those that its span shows: the declared value where there is one,
-- and else not read-only, destructive exactly at high risk, not idempotent, and open-world.
pub tool_annotations-resolve_hint :
    (r : Recipe)
    → ((tool_annotations r).read_only_hint ≡ some (resolve_hint r.tool_hints.read_only false))
      × ((tool_annotations r).destructive_hint
          ≡ some (resolve_hint r.tool_hints.destructive (r.risk =? risk_high)))
      × ((tool_annotations r).idempotent_hint ≡ some (resolve_hint r.tool_hints.idempotent false))
      × ((tool_annotations r).open_world_hint ≡ some (resolve_hint r.tool_hints.open_world true))
unfolding tool_annotations resolve_hint
tool_annotations-resolve_hint r = (
  hint r.tool_hints.read_only false,
  hint r.tool_hints.destructive (r.risk =? risk_high),
  hint r.tool_hints.idempotent false,
  hint r.tool_hints.open_world true,
)
  where
    hint : (o : Option Bool) (d : Bool) → bool_hint o d ≡ some (resolve_hint o d)
    hint none d = refl
    hint (some b) d = refl
