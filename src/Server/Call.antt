-- ===== src/Server/Call.antt =====
-- `handleToolCall` of pkg/server/server.go, with `timeoutFor`, `rootDir`, `resolveHint` and the
-- progress writer. Spans and log lines are left out; the metrics of the invocation are kept.
pub mod Laws
use make_mcp.Common.{ℕ, ◌+◌, Bool, true, false, Option, none, some, List, [], ◌∷◌, if◌then◌else◌}
use make_mcp.Common.Outcome.{Outcome, ok, fail}
use make_mcp.Text.{Text, ◌=?◌, byte_len}
use make_mcp.Dict.{Dict}
use make_mcp.Go.Strconv.{ℤ, negsuc}
use make_mcp.Go.Path.{dir}
use make_mcp.Schema.{Recipe, risk_high, risk_medium}
use make_mcp.Config.{Config, Duration}
use make_mcp.Runner.Args.{Value}
use make_mcp.Runner.Stream.{
  Request, Command, Execution, RunResult, RunError, structured, unstructured, run_stream,
}
use make_mcp.Server.Registry.{ToolServer, get_recipe}

-- The request: a nil progress token is `none`, and `has_session` tells whether the context carries a
-- client session.
pub record CallRequest : Type 0 where
  pub name : Text
  pub arguments : Dict Value
  pub progress_token : Option Text
  pub has_session : Bool

pub record CallResult : Type 0 where
  pub is_error : Bool
  pub content : List Text

pub data Response : Type 0 where
  result : CallResult → Response
  -- A JSON-RPC error with its code.
  rpc_error : ℤ → Response
  -- An error that the library turns into its own.
  internal_error : Response

-- A `notifications/progress` message: its token and its text.
pub record Progress : Type 0 where
  pub token : Text
  pub message : Text

pub record Invocation : Type 0 where
  pub recipe : Recipe
  pub success : Bool
  pub bytes_out : ℕ
  pub streaming : Bool

-- What a call sends and records.
pub record Reply : Type 0 where
  pub response : Response
  pub progress : List Progress
  pub invocations : List Invocation

-- `timeoutFor`.
unfoldable pub timeout_for : Config → Text → Duration
unfolding ◌=?◌
timeout_for cfg risk =
    if risk =? risk_high
    then cfg.timeouts.high
    else if risk =? risk_medium
    then cfg.timeouts.medium
    else cfg.timeouts.low

-- `rootDir`.
unfoldable pub root_dir : Config → Text
unfolding dir
root_dir cfg = elim cfg.makefiles [ [] ↦ [] | path ∷ paths ↦ dir path ]

-- `resolveHint`.
unfoldable pub resolve_hint : Option Bool → Bool → Bool
resolve_hint (some b) d = b
resolve_hint none d = d

-- The token that the writers send under, where both a token and a session are there.
unfoldable pub stream_token : CallRequest → Option Text
stream_token req = elim req.progress_token [
  | none ↦ none
  | some token ↦ if req.has_session then some token else none
]

-- The writes through `progressWriter`.
unfoldable pub progress_of : Option Text → List (Bool × Text) → List Progress
progress_of none writes = []
progress_of (some token) [] = []
progress_of (some token) ((to, s) ∷ w) =
    record { token = token; message = s } ∷ progress_of (some token) w

abbrev pub is_streaming : Option Text → Bool
is_streaming none = false
is_streaming (some token) = true

-- `bytesOut`.
unfoldable pub bytes_out : Outcome RunError RunResult → ℕ
unfolding byte_len
bytes_out (ok r) = byte_len r.stdout + byte_len r.stderr
bytes_out (fail (structured e)) = byte_len e.stdout + byte_len e.stderr
bytes_out (fail unstructured) = 0

abbrev pub succeeds : Outcome RunError RunResult → Bool
succeeds (ok r) = true
succeeds (fail e) = false

unfoldable pub respond : Outcome RunError RunResult → Response
respond (ok r) = result (record { is_error = false; content = r.stdout ∷ r.stderr ∷ [] })
respond (fail (structured e)) =
    result (record { is_error = true; content = e.stdout ∷ e.stderr ∷ [] })
respond (fail unstructured) = internal_error

-- The runner's request for a recipe.
unfoldable pub run_request : Config → Recipe → Dict Value → Request
unfolding timeout_for root_dir
run_request cfg recipe args = record {
  recipe = recipe;
  args = args;
  timeout = timeout_for cfg recipe.risk;
  make_path = [];
  root_dir = root_dir cfg;
}

-- The call of a recipe that was found.
unfoldable pub call_recipe : (Command → Execution) → Config → Recipe → CallRequest → Reply
unfolding stream_token progress_of bytes_out respond run_request
call_recipe exec cfg recipe req =
    let token = stream_token req in
    let ran = run_stream exec (run_request cfg recipe req.arguments) (is_streaming token) in
    record {
      response = respond ran.0;
      progress = progress_of token ran.1;
      invocations =
          record {
            recipe = recipe;
            success = succeeds ran.0;
            bytes_out = bytes_out ran.0;
            streaming = is_streaming token;
          }
          ∷ [];
    }

abbrev pub method_not_found : ℤ
method_not_found = negsuc 32600

-- `handleToolCall`.
unfoldable pub handle_tool_call : (Command → Execution) → ToolServer → CallRequest → Reply
unfolding get_recipe call_recipe
handle_tool_call exec s req = elim (get_recipe s.registry req.name) [
  | none ↦ record { response = rpc_error method_not_found; progress = []; invocations = [] }
  | some recipe ↦ call_recipe exec s.cfg recipe req
]
