-- ===== src/Runner/Stream.antt =====
-- `RunStream`, `Run` and `workingDir`.
pub mod Outcomes
use make_mcp.Common.{
  zero, suc, Bool, true, false, not, none, some, List, [], ◌∷◌, ◌++◌, if◌then◌else◌, is_nil,
}
use mathlib.Core.List.{flatten}
use make_mcp.Common.Outcome.{Outcome, ok, fail}
use make_mcp.Text.{Text, codes}
use make_mcp.Dict.{Dict}
use make_mcp.Go.Strconv.{ℤ, pos, negsuc}
use make_mcp.Go.Path.{dir}
use make_mcp.Schema.{Recipe}
use make_mcp.Config.{Duration, ten_minutes}
use make_mcp.Runner.Args.{
  Value, RunnerError, tool_timeout, tool_exit_nonzero, params_error, missing_target,
  exceeded_timeout, failed_exit, build_args,
}

pub record Request : Type 0 where
  pub recipe : Recipe
  pub args : Dict Value
  pub timeout : Duration
  pub make_path : Text
  pub root_dir : Text

-- What `exec.CommandContext` is given; an empty `dir` is the directory of the server.
pub record Command : Type 0 where
  pub path : Text
  pub argv : List Text
  pub dir : Text
  pub deadline : Duration

pub data Status : Type 0 where
  succeeded : Status
  exited : ℤ → Status
  -- The process could not be started or waited for.
  broken : Status

-- What a run of the process did: its writes in order (true for stdout), how it ended, and whether
-- the deadline of its context had passed by then.
pub record Execution : Type 0 where
  pub writes : List (Bool × Text)
  pub status : Status
  pub past_deadline : Bool

pub record RunResult : Type 0 where
  pub stdout : Text
  pub stderr : Text

pub data RunError : Type 0 where
  structured : RunnerError → RunError
  -- `run make: %w`.
  unstructured : RunError

-- The buffer behind one of the two streams.
unfoldable pub captured : Bool → List (Bool × Text) → Text
captured out [] = []
captured out ((to, s) ∷ w) =
    if (if out then to else not to) then s ++ captured out w else captured out w

-- `workingDir`.
unfoldable pub working_dir : Text → Text
unfolding dir
working_dir [] = []
working_dir (c ∷ s) = dir (c ∷ s)

-- `if timeout <= 0`.
abbrev pub effective_timeout : Duration → Duration
effective_timeout (pos zero) = ten_minutes
effective_timeout (pos (suc n)) = pos (suc n)
effective_timeout (negsuc n) = ten_minutes

abbrev pub or_text : Text → Text → Text
or_text [] d = d
or_text (c ∷ s) d = c ∷ s

-- The command that `RunStream` makes of a request with its arguments.
unfoldable pub command_of : Request → List Text → Command
unfolding working_dir
command_of req argv = record {
  path = or_text req.make_path (codes "make");
  argv = argv;
  dir = or_text req.root_dir (working_dir req.recipe.source_file);
  deadline = effective_timeout req.timeout;
}

abbrev pub source_makefile : Request → Text
source_makefile req = if is_nil req.root_dir then req.recipe.source_file else []

abbrev timeout_error : Duration → Text → Text → RunnerError
timeout_error timeout out err = record {
  code = tool_timeout;
  message = exceeded_timeout timeout;
  exit_code = none;
  stdout = out;
  stderr = err;
  timed_out = true;
}

abbrev exit_error : ℤ → Text → Text → RunnerError
exit_error n out err = record {
  code = tool_exit_nonzero;
  message = failed_exit n;
  exit_code = some n;
  stdout = out;
  stderr = err;
  timed_out = false;
}

-- Behind a `cmd.Run()` that failed.
unfoldable pub conclude_failed : Duration → Status → Bool → Text → Text → Outcome RunError RunResult
conclude_failed timeout status past_deadline out err =
    if past_deadline then fail (structured (timeout_error timeout out err)) else (elim status [
      | exited n ↦ fail (structured (exit_error n out err))
      | _ ↦ fail unstructured
    ])

-- The result behind `cmd.Run()`.
unfoldable pub conclude : Duration → Execution → Outcome RunError RunResult
unfolding captured conclude_failed
conclude timeout x =
    let out = captured true x.writes in
    let err = captured false x.writes in
    elim x.status [
      | succeeded ↦ ok (record { stdout = out; stderr = err })
      | exited n ↦ conclude_failed timeout (exited n) x.past_deadline out err
      | broken ↦ conclude_failed timeout broken x.past_deadline out err
    ]

-- The command of a request, or the error in front of the process.
unfoldable pub prepare : Request → Outcome RunError Command
unfolding command_of build_args
prepare req =
    if is_nil req.recipe.id
    then fail (structured (params_error missing_target))
    else elim (build_args req.recipe req.args (source_makefile req)) [
      | fail e ↦ fail (structured e)
      | ok argv ↦ ok (command_of req argv)
    ]

-- `RunStream`: the result, and the writes that reach the two optional writers.
unfoldable pub run_stream :
    (Command → Execution) → Request → Bool → Outcome RunError RunResult × List (Bool × Text)
unfolding prepare conclude
run_stream exec req streaming = elim (prepare req) [
  | fail e ↦ (fail e, [])
  | ok cmd ↦ (conclude cmd.deadline (exec cmd), if streaming then (exec cmd).writes else [])
]

-- `Run`.
unfoldable pub run : (Command → Execution) → Request → Outcome RunError RunResult
unfolding run_stream
run exec req = (run_stream exec req false).0
