-- ===== src/Runner/Stream/Outcomes.antt =====
-- How a run ends, on every branch, and what reaches the writers.
use make_mcp.Common.{
  ℕ, zero, suc, ◌≡◌, refl, sym, ap, ◌∙◌, ◌≢◌, ◌⊎◌, inl, inr, Bool, true, false, none, some, List,
  [], ◌∷◌, ◌++◌, arith, All,
}
use make_mcp.Common.Outcome.{Outcome, ok, fail}
use make_mcp.Text.{Text, codes}
use make_mcp.Go.Strconv.{ℤ, pos, negsuc}
use make_mcp.Parser.Params.Sound.{ParamsOf}
use make_mcp.Config.{Duration}
use make_mcp.Runner.Args.{RunnerError, tool_timeout, tool_exit_nonzero, build_args, file_args}
use make_mcp.Runner.Args.Shape.{IsAssignment, build_args-shape}
use make_mcp.Runner.Stream.{
  Request, Command, Execution, Status, succeeded, exited, broken, RunResult, RunError, structured,
  unstructured, captured, conclude, conclude_failed, prepare, run_stream, working_dir, command_of,
  source_makefile, or_text, effective_timeout,
}

-- The error carries both captured streams.
pub record Carries (x : Execution) (e : RunnerError) : Type 0 where
  pub out : e.stdout ≡ captured true x.writes
  pub err : e.stderr ≡ captured false x.writes

-- What `RunStream` must return for what the process did.
abbrev pub Reports : Execution → Outcome RunError RunResult → Type 0
Reports x (ok r) =
    (x.status ≡ succeeded)
    × (r.stdout ≡ captured true x.writes)
    × (r.stderr ≡ captured false x.writes)
Reports x (fail (structured e)) =
    (x.status ≢ succeeded)
    × Carries x e
    × ((x.past_deadline ≡ true)
          × (e.code ≡ tool_timeout)
          × (e.timed_out ≡ true)
          × (e.exit_code ≡ none)
        ⊎ (n : ℤ) × (x.past_deadline ≡ false)
          × (x.status ≡ exited n)
          × (e.code ≡ tool_exit_nonzero)
          × (e.timed_out ≡ false)
          × (e.exit_code ≡ some n))
Reports x (fail unstructured) = (x.status ≡ broken) × (x.past_deadline ≡ false)

Reports-fields :
    (d : Duration) (w : List (Bool × Text)) (s : Status) (past : Bool)
    → let x : Execution = record { writes = w; status = s; past_deadline = past } in
      Reports x (conclude d x)
unfolding conclude conclude_failed
Reports-fields d w succeeded past = (refl, refl, refl)
Reports-fields d w (exited n) true =
    (λ e. cc, record { out = refl; err = refl }, inl (refl, refl, refl, refl))
Reports-fields d w (exited n) false =
    (λ e. cc, record { out = refl; err = refl }, inr (n, refl, refl, refl, refl, refl))
Reports-fields d w broken true =
    (λ e. cc, record { out = refl; err = refl }, inl (refl, refl, refl, refl))
Reports-fields d w broken false = (refl, refl)

-- A request that is in order gets the report of its process: success exactly for a process that
-- succeeded, also behind the deadline, with the two streams as captured; else, past the deadline, the
-- timeout error; else the exit code; and the plain error only for a process that could not run. The
-- structured errors carry both captured streams.
pub run_stream-Reports :
    (exec : Command → Execution) (req : Request) (streaming : Bool) {cmd : Command}
    → prepare req ≡ ok cmd
    → Reports (exec cmd) (run_stream exec req streaming).0
unfolding run_stream
run_stream-Reports exec req streaming {cmd} e =
    rw (e, run_stream)
      (Reports-fields cmd.deadline (exec cmd).writes (exec cmd).status (exec cmd).past_deadline)

-- The writes, stream by stream, are the output that is returned.
abbrev pub Streamed : List (Bool × Text) → Outcome RunError RunResult → Type 0
Streamed w (ok r) = (captured true w ≡ r.stdout) × (captured false w ≡ r.stderr)
Streamed w (fail (structured e)) = (captured true w ≡ e.stdout) × (captured false w ≡ e.stderr)
Streamed w (fail unstructured) = Unit

Streamed-fields :
    (d : Duration) (w : List (Bool × Text)) (s : Status) (past : Bool)
    → Streamed w (conclude d (record { writes = w; status = s; past_deadline = past }))
unfolding conclude conclude_failed
Streamed-fields d w succeeded past = (refl, refl)
Streamed-fields d w (exited n) true = (refl, refl)
Streamed-fields d w (exited n) false = (refl, refl)
Streamed-fields d w broken true = (refl, refl)
Streamed-fields d w broken false = tt

-- With writers, the writes that reach them are, stream by stream, the output of the result or of the
-- structured error of the process, and a request that is refused before the process streams nothing.
pub run_stream-Streamed :
    (exec : Command → Execution) (req : Request)
    → Streamed (run_stream exec req true).1 (run_stream exec req true).0
      ⊎ ((run_stream exec req true).1 ≡ []) × ((cmd : Command) → prepare req ≢ ok cmd)
unfolding run_stream
run_stream-Streamed exec req = go (prepare req) refl
  where
    go :
        (o : Outcome RunError Command)
        → prepare req ≡ o
        → Streamed (run_stream exec req true).1 (run_stream exec req true).0
          ⊎ ((run_stream exec req true).1 ≡ []) × ((cmd : Command) → prepare req ≢ ok cmd)
    go (ok cmd) e =
        rw (e, run_stream)
          (inl (
            Streamed-fields cmd.deadline (exec cmd).writes (exec cmd).status
              (exec cmd).past_deadline))
    go (fail x) e = rw (e, run_stream) (inr (refl, λ cmd h. cc))

-- The command that a request leads to.
pub record IsCommand (req : Request) (cmd : Command) : Type 0 where
  pub assigns : List Text
  pub argv :
      cmd.argv
      ≡ codes "--no-print-directory" ∷ (file_args (source_makefile req) ++ req.recipe.id ∷ assigns)
  pub assigned : All IsAssignment assigns
  pub dir : cmd.dir ≡ or_text req.root_dir (working_dir req.recipe.source_file)
  pub deadline : (n : ℕ) × (cmd.deadline ≡ pos (suc n))
  pub named : req.recipe.id ≢ []

effective_timeout-positive : (d : Duration) → (n : ℕ) × (effective_timeout d ≡ pos (suc n))
effective_timeout-positive (pos zero) = (599_999_999_999, refl)
effective_timeout-positive (pos (suc n)) = (n, refl)
effective_timeout-positive (negsuc n) = (599_999_999_999, refl)

-- For a recipe with well-formed parameters, the command of a request in order runs the recipe's own
-- target with assignments behind it only, in the root directory where one is set and else in that of
-- the recipe's Makefile, with a positive deadline.
pub prepare-IsCommand :
    (req : Request) {cmd : Command}
    → ParamsOf req.recipe.params
    → prepare req ≡ ok cmd
    → IsCommand req cmd
unfolding prepare command_of
prepare-IsCommand req {cmd} h e = go (build_args req.recipe req.args (source_makefile req)) refl
  where
    go :
        (o : Outcome RunnerError (List Text))
        → build_args req.recipe req.args (source_makefile req) ≡ o
        → IsCommand req cmd
    go (fail x) b = absurd (ground arith)
    go (ok argv) b =
        let (assigns, shape, all) =
          build_args-shape req.recipe req.args (source_makefile req) h b in
        let same : command_of req argv ≡ cmd = ground arith in
        record {
          assigns = assigns;
          argv = ap (λ c. c.argv) (sym same) ∙ shape;
          assigned = all;
          dir = ap (λ c. c.dir) (sym same);
          deadline = (
            (effective_timeout-positive req.timeout).0,
            ap (λ c. c.deadline) (sym same) ∙ (effective_timeout-positive req.timeout).1,
          );
          named = ground arith;
        }
