-- ===== src/Tests/Running.antt =====
-- Tests and examples of the runner and of a call.
use make_mcp.Common.{
  ◌/◌, ◌%◌, ◌^◌, ◌≡◌, refl, ◌≢◌, ◌⊎◌, inl, inr, true, false, ◌&&◌, some, List, [], ◌∷◌, ◌++◌, ◌==◌,
  if◌then◌else◌, Bool-cases, All,
}
use make_mcp.Common.Outcome.{ok}
use make_mcp.Text.{Text, codes, ◌=?◌}
use make_mcp.Text.Equal.{=?_iff}
use mathlib.Core.Path.{subst}
use make_mcp.Dict.{Dict, lookup}
use make_mcp.Schema.{Param, Recipe}
use make_mcp.Go.Strconv.{pos, format_int, format_nat, negsuc}
use make_mcp.Runner.Args.Floats.{is_limit}
use make_mcp.Go.Float.{
  finite, signed, in_range, amd64, arm64, int64_max, float_eq, to_int64, beyond_int64, of_int64,
}
use make_mcp.Parser.Params.{is_param_name}
use make_mcp.Parser.Params.Sound.{IsParam, ParamsOf}
use make_mcp.Runner.Args.{
  float_text, int_text, Value, str, int, float64, stringify_value, build_args, file_args, wrong,
  uint, params_of,
}
use make_mcp.Server.Tools.{Tool, properties_of}
use make_mcp.Server.Tools.Conforms.{Conforms}
use make_mcp.Runner.Args.Shape.{IsAssignment, build_args-shape}
use make_mcp.Runner.Args.Order.{SameMap, build_args-SameMap}
use make_mcp.Runner.Args.Values.{wanted, stringify_value-float64, stringify_value-total}
use make_mcp.Runner.Stream.{Request, Command, prepare, run_stream}
use make_mcp.Runner.Stream.Outcomes.{
  Reports, Streamed, IsCommand, run_stream-Reports, run_stream-Streamed, prepare-IsCommand,
}
use make_mcp.Server.Call.{result, run_request, call_recipe, stream_token}
use make_mcp.Server.Call.Laws.{Interleaves, call_recipe-progress}
use make_mcp.Tests.{build, build_tool, jobs, sample_server, sample_cfg, call_build, prints}
use make_mcp.Runner.Args.Decimal.{read_decimal, all_digits, stringify_value-read_decimal}

-- The request that a call of the recipe makes, and its command.
abbrev request : Request
request = run_request sample_cfg build call_build.arguments

abbrev command : Command
command = record {
  path = codes "make";
  argv = codes "--no-print-directory" ∷ codes "build" ∷ codes "JOBS=4" ∷ [];
  dir = codes ".";
  deadline = pos 600_000_000_000;
}

prepare_test : prepare request ≡ ok command
unfolding prepare run_request
prepare_test = refl

jobs-IsParam : IsParam jobs
jobs-IsParam = record { named = unfold is_param_name in refl; typed = inr (inl refl) }

build_params : ParamsOf build.params
build_params = (jobs-IsParam, tt)

prepare-IsCommand_example : IsCommand request command
unfolding run_request
prepare-IsCommand_example = prepare-IsCommand request build_params prepare_test

run_stream-Reports_example : Reports (prints command) (run_stream prints request true).0
run_stream-Reports_example = run_stream-Reports prints request true prepare_test

run_stream-Streamed_test :
    Streamed (run_stream prints request true).1 (run_stream prints request true).0
    ⊎ ((run_stream prints request true).1 ≡ []) × ((cmd : Command) → prepare request ≢ ok cmd)
run_stream-Streamed_test = run_stream-Streamed prints request

call_token : stream_token call_build ≡ some (codes "t1")
unfolding stream_token
call_token = refl

call_shows :
    (call_recipe prints sample_server.cfg build call_build).response
    ≡ result (record { is_error = false; content = codes "done" ∷ codes "warning" ∷ [] })
unfolding call_recipe prepare run_stream
call_shows = refl

call_recipe-progress_example :
    All (λ p. p.token ≡ codes "t1") (call_recipe prints sample_server.cfg build call_build).progress
    × Interleaves
        (call_recipe prints sample_server.cfg build call_build).progress
        (codes "done")
        (codes "warning")
call_recipe-progress_example =
    call_recipe-progress prints sample_server build call_build prepare_test call_token call_shows

-- Two arguments, in their two orders.
abbrev mode : Param
mode = record { name = codes "mode"; type = codes "string"; description = [] }

mode-IsParam : IsParam mode
mode-IsParam = record { named = unfold is_param_name in refl; typed = inl refl }

abbrev two_params : Recipe
two_params = record build { params = some (jobs ∷ mode ∷ []) }

abbrev jobs_first : Dict Value
jobs_first = (codes "jobs", int (pos 4)) ∷ (codes "mode", str (codes "fast")) ∷ []

abbrev mode_first : Dict Value
mode_first = (codes "mode", str (codes "fast")) ∷ (codes "jobs", int (pos 4)) ∷ []

orders-SameMap : SameMap jobs_first mode_first
unfolding lookup ◌=?◌
orders-SameMap k = elim (Bool-cases (codes "jobs" =? k)) [
  | inl y ↦
      subst (λ k. lookup k jobs_first ≡ lookup k mode_first) ((=?_iff (codes "jobs") k).0 y) refl
  | inr n ↦ rw n refl
]

build_args_test :
    build_args two_params jobs_first (codes "ci/Makefile")
    ≡ ok (
        codes "--no-print-directory"
        ∷ codes "-f"
        ∷ codes "Makefile"
        ∷ codes "build"
        ∷ codes "JOBS=4"
        ∷ codes "MODE=fast"
        ∷ [])
unfolding build_args
build_args_test = refl

-- The tool of that recipe.
abbrev two_tool : Tool
two_tool = record build_tool {
  schema = record {
    type = codes "object";
    properties =
        (codes "jobs", record { type = codes "integer"; description = codes "Parallel jobs" })
        ∷ (codes "mode", record { type = codes "string"; description = [] })
        ∷ [];
  };
}

-- Two declarations of one name, with different types: the tool announces the second, and a value of
-- its type is refused by the first.
abbrev repeated : Recipe
repeated = record build { params = some (jobs ∷ record mode { name = codes "jobs" } ∷ []) }

repeated_test :
    build_args repeated ((codes "jobs", str (codes "fast")) ∷ []) []
    ≡ wrong (codes "jobs") (codes "integer") (str (codes "fast"))
unfolding build_args
repeated_test = refl

repeated_announced :
    properties_of (params_of repeated) []
    ≡ (codes "jobs", record { type = codes "string"; description = [] }) ∷ []
unfolding properties_of
repeated_announced = refl

build_args-SameMap_example :
    build_args two_params mode_first (codes "ci/Makefile")
    ≡ ok (
        codes "--no-print-directory"
        ∷ codes "-f"
        ∷ codes "Makefile"
        ∷ codes "build"
        ∷ codes "JOBS=4"
        ∷ codes "MODE=fast"
        ∷ [])
build_args-SameMap_example =
    build_args-SameMap two_params jobs_first mode_first (codes "ci/Makefile") orders-SameMap
      build_args_test

build_args-shape_test :
    (assigns : List Text) × (codes "--no-print-directory"
        ∷ codes "-f"
        ∷ codes "Makefile"
        ∷ codes "build"
        ∷ codes "JOBS=4"
        ∷ codes "MODE=fast"
        ∷ []
      ≡ codes "--no-print-directory" ∷ (file_args (codes "ci/Makefile") ++ two_params.id ∷ assigns))
    × All IsAssignment assigns
build_args-shape_test =
    build_args-shape two_params jobs_first (codes "ci/Makefile") (jobs-IsParam, (mode-IsParam, tt))
      build_args_test

stringify_value-float64_example : stringify_value jobs (float64 arm64 (finite false (2 ^ 64) 1)) ≡ (
    if 2 ^ 64 % 2 ^ 1 == 0 && in_range false (2 ^ 64 / 2 ^ 1)
    then ok (format_int (signed false (2 ^ 64 / 2 ^ 1)))
    else if is_limit arm64 false (2 ^ 64) 1
    then ok (format_int (pos int64_max))
    else wrong jobs.name (codes "integer") (float64 arm64 (finite false (2 ^ 64) 1)))
stringify_value-float64_example = stringify_value-float64 jobs arm64 false (2 ^ 64) 1 refl

-- 2 ^ 63 is refused on amd64, and printed as the integer below it on arm64.
limit_test :
    stringify_value jobs (float64 arm64 (finite false (2 ^ 63) 0))
    ≡ ok (codes "9223372036854775807")
unfolding stringify_value float_text int_text float_eq to_int64 beyond_int64 of_int64 format_int
    format_nat ◌=?◌
limit_test = refl

limit_amd64 :
    stringify_value jobs (float64 amd64 (finite false (2 ^ 63) 0))
    ≡ wrong (codes "jobs") (codes "integer") (float64 amd64 (finite false (2 ^ 63) 0))
unfolding stringify_value float_text float_eq to_int64 beyond_int64 of_int64 int_text ◌=?◌
limit_amd64 = refl

stringify_value-total_test :
    ((text : Text) × (stringify_value jobs (str (codes "4")) ≡ ok text))
    ⊎ (stringify_value jobs (str (codes "4"))
        ≡ wrong jobs.name (wanted jobs.type) (str (codes "4")))
stringify_value-total_test = stringify_value-total jobs (str (codes "4")) jobs-IsParam

stringify_value-read_decimal_example :
    ((s : Text) × (stringify_value jobs (int (negsuc 41)) ≡ ok s) × (read_decimal s ≡ negsuc 41))
    × ((s : Text) × (stringify_value jobs (uint 1024) ≡ ok s)
        × (read_decimal s ≡ pos 1024)
        × (all_digits s ≡ true))
stringify_value-read_decimal_example = stringify_value-read_decimal jobs (negsuc 41) 1024 refl
