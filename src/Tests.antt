-- ===== src/Tests.antt =====
-- A small annotated Makefile, its recipe and the server that it makes: the data of the tests.
mod Parsing
mod Running
mod Serving
mod Watching
mod Validating
mod Documenting
mod Metrics
mod Recording
mod Transporting
mod Printing
mod Covering
mod Reloading
use make_mcp.Common.{List, [], ◌∷◌, ◌++◌, some, none, true, false, if◌then◌else◌}
use make_mcp.Common.Outcome.{ok}
use make_mcp.Text.{Text, codes, ◌=?◌}
use make_mcp.Schema.{Param, Recipe, ToolHints}
use make_mcp.Parser.Lines.{ParseOptions}
use make_mcp.Parser.Files.{FileSystem}
use make_mcp.Parser.Files.Scan.{unlines}
use make_mcp.Config.{Config, ConfigFiles, zero_config, default_config}
use make_mcp.Server.Tools.{Tool, tool_annotations, tool_metadata}
use make_mcp.Server.Registry.{ToolServer, tools_registered}
use make_mcp.Server.Call.{CallRequest}
use make_mcp.Runner.Stream.{Command, Execution, succeeded}
use make_mcp.Runner.Args.{int}
use make_mcp.Go.Strconv.{pos}
use make_mcp.Main.{CommandLine, App}

abbrev pub note_lines : List Text
note_lines =
    codes "# @ name: Build"
    ∷ codes "# @ description: Compile"
    ∷ codes "# @ risk: low"
    ∷ codes "# @ param: jobs int | Parallel jobs"
    ∷ codes "# @ output: Log"
    ∷ codes "# @ output-type: text/plain"
    ∷ []

abbrev pub sample_text : Text
sample_text = unlines (note_lines ++ codes "build: main.go" ∷ (9 ∷ codes "go build") ∷ [])

abbrev pub jobs : Param
jobs = record { name = codes "jobs"; type = codes "int"; description = codes "Parallel jobs" }

abbrev pub no_hints : ToolHints
no_hints = record { read_only = none; destructive = none; idempotent = none; open_world = none }

abbrev pub recipe_from : Text → Recipe
recipe_from path = record {
  source_file = path;
  id = codes "build";
  name = codes "Build";
  description = codes "Compile";
  risk = codes "low";
  params = some (jobs ∷ []);
  output = codes "Log";
  output_type = codes "text/plain";
  tool_hints = no_hints;
}

abbrev pub build : Recipe
build = recipe_from (codes "Makefile")

abbrev pub lax : ParseOptions
lax = record { delimiter = codes "@"; strict = false }

abbrev pub only_build : FileSystem
only_build path =
    if path =? codes "Makefile"
    then some (record { text = sample_text; read_fails = false })
    else none

abbrev pub sample_cfg : Config
sample_cfg = record default_config { makefiles = codes "Makefile" ∷ [] }

abbrev pub sample_line : CommandLine
sample_line = record {
  config_path = codes "make-mcp.yml";
  flags = record zero_config { makefiles = codes "Makefile" ∷ [] };
}

abbrev pub empty_file : ConfigFiles
empty_file path = ok zero_config

abbrev pub build_tool : Tool
build_tool = record {
  name = codes "build";
  description = codes "Compile";
  schema = record {
    type = codes "object";
    properties =
        (codes "jobs", record { type = codes "integer"; description = codes "Parallel jobs" }) ∷ [];
  };
  annotations = tool_annotations build;
  meta = tool_metadata build;
}

abbrev pub sample_server : ToolServer
sample_server = record {
  cfg = sample_cfg;
  registry = record { tools = build_tool ∷ []; recipes = (codes "build", build) ∷ [] };
  listed = build_tool ∷ [];
  events = tools_registered (build ∷ []) ∷ [];
}

abbrev pub sample_app : App
sample_app = record { cfg = sample_cfg; server = sample_server }

abbrev pub call_build : CallRequest
call_build = record {
  name = codes "build";
  arguments = (codes "jobs", int (pos 4)) ∷ [];
  progress_token = some (codes "t1");
  has_session = true;
}

-- A process that prints two lines and succeeds.
abbrev pub prints : Command → Execution
prints cmd = record {
  writes = (true, codes "done") ∷ (false, codes "warning") ∷ [];
  status = succeeded;
  past_deadline = false;
}
