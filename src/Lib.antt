-- ===== src/Lib.antt =====
-- make-mcp: a server that offers the annotated targets of Makefiles as tools of the Model Context
-- Protocol. This library models the program's parser, configuration, runner, tool server, file watcher
-- and main program as functions and step relations, and proves what makes them correct.
--
-- The parts and their files. A definition has the name of the Go function it models, in snake case.
--   Common, Text, Dict, Go: the language and its standard library as the program uses it: texts as lists
--     of code points with the functions of `strings`, maps as lists of entries, `mime.ParseMediaType`,
--     `strconv`, `path/filepath`, and floats as dyadic fractions.
--   Schema: pkg/parser/schema.go: recipes, `Validate` and the result of a parse.
--   Parser: pkg/parser/parser.go. Annotation, Target and Params hold the three patterns and their parsers,
--     Hints the tool hints and strict mode, Lines the scan of one Makefile as a step on the pending block
--     and the result, Files the reads of one and of several Makefiles. Print holds recipes as annotated
--     lines, the specification of the round trip.
--   Config: pkg/config/config.go, and `loadConfig` of cmd/mcp-server/main.go.
--   Runner: pkg/runner/runner.go. Args makes the argument vector of `make`, with Decimal about the printed
--     numbers, Floats about the conversion of floats and Accepts about what is taken; Stream holds the
--     command and the result of the process.
--   Server: pkg/server. Tools holds tools.go, with JsonType and Conforms about
--     the announced input schema, Registry the registry with `New`, `Ready` and `Reload`, Call
--     the handler of a tool call, Metrics the hooks around the list of tools and what each event records.
--     Refines holds the specification of the server as a plain list of recipes.
--   Watcher: pkg/watcher/watcher.go. Steps holds the steps of its goroutines in any order and Safe what
--     they keep; Sends, Flush, Full, Waits and Rearm are about one run of `flush`, Drains about its end.
--   Telemetry: pkg/telemetry. Metrics holds metrics.go with a record as a value, Setup holds telemetry.go:
--     the choice of the exporters and the shutdown; Instruments the creation of the instruments.
--   Main: cmd/mcp-server/main.go: `run` up to the new server, and `watchLoop` event by event. Reload is about
--     one event, Reach about all states that a run reaches. Transports holds the goroutines of the
--     transports and the end of `run` as steps in any order. Lifetime holds the whole of `run` behind the
--     command line, with what it opens and closes; Begins is about what it has set up. System composes the
--     disk, `fsnotify`, the watcher and `watchLoop`, with the watches that end and the changes that come
--     neither as a write nor as a creation or a rename. Waits follows a change through the watcher, Watched a
--     path whose watch has ended, Accounted a change to the server, and Current is about the state at
--     rest; Runs, Room and Settles are about the way to it.
--   ValidateCommand: cmd/validate/main.go: the lines that the command prints and its exit status; Verdict
--     compares it with the start of the server.
--   Http: pkg/server/transport/http.go: the routes of the HTTP transport and its trace context; Ready is about
--     `/ready`.
--   CiDoc: cmd/gen-ci-doc/main.go. Files orders and reads the workflow files, Workflow reads a decoded one,
--     Graph renders the jobs, with Arrows about the drawn lines, Ruleset the branch rules, Newlines holds
--     `normalizeNewlines`, Page the data of the page, Run the whole from the disk to the exit status.
--   MetricsDoc: cmd/gen-metrics-doc/main.go. Tree is the part of Go's syntax trees that the generator asks
--     for, Keys and Labels collect the keys of the attributes, Defs the definitions of the metrics, Page
--     merges them and Run writes the page.
--   CoverCheck: internal/covercheck/covercheck.go: the coverage of a profile and the exit code; Sums compares
--     it with the lines of the profile.
--   TestTelemetry: internal/testtel/testtel.go: the telemetry of a test binary.
--   Tests: runs on concrete data.
--
-- How they interact: `start` loads the configuration, parses the Makefiles and makes the server; a file
-- event parses them anew and swaps the registry; a tool call looks up its recipe there, and the runner
-- turns it into one process. The runner's errors become the results of the call. The program's state is
-- `App`, the configuration in force and the server; a lock-protected method is one step. Errors are values
-- of `Outcome`; an error has a constructor for what its message says.
--
-- Parameters, for what is outside the repository: the files and what they hold at each time (`FileSystem`,
-- `ConfigFiles`), the process and its output (an `Execution` for each command), the events of `fsnotify`,
-- the clock readings, the results of the OpenTelemetry library, and the order in which Go hands out the
-- entries of a map.
--
-- Bounds: a scanned line has fewer than 65536 bytes, as in `bufio.Scanner`; both channels of the watcher
-- hold 16 items and the channel of the transports' errors holds 2; an `int64` has 64 bits, and a float out
-- of its range, whose conversion Go leaves to the implementation, converts as on amd64 or as on arm64.
-- The loop over the parameters of a media type has fuel for one round per character, and each round takes
-- one; the decimal print has fuel above the number of digits. All other loops are structural.
--
-- Not modelled: flag parsing, YAML decoding, the glob, logging, the spans of a call, the listener of the HTTP
-- server, Go's parser and the templates, and the OpenTelemetry library, which are calls of outside
-- code; `fmt.Sscanf` and the arithmetic of floats in the coverage check, which are arguments; the rendered
-- text of an error. `fsnotify` is taken to close its channels only for `Close`, so the two returns of the loop
-- for a closed channel are not steps of their own. Text is a list of code points: a byte that is no valid
-- UTF-8 stands as U+FFFD.
pub mod Common
pub mod Text
pub mod Dict
pub mod Go
pub mod Schema
pub mod Parser
pub mod Config
pub mod Runner
pub mod Server
pub mod Watcher
pub mod Main
pub mod ValidateCommand
pub mod Http
pub mod CiDoc
pub mod MetricsDoc
pub mod Telemetry
pub mod CoverCheck
pub mod TestTelemetry
pub mod Tests
