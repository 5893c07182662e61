-- ===== src/Tests/Serving.antt =====
-- Tests and examples of the running server.
use make_mcp.Common.{
  ◌≡◌, refl, ◌⊎◌, true, false, none, List, [], ◌∷◌, ◌++◌, if◌then◌else◌, is_nil, All,
}
use make_mcp.Common.Outcome.{ok, fail, ◌>>=◌}
use make_mcp.Text.{Text, codes, ◌=?◌, is_space}
use make_mcp.Dict.{Dict, lookup}
use make_mcp.Schema.{Recipe, valid, validate_content_type, is_risk}
use make_mcp.Go.Mime.{media_type_error}
use make_mcp.Parser.Lines.Merge
use make_mcp.Parser.Files.{parse_makefiles}
use make_mcp.Parser.Files.Sound.{IsFrom, parse_makefiles-IsFrom, parse_makefiles-append}
use make_mcp.Config.{Config, load_config, zero_config, default_config, merge}
use make_mcp.Server.Tools.{Tool, build_server_tools}
use make_mcp.Server.Tools.Index.{tool_names, recipe_ids, last_recipe, build_server_tools-Built}
use make_mcp.Server.Registry.{
  get_recipe, ready, new, swap, reload, list_changed, reload_recorded, tools_registered,
}
use make_mcp.Server.Registry.Reload.{Serves, reload-Serves}
use make_mcp.Server.Call.{handle_tool_call}
use make_mcp.Server.Call.Laws.{Runs, not_found}
use make_mcp.Http.{HttpRequest, HttpResponse, HttpSpan, Handler, serve_http, new_http_handler}
use make_mcp.Http.Ready.{serve_http-ready}
use make_mcp.Main.{
  start, parse_and_serve, serve, parse_options, check_config, check_result, is_transport,
  watch_event, is_config_event, no_makefiles, CommandLine, record_failure,
}
use make_mcp.Main.Reload.{
  Installs, watch_event_cases, watch_event-server_cfg, watch_event-no_makefiles,
}
use make_mcp.Main.Reach.{Reached, IsLive, started, event, Reached-IsLive, Reached-handle_tool_call}
use make_mcp.Tests.{
  sample_app, sample_line, sample_cfg, sample_server, empty_file, only_build, prints, call_build,
  build, lax,
}

parse_test :
    parse_makefiles only_build (parse_options sample_cfg) sample_cfg.makefiles
    ≡ ok (record { recipes = build ∷ []; errors = [] })
unfolding parse_makefiles ◌=?◌ is_space validate_content_type media_type_error is_risk
parse_test = refl

load_test : load_config empty_file sample_line.config_path sample_line.flags ≡ ok sample_cfg
unfolding load_config merge
load_test = refl

new_test : new sample_cfg (build ∷ []) ≡ ok sample_server
unfolding new build_server_tools swap
new_test = refl

pub start_test : start empty_file only_build sample_line ≡ ok sample_app
unfolding start parse_and_serve serve check_config check_result new build_server_tools swap
    parse_makefiles valid load_config merge is_transport ◌=?◌ is_space validate_content_type
    media_type_error is_risk
start_test = refl

sample-Reached : Reached sample_line sample_app
sample-Reached = started empty_file only_build start_test

-- The Makefile after an edit.
edited_app :
    Reached sample_line
      (watch_event empty_file only_build sample_line sample_app (codes "Makefile"))
edited_app = event empty_file only_build (codes "Makefile") sample-Reached refl

pub sample_served : Serves sample_server (build ∷ [])
unfolding get_recipe ◌=?◌
sample_served = record { listed = refl; names = refl; latest = λ name. refl }

Reached-handle_tool_call_example :
    ((get_recipe sample_app.server.registry call_build.name ≡ none)
      × (handle_tool_call prints sample_app.server call_build ≡ not_found))
    ⊎ (rs : List Recipe) × All (IsFrom sample_app.cfg.strict sample_app.cfg.makefiles) rs
      × Runs prints sample_app.server rs call_build
Reached-handle_tool_call_example = Reached-handle_tool_call prints call_build sample-Reached

Reached-IsLive_example :
    IsLive (watch_event empty_file only_build sample_line sample_app (codes "Makefile"))
Reached-IsLive_example = Reached-IsLive edited_app

watch_event_cases_example :
    (watch_event empty_file only_build sample_line sample_app (codes "make-mcp.yml")
      ≡ record_failure (codes "make-mcp.yml") sample_app)
    ⊎ (next : Config) × ((is_config_event sample_line (codes "make-mcp.yml") ≡ false)
          × (next ≡ sample_app.cfg)
        ⊎ (is_config_event sample_line (codes "make-mcp.yml") ≡ true)
          × (load_config empty_file sample_line.config_path sample_line.flags ≡ ok next))
      × Installs only_build next
          (codes "make-mcp.yml")
          sample_app
          (watch_event empty_file only_build sample_line sample_app (codes "make-mcp.yml"))
watch_event_cases_example =
    watch_event_cases empty_file only_build sample_line sample_app (codes "make-mcp.yml")

watch_event-server_cfg_example :
    (watch_event empty_file only_build sample_line sample_app (codes "make-mcp.yml")).server.cfg
    ≡ sample_app.server.cfg
watch_event-server_cfg_example =
    watch_event-server_cfg empty_file only_build sample_line sample_app (codes "make-mcp.yml")

-- A command line with a configuration file and no Makefiles of its own.
abbrev file_line : CommandLine
file_line = record { config_path = codes "make-mcp.yml"; flags = zero_config }

file_line_event : is_config_event file_line (codes "make-mcp.yml") ≡ true
unfolding is_config_event ◌=?◌
file_line_event = refl

file_line_load : load_config empty_file file_line.config_path file_line.flags ≡ ok default_config
unfolding load_config merge
file_line_load = refl

watch_event-no_makefiles_example :
    ((watch_event empty_file only_build file_line sample_app (codes "make-mcp.yml")).cfg
      ≡ default_config)
    × (ready (watch_event empty_file only_build file_line sample_app (codes "make-mcp.yml")).server
        ≡ false)
    × (start empty_file only_build file_line ≡ fail no_makefiles)
watch_event-no_makefiles_example =
    watch_event-no_makefiles empty_file only_build file_line sample_app (codes "make-mcp.yml")
      file_line_event file_line_load refl

reload-Serves_test :
    ((reload sample_server (build ∷ []) (codes "Makefile")).1 ≡ true)
    × ((reload sample_server (build ∷ []) (codes "Makefile")).0.cfg ≡ sample_server.cfg)
    × Serves (reload sample_server (build ∷ []) (codes "Makefile")).0 (build ∷ [])
    × ((reload sample_server (build ∷ []) (codes "Makefile")).0.events
        ≡ sample_server.events
          ++ list_changed
            ∷ reload_recorded (codes "Makefile") true
            ∷ tools_registered (build ∷ [])
            ∷ [])
reload-Serves_test = reload-Serves sample_server (build ∷ []) (codes "Makefile")

build_server_tools-Built_test :
    (tools : List Tool) × (index : Dict Recipe) × (build_server_tools (build ∷ [])
      ≡ ok (tools, index))
    × (tool_names tools ≡ recipe_ids (build ∷ []))
    × ((id : Text) → lookup id index ≡ last_recipe id (build ∷ []) none)
build_server_tools-Built_test = build_server_tools-Built (build ∷ [])

parse_makefiles-IsFrom_example : All (IsFrom false (codes "Makefile" ∷ [])) (build ∷ [])
parse_makefiles-IsFrom_example =
    parse_makefiles-IsFrom only_build (parse_options sample_cfg) sample_cfg.makefiles parse_test
      (unfold valid in refl)

parse_makefiles-append_test :
    parse_makefiles only_build lax ((codes "Makefile" ∷ []) ++ (codes "gone.mk" ∷ [])) ≡ (
      parse_makefiles only_build lax (codes "Makefile" ∷ []) >>= λ a.
      parse_makefiles only_build lax (codes "gone.mk" ∷ []) >>= λ b. ok (Merge.merge a b))
parse_makefiles-append_test =
    parse_makefiles-append only_build lax (codes "Makefile" ∷ []) (codes "gone.mk" ∷ [])

abbrev get_ready : HttpRequest
get_ready = record { method = codes "GET"; path = codes "/ready" }

abbrev empty_reply : Handler
empty_reply req headers = record { status = 404; headers = headers; body = [] }

serve_http_test : (serve_http empty_reply empty_reply sample_server get_ready).status ≡ 200
unfolding serve_http ◌=?◌
serve_http_test = refl

-- A handler that answers with the route of its request's span.
abbrev route_reply : HttpSpan → Handler
route_reply span req headers = record { status = 200; headers = headers; body = span.route }

abbrev traced : HttpRequest → HttpResponse
traced =
    new_http_handler (λ req. record { method = []; route = [] }) (λ context span. span) route_reply
      empty_reply sample_server

abbrev mcp_by : Text → HttpRequest
mcp_by method = record { method = method; path = codes "/mcp" }

traced_test : (traced (mcp_by (codes "POST"))).body ≡ codes "/mcp"
unfolding new_http_handler ◌=?◌
traced_test = refl

-- A preflight request ends at the cross-origin headers.
preflight_test : (traced (mcp_by (codes "OPTIONS"))).status ≡ 204
unfolding new_http_handler ◌=?◌
preflight_test = refl

serve_http-ready_example :
    (serve_http empty_reply empty_reply sample_app.server get_ready).status
    ≡ (if is_nil (Reached-IsLive sample-Reached).parsed.recipes then 503 else 200)
serve_http-ready_example = serve_http-ready empty_reply empty_reply get_ready refl sample-Reached
