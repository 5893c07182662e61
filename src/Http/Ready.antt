-- ===== src/Http/Ready.antt =====
-- What the readiness route answers in the states that the program reaches.
use make_mcp.Common.{◌≡◌, refl, ap, ◌∙◌, Bool, true, false, not, [], if◌then◌else◌, is_nil}
use make_mcp.Text.{codes, ◌=?◌}
use make_mcp.Server.Registry.{ToolServer, ready}
use make_mcp.Server.Registry.Reload.{ready-Serves}
use make_mcp.Main.{App}
use make_mcp.Main.{CommandLine}
use make_mcp.Main.Reach.{Reached, Reached-IsLive}
use make_mcp.Http.{HttpRequest, Handler, serve_http, ready_handler}

ready_handler-status :
    (s : ToolServer) (req : HttpRequest) (b : Bool)
    → ready s ≡ not b
    → (ready_handler s req []).status ≡ (if b then 503 else 200)
unfolding ready_handler
ready_handler-status s req true e = rw e refl
ready_handler-status s req false e = rw e refl

ready_route :
    (mcp not_found : Handler) (s : ToolServer) (req : HttpRequest)
    → req.path ≡ codes "/ready"
    → serve_http mcp not_found s req ≡ ready_handler s req []
unfolding serve_http ◌=?◌
ready_route mcp not_found s req e = rw e refl

-- In every state that the program reaches, a request for `/ready`, by whatever method, is answered with
-- 200 exactly if the parse in force has a recipe, and else with 503: a parse of Makefiles without any
-- annotated target is not ready.
pub serve_http-ready :
    {line : CommandLine} {app : App} (mcp not_found : Handler) (req : HttpRequest)
    → req.path ≡ codes "/ready"
    → (reached : Reached line app)
    → (serve_http mcp not_found app.server req).status
      ≡ (if is_nil (Reached-IsLive reached).parsed.recipes then 503 else 200)
serve_http-ready {line} {app} mcp not_found req e reached =
    let live = Reached-IsLive reached in
    ap (λ r. r.status) (ready_route mcp not_found app.server req e)
    ∙ ready_handler-status app.server req (is_nil live.parsed.recipes)
        (ready-Serves app.server live.parsed.recipes live.serves)
