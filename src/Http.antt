-- ===== src/Http.antt =====
-- pkg/server/transport/http.go: the routes of the HTTP transport. The MCP handler, what OpenTelemetry reads
-- and starts, and the listener are outside; a path is as the multiplexer has cleaned it.
pub mod Ready
use make_mcp.Common.{ℕ, not, Option, none, some, List, [], ◌∷◌, ◌++◌, if◌then◌else◌}
use make_mcp.Text.{Text, codes, ◌=?◌}
use make_mcp.Dict.{Dict, insert}
use make_mcp.Server.Registry.{ToolServer, ready}

pub record HttpRequest : Type 0 where
  pub method : Text
  pub path : Text

-- What the response writer holds at the end.
pub record HttpResponse : Type 0 where
  pub status : ℕ
  pub headers : Dict Text
  pub body : Text

-- A handler, with the headers that were set before it.
abbrev pub Handler : Type 0
Handler = HttpRequest → Dict Text → HttpResponse

abbrev cors_headers : Dict Text
cors_headers =
    (codes "Access-Control-Allow-Origin", codes "*")
    ∷ (codes "Access-Control-Allow-Methods", codes "GET, POST, DELETE, OPTIONS")
    ∷ (
      codes "Access-Control-Allow-Headers",
      codes "Content-Type, Authorization, mcp-session-id, mcp-protocol-version, Last-Event-ID",
    )
    ∷ (codes "Access-Control-Expose-Headers", codes "mcp-session-id")
    ∷ []

-- `w.Header().Set` of each.
unfoldable pub set_all : Dict Text → Dict Text → Dict Text
unfolding insert
set_all [] headers = headers
set_all ((k, v) ∷ rest) headers = set_all rest (insert k v headers)

-- `corsMiddleware`.
unfoldable pub cors_middleware : Handler → Handler
unfolding set_all ◌=?◌
cors_middleware next req headers =
    if req.method =? codes "OPTIONS"
    then record { status = 204; headers = set_all cors_headers headers; body = [] }
    else next req (set_all cors_headers headers)

unfoldable pub health : Handler
health req headers = record { status = 200; headers = headers; body = codes "ok" ++ 10 ∷ [] }

-- The handler of `/ready`; `http.Error` sets two headers and ends the body with a newline of its own.
unfoldable pub ready_handler : ToolServer → Handler
unfolding set_all ready
ready_handler s req headers =
    if not (ready s)
    then record {
      status = 503;
      headers =
          set_all
            ((codes "Content-Type", codes "text/plain; charset=utf-8")
              ∷ (codes "X-Content-Type-Options", codes "nosniff")
              ∷ [])
            headers;
      body = codes "not ready" ++ 10 ∷ 10 ∷ [];
    }
    else record { status = 200; headers = headers; body = codes "ready" ++ 10 ∷ [] }

-- The multiplexer of `NewHTTPServer`, over the handler behind the cross-origin headers and the one for other
-- paths.
unfoldable pub serve_http : Handler → Handler → ToolServer → HttpRequest → HttpResponse
unfolding ◌=?◌ cors_middleware health ready_handler
serve_http mcp not_found s req =
    if req.path =? codes "/mcp"
    then cors_middleware mcp req []
    else if req.path =? codes "/health"
    then health req []
    else if req.path =? codes "/ready"
    then ready_handler s req []
    else not_found req []

-- The span of a request, by its attributes.
pub record HttpSpan : Type 0 where
  pub method : Text
  pub route : Text

module _ {C : Type 0} (extract : HttpRequest → C) (start : C → HttpSpan → C) where
  -- `propagateTraceContext`: `extract` reads a context out of the headers, `start` starts a span in it.
  unfoldable pub propagate_trace_context : (C → Handler) → Handler
  propagate_trace_context next req headers =
      next (start (extract req) (record { method = req.method; route = codes "/mcp" })) req headers

  -- The handler of `NewHTTPServer`.
  unfoldable pub new_http_handler :
      (C → Handler) → Handler → ToolServer → HttpRequest → HttpResponse
  unfolding propagate_trace_context serve_http
  new_http_handler inner not_found s req =
      serve_http (propagate_trace_context inner) not_found s req

-- The two parts of the transport.
pub data HttpPart : Type 0 where
  mcp_handler listener : HttpPart

-- `Shutdown`: the parts that are shut down, in their order, and the error; `result` is that of each call.
unfoldable pub shutdown_http : (HttpPart → Option Text) → List HttpPart × Option Text
shutdown_http result = elim (result mcp_handler) [
  | some e ↦ (mcp_handler ∷ [], some e)
  | none ↦ (mcp_handler ∷ listener ∷ [], result listener)
]
