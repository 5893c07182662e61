-- ===== src/Main/Transports.antt =====
-- The end of `run` of cmd/mcp-server/main.go: the transports in their goroutines, the channel of their errors,
-- and what `run` returns. The steps of the goroutines come in any order.
pub mod Ends
use make_mcp.Common.{
  ℕ, ◌+◌, ◌-◌, ◌<◌, ◌≡◌, Bool, true, false, ◌||◌, Option, none, some, List, [], ◌∷◌, ◌++◌,
  if◌then◌else◌, length,
}
use make_mcp.Text.{Text, codes, ◌=?◌}
use make_mcp.Config.{Config}

-- The result of a transport: nil, an error that is `context.Canceled`, or another error.
pub data ServeResult : Type 0 where
  no_error canceled : ServeResult
  failed : Text → ServeResult

-- The goroutine of a transport: it serves, has sent its result, or has ended behind its deferred call.
pub data Goroutine : Type 0 where
  not_started serving reported ended : Goroutine

-- `errCh` is the content of the channel, `clients` the value of `ConnectedClients`, and `returned` what `run`
-- has returned, if it has.
pub record Transports : Type 0 where
  pub stdio : Goroutine
  pub http : Goroutine
  pub err_ch : List ServeResult
  pub clients : ℕ
  pub http_shut : Bool
  pub returned : Option ServeResult

-- The capacity of `errCh`.
abbrev pub err_capacity : ℕ
err_capacity = 2

abbrev runs_stdio : Config → Bool
runs_stdio cfg = cfg.transport =? codes "stdio" || cfg.transport =? codes "both"

abbrev runs_http : Config → Bool
runs_http cfg = cfg.transport =? codes "http" || cfg.transport =? codes "both"

abbrev goroutine_if : Bool → Goroutine
goroutine_if started = if started then serving else not_started

abbrev one_if : Bool → ℕ
one_if started = if started then 1 else 0

-- The start of the transports.
unfoldable pub start_transports : Config → Transports
unfolding ◌=?◌
start_transports cfg = record {
  stdio = goroutine_if (runs_stdio cfg);
  http = goroutine_if (runs_http cfg);
  err_ch = [];
  clients = one_if (runs_stdio cfg) + one_if (runs_http cfg);
  http_shut = false;
  returned = none;
}

-- What `run` returns for the received result.
unfoldable pub result_of : ServeResult → ServeResult
result_of no_error = no_error
result_of canceled = no_error
result_of (failed e) = failed e

abbrev pub is_started : Goroutine → Bool
is_started not_started = false
is_started _ = true

-- One step of a goroutine or of the `select`.
pub data Step : Transports → Transports → Type 0 where
  stdio_reports :
      (t : Transports) (r : ServeResult)
      → t.stdio ≡ serving
      → length t.err_ch < err_capacity
      → Step t (record t { stdio = reported; err_ch = t.err_ch ++ r ∷ [] })
  stdio_ends :
      (t : Transports)
      → t.stdio ≡ reported
      → Step t (record t { stdio = ended; clients = t.clients - 1 })
  http_reports :
      (t : Transports) (r : ServeResult)
      → t.http ≡ serving
      → length t.err_ch < err_capacity
      → Step t (record t { http = reported; err_ch = t.err_ch ++ r ∷ [] })
  http_ends :
      (t : Transports)
      → t.http ≡ reported
      → Step t (record t { http = ended; clients = t.clients - 1 })
  -- `<-ctx.Done()`.
  interrupted :
      (t : Transports)
      → t.returned ≡ none
      → Step t (record t { http_shut = is_started t.http; returned = some no_error })
  -- `err := <-errCh`.
  received :
      (t : Transports) (r : ServeResult) (rest : List ServeResult)
      → t.returned ≡ none
      → t.err_ch ≡ r ∷ rest
      → Step t (record t { err_ch = rest; returned = some (result_of r) })

pub data Reached (cfg : Config) : Transports → Type 0 where
  started : Reached cfg (start_transports cfg)
  next : {t u : Transports} → Reached cfg t → Step t u → Reached cfg u
