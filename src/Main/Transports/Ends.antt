-- ===== src/Main/Transports/Ends.antt =====
-- The channel of errors always has room, the gauge of clients counts the transports, and `run` can return as
-- soon as a transport has ended.
use make_mcp.Common.{
  ℕ, ◌+◌, ◌≤◌, ◌≡◌, ap, Option, none, some, [], ◌∷◌, arith, length, length-append,
}
use make_mcp.Config.{Config}
use make_mcp.Main.Transports.{
  Goroutine, serving, reported, ended, ServeResult, Transports, err_capacity, start_transports,
  Step, stdio_reports, stdio_ends, http_reports, http_ends, interrupted, received, Reached, started,
  next,
}

-- 1 for a goroutine that still serves.
abbrev pub busy : Goroutine → ℕ
busy serving = 1
busy _ = 0

-- 1 for a goroutine that has not run its deferred call.
abbrev pub connected : Goroutine → ℕ
connected serving = 1
connected reported = 1
connected _ = 0

-- 1 for a goroutine that has sent its result.
abbrev pub sent : Goroutine → ℕ
sent reported = 1
sent ended = 1
sent _ = 0

abbrev pub taken : Option ServeResult → ℕ
taken none = 0
taken (some r) = 1

-- `room`: those that still serve find room in the channel. `counted`: the clients are the connected
-- transports. `pending`: what was sent is in the channel, but for a result that `run` has taken.
pub record IsFair (t : Transports) : Type 0 where
  pub room : length t.err_ch + busy t.stdio + busy t.http ≤ err_capacity
  pub counted : t.clients ≡ connected t.stdio + connected t.http
  pub pending : sent t.stdio + sent t.http ≤ length t.err_ch + taken t.returned

start_transports-IsFair : (cfg : Config) → IsFair (start_transports cfg)
unfolding start_transports
start_transports-IsFair cfg = ground arith

Step-IsFair : {t u : Transports} → Step t u → IsFair t → IsFair u
Step-IsFair (stdio_reports t r s l) f =
    ground (arith, length-append t.err_ch (r ∷ []), ap busy s, ap connected s, ap sent s)
Step-IsFair (stdio_ends t s) f = ground (arith, ap busy s, ap connected s, ap sent s)
Step-IsFair (http_reports t r s l) f =
    ground (arith, length-append t.err_ch (r ∷ []), ap busy s, ap connected s, ap sent s)
Step-IsFair (http_ends t s) f = ground (arith, ap busy s, ap connected s, ap sent s)
Step-IsFair (interrupted t n) f = ground (arith, ap taken n)
Step-IsFair (received t r rest n e) f = ground (arith, ap taken n, ap (λ l. length l) e)

-- Whatever the transport and the order of the steps: a transport that still serves can always send its result
-- at once, since the channel has room for it; `ConnectedClients` is the number of the transports that have not
-- ended; and as long as `run` has not returned, a result that was sent is there to be taken.
pub Reached-IsFair : (cfg : Config) {t : Transports} → Reached cfg t → IsFair t
Reached-IsFair cfg started = start_transports-IsFair cfg
Reached-IsFair cfg (next r s) = Step-IsFair s (Reached-IsFair cfg r)
