-- ===== src/Watcher/Sends.antt =====
-- One ready path in a run of `flush`: it is sent, or put back where the channel is full.
use make_mcp.Common.{ℕ, ◌+◌, ◌≡◌, refl, true, false, some, [], ◌∷◌, ◌++◌, ltb, leb, length}
use make_mcp.Text.{Text}
use make_mcp.Go.Strconv.{ℤ}
use make_mcp.Dict.{lookup, insert, delete}
use make_mcp.Watcher.{Watcher, capacity, send, visit}

pub send_room :
    (now : ℕ) (path : Text) (w : Watcher)
    → w.closed ≡ false
    → ltb (length w.events) capacity ≡ true
    → send now path w ≡ record w { events = w.events ++ path ∷ [] }
unfolding send
send_room now path w c e = rw (c, e) refl

pub send_full :
    (now : ℕ) (path : Text) (w : Watcher)
    → w.closed ≡ false
    → ltb (length w.events) capacity ≡ false
    → send now path w ≡ record w { pending = insert path (now + w.settle) w.pending }
unfolding send
send_full now path w c e = rw (c, e) refl

pub visit_due :
    (now : ℕ) (path : Text) (later : ℕ) (s : Watcher × ℤ) {ready_at : ℕ}
    → lookup path s.0.pending ≡ some ready_at
    → leb ready_at now ≡ true
    → visit now path later s
      ≡ (send now path (record s.0 { pending = delete path s.0.pending }), s.1)
unfolding visit
visit_due now path later s l d = rw (l, visit) (rw d refl)
