-- ===== src/Udp.antt =====
-- The UDP side of PuicListener (puicserver/src/puic_server.cc) and of PuicDialer
-- (puicclient/src/puic_client.cc): the pool of send requests and the flag m_writeBlocked. Both
-- classes have the same code. A request is a number; libuv's answers are inputs.
pub mod World
pub mod Requests
pub mod Drain
pub mod Stall
mod Examples
use puic.Prelude.{ℕ, zero, suc, ◌+◌, ◌==◌, if◌then◌else◌, Bool, true, false, ◌&&◌}
use puic.Prelude.{Option, none, some, List, [], ◌∷◌, length}

abbrev pub max_flying_messages : ℕ
max_flying_messages = 1024

-- `avail_send_reqs` is the stack, its top first.
pub record Sender : Type 0 where
  pub avail_send_reqs : List ℕ
  pub write_blocked : Bool

pub data WriteResult : Type 0 where
  ok : ℕ → WriteResult
  blocked error : WriteResult

-- The requests 0 to n - 1, pushed in that order.
unfoldable pub requests : ℕ → List ℕ
requests zero = []
requests (suc n) = n ∷ requests n

-- The constructor: a full pool, blocked until the socket is there.
unfoldable pub sender : Sender
unfolding requests
sender = record { avail_send_reqs = requests max_flying_messages; write_blocked = true }

unfoldable pub is_write_blocked : Sender → Bool
is_write_blocked s = s.write_blocked

-- WritePacket takes the request on top of the stack; it is no longer there if uv_udp_send refuses it.
unfoldable pub take_request : Sender → List ℕ → ℕ → Bool → WriteResult × Sender × Option ℕ
take_request s [] buf_len accepted = (blocked, record s { write_blocked = true }, none)
take_request s (req ∷ reqs) buf_len accepted =
    ((if accepted then ok buf_len else error), record s { avail_send_reqs = reqs }, some req)

-- The result, the sender after it, and the request that was taken; `accepted` says that uv_udp_send
-- returned no error.
unfoldable pub write_packet : Sender → ℕ → Bool → WriteResult × Sender × Option ℕ
unfolding take_request
write_packet s buf_len accepted =
    if s.write_blocked
    then (blocked, s, none)
    else take_request s s.avail_send_reqs buf_len accepted

-- Whether the callback wakes the sessions that wait, and the sender after it. A request of a socket
-- that is closing is freed.
unfoldable pub on_uv_send : Sender → ℕ → Bool → Bool × Sender
on_uv_send s req closing =
    if closing
    then (false, s)
    else let reqs : List ℕ = req ∷ s.avail_send_reqs in
      if s.write_blocked && length reqs == max_flying_messages
      then (true, record { avail_send_reqs = reqs; write_blocked = false })
      else (false, record s { avail_send_reqs = reqs })

-- A new socket, and the end of one.
unfoldable pub open_socket : Sender → Sender
open_socket s = record s { write_blocked = false }

unfoldable pub close_socket : Sender → Sender
close_socket s = record s { write_blocked = true }
