-- ===== src/Server.antt =====
-- PuicServerConn (puicserver/src/puic_server.cc): what a session and its preset stream tell the
-- connection, and what the connection tells the application. OnIncomingStream is in Session. The
-- names of addresses, the application's pointer and the texts of errors are left out.
pub mod Reports
mod Examples
use puic.Prelude.{ℕ, Bool, true, false, not, if◌then◌else◌, List, [], ◌∷◌, ◌++◌, Option, none, some}

pub record ServerConn : Type 0 where
  pub handshaked : Bool

unfoldable pub server_conn : ServerConn
server_conn = record { handshaked = false }

-- The callbacks of the application.
pub data Notice : Type 0 where
  on_accept on_can_read : Notice
  on_can_write : ℕ → Notice
  on_disconnected : ℕ → Bool → Notice

-- The calls of the session and of the stream.
pub data Call : Type 0 where
  handshaked write_blocked readable : Call
  incoming_stream writable : ℕ → Call
  session_closed stream_closed : ℕ → Bool → Call

unfoldable pub on_handshaked : ServerConn → Option ServerConn × List Notice
on_handshaked c = (some (record c { handshaked = true }), on_accept ∷ [])

-- A connection that was not accepted is not deleted.
unfoldable pub on_session_closed : ServerConn → ℕ → Bool → Option ServerConn × List Notice
on_session_closed c error_code from_remote =
    if not c.handshaked then (some c, []) else (none, on_disconnected error_code from_remote ∷ [])

unfoldable pub on_readable : ServerConn → Option ServerConn × List Notice
on_readable c = if not c.handshaked then (some c, []) else (some c, on_can_read ∷ [])

unfoldable pub on_writable : ServerConn → ℕ → Option ServerConn × List Notice
on_writable c remain = if not c.handshaked then (some c, []) else (some c, on_can_write remain ∷ [])

unfoldable pub call : ServerConn → Call → Option ServerConn × List Notice
unfolding on_handshaked on_session_closed on_readable on_writable
call c handshaked = on_handshaked c
call c write_blocked = (some c, [])
call c readable = on_readable c
call c (incoming_stream id) = (some c, [])
call c (writable remain) = on_writable c remain
call c (session_closed error_code from_remote) = on_session_closed c error_code from_remote
call c (stream_closed error_code from_remote) = (some c, [])

-- The connection after the calls, if it was not deleted, and what the application was told.
unfoldable pub run : Option ServerConn → List Call → Option ServerConn × List Notice
unfolding call
run none calls = (none, [])
run (some c) [] = (some c, [])
run (some c) (e ∷ calls) =
    let r : Option ServerConn × List Notice = run (call c e).0 calls in (r.0, (call c e).1 ++ r.1)
