-- ===== src/Server/Examples.antt =====
-- A connection that is accepted, read from and closed; one whose session ends before the handshake.
use puic.Prelude.{◌≡◌, refl, true, false, ◌&&◌, List, [], ◌∷◌, none, some}
use puic.Server.{
  server_conn, Call, handshaked, readable, session_closed, run, on_accept, on_can_read,
  on_disconnected,
}
use puic.Server.Reports.{reports_lem, is_told_well, tells_accept, shakes, ends, is_deleted}

abbrev calls : List Call
calls = readable ∷ handshaked ∷ readable ∷ session_closed 25 true ∷ []

reports_lem_example :
    let (conn, notices) = run (some server_conn) calls in
    (is_told_well false notices ≡ true)
    × (tells_accept notices ≡ shakes calls)
    × (is_deleted conn ≡ (shakes calls && ends calls))
reports_lem_example = reports_lem calls refl

calls_lem :
    run (some server_conn) calls ≡ (none, on_accept ∷ on_can_read ∷ on_disconnected 25 true ∷ [])
unfolding run server_conn
calls_lem = refl

early_end : is_deleted (run (some server_conn) (session_closed 25 true ∷ [])).0 ≡ false
unfolding run server_conn
early_end = refl
