-- ===== src/Dialer/Examples.antt =====
-- A dialer with two connections.
use puic.Prelude.{◌≡◌, refl, true, false, ◌&&◌, ◌||◌, [], ◌∷◌, All}
use puic.Dialer.{
  Dialer, ClientConn, dialer, is_nil, start, create_conn, ensure_started, on_conn_write_blocked,
  stop, wakeup,
}
use puic.Dialer.{on_transport_can_write, on_closed, on_conn_closed}
use puic.Dialer.Sound.{IsLive, IsMap}
use puic.Dialer.Stopping.{stop_lem}
use puic.Dialer.Lives.{
  Run, here, next, created, blocked, filled, drained, Run-IsSound, no_dangling_conn,
}

abbrev a : ClientConn
a = record { address = 16; session_id = 7 }

abbrev b : ClientConn
b = record { address = 32; session_id = 9 }

abbrev d2 : Dialer
d2 = (create_conn (create_conn dialer a true).1 b true).1

r2 : Run d2
r2 = next (next here (created a true)) (created b true)

abbrev d3 : Dialer
d3 = on_conn_write_blocked (record (on_conn_write_blocked d2 b) { write_blocked = true }) a

-- Both connections are blocked.
r3 : Run d3
unfolding dialer create_conn ensure_started start on_conn_write_blocked
r3 = next (next (next r2 (blocked b refl)) filled) (blocked a refl)

abbrev d4 : Dialer
d4 =
    wakeup (record { fills = false; blocks = false; closes = true } ∷ [])
      (record d3 { write_blocked = false })

r4 : Run d4
r4 = next r3 (drained (record { fills = false; blocks = false; closes = true } ∷ []))

no_dangling_conn_example :
    All (IsLive (a ∷ [])) (a ∷ [])
    × IsMap (a ∷ [])
    × ((is_nil (b ∷ []) || true) ≡ true)
    × ((true || (is_nil (a ∷ []) && is_nil (a ∷ []) && is_nil (b ∷ []))) ≡ true)
unfolding dialer create_conn ensure_started start on_conn_write_blocked wakeup
    on_transport_can_write on_closed on_conn_closed
no_dangling_conn_example = no_dangling_conn r4

stop_lem_example :
    ((stop d3).crypto_config ≡ false)
    × ((stop d3).socket ≡ false)
    × ((stop d3).write_blocked ≡ true)
    × ((stop d3).conns ≡ [])
    × ((stop d3).blocked_conns ≡ [])
    × ((stop d3).closed_conns ≡ [])
    × ((stop d3).disconnected ≡ b ∷ a ∷ [])
unfolding dialer create_conn ensure_started start on_conn_write_blocked
stop_lem_example = stop_lem (Run-IsSound r3) refl
