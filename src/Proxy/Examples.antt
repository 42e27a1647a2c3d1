-- ===== src/Proxy/Examples.antt =====
-- The jobs of the proxy on concrete runs.
use puic.Prelude.{true, ◌⊎◌, ℕ, ◌≡◌, refl, arith, false, ◌||◌, List, [], ◌∷◌, ◌++◌}
use puic.Proxy.{start_job, clean, start_read, write_tcp, conn_write}
use puic.Proxy.{mark_consumed, on_puic_disconnected}
use puic.Proxy.Handlers.{on_uv_connect, on_uv_read, on_uv_write}
use puic.Proxy.Handlers.{on_uv_close, on_puic_can_read}
use puic.Proxy.Handlers.{may_puic_to_tcp, may_tcp_to_puic}
use puic.Proxy.World.{
  World, with_job, with_bytes, after_bytes, after_read, accepted, Run, here, next,
}
use puic.Proxy.World.{connected, tcp_bytes, tcp_written, tcp_closed}
use puic.Proxy.World.{puic_bytes, puic_disconnected}
use puic.Proxy.Lifecycle.{cleaned_once}
use puic.Proxy.Fifo.{pipe_fifo, pipe_delivers}

abbrev w1 : World
w1 = with_job accepted (on_uv_connect accepted.job false false)

abbrev w2 : World
w2 = after_bytes w1 (7 ∷ 8 ∷ 9 ∷ []) 2 false

abbrev w3 : World
w3 = after_read w2 (1 ∷ 2 ∷ []) 5000 false false

-- Two bytes are on their way, and the connection was read.
r3 : Run accepted w3
unfolding start_job on_uv_connect start_read after_bytes with_bytes on_puic_can_read may_puic_to_tcp
    write_tcp
r3 =
    next
      (next (next here (connected false false))
        (puic_bytes (7 ∷ 8 ∷ 9 ∷ []) 2 false refl refl (omega arith)))
      (tcp_bytes (1 ∷ 2 ∷ []) 5000 false false refl refl)

abbrev w4 : World
w4 = with_job w3 (on_uv_write w3.job false false 2 false)

abbrev w5 : World
w5 = with_job w4 (on_uv_write w4.job false false 2 false)

-- All three bytes were written.
r5 : Run accepted w5
unfolding start_job on_uv_connect start_read after_bytes with_bytes on_puic_can_read may_puic_to_tcp
    write_tcp after_read on_uv_read conn_write may_tcp_to_puic on_uv_write mark_consumed
r5 =
    next (next r3 (tcp_written false false 2 false refl (omega arith)))
      (tcp_written false false 2 false refl (omega arith))

abbrev w6 : World
w6 = with_job w5 (on_puic_disconnected w5.job)

abbrev w7 : World
w7 = with_job w6 (record w6.job { tcp = on_uv_close w6.job.tcp })

-- The session has closed, and the socket after it.
r7 : Run accepted w7
unfolding start_job on_uv_connect start_read after_bytes with_bytes on_puic_can_read may_puic_to_tcp
    write_tcp after_read on_uv_read conn_write may_tcp_to_puic on_uv_write mark_consumed
    on_puic_disconnected clean
r7 = next (next r5 puic_disconnected) (tcp_closed refl refl)

cleaned_once_example :
    (w7.job.cleanings ≡ 1)
    × (w7.job.tcp.deletes ≡ 1)
    × (w7.job.has_src ≡ false)
    × (w7.job.has_dst ≡ false)
    × (w7.job.attached ≡ false)
unfolding start_job on_uv_connect start_read after_bytes with_bytes on_puic_can_read may_puic_to_tcp
    write_tcp after_read on_uv_read conn_write may_tcp_to_puic on_uv_write mark_consumed
    on_puic_disconnected clean on_uv_close
cleaned_once_example = cleaned_once r7

pipe_fifo_example :
    ((lost : List ℕ) × (w3.job.conn.written ++ lost ≡ 1 ∷ 2 ∷ []))
    × ((rest : List ℕ) × (w3.job.tcp.sent ++ rest ≡ 7 ∷ 8 ∷ 9 ∷ []))
    × ((w3.job.conn.was_reset ≡ true) ⊎ (w3.job.conn.written ≡ 1 ∷ 2 ∷ []))
unfolding start_job on_uv_connect start_read after_bytes with_bytes on_puic_can_read may_puic_to_tcp
    write_tcp after_read on_uv_read conn_write may_tcp_to_puic
pipe_fifo_example = pipe_fifo r3

pipe_delivers_example :
    (w5.job.tcp.sent ≡ 7 ∷ 8 ∷ 9 ∷ [])
    × ((w5.job.tcp.shutting || w5.job.tcp.writeof) ≡ false)
    × (w5.job.conn.fin_written ≡ false)
unfolding start_job on_uv_connect start_read after_bytes with_bytes on_puic_can_read may_puic_to_tcp
    write_tcp after_read on_uv_read conn_write may_tcp_to_puic on_uv_write mark_consumed
pipe_delivers_example = pipe_delivers r5 refl refl refl
