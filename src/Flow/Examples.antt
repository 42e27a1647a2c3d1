-- ===== src/Flow/Examples.antt =====
-- Runs of a flow controller at concrete states.
use puic.Prelude.{◌+◌, ◌/◌, ◌≤◌, ◌≡◌, refl, arith, [], ◌∷◌, true, some}
use puic.Flow.{FlowController, window_update, Env}
use puic.Flow.{add_bytes_consumed, maybe_send_window_update, send_window_update}
use puic.Flow.{maybe_increase_max_window_size, increase_window_size, advance_receive_window}
use puic.Flow.{ensure_session, ensure_window_at_least, add_bytes_sent}
use puic.Flow.Window.{Opens, Announces, add_bytes_consumed_lem}
use puic.Flow.Session.{Pair, PairValid, here, next, send, of_stream}
use puic.Flow.Session.{Reach-valid}

-- 1000 bytes may be sent, 700 have been; the peer may send 16000, of which 9000 are consumed.
abbrev stream : FlowController
stream = record {
  id = 5;
  bytes_sent = 700;
  send_window_offset = 1000;
  bytes_consumed = 9000;
  highest_received_byte_offset = 12000;
  receive_window_offset = 16000;
  receive_window_size = 16000;
  receive_window_size_limit = 16777216;
  auto_tune_receive_window = true;
  last_blocked_send_window_offset = 0;
  prev_window_update_time = 100;
}

abbrev session : FlowController
session = record stream { id = 0; receive_window_size_limit = 20000 }

abbrev env : Env
env = record { now = 150; smoothed_rtt = 50; session_multiple = λ n. n + n / 2 }

-- Within two round trips of the last update the window doubles, and the session's follows.
consumed_fast :
    (add_bytes_consumed env stream (some session) 1000).events
    ≡ window_update 0 29000 ∷ window_update 5 42000 ∷ []
unfolding add_bytes_consumed maybe_send_window_update send_window_update
    maybe_increase_max_window_size ensure_session ensure_window_at_least increase_window_size
    advance_receive_window
consumed_fast = refl

add_bytes_consumed_lem_example :
    let o = add_bytes_consumed env stream (some session) 1000 in
    Opens stream 1000 o × Announces stream o
add_bytes_consumed_lem_example =
    add_bytes_consumed_lem env (some session) 1000 (omega arith) (omega arith) (omega arith)
      (omega arith)

abbrev both : Pair
both = record { self = stream; session = some session }

abbrev after : Pair
after = record both { self = (add_bytes_sent stream 100).0 }

Reach-valid_example :
    PairValid after
    × (16000 ≤ after.self.receive_window_offset)
    × (1000 ≤ after.self.send_window_offset)
Reach-valid_example =
    Reach-valid {p = both} {q = after} both-valid (next here (of_stream both (send 100)))
  where
    both-valid : PairValid both
    both-valid = omega arith
