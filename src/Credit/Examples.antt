-- ===== src/Credit/Examples.antt =====
-- A stream that receives 100 bytes, reads 40 and is reset at 150, on a connection with other streams.
use puic.Prelude.{◌+◌, ◌≡◌, refl, arith, true, false}
use puic.Flow.{Env, flow_controller, add_bytes_consumed, maybe_send_window_update}
use puic.Flow.{flow_control_violation}
use puic.Flow.{update_highest_received_offset}
use puic.Credit.{
  StreamCredit, credit_frame, credit_reset, consume_credit, credit_close, is_violated,
}
use puic.Credit.{consume_self, consume_connection}
use puic.Credit.Balance.{Runs, opened, framed, was_reset, consumed, closed_in_balance}

abbrev env : Env
env = record { now = 150; smoothed_rtt = 50; session_multiple = λ n. n + n }

abbrev c0 : StreamCredit
c0 = record {
  self = flow_controller 5 16384 16384 true;
  connection = record (flow_controller 0 16384 16384 true) {
    highest_received_byte_offset = 700;
    bytes_consumed = 600;
  };
  read_side_closed = false;
  contributes = true;
}

abbrev c1 : StreamCredit
c1 = (credit_frame c0 0 100).1

abbrev c2 : StreamCredit
c2 = (consume_credit env c1 40).1

abbrev c3 : StreamCredit
c3 = (credit_reset c2 150).1

run1 : Runs c1 700 600
unfolding flow_controller
run1 = framed 0 100 (opened c0 refl refl refl (omega arith) (omega arith)) (omega arith)

run2 : Runs c2 700 600
unfolding flow_controller update_highest_received_offset credit_frame
run2 = consumed env 40 run1 refl (omega arith)

run3 : Runs c3 700 600
unfolding flow_controller update_highest_received_offset credit_frame consume_credit consume_self
    consume_connection add_bytes_consumed maybe_send_window_update
run3 = was_reset 150 run2 (omega arith)

closed_in_balance_example :
    let d = (credit_close env c3).1 in
    (d.connection.bytes_consumed ≡ 600 + c3.self.highest_received_byte_offset)
    × (d.connection.highest_received_byte_offset ≡ 700 + c3.self.highest_received_byte_offset)
    × (d.read_side_closed ≡ true)
unfolding flow_controller update_highest_received_offset credit_frame consume_credit consume_self
    consume_connection add_bytes_consumed maybe_send_window_update credit_reset is_violated
    flow_control_violation
closed_in_balance_example = closed_in_balance env run3 refl

-- 850 bytes on the connection, of which 750 are consumed: the other streams' 100 are left.
closed3 :
    ((credit_close env c3).1.connection.highest_received_byte_offset ≡ 850)
    × ((credit_close env c3).1.connection.bytes_consumed ≡ 750)
unfolding flow_controller update_highest_received_offset credit_frame consume_credit consume_self
    consume_connection add_bytes_consumed maybe_send_window_update credit_reset is_violated
    flow_control_violation credit_close
closed3 = (refl, refl)
