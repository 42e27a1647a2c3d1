-- ===== src/Credit.antt =====
-- QuicStream's accounts with flow control (puicbase/net/quic/core/quic_stream.cc): what a receiving
-- stream tells its own controller and the one of its connection, when data or a reset comes, when data
-- is consumed and when the stream is closed. The check of the length of a stream, the FIN, the
-- sequencer and the writing side are left out; frames that the controllers send are returned.
pub mod Account
pub mod Balance
mod Examples
use puic.Prelude.{
  ℕ, ◌+◌, ltb, if◌then◌else◌, Bool, true, false, ◌&&◌, ◌||◌, Option, none, some, List, [], ◌++◌,
  add64, sub64,
}
use puic.Flow.{
  FlowController, Event, Env, Outcome, update_highest_received_offset, flow_control_violation,
  add_bytes_consumed,
}

pub record StreamCredit : Type 0 where
  pub self : FlowController
  pub connection : FlowController
  pub read_side_closed : Bool
  pub contributes : Bool

-- What becomes of a frame: closed for reading, closes the connection, goes on to the sequencer.
pub data FrameVerdict : Type 0 where
  ignored received_too_much_data accepted : FrameVerdict

-- MaybeIncreaseHighestReceivedOffset
unfoldable pub maybe_increase_highest : StreamCredit → ℕ → Bool × StreamCredit
maybe_increase_highest c new_offset =
    let increment : ℕ = sub64 new_offset c.self.highest_received_byte_offset in
    let r : Bool × FlowController = update_highest_received_offset c.self new_offset in
    let reached : ℕ = add64 c.connection.highest_received_byte_offset increment in
    (
      r.0,
      record c {
        self = r.1;
        connection =
            if r.0 && c.contributes
            then (update_highest_received_offset c.connection reached).1
            else c.connection;
      },
    )

unfoldable pub is_violated : StreamCredit → Bool
is_violated c = flow_control_violation c.self || flow_control_violation c.connection

-- OnStreamFrame up to the sequencer.
unfoldable pub credit_frame : StreamCredit → ℕ → ℕ → FrameVerdict × StreamCredit
unfolding maybe_increase_highest is_violated
credit_frame c offset data_length =
    let r : Bool × StreamCredit = maybe_increase_highest c (add64 offset data_length) in
    if c.read_side_closed
    then (ignored, c)
    else if ltb 0 data_length
    then ((if r.0 && is_violated r.1 then received_too_much_data else accepted), r.1)
    else (accepted, c)

-- OnStreamReset; the answer is whether the connection stays.
unfoldable pub credit_reset : StreamCredit → ℕ → Bool × StreamCredit
unfolding maybe_increase_highest is_violated
credit_reset c byte_offset =
    let r : Bool × StreamCredit = maybe_increase_highest c byte_offset in
    if is_violated r.1 then (false, r.1) else (true, record r.1 { read_side_closed = true })

-- A stream's controller has one of its session.
abbrev pub session_of : FlowController → Option FlowController → FlowController
session_of d none = d
session_of d (some s) = s

unfoldable pub consume_self : Env → StreamCredit → ℕ → List Event × StreamCredit
consume_self env c bytes =
    let o : Outcome = add_bytes_consumed env c.self (some c.connection) bytes in
    if c.read_side_closed
    then ([], c)
    else (o.events, record c { self = o.self; connection = session_of c.connection o.session })

unfoldable pub consume_connection : Env → StreamCredit → ℕ → List Event × StreamCredit
consume_connection env c bytes =
    let o : Outcome = add_bytes_consumed env c.connection none bytes in
    if c.contributes then (o.events, record c { connection = o.self }) else ([], c)

-- AddBytesConsumed
unfoldable pub consume_credit : Env → StreamCredit → ℕ → List Event × StreamCredit
unfolding consume_self consume_connection
consume_credit env c bytes =
    let r : List Event × StreamCredit = consume_self env c bytes in
    let q : List Event × StreamCredit = consume_connection env r.1 bytes in (r.0 ++ q.0, q.1)

-- OnClose: what is unreceived or buffered counts as consumed.
unfoldable pub credit_close : Env → StreamCredit → List Event × StreamCredit
unfolding is_violated consume_credit
credit_close env c =
    let d : StreamCredit = record c { read_side_closed = true } in
    if is_violated d
    then ([], d)
    else consume_credit env d (sub64 d.self.highest_received_byte_offset d.self.bytes_consumed)
