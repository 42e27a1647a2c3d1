-- ===== src/Flow.antt =====
-- QuicFlowController (puicbase/net/quic/core/quic_flow_controller.{h,cc}): the send and receive
-- windows of a stream or of the session. Frames that a method makes the connection send are
-- returned as events, in order. The clock, the round-trip time and the floating-point product of
-- kSessionFlowControlMultiplier are inputs.
pub mod Valid
pub mod Window
pub mod Sending
pub mod Session
mod Examples
use puic.Prelude.{
  ℕ, ◌+◌, ◌-◌, ◌*◌, ◌/◌, ◌^◌, min, ltb, leb, ◌==◌, if◌then◌else◌, add64, sub64, mul64,
}
use puic.Prelude.{Bool, true, false, not, ◌&&◌, Option, none, some, List, [], ◌∷◌, ◌++◌}

pub record FlowController : Type 0 where
  pub id : ℕ
  pub bytes_sent : ℕ
  pub send_window_offset : ℕ
  pub bytes_consumed : ℕ
  pub highest_received_byte_offset : ℕ
  pub receive_window_offset : ℕ
  pub receive_window_size : ℕ
  pub receive_window_size_limit : ℕ
  pub auto_tune_receive_window : Bool
  pub last_blocked_send_window_offset : ℕ
  -- QuicTime in microseconds, 0 for one that is not initialised
  pub prev_window_update_time : ℕ

pub data Event : Type 0 where
  window_update : ℕ → ℕ → Event
  blocked : ℕ → Event
  close_sent_too_much_data : Event

-- What a method asks of its connection.
pub record Env : Type 0 where
  pub now : ℕ
  pub smoothed_rtt : ℕ
  pub session_multiple : ℕ → ℕ

abbrev pub connection_level_id : ℕ
connection_level_id = 0

abbrev pub stream_receive_window_limit : ℕ
stream_receive_window_limit = 16 * 1024 * 1024

abbrev pub session_receive_window_limit : ℕ
session_receive_window_limit = 24 * 1024 * 1024

unfoldable pub flow_controller : ℕ → ℕ → ℕ → Bool → FlowController
flow_controller id send_window_offset receive_window_offset auto_tune = record {
  id = id;
  bytes_sent = 0;
  send_window_offset = send_window_offset;
  bytes_consumed = 0;
  highest_received_byte_offset = 0;
  receive_window_offset = receive_window_offset;
  receive_window_size = receive_window_offset;
  receive_window_size_limit =
      if id == connection_level_id
      then session_receive_window_limit
      else stream_receive_window_limit;
  auto_tune_receive_window = auto_tune;
  last_blocked_send_window_offset = 0;
  prev_window_update_time = 0;
}

unfoldable pub update_highest_received_offset : FlowController → ℕ → Bool × FlowController
update_highest_received_offset c new_offset =
    if leb new_offset c.highest_received_byte_offset
    then (false, c)
    else (true, record c { highest_received_byte_offset = new_offset })

unfoldable pub add_bytes_sent : FlowController → ℕ → FlowController × List Event
add_bytes_sent c count =
    if ltb c.send_window_offset (add64 c.bytes_sent count)
    then (record c { bytes_sent = c.send_window_offset }, close_sent_too_much_data ∷ [])
    else (record c { bytes_sent = add64 c.bytes_sent count }, [])

unfoldable pub flow_control_violation : FlowController → Bool
flow_control_violation c = ltb c.receive_window_offset c.highest_received_byte_offset

unfoldable pub send_window_size : FlowController → ℕ
send_window_size c =
    if ltb c.send_window_offset c.bytes_sent then 0 else c.send_window_offset - c.bytes_sent

unfoldable pub is_blocked : FlowController → Bool
unfolding send_window_size
is_blocked c = send_window_size c == 0

unfoldable pub update_send_window_offset : FlowController → ℕ → Bool × FlowController
unfolding is_blocked
update_send_window_offset c new_offset =
    if leb new_offset c.send_window_offset
    then (false, c)
    else (is_blocked c, record c { send_window_offset = new_offset })

unfoldable pub maybe_send_blocked : FlowController → FlowController × List Event
unfolding send_window_size
maybe_send_blocked c =
    if send_window_size c == 0 && ltb c.last_blocked_send_window_offset c.send_window_offset
    then (record c { last_blocked_send_window_offset = c.send_window_offset }, blocked c.id ∷ [])
    else (c, [])

unfoldable pub increase_window_size : FlowController → FlowController
increase_window_size c = record c {
  receive_window_size = min (mul64 c.receive_window_size 2) c.receive_window_size_limit;
}

unfoldable pub window_update_threshold : FlowController → ℕ
window_update_threshold c = c.receive_window_size / 2

-- UpdateReceiveWindowOffsetAndSendWindowUpdate
unfoldable pub advance_receive_window : FlowController → ℕ → FlowController × List Event
advance_receive_window c available_window =
    let offset : ℕ = add64 c.receive_window_offset (sub64 c.receive_window_size available_window) in
    (record c { receive_window_offset = offset }, window_update c.id offset ∷ [])

unfoldable pub ensure_window_at_least : FlowController → ℕ → FlowController × List Event
ensure_window_at_least c window_size =
    if leb window_size c.receive_window_size_limit
    then (c, [])
    else advance_receive_window (increase_window_size c)
        (sub64 c.receive_window_offset c.bytes_consumed)

-- A controller with the one of its session, which a stream's points to, and what they have sent.
pub record Outcome : Type 0 where
  pub self : FlowController
  pub session : Option FlowController
  pub events : List Event

-- The session's window is made to follow a stream's, where there is a session's controller.
unfoldable pub ensure_session : Env → FlowController → Option FlowController → Outcome
ensure_session env c none = record { self = c; session = none; events = [] }
ensure_session env c (some s) =
    let (s', events) = ensure_window_at_least s (env.session_multiple c.receive_window_size) in
    record { self = c; session = some s'; events = events }

-- MaybeIncreaseMaxWindowSize. `now - prev < 2 * rtt` is written without a difference.
unfoldable pub maybe_increase_max_window_size :
    Env → FlowController → Option FlowController → Outcome
unfolding increase_window_size
maybe_increase_max_window_size env c session =
    let prev : ℕ = c.prev_window_update_time in
    let c' : FlowController = record c { prev_window_update_time = env.now } in
    let same : Outcome = record { self = c'; session = session; events = [] } in
    if prev == 0
    then same
    else if not c.auto_tune_receive_window
    then same
    else if env.smoothed_rtt == 0
    then same
    else if leb (2 * env.smoothed_rtt + prev) env.now
    then same
    else if ltb c.receive_window_size (increase_window_size c').receive_window_size
    then ensure_session env (increase_window_size c') session
    else record same { self = increase_window_size c' }

-- The end of MaybeSendWindowUpdate: a larger window first, then the update.
unfoldable pub send_window_update : Env → FlowController → Option FlowController → ℕ → Outcome
send_window_update env c session available_window =
    let grown : Outcome = maybe_increase_max_window_size env c session in
    let (c', events) = advance_receive_window grown.self available_window in
    record grown { self = c'; events = grown.events ++ events }

unfoldable pub maybe_send_window_update : Env → FlowController → Option FlowController → Outcome
unfolding window_update_threshold
maybe_send_window_update env c session =
    let available_window : ℕ = sub64 c.receive_window_offset c.bytes_consumed in
    let c' : FlowController =
      if c.prev_window_update_time == 0
      then record c { prev_window_update_time = env.now }
      else c in
    if leb (window_update_threshold c) available_window
    then record { self = c'; session = session; events = [] }
    else send_window_update env c' session available_window

unfoldable pub add_bytes_consumed : Env → FlowController → Option FlowController → ℕ → Outcome
add_bytes_consumed env c session count =
    maybe_send_window_update env (record c { bytes_consumed = add64 c.bytes_consumed count })
      session

unfoldable pub update_receive_window_size : FlowController → ℕ → FlowController
update_receive_window_size c size =
    if c.receive_window_size == c.receive_window_offset
    then record c { receive_window_size = size; receive_window_offset = size }
    else c
