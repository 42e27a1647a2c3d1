-- ===== src/Flow/Valid.antt =====
-- The invariant of a flow controller: the overview of quic_flow_controller.h as inequations.
use puic.Prelude.{ℕ, ◌+◌, ◌^◌, ◌≤◌, ◌<◌, ◌≡◌, arith, Bool}
use puic.Flow.{FlowController, flow_controller, increase_window_size}
use puic.Flow.{advance_receive_window, ensure_window_at_least, add_bytes_sent, maybe_send_blocked}
use puic.Flow.{update_send_window_offset, update_receive_window_size}
use puic.Flow.{update_highest_received_offset}
use puic.Flow.{stream_receive_window_limit}

-- Numbers of bytes stay below 2 ^ 62, so no sum of two wraps.
abbrev pub IsCount : ℕ → Type 0
IsCount n = n < 2 ^ 62

pub record IsValid (c : FlowController) : Type 0 where
  pub sent_within : c.bytes_sent ≤ c.send_window_offset
  pub blocked_within : c.last_blocked_send_window_offset ≤ c.send_window_offset
  pub consumed_within : c.bytes_consumed ≤ c.receive_window_offset
  pub unread_within : c.receive_window_offset ≤ c.bytes_consumed + c.receive_window_size
  pub size_within : c.receive_window_size ≤ c.receive_window_size_limit
  pub send_offset_count : IsCount c.send_window_offset
  pub consumed_count : IsCount c.bytes_consumed
  pub limit_count : IsCount c.receive_window_size_limit

pub flow_controller-IsValid :
    (id send receive : ℕ) (auto_tune : Bool)
    → IsCount send
    → receive ≤ stream_receive_window_limit
    → IsValid (flow_controller id send receive auto_tune)
unfolding flow_controller
flow_controller-IsValid id send receive auto_tune h k = ground arith

pub increase_window_size-IsValid :
    {c : FlowController} → IsValid c → IsValid (increase_window_size c)
unfolding increase_window_size
increase_window_size-IsValid v = ground arith

-- An update opens the whole window behind what was consumed.
pub advance_receive_window_lem :
    {c : FlowController} (available : ℕ)
    → IsValid c
    → c.bytes_consumed + available ≡ c.receive_window_offset
    → ((advance_receive_window c available).0.receive_window_offset
        ≡ c.bytes_consumed + c.receive_window_size)
      × IsValid (advance_receive_window c available).0
unfolding advance_receive_window
advance_receive_window_lem available v e = ground arith

pub ensure_window_at_least-IsValid :
    {c : FlowController} (n : ℕ) → IsValid c → IsValid (ensure_window_at_least c n).0
unfolding ensure_window_at_least increase_window_size advance_receive_window
ensure_window_at_least-IsValid n v = ground arith

pub add_bytes_sent-IsValid :
    {c : FlowController} (n : ℕ) → IsValid c → IsValid (add_bytes_sent c n).0
unfolding add_bytes_sent
add_bytes_sent-IsValid n v = ground arith

pub maybe_send_blocked-IsValid : {c : FlowController} → IsValid c → IsValid (maybe_send_blocked c).0
unfolding maybe_send_blocked
maybe_send_blocked-IsValid v = ground arith

pub update_send_window_offset-IsValid :
    {c : FlowController} (n : ℕ) → IsCount n → IsValid c → IsValid (update_send_window_offset c n).1
unfolding update_send_window_offset
update_send_window_offset-IsValid n h v = ground arith

pub update_highest_received_offset-IsValid :
    {c : FlowController} (n : ℕ) → IsValid c → IsValid (update_highest_received_offset c n).1
unfolding update_highest_received_offset
update_highest_received_offset-IsValid n v = ground arith

-- Before any data is consumed, and within the limit.
pub update_receive_window_size-IsValid :
    {c : FlowController} (n : ℕ)
    → IsValid c
    → c.bytes_consumed ≡ 0
    → n ≤ c.receive_window_size_limit
    → IsValid (update_receive_window_size c n)
unfolding update_receive_window_size
update_receive_window_size-IsValid n v h k = ground arith
