-- ===== src/SlowStart.antt =====
-- When slow start is left because of rising delay: HybridSlowStart of
-- puicbase/net/quic/core/congestion_control/hybrid_slow_start.{h,cc}. Times are microseconds.
pub mod Exit
mod Examples
use puic.Prelude.{
  ℕ, ◌+◌, ◌*◌, ◌/◌, ◌%◌, ◌^◌, min, max, ◌==◌, ltb, leb, if◌then◌else◌, Bool, true, false,
}
use puic.Prelude.{◌&&◌, ◌||◌}

-- `hystart_found` is false for NOT_FOUND and true for DELAY.
pub record HybridSlowStart : Type 0 where
  pub started : Bool
  pub hystart_found : Bool
  pub last_sent_packet_number : ℕ
  pub end_packet_number : ℕ
  pub rtt_sample_count : ℕ
  pub current_min_rtt : ℕ

abbrev pub low_window : ℕ
low_window = 16

abbrev pub min_samples : ℕ
min_samples = 8

unfoldable pub hybrid_slow_start : HybridSlowStart
hybrid_slow_start = record {
  started = false;
  hystart_found = false;
  last_sent_packet_number = 0;
  end_packet_number = 0;
  rtt_sample_count = 0;
  current_min_rtt = 0;
}

unfoldable pub is_end_of_round : HybridSlowStart → ℕ → Bool
is_end_of_round h ack = leb h.end_packet_number ack

unfoldable pub on_packet_acked : HybridSlowStart → ℕ → HybridSlowStart
unfolding is_end_of_round
on_packet_acked h acked = if is_end_of_round h acked then record h { started = false } else h

unfoldable pub on_packet_sent : HybridSlowStart → ℕ → HybridSlowStart
on_packet_sent h packet_number = record h { last_sent_packet_number = packet_number }

unfoldable pub restart : HybridSlowStart → HybridSlowStart
restart h = record h { started = false; hystart_found = false }

unfoldable pub start_receive_round : HybridSlowStart → ℕ → HybridSlowStart
start_receive_round h last_sent = record h {
  end_packet_number = last_sent;
  current_min_rtt = 0;
  rtt_sample_count = 0;
  started = true;
}

unfoldable pub sample_rtt : HybridSlowStart → ℕ → HybridSlowStart
sample_rtt h latest_rtt =
    let count : ℕ = (h.rtt_sample_count + 1) % 2 ^ 32 in
    record h {
      rtt_sample_count = count;
      current_min_rtt =
          if leb count min_samples && (h.current_min_rtt == 0 || ltb latest_rtt h.current_min_rtt)
          then latest_rtt
          else h.current_min_rtt;
    }

-- An eighth of the session's shortest time, between 4 and 16 milliseconds.
unfoldable pub increase_threshold : ℕ → ℕ
increase_threshold min_rtt = max (min (min_rtt / 8) 16000) 4000

unfoldable pub check_delay : HybridSlowStart → ℕ → HybridSlowStart
unfolding increase_threshold
check_delay h min_rtt =
    if h.rtt_sample_count == min_samples
      && ltb (min_rtt + increase_threshold min_rtt) h.current_min_rtt
    then record h { hystart_found = true }
    else h

unfoldable pub should_exit_slow_start : HybridSlowStart → ℕ → ℕ → ℕ → Bool × HybridSlowStart
unfolding start_receive_round sample_rtt check_delay
should_exit_slow_start h latest_rtt min_rtt congestion_window =
    let h' : HybridSlowStart =
      if h.started then h else start_receive_round h h.last_sent_packet_number in
    let h'' : HybridSlowStart = check_delay (sample_rtt h' latest_rtt) min_rtt in
    if h.hystart_found
    then (true, h')
    else (leb low_window congestion_window && h''.hystart_found, h'')
