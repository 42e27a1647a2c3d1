-- ===== src/Prr.antt =====
-- Proportional rate reduction while packets are lost: PrrSender of
-- puicbase/net/quic/core/congestion_control/prr_sender.{h,cc}.
pub mod Pacing
mod Examples
use puic.Prelude.{ℕ, ◌==◌, ltb, leb, if◌then◌else◌, Bool, true, false, ◌||◌, add64, mul64}

pub record PrrSender : Type 0 where
  pub bytes_sent_since_loss : ℕ
  pub bytes_delivered_since_loss : ℕ
  pub ack_count_since_loss : ℕ
  pub bytes_in_flight_before_loss : ℕ

abbrev pub max_segment_size : ℕ
max_segment_size = 1460

unfoldable pub prr_sender : PrrSender
prr_sender = record {
  bytes_sent_since_loss = 0;
  bytes_delivered_since_loss = 0;
  ack_count_since_loss = 0;
  bytes_in_flight_before_loss = 0;
}

unfoldable pub on_packet_sent : PrrSender → ℕ → PrrSender
on_packet_sent p sent_bytes = record p {
  bytes_sent_since_loss = add64 p.bytes_sent_since_loss sent_bytes;
}

unfoldable pub on_packet_lost : PrrSender → ℕ → PrrSender
on_packet_lost p prior_in_flight = record {
  bytes_sent_since_loss = 0;
  bytes_delivered_since_loss = 0;
  ack_count_since_loss = 0;
  bytes_in_flight_before_loss = prior_in_flight;
}

unfoldable pub on_packet_acked : PrrSender → ℕ → PrrSender
on_packet_acked p acked_bytes = record p {
  bytes_delivered_since_loss = add64 p.bytes_delivered_since_loss acked_bytes;
  ack_count_since_loss = add64 p.ack_count_since_loss 1;
}

unfoldable pub can_send : PrrSender → ℕ → ℕ → ℕ → Bool
can_send p congestion_window bytes_in_flight slowstart_threshold =
    if p.bytes_sent_since_loss == 0 || ltb bytes_in_flight max_segment_size
    then true
    else if ltb bytes_in_flight congestion_window
    then (if leb
          (add64 p.bytes_delivered_since_loss (mul64 p.ack_count_since_loss max_segment_size))
          p.bytes_sent_since_loss
        then false
        else true)
    else ltb (mul64 p.bytes_sent_since_loss p.bytes_in_flight_before_loss)
        (mul64 p.bytes_delivered_since_loss slowstart_threshold)
