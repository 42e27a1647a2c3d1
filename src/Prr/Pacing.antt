-- ===== src/Prr/Pacing.antt =====
-- How much a sender that asks CanSend before each packet sends after a loss.
use puic.Prelude.{ℕ, ◌+◌, ◌*◌, ◌^◌, ◌≤◌, ◌<◌, ◌≡◌, refl, true}
use puic.Prr.{
  PrrSender, max_segment_size, on_packet_sent, on_packet_lost, on_packet_acked, can_send,
}

-- No count reaches what 64 bits hold.
abbrev pub IsSmall : PrrSender → Type 0
IsSmall p =
    (p.bytes_sent_since_loss < 2 ^ 40)
    × (p.bytes_delivered_since_loss < 2 ^ 40)
    × (p.ack_count_since_loss < 2 ^ 40)

-- A send with the window open and a full segment in flight, allowed by CanSend; an ACK.
pub data Step : PrrSender → PrrSender → Type 0 where
  send :
      (p : PrrSender) (size window in_flight threshold : ℕ)
      → size ≤ max_segment_size
      → max_segment_size ≤ in_flight
      → in_flight < window
      → can_send p window in_flight threshold ≡ true
      → Step p (on_packet_sent p size)
  ack : (p : PrrSender) (size : ℕ) → size < 2 ^ 40 → Step p (on_packet_acked p size)

pub data Run (p : PrrSender) : PrrSender → Type 0 where
  here : Run p p
  next : {q r : PrrSender} → Run p q → Step q r → IsSmall q → Run p r

-- One segment more than was delivered and one more for each ACK.
unfoldable pub IsPaced : PrrSender → Type 0
IsPaced p =
    p.bytes_sent_since_loss
    ≤ p.bytes_delivered_since_loss + (p.ack_count_since_loss + 1) * max_segment_size

-- The first packet after a loss may always be sent.
pub can_send_first :
    (p : PrrSender) (prior_in_flight window in_flight threshold : ℕ)
    → can_send (on_packet_lost p prior_in_flight) window in_flight threshold ≡ true
unfolding can_send on_packet_lost
can_send_first p prior window in_flight threshold = refl
