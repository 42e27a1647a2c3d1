-- ===== src/Unacked/Examples.antt =====
-- The theorems on QuicUnackedPacketMap at a map of two packets, the first retransmitted.
use puic.Prelude.{◌+◌, ◌≡◌, refl, arith, true, false, [], ◌∷◌, length}
use puic.Prelude.{if◌then◌else◌, inl, inr}
use puic.Unacked.{stream_frame, SerializedPacket}
use puic.Unacked.{UnackedPacketMap, loss_retransmission, not_retransmission}
use puic.Unacked.{is_unacked, remove_obsolete_packets}
use puic.Unacked.Changes.{add_sent_packet, remove_retransmittability}
use puic.Unacked.Queries.{has_retransmittable_frames}
use puic.Prelude.{ℕ, ◌-◌, ◌==◌}
use puic.Unacked.Links.{Chain, frames_at, flight_bytes, IsLinked, IsLink}
use puic.Unacked.Bytes.{IsValid, remove_retransmittability-IsValid}
use puic.Unacked.Bytes.{remove_obsolete_packets-IsValid}
use puic.Unacked.Obsolete.{remove_obsolete_packets_lem, starts_useful}
use puic.Unacked.Sent.{add_sent_packet-IsValid}

-- Packet 5 was sent again as packet 6.
abbrev resent : UnackedPacketMap
resent = record {
  largest_sent_packet = 6;
  largest_sent_retransmittable_packet = 6;
  largest_observed = 4;
  unacked_packets =
      record {
        retransmittable_frames = [];
        encryption_level = 2;
        packet_number_length = 1;
        bytes_sent = 1200;
        sent_time = 7;
        transmission_type = not_retransmission;
        in_flight = true;
        is_unackable = false;
        has_crypto_handshake = false;
        num_padding_bytes = 0;
        retransmission = 6;
        largest_acked = 0;
      }
      ∷ record {
        retransmittable_frames = stream_frame 3 ∷ [];
        encryption_level = 2;
        packet_number_length = 1;
        bytes_sent = 1300;
        sent_time = 9;
        transmission_type = loss_retransmission;
        in_flight = true;
        is_unackable = false;
        has_crypto_handshake = false;
        num_padding_bytes = 0;
        retransmission = 0;
        largest_acked = 0;
      }
      ∷ [];
  least_unacked = 5;
  bytes_in_flight = 2500;
  pending_crypto_packet_count = 0;
  has_stream_notifier = true;
}

resent-IsValid : IsValid resent
unfolding IsValid flight_bytes IsLinked IsLink
resent-IsValid = (refl, omega arith, omega arith, (inr (omega arith, omega arith), (inl refl, tt)))

abbrev packet : SerializedPacket
packet = record {
  packet_number = 9;
  packet_number_length = 1;
  encrypted_length = 700;
  encryption_level = 2;
  has_crypto_handshake = false;
  num_padding_bytes = 0;
  largest_acked = 0;
  retransmittable_frames = [];
}

-- Packet 6 is sent again as packet 9.
add_sent_packet-IsValid_example :
    let (r, _) = add_sent_packet resent packet 6 loss_retransmission 20 true in
    IsValid r
    × (r.bytes_in_flight ≡ 2500 + (if true then 700 else 0))
    × (r.least_unacked + length r.unacked_packets ≡ 10)
add_sent_packet-IsValid_example =
    add_sent_packet-IsValid resent packet 6 loss_retransmission 20 true resent-IsValid (omega arith)
      (omega arith) (omega arith)

frames_move : has_retransmittable_frames resent 6 ≡ true
unfolding has_retransmittable_frames
frames_move = refl

remove_retransmittability-IsValid_example :
    let r = remove_retransmittability resent 5 in
    (IsValid r × (r.bytes_in_flight ≡ 2500))
    × ((j : ℕ) × Chain 5 resent.unacked_packets (5 - 5) j
        × ((k : ℕ)
            → frames_at r.unacked_packets k
              ≡ (if j == k then [] else frames_at resent.unacked_packets k)))
remove_retransmittability-IsValid_example =
    remove_retransmittability-IsValid resent 5 resent-IsValid (omega arith) (omega arith)

frames_gone : has_retransmittable_frames (remove_retransmittability resent 5) 6 ≡ false
unfolding has_retransmittable_frames remove_retransmittability
frames_gone = refl

remove_obsolete_packets_lem_example :
    let r = remove_obsolete_packets resent in
    (is_unacked r 5 ≡ is_unacked resent 5)
    × (r.least_unacked + length r.unacked_packets ≡ 7)
    × (starts_useful r.largest_observed r.least_unacked r.unacked_packets ≡ true)
remove_obsolete_packets_lem_example = remove_obsolete_packets_lem resent 5 (omega arith)

remove_obsolete_packets-IsValid_example : IsValid (remove_obsolete_packets resent)
remove_obsolete_packets-IsValid_example = remove_obsolete_packets-IsValid resent resent-IsValid
