-- ===== src/Loss/Examples.antt =====
-- The theorems on loss detection at a map of two packets, the second just acknowledged.
use puic.Prelude.{◌≡◌, refl, arith, true, [], ◌∷◌}
use puic.Prelude.{All}
use puic.Unacked.{transmission_info, UnackedPacketMap, unacked_packet_map}
use puic.Loss.{general_loss_algorithm, RttStats, nack}
use puic.Loss.{detect_losses, scan_of}
use puic.Loss.Detect.{detect_losses_lem, detect_losses_by_nack, is_flying, is_listed, IsLost}
use puic.Loss.Detect.{is_timer_ahead}

abbrev sent_packets : UnackedPacketMap
sent_packets = record unacked_packet_map {
  largest_sent_packet = 9;
  largest_sent_retransmittable_packet = 9;
  least_unacked = 5;
  unacked_packets =
      record transmission_info { bytes_sent = 1200; sent_time = 1000; in_flight = true }
      ∷ record transmission_info { bytes_sent = 900; sent_time = 2000 }
      ∷ [];
}

abbrev rtt : RttStats
rtt = record { previous_srtt = 40000; latest_rtt = 50000; smoothed_rtt = 42000 }

-- Packet 5 is lost when packet 9 is acknowledged.
detect_losses_by_nack_example :
    is_listed (5, 1200) (detect_losses (general_loss_algorithm nack) sent_packets 60000 rtt 9).1
    ≡ true
unfolding general_loss_algorithm is_flying
detect_losses_by_nack_example =
    detect_losses_by_nack (general_loss_algorithm nack) sent_packets 60000 rtt 9 5 1200 refl
      (omega arith) refl

detect_losses_lem_example :
    let (a, packets) = detect_losses (general_loss_algorithm nack) sent_packets 60000 rtt 9 in
    All
      (IsLost
        (scan_of (general_loss_algorithm nack) sent_packets 60000 rtt 9)
        5
        sent_packets.unacked_packets)
      packets
    × (is_timer_ahead 60000 a.loss_detection_timeout ≡ true)
detect_losses_lem_example = detect_losses_lem (general_loss_algorithm nack) sent_packets 60000 rtt 9
