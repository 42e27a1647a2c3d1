-- ===== src/Unacked/Queries.antt =====
-- The queries of QuicUnackedPacketMap (puicbase/net/quic/core/quic_unacked_packet_map.cc).
use puic.Prelude.{
  ℕ, suc, ◌-◌, ◌==◌, ltb, if◌then◌else◌, Bool, true, false, not, ◌&&◌, ◌||◌, Option, none,
}
use puic.Prelude.{some, List, [], ◌∷◌, length, get_elem?, reverse}
use puic.Unacked.{TransmissionInfo, UnackedPacketMap, Notice, acked, is_empty}
use puic.Unacked.Changes.{notices_of}

unfoldable pub has_in_flight_packets : UnackedPacketMap → Bool
has_in_flight_packets m = ltb 0 m.bytes_in_flight

unfoldable pub has_unacked_packets : UnackedPacketMap → Bool
has_unacked_packets m = not (length m.unacked_packets == 0)

unfoldable pub has_pending_crypto_packets : UnackedPacketMap → Bool
has_pending_crypto_packets m = ltb 0 m.pending_crypto_packet_count

unfoldable pub any_in_flight_retransmittable : List TransmissionInfo → Bool
unfolding is_empty
any_in_flight_retransmittable [] = false
any_in_flight_retransmittable (info ∷ infos) =
    (info.in_flight && not (is_empty info.retransmittable_frames))
    || any_in_flight_retransmittable infos

unfoldable pub has_unacked_retransmittable_frames : UnackedPacketMap → Bool
unfolding any_in_flight_retransmittable
has_unacked_retransmittable_frames m = any_in_flight_retransmittable (reverse m.unacked_packets)

unfoldable pub found_frames : Option TransmissionInfo → Bool
unfolding is_empty
found_frames none = false
found_frames (some info) = not (is_empty info.retransmittable_frames)

unfoldable pub has_retransmittable_frames : UnackedPacketMap → ℕ → Bool
unfolding found_frames
has_retransmittable_frames m packet_number =
    found_frames (get_elem? m.unacked_packets (packet_number - m.least_unacked))

-- The search from the back of HasMultipleInFlightPackets, with what it has counted.
unfoldable pub count_in_flight : List TransmissionInfo → ℕ → Bool
count_in_flight [] n = false
count_in_flight (info ∷ infos) n =
    let n' : ℕ = if info.in_flight then suc n else n in
    let rest : Bool = count_in_flight infos n' in if ltb 1 n' then true else rest

unfoldable pub has_multiple_in_flight_packets : UnackedPacketMap → Bool
unfolding count_in_flight
has_multiple_in_flight_packets m =
    if ltb 1460 m.bytes_in_flight then true else count_in_flight (reverse m.unacked_packets) 0

unfoldable pub notify_stream_frames_acked : UnackedPacketMap → TransmissionInfo → List Notice
unfolding notices_of
notify_stream_frames_acked m info =
    notices_of m.has_stream_notifier acked info.retransmittable_frames
