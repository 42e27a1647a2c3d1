-- ===== src/Unacked/Changes.antt =====
-- The methods of QuicUnackedPacketMap that change it
-- (puicbase/net/quic/core/quic_unacked_packet_map.cc). A number outside the deque, undefined in the
-- source, leaves the map as it is.
use puic.Prelude.{ℕ, zero, suc, ◌+◌, ◌-◌, ◌==◌, ltb, if◌then◌else◌, Bool, true, false, ◌&&◌}
use puic.Prelude.{◌||◌, Option, none, some, List, [], ◌∷◌, ◌++◌, length, add64, sub64, replicate}
use puic.Prelude.{get_elem?, set}
use puic.Unacked.{
  QuicFrame, stream_frame, other_frame, TransmissionType, all_unacked_retransmission,
}
use puic.Unacked.{all_initial_retransmission, TransmissionInfo, transmission_info, SerializedPacket}
use puic.Unacked.{UnackedPacketMap, Notice, retransmitted, discarded, is_empty}
use puic.Unacked.{remove_obsolete_packets}

-- A notice for each stream frame.
unfoldable pub notices_of : Bool → (ℕ → Notice) → List QuicFrame → List Notice
notices_of notifier notice [] = []
notices_of notifier notice (stream_frame id ∷ frames) =
    let rest : List Notice = notices_of notifier notice frames in
    if notifier then notice id ∷ rest else []
notices_of notifier notice (other_frame kind ∷ frames) = notices_of notifier notice frames

-- The old record keeps a link to the new packet, unless it can no longer be acknowledged.
unfoldable pub link_retransmission : TransmissionType → ℕ → TransmissionInfo → TransmissionInfo
link_retransmission all_initial_retransmission new info = record info { is_unackable = true }
link_retransmission all_unacked_retransmission new info = record info { is_unackable = true }
link_retransmission _ new info = record info { retransmission = new }

unfoldable pub transfer_from :
    UnackedPacketMap
    → Option TransmissionInfo
    → ℕ
    → ℕ
    → TransmissionType
    → TransmissionInfo
    → UnackedPacketMap × TransmissionInfo × List Notice
unfolding link_retransmission
transfer_from m none old new type info = (m, info, [])
transfer_from m (some prev) old new type info =
    let prev' : TransmissionInfo = record prev {
      retransmittable_frames = info.retransmittable_frames;
      has_crypto_handshake = false;
    } in
    (
      remove_obsolete_packets record m {
        unacked_packets =
            set m.unacked_packets (old - m.least_unacked) (link_retransmission type new prev');
      },
      record info {
        retransmittable_frames = prev.retransmittable_frames;
        has_crypto_handshake = prev.has_crypto_handshake;
        num_padding_bytes = prev.num_padding_bytes;
      },
      notices_of m.has_stream_notifier retransmitted prev.retransmittable_frames,
    )

unfoldable pub transfer_retransmission_info :
    UnackedPacketMap
    → ℕ
    → ℕ
    → TransmissionType
    → TransmissionInfo
    → UnackedPacketMap × TransmissionInfo × List Notice
unfolding transfer_from
transfer_retransmission_info m old new type info =
    if ltb old m.least_unacked || ltb m.largest_sent_packet old
    then (m, info, [])
    else transfer_from m (get_elem? m.unacked_packets (old - m.least_unacked)) old new type info

-- Numbers that were skipped get records that cannot be acknowledged.
unfoldable pub fill_gap : UnackedPacketMap → ℕ → UnackedPacketMap
fill_gap m packet_number = record m {
  unacked_packets =
      m.unacked_packets
      ++ replicate (packet_number - (m.least_unacked + length m.unacked_packets))
          (record transmission_info { is_unackable = true });
}

unfoldable pub info_of_packet : SerializedPacket → TransmissionType → ℕ → TransmissionInfo
info_of_packet packet type sent_time = record transmission_info {
  encryption_level = packet.encryption_level;
  packet_number_length = packet.packet_number_length;
  bytes_sent = packet.encrypted_length;
  sent_time = sent_time;
  transmission_type = type;
  has_crypto_handshake = packet.has_crypto_handshake;
  num_padding_bytes = packet.num_padding_bytes;
  largest_acked = packet.largest_acked;
}

-- The record is pushed; a packet that is not a retransmission brings its own frames.
unfoldable pub push_sent :
    UnackedPacketMap → SerializedPacket → TransmissionInfo → Bool → Bool → UnackedPacketMap
push_sent m packet info first set_in_flight =
    let info' : TransmissionInfo = record info { in_flight = set_in_flight } in
    let info'' : TransmissionInfo =
      if first
      then record info' { retransmittable_frames = packet.retransmittable_frames }
      else info' in
    record m {
      largest_sent_packet = packet.packet_number;
      largest_sent_retransmittable_packet =
          if set_in_flight then packet.packet_number else m.largest_sent_retransmittable_packet;
      bytes_in_flight =
          if set_in_flight
          then add64 m.bytes_in_flight packet.encrypted_length
          else m.bytes_in_flight;
      pending_crypto_packet_count =
          if first && packet.has_crypto_handshake
          then add64 m.pending_crypto_packet_count 1
          else m.pending_crypto_packet_count;
      unacked_packets = m.unacked_packets ++ (info'' ∷ []);
    }

unfoldable pub add_sent_packet :
    UnackedPacketMap
    → SerializedPacket
    → ℕ
    → TransmissionType
    → ℕ
    → Bool
    → UnackedPacketMap × List Notice
unfolding push_sent transfer_retransmission_info
add_sent_packet m packet old type sent_time set_in_flight =
    let m' : UnackedPacketMap = fill_gap m packet.packet_number in
    let info : TransmissionInfo = info_of_packet packet type sent_time in
    let (m'', info', notices) =
      if old == 0
      then (m', info, [])
      else transfer_retransmission_info m' old packet.packet_number type info in
    (push_sent m'' packet info' (old == 0) set_in_flight, notices)

-- The walk along the links of RemoveRetransmittability: each is reset, and the walk ends at a record
-- without one. None if it leaves the deque or the fuel runs out.
unfoldable pub chain_end : ℕ → ℕ → List TransmissionInfo → ℕ → Option (List TransmissionInfo × ℕ)
chain_end zero least infos i = none
chain_end (suc fuel) least infos i = elim (get_elem? infos i) [
  | none ↦ none
  | some info ↦ elim (info.retransmission == 0) [
    | true ↦ some (infos, i)
    | false ↦
        chain_end fuel least (set infos i (record info { retransmission = 0 }))
          (sub64 info.retransmission least)
  ]
]

-- At the end of the links the frames are deleted.
unfoldable pub clear_frames : UnackedPacketMap → ℕ → Option TransmissionInfo → UnackedPacketMap
clear_frames m i none = m
clear_frames m i (some info) = record m {
  pending_crypto_packet_count =
      if info.has_crypto_handshake
      then sub64 m.pending_crypto_packet_count 1
      else m.pending_crypto_packet_count;
  unacked_packets =
      set m.unacked_packets i
        (record info { has_crypto_handshake = false; retransmittable_frames = [] });
}

unfoldable pub clear_at_end :
    UnackedPacketMap → Option (List TransmissionInfo × ℕ) → UnackedPacketMap
unfolding clear_frames
clear_at_end m none = m
clear_at_end m (some (infos, i)) =
    clear_frames (record m { unacked_packets = infos }) i (get_elem? infos i)

-- As many steps as there are records are enough.
unfoldable pub remove_retransmittability : UnackedPacketMap → ℕ → UnackedPacketMap
unfolding clear_at_end chain_end
remove_retransmittability m packet_number = clear_at_end m (
    chain_end (suc (length m.unacked_packets)) m.least_unacked m.unacked_packets
      (packet_number - m.least_unacked))

unfoldable pub remove_record : UnackedPacketMap → ℕ → Option TransmissionInfo → UnackedPacketMap
remove_record m i none = m
remove_record m i (some info) =
    if info.in_flight
    then record m {
      bytes_in_flight = sub64 m.bytes_in_flight info.bytes_sent;
      unacked_packets = set m.unacked_packets i (record info { in_flight = false });
    }
    else m

unfoldable pub remove_from_in_flight : UnackedPacketMap → ℕ → UnackedPacketMap
unfolding remove_record
remove_from_in_flight m packet_number =
    let i : ℕ = packet_number - m.least_unacked in remove_record m i (get_elem? m.unacked_packets i)

unfoldable pub increase_largest_observed : UnackedPacketMap → ℕ → UnackedPacketMap
increase_largest_observed m largest_observed = record m { largest_observed = largest_observed }

unfoldable pub remove_frames_for_stream : List QuicFrame → ℕ → List QuicFrame
remove_frames_for_stream [] id = []
remove_frames_for_stream (stream_frame stream_id ∷ frames) id =
    let rest : List QuicFrame = remove_frames_for_stream frames id in
    if stream_id == id then rest else stream_frame stream_id ∷ rest
remove_frames_for_stream (other_frame kind ∷ frames) id =
    other_frame kind ∷ remove_frames_for_stream frames id

unfoldable pub discarded_notices : List QuicFrame → ℕ → List Notice
discarded_notices [] id = []
discarded_notices (stream_frame stream_id ∷ frames) id =
    let rest : List Notice = discarded_notices frames id in
    if stream_id == id then discarded stream_id ∷ rest else rest
discarded_notices (other_frame kind ∷ frames) id = discarded_notices frames id

unfoldable pub cancel_record :
    UnackedPacketMap → ℕ → ℕ → Option TransmissionInfo → UnackedPacketMap × List Notice
unfolding remove_retransmittability is_empty
cancel_record m id i none = (m, [])
cancel_record m id i (some info) =
    if is_empty info.retransmittable_frames
    then (m, [])
    else let frames : List QuicFrame = remove_frames_for_stream info.retransmittable_frames id in
      let m' : UnackedPacketMap = record m {
        unacked_packets = set m.unacked_packets i (record info { retransmittable_frames = frames });
      } in
      (
        (if is_empty frames then remove_retransmittability m' (m.least_unacked + i) else m'),
        (if m.has_stream_notifier then discarded_notices info.retransmittable_frames id else []),
      )

-- `left` records are still to visit, the first at `i`.
unfoldable pub cancel_from : UnackedPacketMap → ℕ → ℕ → ℕ → UnackedPacketMap × List Notice
unfolding cancel_record
cancel_from m id i zero = (m, [])
cancel_from m id i (suc left) =
    let (m', now) = cancel_record m id i (get_elem? m.unacked_packets i) in
    let (m'', later) = cancel_from m' id (suc i) left in (m'', now ++ later)

unfoldable pub cancel_retransmissions_for_stream :
    UnackedPacketMap → ℕ → UnackedPacketMap × List Notice
unfolding cancel_from
cancel_retransmissions_for_stream m id = cancel_from m id 0 (length m.unacked_packets)
