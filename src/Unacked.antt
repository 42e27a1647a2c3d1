-- ===== src/Unacked.antt =====
-- The packets in flight or not yet acknowledged: QuicUnackedPacketMap of
-- puicbase/net/quic/core/quic_unacked_packet_map.{h,cc}, with QuicTransmissionInfo of
-- quic_transmission_info.{h,cc}. Calls of the stream notifier are returned as a list of notices.
pub mod Changes
pub mod Queries
pub mod Links
pub mod Bytes
pub mod Obsolete
pub mod Sent
pub mod Cancel
mod Examples
use puic.Prelude.{
  ℕ, zero, suc, ◌+◌, ◌-◌, ◌*◌, ◌==◌, ltb, leb, if◌then◌else◌, Bool, true, false, not,
}
use puic.Prelude.{
  ◌&&◌, ◌||◌, Option, none, some, List, [], ◌∷◌, ◌++◌, length, add64, sub64, replicate,
}
use puic.Prelude.{get_elem?, set}

-- A frame of a stream, by the stream's identifier, or of another type.
pub data QuicFrame : Type 0 where
  stream_frame other_frame : ℕ → QuicFrame

pub data TransmissionType : Type 0 where
  not_retransmission handshake_retransmission all_unacked_retransmission : TransmissionType
  all_initial_retransmission loss_retransmission rto_retransmission : TransmissionType
  tlp_retransmission probing_retransmission : TransmissionType

pub record TransmissionInfo : Type 0 where
  pub retransmittable_frames : List QuicFrame
  pub encryption_level : ℕ
  pub packet_number_length : ℕ
  pub bytes_sent : ℕ
  pub sent_time : ℕ
  pub transmission_type : TransmissionType
  pub in_flight : Bool
  pub is_unackable : Bool
  pub has_crypto_handshake : Bool
  pub num_padding_bytes : ℕ
  pub retransmission : ℕ
  pub largest_acked : ℕ

unfoldable pub transmission_info : TransmissionInfo
transmission_info = record {
  retransmittable_frames = [];
  encryption_level = 0;
  packet_number_length = 1;
  bytes_sent = 0;
  sent_time = 0;
  transmission_type = not_retransmission;
  in_flight = false;
  is_unackable = false;
  has_crypto_handshake = false;
  num_padding_bytes = 0;
  retransmission = 0;
  largest_acked = 0;
}

-- The fields of SerializedPacket that the map reads.
pub record SerializedPacket : Type 0 where
  pub packet_number : ℕ
  pub packet_number_length : ℕ
  pub encrypted_length : ℕ
  pub encryption_level : ℕ
  pub has_crypto_handshake : Bool
  pub num_padding_bytes : ℕ
  pub largest_acked : ℕ
  pub retransmittable_frames : List QuicFrame

pub record UnackedPacketMap : Type 0 where
  pub largest_sent_packet : ℕ
  pub largest_sent_retransmittable_packet : ℕ
  pub largest_observed : ℕ
  pub unacked_packets : List TransmissionInfo
  pub least_unacked : ℕ
  pub bytes_in_flight : ℕ
  pub pending_crypto_packet_count : ℕ
  pub has_stream_notifier : Bool

unfoldable pub unacked_packet_map : UnackedPacketMap
unacked_packet_map = record {
  largest_sent_packet = 0;
  largest_sent_retransmittable_packet = 0;
  largest_observed = 0;
  unacked_packets = [];
  least_unacked = 1;
  bytes_in_flight = 0;
  pending_crypto_packet_count = 0;
  has_stream_notifier = false;
}

pub data Notice : Type 0 where
  retransmitted discarded acked : ℕ → Notice

unfoldable pub is_empty : List QuicFrame → Bool
is_empty [] = true
is_empty (frame ∷ frames) = false

unfoldable pub is_packet_useful_for_measuring_rtt : ℕ → ℕ → TransmissionInfo → Bool
is_packet_useful_for_measuring_rtt largest_observed packet_number info =
    not info.is_unackable && ltb largest_observed packet_number

unfoldable pub is_packet_useful_for_retransmittable_data : ℕ → TransmissionInfo → Bool
unfolding is_empty
is_packet_useful_for_retransmittable_data largest_observed info =
    not (is_empty info.retransmittable_frames) || ltb largest_observed info.retransmission

-- By the largest packet observed, the packet's number and its record.
unfoldable pub is_packet_useless : ℕ → ℕ → TransmissionInfo → Bool
unfolding is_packet_useful_for_measuring_rtt
is_packet_useless largest_observed packet_number info =
    not (is_packet_useful_for_measuring_rtt largest_observed packet_number info)
    && not info.in_flight
    && not (is_packet_useful_for_retransmittable_data largest_observed info)

unfoldable pub found_useful : ℕ → ℕ → Option TransmissionInfo → Bool
found_useful largest_observed packet_number none = false
found_useful largest_observed packet_number (some info) =
    not (is_packet_useless largest_observed packet_number info)

unfoldable pub is_unacked : UnackedPacketMap → ℕ → Bool
is_unacked m n =
    if ltb n m.least_unacked || leb (add64 m.least_unacked (length m.unacked_packets)) n
    then false
    else found_useful m.largest_observed n (get_elem? m.unacked_packets (n - m.least_unacked))

-- The loop of RemoveObsoletePackets: the first number and the records that are left.
unfoldable pub drop_useless : ℕ → ℕ → List TransmissionInfo → ℕ × List TransmissionInfo
drop_useless largest_observed least [] = (least, [])
drop_useless largest_observed least (info ∷ infos) =
    let rest : ℕ × List TransmissionInfo = drop_useless largest_observed (suc least) infos in
    if is_packet_useless largest_observed least info then rest else (least, info ∷ infos)

unfoldable pub remove_obsolete_packets : UnackedPacketMap → UnackedPacketMap
remove_obsolete_packets m =
    let (least, infos) = drop_useless m.largest_observed m.least_unacked m.unacked_packets in
    record m { least_unacked = least; unacked_packets = infos }
