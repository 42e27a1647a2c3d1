-- ===== src/Unacked/Bytes.antt =====
-- The bytes in flight are those of the records in flight, whatever is done to the map.
use puic.Prelude.{ℕ, suc, ◌+◌, ◌-◌, ◌≤◌, ◌<◌, ◌≡◌, refl, arith, true, false}
use puic.Prelude.{List, [], ◌∷◌, length, Option, none, some, get_elem?, set, inl, inr}
use puic.Prelude.{Option-cases, u64_mod, if-cases}
use puic.Unacked.{TransmissionInfo, UnackedPacketMap, drop_useless, remove_obsolete_packets}
use puic.Unacked.{is_packet_useless, QuicFrame}
use puic.Unacked.Obsolete.{drop_useless-length}
use puic.Unacked.Changes.{remove_retransmittability, clear_at_end, clear_frames}
use puic.Unacked.Changes.{remove_from_in_flight, remove_record}
use puic.Unacked.Links.{
  IsLink, IsLinked, flight, flight_bytes, chain_end_lem, IsEnd, flight_bytes-set,
}
use puic.Unacked.Links.{frames_at, frames_of, Chain, get_elem?-set_same, get_elem?-set_other}
use puic.Prelude.{◌==◌, ==_iff, ap, ◌∙◌, if◌then◌else◌}
use mathlib.Core.Path.{subst}
use puic.Unacked.Links.{IsLinked-set, get_elem?-some, length-set, IsLinked-get}

unfoldable pub IsValid : UnackedPacketMap → Type 0
unfolding IsLinked
IsValid m =
    (m.bytes_in_flight ≡ flight_bytes m.unacked_packets)
    × (flight_bytes m.unacked_packets < u64_mod)
    × (m.least_unacked + length m.unacked_packets < u64_mod)
    × IsLinked m.unacked_packets m.least_unacked (m.least_unacked + length m.unacked_packets)

-- A record replaced by one that adds as much and links as it did.
pub set-IsValid :
    (m : UnackedPacketMap) (i : ℕ) (old new : TransmissionInfo)
    → get_elem? m.unacked_packets i ≡ some old
    → flight new ≡ flight old
    → new.retransmission ≡ old.retransmission
    → IsValid m
    → IsValid (record m { unacked_packets = set m.unacked_packets i new })
unfolding IsValid
set-IsValid m i old new e f r v =
    let len = length-set m.unacked_packets i new in
    let sum = flight_bytes-set m.unacked_packets i old new e in
    (
      omega (arith, v, sum, f),
      omega (arith, v, sum, f),
      omega (arith, v, len),
      rw len (
          IsLinked-set m.unacked_packets i _ _ new
            (unfold IsLink in
              rw r (unfold IsLink in IsLinked-get m.unacked_packets i _ _ old e (v.3)))
            (v.3)),
    )

clear_frames-IsValid :
    (m : UnackedPacketMap) (i : ℕ) (info : TransmissionInfo)
    → get_elem? m.unacked_packets i ≡ some info
    → IsValid m
    → IsValid (clear_frames m i (some info))
      × ((clear_frames m i (some info)).bytes_in_flight ≡ m.bytes_in_flight)
unfolding clear_frames IsValid
clear_frames-IsValid m i info e v = (
  set-IsValid m i info (record info { has_crypto_handshake = false; retransmittable_frames = [] }) e
      (unfold flight in refl) refl v,
  refl,
)

clear_at_end-IsValid :
    (m : UnackedPacketMap) (infos : List TransmissionInfo) (i : ℕ)
    → IsValid m
    → IsEnd m.least_unacked
        (m.least_unacked + length m.unacked_packets)
        m.unacked_packets
        (infos, i)
    → IsValid (clear_at_end m (some (infos, i)))
      × ((clear_at_end m (some (infos, i))).bytes_in_flight ≡ m.bytes_in_flight)
unfolding clear_at_end IsEnd
clear_at_end-IsValid m infos i v (linked, len, sum, inside) =
    let (info, found) = get_elem?-some infos i (omega (arith, inside, len)) in
    let walked : IsValid (record m { unacked_packets = infos }) =
      unfold IsValid in
      (omega (arith, v, sum), omega (arith, v, sum), omega (arith, v, len), rw len linked) in
    rw found (clear_frames-IsValid (record m { unacked_packets = infos }) i info found walked)

-- At the end of a walk the frames are gone, and no others.
clear_at_end-frames :
    (m : UnackedPacketMap) (infos : List TransmissionInfo) (j k : ℕ)
    → j < length infos
    → frames_at (clear_at_end m (some (infos, j))).unacked_packets k
      ≡ (if j == k then [] else frames_at infos k)
unfolding clear_at_end clear_frames
clear_at_end-frames m infos j k l =
    let (info, found) = get_elem?-some infos j l in
    let new : TransmissionInfo = record info {
      has_crypto_handshake = false;
      retransmittable_frames = [];
    } in
    rw found (
      if-cases (λ (fs : List QuicFrame). frames_at (set infos j new) k ≡ fs) (j == k)
        (λ t.
          let e : j ≡ k = (==_iff j k).0 t in
          subst (λ x. frames_at (set infos j new) x ≡ []) e
            (ap frames_of (get_elem?-set_same infos j new l)))
        (λ f. ap frames_of (get_elem?-set_other infos j k new f)))

-- RemoveRetransmittability, for a packet of the deque, follows the links of retransmissions to the record
-- that has none, removes the frames of that record and of no other, and keeps the map well formed and
-- the bytes in flight.
pub remove_retransmittability-IsValid :
    (m : UnackedPacketMap) (packet_number : ℕ)
    → IsValid m
    → m.least_unacked ≤ packet_number
    → packet_number < m.least_unacked + length m.unacked_packets
    → let r = remove_retransmittability m packet_number in
      (IsValid r × (r.bytes_in_flight ≡ m.bytes_in_flight))
      × ((j : ℕ) × Chain m.least_unacked m.unacked_packets (packet_number - m.least_unacked) j
          × ((k : ℕ)
              → frames_at r.unacked_packets k
                ≡ (if j == k then [] else frames_at m.unacked_packets k)))
unfolding remove_retransmittability
remove_retransmittability-IsValid m n v l h =
    let (r, ends, k, (c, kept)) =
      chain_end_lem (suc (length m.unacked_packets)) m.least_unacked
        (m.least_unacked + length m.unacked_packets) m.unacked_packets (n - m.least_unacked)
        (unfold IsValid in v.3) refl (unfold IsValid in v.2) (omega (arith, l, h)) (omega arith) in
    let inside : r.1 < length r.0 = unfold IsEnd in omega (arith, k) in
    rw ends (
      clear_at_end-IsValid m r.0 r.1 v k,
      (
        r.1,
        c,
        λ x.
            clear_at_end-frames m r.0 r.1 x inside
            ∙ ap (λ (fs : List QuicFrame). if r.1 == x then [] else fs) (kept x),
      ),
    )

-- The bytes in flight of one packet.
unfoldable pub flight_of : Option TransmissionInfo → ℕ
unfolding flight
flight_of none = 0
flight_of (some info) = flight info

remove_record-IsValid :
    (m : UnackedPacketMap) (i : ℕ) (info : TransmissionInfo)
    → get_elem? m.unacked_packets i ≡ some info
    → IsValid m
    → IsValid (remove_record m i (some info))
      × ((remove_record m i (some info)).bytes_in_flight + flight info ≡ m.bytes_in_flight)
unfolding remove_record
remove_record-IsValid m i info e v =
    let new : TransmissionInfo = record info { in_flight = false } in
    let len = length-set m.unacked_packets i new in
    let sum = flight_bytes-set m.unacked_packets i info new e in
    let end : ℕ = m.least_unacked + length m.unacked_packets in
    let linked =
      IsLinked-set m.unacked_packets i m.least_unacked end new
        (unfold IsLink in
          IsLinked-get m.unacked_packets i m.least_unacked end info e (unfold IsValid in v.3))
        (unfold IsValid in v.3) in
    if-cases (λ r. IsValid r × (r.bytes_in_flight + flight info ≡ m.bytes_in_flight)) info.in_flight
      (λ t.
        unfold IsValid flight in
        (
          (
            ground (arith, v, sum, t),
            ground (arith, v, sum, t),
            omega (arith, v, len),
            rw len linked,
          ),
          ground (arith, v, sum, t),
        ))
      (λ f. unfold flight in (v, ground (arith, f)))

-- RemoveFromInFlight keeps the map well formed and lowers the bytes in flight by those of the packet
-- if it is in flight.
pub remove_from_in_flight-IsValid :
    (m : UnackedPacketMap) (packet_number : ℕ)
    → IsValid m
    → let r = remove_from_in_flight m packet_number in
      IsValid r
      × (r.bytes_in_flight
            + flight_of (get_elem? m.unacked_packets (packet_number - m.least_unacked))
          ≡ m.bytes_in_flight)
unfolding remove_from_in_flight flight_of
remove_from_in_flight-IsValid m n v =
    elim (Option-cases (get_elem? m.unacked_packets (n - m.least_unacked))) [
      | inl e ↦ rw e (unfold remove_record in (v, omega arith))
      | inr (info, e) ↦ rw e (remove_record-IsValid m (n - m.least_unacked) info e v)
    ]

useless_has_no_flight :
    (observed n : ℕ) (info : TransmissionInfo)
    → is_packet_useless observed n info ≡ true
    → flight info ≡ 0
unfolding is_packet_useless flight
useless_has_no_flight observed n info h = ground (arith, h)

pub drop_useless-flight :
    (observed least end : ℕ) (infos : List TransmissionInfo)
    → IsLinked infos least end
    → let (least', infos') = drop_useless observed least infos in
      (flight_bytes infos' ≡ flight_bytes infos) × IsLinked infos' least' end
unfolding drop_useless flight_bytes IsLinked
drop_useless-flight observed least end [] h = (refl, h)
drop_useless-flight observed least end (info ∷ infos) h =
    let (sum, linked) = drop_useless-flight observed (suc least) end infos h.1 in
    if-cases
      (λ (r : ℕ × List TransmissionInfo).
        (flight_bytes r.1 ≡ flight_bytes (info ∷ infos)) × IsLinked r.1 r.0 end)
      (is_packet_useless observed least info)
      (λ t. (omega (arith, sum, useless_has_no_flight observed least info t), linked))
      (λ f. (refl, h))

-- RemoveObsoletePackets keeps the map well formed and the bytes in flight.
pub remove_obsolete_packets-IsValid :
    (m : UnackedPacketMap) → IsValid m → IsValid (remove_obsolete_packets m)
unfolding remove_obsolete_packets IsValid
remove_obsolete_packets-IsValid m v =
    let (sum, linked) =
      drop_useless-flight m.largest_observed m.least_unacked
        (m.least_unacked + length m.unacked_packets) m.unacked_packets v.3 in
    let end = drop_useless-length m.largest_observed m.least_unacked m.unacked_packets in
    (omega (arith, v, sum), omega (arith, v, sum), omega (arith, v, end), rw end linked)
