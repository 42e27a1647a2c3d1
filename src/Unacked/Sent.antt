-- ===== src/Unacked/Sent.antt =====
-- AddSentPacket keeps the map well formed, retransmissions included.
use puic.Prelude.{ℕ, zero, suc, ◌+◌, ◌-◌, ◌≤◌, ◌<◌, ◌≡◌, refl, arith, Bool, true, false}
use puic.Prelude.{List, [], ◌∷◌, length, some, get_elem?, set, inl, inr, if◌then◌else◌}
use puic.Prelude.{Option-cases, u64_mod, sym, if-cases, ◌++◌, replicate, length-append}
use puic.Prelude.{◌==◌, ltb, ◌||◌}
use puic.Unacked.{TransmissionInfo, transmission_info, UnackedPacketMap, remove_obsolete_packets}
use puic.Unacked.{TransmissionType, SerializedPacket, Notice, not_retransmission}
use puic.Unacked.{all_initial_retransmission, all_unacked_retransmission, handshake_retransmission}
use puic.Unacked.{
  loss_retransmission, rto_retransmission, tlp_retransmission, probing_retransmission,
}
use puic.Unacked.Changes.{fill_gap, transfer_from, transfer_retransmission_info, info_of_packet}
use puic.Unacked.Changes.{push_sent, add_sent_packet, link_retransmission}
use puic.Unacked.Obsolete.{drop_useless-length}
use puic.Unacked.Links.{IsLink, IsLinked, flight, flight_bytes, flight_bytes-set, IsLinked-set}
use puic.Unacked.Links.{IsLinked-get, length-set, get_elem?-bound}
use puic.Unacked.Bytes.{IsValid, drop_useless-flight}

module _ where
  flight_bytes-append :
      (xs ys : List TransmissionInfo) → flight_bytes (xs ++ ys) ≡ flight_bytes xs + flight_bytes ys
  unfolding flight_bytes
  flight_bytes-append [] ys = omega arith
  flight_bytes-append (x ∷ xs) ys = omega (arith, flight_bytes-append xs ys)

  -- Links stay links when the deque grows.
  IsLinked-append :
      (xs ys : List TransmissionInfo) (number end end' : ℕ)
      → end ≤ end'
      → IsLinked xs number end
      → IsLinked ys (number + length xs) end'
      → IsLinked (xs ++ ys) number end'
  unfolding IsLinked IsLink
  IsLinked-append [] ys number end end' l h k =
      let e : number + 0 ≡ number = omega arith in rw (sym e) k
  IsLinked-append (x ∷ xs) ys number end end' l h k = (
    ground (arith, h.0, l),
    IsLinked-append xs ys (suc number) end end' l h.1
        (let e : suc number + length xs ≡ number + suc (length xs) = omega arith in rw e k),
  )

  filler_lem :
      (info : TransmissionInfo) (n number end : ℕ)
      → info.retransmission ≡ 0
      → flight info ≡ 0
      → IsLinked (replicate n info) number end
        × (flight_bytes (replicate n info) ≡ 0)
        × (length (replicate n info) ≡ n)
  unfolding IsLinked IsLink flight_bytes
  filler_lem info zero number end r f = (tt, refl, refl)
  filler_lem info (suc n) number end r f =
      let (l, s, e) = filler_lem info n (suc number) end r f in
      ((inl r, l), omega (arith, s, f), omega (arith, e))

-- Before the new record is pushed: it has the packet's bytes and no link, and the others, in flight
-- as before, may have a link to it.
unfoldable IsReady : UnackedPacketMap → TransmissionInfo → ℕ → ℕ → ℕ → Type 0
unfolding IsLinked
IsReady m info number bytes size =
    IsLinked m.unacked_packets m.least_unacked (suc number)
    × (m.least_unacked + length m.unacked_packets ≡ number)
    × (flight_bytes m.unacked_packets ≡ bytes)
    × (m.bytes_in_flight ≡ bytes)
    × (info.retransmission ≡ 0)
    × (info.bytes_sent ≡ size)

fill_gap-IsReady :
    (m : UnackedPacketMap) (packet : SerializedPacket) (type : TransmissionType) (sent_time : ℕ)
    → IsValid m
    → m.least_unacked + length m.unacked_packets ≤ packet.packet_number
    → IsReady
        (fill_gap m packet.packet_number)
        (info_of_packet packet type sent_time)
        packet.packet_number
        m.bytes_in_flight
        packet.encrypted_length
unfolding fill_gap IsReady info_of_packet transmission_info
fill_gap-IsReady m packet type sent_time v h =
    let filler : TransmissionInfo = record transmission_info { is_unackable = true } in
    let end : ℕ = m.least_unacked + length m.unacked_packets in
    let gap : ℕ = packet.packet_number - end in
    let (linked, sum, len) =
      filler_lem filler gap end (suc packet.packet_number) refl
        (unfold flight transmission_info in refl) in
    let fill : List TransmissionInfo = replicate gap filler in
    (
      IsLinked-append m.unacked_packets fill m.least_unacked end (suc packet.packet_number)
          (omega (arith, h)) (unfold IsValid in v.3) linked,
      omega (arith, h, length-append m.unacked_packets fill, len),
      unfold IsValid in omega (arith, flight_bytes-append m.unacked_packets fill, sum, v),
      refl,
      refl,
      refl,
    )

link_retransmission_lem :
    (type : TransmissionType) (number k : ℕ) (info : TransmissionInfo)
    → IsLink info k (suc number)
    → k < number
    → (flight (link_retransmission type number info) ≡ flight info)
      × IsLink (link_retransmission type number info) k (suc number)
unfolding link_retransmission flight IsLink
link_retransmission_lem not_retransmission number k info h l = (refl, inr (l, omega arith))
link_retransmission_lem handshake_retransmission number k info h l = (refl, inr (l, omega arith))
link_retransmission_lem all_unacked_retransmission number k info h l = (refl, h)
link_retransmission_lem all_initial_retransmission number k info h l = (refl, h)
link_retransmission_lem loss_retransmission number k info h l = (refl, inr (l, omega arith))
link_retransmission_lem rto_retransmission number k info h l = (refl, inr (l, omega arith))
link_retransmission_lem tlp_retransmission number k info h l = (refl, inr (l, omega arith))
link_retransmission_lem probing_retransmission number k info h l = (refl, inr (l, omega arith))

transfer_from-IsReady :
    (m : UnackedPacketMap) (prev : TransmissionInfo) (old : ℕ) (type : TransmissionType)
    (info : TransmissionInfo) (number bytes size : ℕ)
    → get_elem? m.unacked_packets (old - m.least_unacked) ≡ some prev
    → m.least_unacked ≤ old
    → IsReady m info number bytes size
    → let (m', info', _) = transfer_from m (some prev) old number type info in
      IsReady m' info' number bytes size
unfolding transfer_from remove_obsolete_packets IsReady
transfer_from-IsReady m prev old type info number bytes size e l h =
    let i : ℕ = old - m.least_unacked in
    let emptied : TransmissionInfo = record prev {
      retransmittable_frames = info.retransmittable_frames;
      has_crypto_handshake = false;
    } in
    let moved : TransmissionInfo = link_retransmission type number emptied in
    let len = length-set m.unacked_packets i moved in
    let inside : i < length m.unacked_packets = get_elem?-bound m.unacked_packets i prev e in
    let linked_before : IsLink emptied (m.least_unacked + i) (suc number) =
      unfold IsLink in IsLinked-get m.unacked_packets i m.least_unacked (suc number) prev e h.0 in
    let (same', link) =
      link_retransmission_lem type number (m.least_unacked + i) emptied linked_before
        (omega (arith, inside, h.1)) in
    let same : flight moved ≡ flight prev = unfold flight in same' in
    let changed = flight_bytes-set m.unacked_packets i prev moved e in
    let (sum, linked) =
      drop_useless-flight m.largest_observed m.least_unacked (suc number)
        (set m.unacked_packets i moved)
        (IsLinked-set m.unacked_packets i m.least_unacked (suc number) moved link h.0) in
    let end =
      drop_useless-length m.largest_observed m.least_unacked (set m.unacked_packets i moved) in
    (linked, omega (arith, end, len, h), omega (arith, sum, changed, same, h), h.3, h.4, h.5)

transfer_retransmission_info-IsReady :
    (m : UnackedPacketMap) (old : ℕ) (type : TransmissionType) (info : TransmissionInfo)
    (number bytes size : ℕ)
    → IsReady m info number bytes size
    → let (m', info', _) = transfer_retransmission_info m old number type info in
      IsReady m' info' number bytes size
unfolding transfer_retransmission_info
transfer_retransmission_info-IsReady m old type info number bytes size h =
    if-cases
      (λ (r : UnackedPacketMap × TransmissionInfo × List Notice). IsReady r.0 r.1 number bytes size)
      (ltb old m.least_unacked || ltb m.largest_sent_packet old) (λ t. h)
      (λ f. elim (Option-cases (get_elem? m.unacked_packets (old - m.least_unacked))) [
        | inl e ↦ rw e (unfold transfer_from in h)
        | inr (prev, e) ↦
            rw e
              (transfer_from-IsReady m prev old type info number bytes size e (ground (arith, f)) h)
      ])

push_lem :
    (infos : List TransmissionInfo) (new : TransmissionInfo) (least number bytes w : ℕ)
    → IsLinked infos least (suc number)
    → least + length infos ≡ number
    → flight_bytes infos ≡ bytes
    → new.retransmission ≡ 0
    → flight new ≡ w
    → IsLinked (infos ++ (new ∷ [])) least (suc number)
      × (least + length (infos ++ (new ∷ [])) ≡ suc number)
      × (flight_bytes (infos ++ (new ∷ [])) ≡ bytes + w)
push_lem infos new least number bytes w linked len sum r f =
    let one : flight_bytes (new ∷ []) ≡ w = unfold flight_bytes in omega (arith, f) in
    (
      IsLinked-append infos (new ∷ []) least (suc number) (suc number) (omega arith) linked
          (unfold IsLinked IsLink in (inl r, tt)),
      omega (arith, len, length-append infos (new ∷ [])),
      omega (arith, flight_bytes-append infos (new ∷ []), one, sum),
    )

-- A map whose last record was just pushed.
pushed-IsValid :
    (r : UnackedPacketMap) (number bytes w : ℕ)
    → r.bytes_in_flight ≡ bytes + w
    → bytes + w < u64_mod
    → suc number < u64_mod
    → IsLinked r.unacked_packets r.least_unacked (suc number)
      × (r.least_unacked + length r.unacked_packets ≡ suc number)
      × (flight_bytes r.unacked_packets ≡ bytes + w)
    → IsValid r
      × (r.bytes_in_flight ≡ bytes + w)
      × (r.least_unacked + length r.unacked_packets ≡ suc number)
unfolding IsValid
pushed-IsValid r number bytes w e s b (linked, len, sum) =
    ((omega (arith, e, sum), omega (arith, s, sum), omega (arith, b, len), rw len linked), e, len)

push_sent-IsValid :
    (m : UnackedPacketMap) (packet : SerializedPacket) (info : TransmissionInfo)
    (first set_in_flight : Bool) (bytes : ℕ)
    → IsReady m info packet.packet_number bytes packet.encrypted_length
    → suc packet.packet_number < u64_mod
    → bytes + packet.encrypted_length < u64_mod
    → let r = push_sent m packet info first set_in_flight in
      IsValid r
      × (r.bytes_in_flight ≡ bytes + (if set_in_flight then packet.encrypted_length else 0))
      × (r.least_unacked + length r.unacked_packets ≡ suc packet.packet_number)
unfolding push_sent IsReady
push_sent-IsValid m packet info true true bytes h b s =
    pushed-IsValid (push_sent m packet info true true) packet.packet_number bytes
      packet.encrypted_length (omega (arith, h, s)) s b
      (push_lem m.unacked_packets _ m.least_unacked packet.packet_number bytes _ h.0 h.1 h.2 h.4
        (unfold flight in h.5))
push_sent-IsValid m packet info false true bytes h b s =
    pushed-IsValid (push_sent m packet info false true) packet.packet_number bytes
      packet.encrypted_length (omega (arith, h, s)) s b
      (push_lem m.unacked_packets _ m.least_unacked packet.packet_number bytes _ h.0 h.1 h.2 h.4
        (unfold flight in h.5))
push_sent-IsValid m packet info true false bytes h b s =
    pushed-IsValid (push_sent m packet info true false) packet.packet_number bytes 0
      (omega (arith, h)) (omega (arith, s)) b
      (push_lem m.unacked_packets _ m.least_unacked packet.packet_number bytes _ h.0 h.1 h.2 h.4
        (unfold flight in refl))
push_sent-IsValid m packet info false false bytes h b s =
    pushed-IsValid (push_sent m packet info false false) packet.packet_number bytes 0
      (omega (arith, h)) (omega (arith, s)) b
      (push_lem m.unacked_packets _ m.least_unacked packet.packet_number bytes _ h.0 h.1 h.2 h.4
        (unfold flight in refl))

-- AddSentPacket, of a new packet or a retransmission, keeps the map well formed, adds the packet's
-- bytes to those in flight exactly if it is sent in flight, and makes the packet the last record.
pub add_sent_packet-IsValid :
    (m : UnackedPacketMap) (packet : SerializedPacket) (old : ℕ) (type : TransmissionType)
    (sent_time : ℕ) (set_in_flight : Bool)
    → IsValid m
    → m.least_unacked + length m.unacked_packets ≤ packet.packet_number
    → suc packet.packet_number < u64_mod
    → m.bytes_in_flight + packet.encrypted_length < u64_mod
    → let (r, _) = add_sent_packet m packet old type sent_time set_in_flight in
      IsValid r
      × (r.bytes_in_flight
          ≡ m.bytes_in_flight + (if set_in_flight then packet.encrypted_length else 0))
      × (r.least_unacked + length r.unacked_packets ≡ suc packet.packet_number)
unfolding add_sent_packet
add_sent_packet-IsValid m packet old type sent_time set_in_flight v l b s =
    let n : ℕ = packet.packet_number in
    let size : ℕ = packet.encrypted_length in
    let ready = fill_gap-IsReady m packet type sent_time v l in
    push_sent-IsValid _ packet _ (old == 0) set_in_flight m.bytes_in_flight
      (if-cases
        (λ (r : UnackedPacketMap × TransmissionInfo × List Notice).
          IsReady r.0 r.1 n m.bytes_in_flight size)
        (old == 0) (λ t. ready)
        (λ f.
          transfer_retransmission_info-IsReady (fill_gap m n) old type
            (info_of_packet packet type sent_time) n m.bytes_in_flight size ready))
      b s
