-- ===== src/Unacked/Cancel.antt =====
-- CancelRetransmissionsForStream keeps the map well formed.
use puic.Prelude.{ℕ, zero, suc, ◌+◌, ◌<◌, ◌≡◌, refl, arith, List}
use puic.Prelude.{length, some, get_elem?, set, inl, inr, Option-cases, if-cases, ◌∙◌}
use puic.Unacked.{TransmissionInfo, UnackedPacketMap, Notice, is_empty, QuicFrame}
use puic.Unacked.Changes.{cancel_record, cancel_from, cancel_retransmissions_for_stream}
use puic.Unacked.Changes.{remove_frames_for_stream}
use puic.Unacked.Links.{flight, get_elem?-bound, length-set}
use puic.Unacked.Bytes.{IsValid, set-IsValid, remove_retransmittability-IsValid}

cancel_some :
    (m : UnackedPacketMap) (id i : ℕ) (info : TransmissionInfo)
    → get_elem? m.unacked_packets i ≡ some info
    → IsValid m
    → let (r, _) = cancel_record m id i (some info) in
      IsValid r × (r.bytes_in_flight ≡ m.bytes_in_flight)
unfolding cancel_record
cancel_some m id i info e v =
    let frames : List QuicFrame = remove_frames_for_stream info.retransmittable_frames id in
    let new : TransmissionInfo = record info { retransmittable_frames = frames } in
    let m' : UnackedPacketMap = record m { unacked_packets = set m.unacked_packets i new } in
    let v' : IsValid m' = set-IsValid m i info new e (unfold flight in refl) refl v in
    let inside : i < length m.unacked_packets = get_elem?-bound m.unacked_packets i info e in
    if-cases
      (λ (r : UnackedPacketMap × List Notice).
        IsValid r.0 × (r.0.bytes_in_flight ≡ m.bytes_in_flight))
      (is_empty info.retransmittable_frames) (λ t. (v, refl))
      (λ f.
        if-cases (λ r. IsValid r × (r.bytes_in_flight ≡ m.bytes_in_flight)) (is_empty frames)
          (λ t.
            (remove_retransmittability-IsValid m' (m.least_unacked + i) v' (omega arith)
              (omega (arith, inside, length-set m.unacked_packets i new))).0)
          (λ g. (v', refl)))

cancel_record-IsValid :
    (m : UnackedPacketMap) (id i : ℕ)
    → IsValid m
    → let (r, _) = cancel_record m id i (get_elem? m.unacked_packets i) in
      IsValid r × (r.bytes_in_flight ≡ m.bytes_in_flight)
cancel_record-IsValid m id i v = elim (Option-cases (get_elem? m.unacked_packets i)) [
  | inl e ↦ rw e (unfold cancel_record in (v, refl))
  | inr (info, e) ↦ rw e (cancel_some m id i info e v)
]

cancel_from-IsValid :
    (left : ℕ) (m : UnackedPacketMap) (id i : ℕ)
    → IsValid m
    → let (r, _) = cancel_from m id i left in IsValid r × (r.bytes_in_flight ≡ m.bytes_in_flight)
unfolding cancel_from
cancel_from-IsValid zero m id i v = (v, refl)
cancel_from-IsValid (suc left) m id i v =
    let (v', e) = cancel_record-IsValid m id i v in
    let (v'', e') = cancel_from-IsValid left _ id (suc i) v' in (v'', e' ∙ e)

-- A stream that is cancelled leaves the map well formed and the bytes in flight as they were: its
-- packets still count until they are acknowledged or lost.
pub cancel_retransmissions-IsValid :
    (m : UnackedPacketMap) (stream_id : ℕ)
    → IsValid m
    → let (r, _) = cancel_retransmissions_for_stream m stream_id in
      IsValid r × (r.bytes_in_flight ≡ m.bytes_in_flight)
unfolding cancel_retransmissions_for_stream
cancel_retransmissions-IsValid m id v = cancel_from-IsValid (length m.unacked_packets) m id 0 v
