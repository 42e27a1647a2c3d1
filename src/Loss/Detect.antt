-- ===== src/Loss/Detect.antt =====
-- What DetectLosses declares lost, and the timer and the reordering fraction it keeps.
use puic.Prelude.{ℕ, suc, ◌+◌, ◌≤◌, ◌≡◌, arith, Bool, true, false, ◌==◌}
use puic.Prelude.{
  List, [], ◌∷◌, ◌&&◌, ◌||◌, if◌then◌else◌, ltb, leb, leb→le, ◌⊎◌, inl, inr, Bool-cases, All,
  if-cases,
}
use puic.Unacked.{TransmissionInfo, UnackedPacketMap}
use puic.Loss.{Scan, scan, judge, keep, lost, record_verdict, is_nacked, nack}
use puic.Loss.{GeneralLossAlgorithm, RttStats, detect_losses, scan_of}

-- Whether the records, from `number` on, have this packet in flight with these bytes.
unfoldable pub is_flying : ℕ → List TransmissionInfo → ℕ × ℕ → Bool
is_flying number [] (n, bytes) = false
is_flying number (info ∷ infos) (n, bytes) =
    if n == number
    then info.in_flight && bytes == info.bytes_sent
    else is_flying (suc number) infos (n, bytes)

is_flying-above :
    (number : ℕ) (infos : List TransmissionInfo) (x : ℕ × ℕ)
    → is_flying number infos x ≡ true
    → number ≤ x.0
unfolding is_flying
is_flying-above number [] x h = ground (arith, h)
is_flying-above number (info ∷ infos) (n, bytes) h = elim (Bool-cases (n == number)) [
  | inl t ↦ ground (arith, t)
  | inr f ↦ omega (arith, is_flying-above (suc number) infos (n, bytes) (ground (arith, h, f)))
]

-- A packet that may be declared lost.
unfoldable pub IsLost : Scan → ℕ → List TransmissionInfo → ℕ × ℕ → Type 0
unfolding is_flying
IsLost s number infos x = (is_flying number infos x ≡ true) × (x.0 ≤ s.largest_newly_acked)

IsLost-later :
    (s : Scan) (number : ℕ) (info : TransmissionInfo) (infos : List TransmissionInfo)
    (xs : List (ℕ × ℕ))
    → All (IsLost s (suc number) infos) xs
    → All (IsLost s number (info ∷ infos)) xs
IsLost-later s number info infos [] h = tt
IsLost-later s number info infos ((n, bytes) ∷ xs) (h, hs) =
    let above : suc number ≤ n =
      unfold IsLost in is_flying-above (suc number) infos (n, bytes) h.0 in
    (
      unfold IsLost is_flying in (ground (arith, h, above), h.1),
      IsLost-later s number info infos xs hs,
    )

judge_flies :
    (s : Scan) (n : ℕ) (info : TransmissionInfo) (infos : List TransmissionInfo)
    (rest : List (ℕ × ℕ) × ℕ)
    → n ≤ s.largest_newly_acked
    → All (IsLost s n (info ∷ infos)) rest.0
    → All (IsLost s n (info ∷ infos)) (record_verdict (judge s n info) n info rest).0
unfolding judge record_verdict IsLost is_flying
judge_flies s n info infos rest l h = ground (arith, h)

scan_lem :
    (s : Scan) (n : ℕ) (infos : List TransmissionInfo) → All (IsLost s n infos) (scan s n infos).0
unfolding scan
scan_lem s n [] = tt
scan_lem s n (info ∷ infos) =
    if-cases (λ (r : List (ℕ × ℕ) × ℕ). All (IsLost s n (info ∷ infos)) r.0)
      (leb n s.largest_newly_acked)
      (λ t.
        judge_flies s n info infos (scan s (suc n) infos) (leb→le _ _ t)
          (IsLost-later s n info infos (scan s (suc n) infos).0 (scan_lem s (suc n) infos)))
      (λ f. tt)

-- A timer, if one is set, is set for the future.
unfoldable pub is_timer_ahead : ℕ → ℕ → Bool
is_timer_ahead time timeout = timeout == 0 || ltb time timeout

judge-timer :
    (s : Scan) (n : ℕ) (info : TransmissionInfo) (rest : List (ℕ × ℕ) × ℕ)
    → is_timer_ahead s.time rest.1 ≡ true
    → is_timer_ahead s.time (record_verdict (judge s n info) n info rest).1 ≡ true
unfolding judge record_verdict is_timer_ahead
judge-timer s n info rest h = ground (arith, h)

scan-timer :
    (s : Scan) (n : ℕ) (infos : List TransmissionInfo)
    → is_timer_ahead s.time (scan s n infos).1 ≡ true
unfolding scan is_timer_ahead
scan-timer s n [] = ground arith
scan-timer s n (info ∷ infos) =
    if-cases (λ (r : List (ℕ × ℕ) × ℕ). is_timer_ahead s.time r.1 ≡ true)
      (leb n s.largest_newly_acked)
      (λ t. judge-timer s n info (scan s (suc n) infos) (scan-timer s (suc n) infos))
      (λ f. ground arith)

-- DetectLosses declares lost only packets that the map has in flight, with their bytes and no later
-- than the packet just acknowledged, and a timer that it sets is ahead.
pub detect_losses_lem :
    (a : GeneralLossAlgorithm) (m : UnackedPacketMap) (time : ℕ) (rtt : RttStats) (largest : ℕ)
    → let (a', packets) = detect_losses a m time rtt largest in
      All (IsLost (scan_of a m time rtt largest) m.least_unacked m.unacked_packets) packets
      × (is_timer_ahead time a'.loss_detection_timeout ≡ true)
unfolding detect_losses
detect_losses_lem a m time rtt largest =
    let s : Scan = scan_of a m time rtt largest in
    (
      scan_lem s m.least_unacked m.unacked_packets,
      unfold scan_of in scan-timer s m.least_unacked m.unacked_packets,
    )

unfoldable pub is_listed : ℕ × ℕ → List (ℕ × ℕ) → Bool
is_listed (n, bytes) [] = false
is_listed (n, bytes) ((k, size) ∷ xs) = (n == k && bytes == size) || is_listed (n, bytes) xs

nack-judge :
    (s : Scan) (n : ℕ) (info : TransmissionInfo)
    → s.type ≡ nack
    → n + 3 ≤ s.largest_newly_acked
    → judge s n info ≡ (if info.in_flight then lost else keep)
unfolding judge is_nacked
nack-judge s n info t l = rw t (ground (arith, l))

nack-head :
    (s : Scan) (number : ℕ) (info : TransmissionInfo) (infos : List TransmissionInfo) (n bytes : ℕ)
    (rest : List (ℕ × ℕ) × ℕ)
    → number + 3 ≤ s.largest_newly_acked
    → is_flying number (info ∷ infos) (n, bytes) ≡ true
    → (n == number || is_listed (n, bytes) rest.0) ≡ true
    → is_listed
        (n, bytes)
        (record_verdict (if info.in_flight then lost else keep) number info rest).0
      ≡ true
unfolding is_listed record_verdict is_flying
nack-head s number info infos n bytes rest l h k = ground (arith, h, k)

-- The number of the first record is the packet's, or below it.
flying-head :
    (number : ℕ) (info : TransmissionInfo) (infos : List TransmissionInfo) (n bytes : ℕ)
    → is_flying number (info ∷ infos) (n, bytes) ≡ true
    → (n ≡ number) ⊎ (is_flying (suc number) infos (n, bytes) ≡ true)
unfolding is_flying
flying-head number info infos n bytes h = ground (arith, h)

scan-nack :
    (s : Scan) (number : ℕ) (infos : List TransmissionInfo) (n bytes : ℕ)
    → s.type ≡ nack
    → n + 3 ≤ s.largest_newly_acked
    → is_flying number infos (n, bytes) ≡ true
    → is_listed (n, bytes) (scan s number infos).0 ≡ true
unfolding scan
scan-nack s number [] n bytes t l h = unfold is_flying in ground (arith, h)
scan-nack s number (info ∷ infos) n bytes t l h =
    let above : number ≤ n = is_flying-above number (info ∷ infos) (n, bytes) h in
    let later : (n == number || is_listed (n, bytes) (scan s (suc number) infos).0) ≡ true =
      elim (flying-head number info infos n bytes h) [
        | inl e ↦ ground (arith, e)
        | inr k ↦ ground (arith, scan-nack s (suc number) infos n bytes t l k)
      ] in
    if-cases (λ (r : List (ℕ × ℕ) × ℕ). is_listed (n, bytes) r.0 ≡ true)
      (leb number s.largest_newly_acked)
      (λ u. rw (nack-judge s number info t (omega (arith, above, l))) (
        nack-head s number info infos n bytes (scan s (suc number) infos) (omega (arith, above, l))
          h later))
      (λ u. ground (arith, u, above, l))

-- With FACK, every packet in flight that is three or more below the one just acknowledged is declared
-- lost, whatever the times are.
pub detect_losses_by_nack :
    (a : GeneralLossAlgorithm) (m : UnackedPacketMap) (time : ℕ) (rtt : RttStats) (largest : ℕ)
    (n bytes : ℕ)
    → a.loss_type ≡ nack
    → n + 3 ≤ largest
    → is_flying m.least_unacked m.unacked_packets (n, bytes) ≡ true
    → is_listed (n, bytes) (detect_losses a m time rtt largest).1 ≡ true
unfolding detect_losses
detect_losses_by_nack a m time rtt largest n bytes t l h =
    scan-nack (scan_of a m time rtt largest) m.least_unacked m.unacked_packets n bytes
      (unfold scan_of in t) (unfold scan_of in l) h
