-- ===== src/Loss.antt =====
-- Loss detection: GeneralLossAlgorithm of
-- puicbase/net/quic/core/congestion_control/general_loss_algorithm.{h,cc}. Times are microseconds
-- since a start the clock never goes back behind; 0 is QuicTime::Zero. The three round-trip times of
-- RttStats are inputs.
pub mod Detect
pub mod Reordering
mod Examples
use puic.Prelude.{
  ℕ, zero, suc, ◌+◌, ◌-◌, ◌*◌, ◌/◌, ◌^◌, max, ◌==◌, ltb, leb, if◌then◌else◌, Bool, true, false,
}
use puic.Prelude.{not, ◌&&◌, ◌||◌, Option, none, some, List, [], ◌∷◌, length, get_elem?}
use puic.Unacked.{TransmissionInfo, UnackedPacketMap, is_empty}

pub data LossDetectionType : Type 0 where
  nack time_based adaptive_time lazy_fack : LossDetectionType

pub record GeneralLossAlgorithm : Type 0 where
  pub loss_detection_timeout : ℕ
  pub largest_sent_on_spurious_retransmit : ℕ
  pub loss_type : LossDetectionType
  pub reordering_shift : ℕ
  pub largest_previously_acked : ℕ

pub record RttStats : Type 0 where
  pub previous_srtt : ℕ
  pub latest_rtt : ℕ
  pub smoothed_rtt : ℕ

unfoldable pub default_shift : LossDetectionType → ℕ
default_shift nack = 2
default_shift time_based = 2
default_shift adaptive_time = 4
default_shift lazy_fack = 2

-- The constructor and SetLossDetectionType.
unfoldable pub general_loss_algorithm : LossDetectionType → GeneralLossAlgorithm
unfolding default_shift
general_loss_algorithm type = record {
  loss_detection_timeout = 0;
  largest_sent_on_spurious_retransmit = 0;
  loss_type = type;
  reordering_shift = default_shift type;
  largest_previously_acked = 0;
}

unfoldable pub set_loss_detection_type :
    GeneralLossAlgorithm → LossDetectionType → GeneralLossAlgorithm
unfolding general_loss_algorithm
set_loss_detection_type a type = general_loss_algorithm type

abbrev pub nacks_before_retransmission : ℕ
nacks_before_retransmission = 3

unfoldable pub max_rtt : RttStats → ℕ
max_rtt rtt = max rtt.previous_srtt rtt.latest_rtt

-- At least 5 milliseconds, and the longer round-trip time with a fraction of it.
unfoldable pub loss_delay : RttStats → ℕ → ℕ
unfolding max_rtt
loss_delay rtt shift = max 5000 (max_rtt rtt + max_rtt rtt / 2 ^ shift)

-- What the loop of DetectLosses reads.
pub record Scan : Type 0 where
  pub type : LossDetectionType
  pub time : ℕ
  pub delay : ℕ
  pub largest_newly_acked : ℕ
  pub largest_previously_acked : ℕ
  pub largest_sent_retransmittable : ℕ
  pub smoothed_rtt : ℕ
  pub acked_sent_time : ℕ

pub data Verdict : Type 0 where
  keep lost : Verdict
  wait : ℕ → Verdict

-- The tests by packet number.
unfoldable pub is_nacked : Scan → LossDetectionType → ℕ → Bool
is_nacked s nack n = leb nacks_before_retransmission (s.largest_newly_acked - n)
is_nacked s lazy_fack n =
    ltb s.largest_previously_acked s.largest_newly_acked
    && ltb n s.largest_previously_acked
    && leb (nacks_before_retransmission - 1) (s.largest_previously_acked - n)
is_nacked s time_based n = false
is_nacked s adaptive_time n = false

unfoldable pub is_time_based : LossDetectionType → Bool
is_time_based time_based = true
is_time_based adaptive_time = true
is_time_based nack = false
is_time_based lazy_fack = false

-- Whether a timer decides.
unfoldable pub is_timed : Scan → TransmissionInfo → Bool
unfolding is_time_based is_empty
is_timed s info =
    (not (is_empty info.retransmittable_frames)
      && leb s.largest_sent_retransmittable s.largest_newly_acked)
    || is_time_based s.type

unfoldable pub judge : Scan → ℕ → TransmissionInfo → Verdict
unfolding is_nacked is_timed
judge s n info =
    if not info.in_flight
    then keep
    else if is_nacked s s.type n
    then lost
    else if is_timed s info
    then (if ltb s.time (info.sent_time + s.delay) then wait (info.sent_time + s.delay) else lost)
    else if ltb (info.sent_time + s.smoothed_rtt) s.acked_sent_time
    then lost
    else keep

unfoldable pub record_verdict : Verdict → ℕ → TransmissionInfo → List (ℕ × ℕ) × ℕ → List (ℕ × ℕ) × ℕ
record_verdict keep n info rest = rest
record_verdict lost n info (packets, timeout) = ((n, info.bytes_sent) ∷ packets, timeout)
record_verdict (wait when_lost) n info rest = ([], when_lost)

-- The loop: the lost packets with their bytes, and the time to look again.
unfoldable pub scan : Scan → ℕ → List TransmissionInfo → List (ℕ × ℕ) × ℕ
unfolding record_verdict judge
scan s n [] = ([], 0)
scan s n (info ∷ infos) =
    let rest : List (ℕ × ℕ) × ℕ = scan s (suc n) infos in
    if leb n s.largest_newly_acked then record_verdict (judge s n info) n info rest else ([], 0)

-- 0 for a packet that is not there, which is undefined in the source.
unfoldable pub sent_time_of : Option TransmissionInfo → ℕ
sent_time_of none = 0
sent_time_of (some info) = info.sent_time

unfoldable pub scan_of : GeneralLossAlgorithm → UnackedPacketMap → ℕ → RttStats → ℕ → Scan
unfolding loss_delay sent_time_of
scan_of a m time rtt largest = record {
  type = a.loss_type;
  time = time;
  delay = loss_delay rtt a.reordering_shift;
  largest_newly_acked = largest;
  largest_previously_acked = a.largest_previously_acked;
  largest_sent_retransmittable = m.largest_sent_retransmittable_packet;
  smoothed_rtt = rtt.smoothed_rtt;
  acked_sent_time = sent_time_of (get_elem? m.unacked_packets (largest - m.least_unacked));
}

unfoldable pub detect_losses :
    GeneralLossAlgorithm → UnackedPacketMap → ℕ → RttStats → ℕ → GeneralLossAlgorithm × List (ℕ × ℕ)
unfolding scan_of scan
detect_losses a m time rtt largest =
    let (packets, timeout) =
      scan (scan_of a m time rtt largest) m.least_unacked m.unacked_packets in
    (record a { loss_detection_timeout = timeout; largest_previously_acked = largest }, packets)

-- The loop of SpuriousRetransmitDetected that tests first.
unfoldable pub lower_while : ℕ → ℕ → ℕ → ℕ
lower_while zero rtt extra = zero
lower_while (suc shift) rtt extra =
    let rest : ℕ = lower_while shift rtt extra in
    if leb (rtt / 2 ^ suc shift) extra then rest else suc shift

-- The loop that lowers the shift before it tests; it is entered with a shift above 0.
unfoldable pub lower_do : ℕ → ℕ → ℕ → ℕ
lower_do zero rtt extra = zero
lower_do (suc shift) rtt extra =
    let rest : ℕ = lower_do shift rtt extra in
    if ltb (rtt / 2 ^ suc shift) extra && ltb 0 shift then rest else shift

unfoldable pub is_adaptive : LossDetectionType → Bool
is_adaptive adaptive_time = true
is_adaptive nack = false
is_adaptive time_based = false
is_adaptive lazy_fack = false

unfoldable pub spurious_retransmit_detected :
    Bool → GeneralLossAlgorithm → UnackedPacketMap → ℕ → RttStats → ℕ → GeneralLossAlgorithm
unfolding lower_while lower_do is_adaptive max_rtt sent_time_of
spurious_retransmit_detected fix_adaptive_time_loss a m time rtt spurious =
    let extra : ℕ =
      time - sent_time_of (get_elem? m.unacked_packets (spurious - m.least_unacked)) in
    if not (is_adaptive a.loss_type) || a.reordering_shift == 0
    then a
    else if fix_adaptive_time_loss
    then record a { reordering_shift = lower_while a.reordering_shift (max_rtt rtt) extra }
    else if leb spurious a.largest_sent_on_spurious_retransmit
    then a
    else record a {
      largest_sent_on_spurious_retransmit = m.largest_sent_packet;
      reordering_shift = lower_do a.reordering_shift (max_rtt rtt) extra;
    }
