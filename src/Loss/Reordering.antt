-- ===== src/Loss/Reordering.antt =====
-- The reordering fraction that SpuriousRetransmitDetected keeps.
use puic.Prelude.{
  ℕ, zero, suc, ◌-◌, ◌/◌, ◌^◌, ◌≤◌, ◌<◌, ◌≡◌, refl, arith, true, ◌==◌, leb, leb_false→lt,
}
use puic.Prelude.{get_elem?, ◌⊎◌, inl, inr, if-cases}
use puic.Unacked.{UnackedPacketMap}
use puic.Loss.{GeneralLossAlgorithm, RttStats, lower_while, adaptive_time}
use puic.Loss.{spurious_retransmit_detected, is_adaptive, sent_time_of, max_rtt}

-- The corrected loop ends at the largest fraction, of those up to the old one, that waits for longer
-- than the extra time; or at none.
lower_while_lem :
    (shift rtt extra : ℕ)
    → let s = lower_while shift rtt extra in (s ≤ shift) × ((s ≡ 0) ⊎ (extra < rtt / 2 ^ s))
unfolding lower_while
lower_while_lem zero rtt extra = (omega arith, inl refl)
lower_while_lem (suc shift) rtt extra =
    let rest = lower_while_lem shift rtt extra in
    if-cases (λ s. (s ≤ suc shift) × ((s ≡ 0) ⊎ (extra < rtt / 2 ^ s)))
      (leb (rtt / 2 ^ suc shift) extra) (λ t. (omega (arith, rest), rest.1))
      (λ f. (omega arith, inr (leb_false→lt _ _ f)))

-- After a spurious retransmission an adaptive detector has a fraction no smaller than before, and it
-- now waits for longer than this packet needed, or for twice the round-trip time.
pub spurious_retransmit_lem :
    (a : GeneralLossAlgorithm) (m : UnackedPacketMap) (time : ℕ) (rtt : RttStats) (n : ℕ)
    → a.loss_type ≡ adaptive_time
    → let s = (spurious_retransmit_detected true a m time rtt n).reordering_shift in
      (s ≤ a.reordering_shift)
      × ((s ≡ 0)
          ⊎ (time - sent_time_of (get_elem? m.unacked_packets (n - m.least_unacked))
              < max_rtt rtt / 2 ^ s))
unfolding spurious_retransmit_detected is_adaptive
spurious_retransmit_lem a m time rtt n t =
    let extra : ℕ = time - sent_time_of (get_elem? m.unacked_packets (n - m.least_unacked)) in
    rw t (
      if-cases
        (λ (r : GeneralLossAlgorithm).
          (r.reordering_shift ≤ a.reordering_shift)
          × ((r.reordering_shift ≡ 0) ⊎ (extra < max_rtt rtt / 2 ^ r.reordering_shift)))
        (a.reordering_shift == 0) (λ z. (omega arith, inl (ground (arith, z))))
        (λ _. lower_while_lem a.reordering_shift (max_rtt rtt) extra))
