-- ===== src/Unacked/Obsolete.antt =====
-- RemoveObsoletePackets takes records from the front that nothing asks for.
use puic.Prelude.{ℕ, zero, suc, ◌+◌, ◌-◌, ◌≤◌, ◌<◌, ◌≡◌, refl, arith, Bool, true, false, not}
use puic.Prelude.{ltb, leb, List, [], ◌∷◌, length, get_elem?, add64}
use puic.Prelude.{
  if-cases, if◌then◌else◌, ◌==◌, Bool-cases, inl, inr, ltb→lt, leb→le, ltb_false→le, u64_mod, ◌∙◌,
  sym,
}
use puic.Unacked.{TransmissionInfo, UnackedPacketMap, is_packet_useless, is_unacked, found_useful}
use puic.Unacked.{drop_useless, remove_obsolete_packets}

-- Whether a number's record, in a list that starts at `least`, has a use.
unfoldable pub is_useful : ℕ → ℕ → List TransmissionInfo → ℕ → Bool
is_useful observed least [] n = false
is_useful observed least (info ∷ infos) n =
    if n == least
    then not (is_packet_useless observed least info)
    else is_useful observed (suc least) infos n

is_useful-below :
    (observed least : ℕ) (infos : List TransmissionInfo) (n : ℕ)
    → n < least
    → is_useful observed least infos n ≡ false
unfolding is_useful
is_useful-below observed least [] n l = refl
is_useful-below observed least (info ∷ infos) n l =
    ground (arith, is_useful-below observed (suc least) infos n (omega arith))

is_useful-drop_useless :
    (observed least : ℕ) (infos : List TransmissionInfo) (n : ℕ)
    → let (least', infos') = drop_useless observed least infos in
      is_useful observed least' infos' n ≡ is_useful observed least infos n
unfolding drop_useless is_useful
is_useful-drop_useless observed least [] n = refl
is_useful-drop_useless observed least (info ∷ infos) n =
    if-cases
      (λ (r : ℕ × List TransmissionInfo).
        is_useful observed r.0 r.1 n ≡ is_useful observed least (info ∷ infos) n)
      (is_packet_useless observed least info)
      (λ t. is_useful-drop_useless observed (suc least) infos n ∙ elim (Bool-cases (n == least)) [
        | inl e ↦ rw e (rw t (is_useful-below observed (suc least) infos n (ground (arith, e))))
        | inr e ↦ rw e refl
      ])
      (λ f. refl)

found_useful_lem :
    (observed least : ℕ) (infos : List TransmissionInfo) (k : ℕ)
    → found_useful observed (least + k) (get_elem? infos k)
      ≡ is_useful observed least infos (least + k)
unfolding is_useful found_useful
found_useful_lem observed least [] k = refl
found_useful_lem observed least (info ∷ infos) zero = ground arith
found_useful_lem observed least (info ∷ infos) (suc k) =
    let e : suc least + k ≡ least + suc k = omega arith in
    rw (sym e) (ground (arith, found_useful_lem observed (suc least) infos k))

is_useful-beyond :
    (observed least : ℕ) (infos : List TransmissionInfo) (n : ℕ)
    → least + length infos ≤ n
    → is_useful observed least infos n ≡ false
unfolding is_useful
is_useful-beyond observed least [] n l = refl
is_useful-beyond observed least (info ∷ infos) n l =
    ground (arith, is_useful-beyond observed (suc least) infos n (omega (arith, l)))

-- IsUnacked asks for the use of a record of the list.
is_unacked_lem :
    (m : UnackedPacketMap) (n : ℕ)
    → m.least_unacked + length m.unacked_packets < u64_mod
    → is_unacked m n ≡ is_useful m.largest_observed m.least_unacked m.unacked_packets n
unfolding is_unacked
is_unacked_lem m n h =
    let end : add64 m.least_unacked (length m.unacked_packets)
        ≡ m.least_unacked + length m.unacked_packets =
      omega (arith, h) in
    rw end (elim (Bool-cases (ltb n m.least_unacked)) [
      | inl t ↦ rw t (sym (is_useful-below _ _ m.unacked_packets n (ltb→lt _ _ t)))
      | inr f ↦ rw f (elim (Bool-cases (leb (m.least_unacked + length m.unacked_packets) n)) [
        | inl t ↦ rw t (sym (is_useful-beyond _ _ m.unacked_packets n (leb→le _ _ t)))
        | inr g ↦
            let at : m.least_unacked + (n - m.least_unacked) ≡ n =
              omega (arith, ltb_false→le _ _ f) in
            rw g (
              cc (
                found_useful_lem m.largest_observed m.least_unacked m.unacked_packets
                    (n - m.least_unacked),
                at,
              ))
      ])
    ])

pub drop_useless-length :
    (observed least : ℕ) (infos : List TransmissionInfo)
    → let (least', infos') = drop_useless observed least infos in
      least' + length infos' ≡ least + length infos
unfolding drop_useless
drop_useless-length observed least [] = refl
drop_useless-length observed least (info ∷ infos) =
    if-cases (λ (r : ℕ × List TransmissionInfo). r.0 + length r.1 ≡ least + suc (length infos))
      (is_packet_useless observed least info)
      (λ t. omega (arith, drop_useless-length observed (suc least) infos)) (λ f. refl)

-- Nothing is left, or the first record has a use.
unfoldable pub starts_useful : ℕ → ℕ → List TransmissionInfo → Bool
starts_useful observed least [] = true
starts_useful observed least (info ∷ infos) = not (is_packet_useless observed least info)

drop_useless-starts_useful :
    (observed least : ℕ) (infos : List TransmissionInfo)
    → let (least', infos') = drop_useless observed least infos in
      starts_useful observed least' infos' ≡ true
unfolding drop_useless
drop_useless-starts_useful observed least [] = unfold starts_useful in refl
drop_useless-starts_useful observed least (info ∷ infos) =
    if-cases (λ (r : ℕ × List TransmissionInfo). starts_useful observed r.0 r.1 ≡ true)
      (is_packet_useless observed least info)
      (λ t. drop_useless-starts_useful observed (suc least) infos)
      (λ f. unfold starts_useful in ground (arith, f))

-- RemoveObsoletePackets changes the answer of IsUnacked for no packet, keeps the number that follows
-- the last record, and leaves a first record that has a use.
pub remove_obsolete_packets_lem :
    (m : UnackedPacketMap) (n : ℕ)
    → m.least_unacked + length m.unacked_packets < u64_mod
    → let r = remove_obsolete_packets m in
      (is_unacked r n ≡ is_unacked m n)
      × (r.least_unacked + length r.unacked_packets ≡ m.least_unacked + length m.unacked_packets)
      × (starts_useful r.largest_observed r.least_unacked r.unacked_packets ≡ true)
unfolding remove_obsolete_packets
remove_obsolete_packets_lem m n h =
    let end = drop_useless-length m.largest_observed m.least_unacked m.unacked_packets in
    (
      rw (is_unacked_lem (remove_obsolete_packets m) n (omega (arith, h, end))) (
          rw (is_unacked_lem m n h)
            (is_useful-drop_useless m.largest_observed m.least_unacked m.unacked_packets n)),
      end,
      drop_useless-starts_useful m.largest_observed m.least_unacked m.unacked_packets,
    )
