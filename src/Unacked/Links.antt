-- ===== src/Unacked/Links.antt =====
-- The links from a packet to its retransmission: each leads to a later record of the deque, so the
-- walk of RemoveRetransmittability ends.
use puic.Prelude.{ℕ, zero, suc, ◌+◌, ◌<◌, ◌≡◌, refl, arith, true, false, sub64}
use puic.Prelude.{List, [], ◌∷◌, length, some, get_elem?, set, ◌⊎◌, inl, inr, ◌==◌}
use puic.Prelude.{Bool-cases, u64_mod, ◌∙◌, if◌then◌else◌}
use puic.Unacked.{TransmissionInfo, QuicFrame}
use puic.Prelude.{Option, none, ap, sym}
use puic.Unacked.Changes.{chain_end}

-- What a record adds to the bytes in flight.
unfoldable pub flight : TransmissionInfo → ℕ
flight info = if info.in_flight then info.bytes_sent else 0

unfoldable pub flight_bytes : List TransmissionInfo → ℕ
unfolding flight
flight_bytes [] = 0
flight_bytes (info ∷ infos) = flight info + flight_bytes infos

-- The link of the packet `number`, where the deque ends before `end`.
unfoldable pub IsLink : TransmissionInfo → ℕ → ℕ → Type 0
IsLink info number end =
    (info.retransmission ≡ 0) ⊎ ((number < info.retransmission) × (info.retransmission < end))

unfoldable pub IsLinked : List TransmissionInfo → ℕ → ℕ → Type 0
unfolding IsLink
IsLinked [] number end = Unit
IsLinked (info ∷ infos) number end = IsLink info number end × IsLinked infos (suc number) end

module _ {ℓ} {A : Type ℓ} where
  pub get_elem?-some : (xs : List A) (i : ℕ) → i < length xs → (a : A) × (get_elem? xs i ≡ some a)
  get_elem?-some [] i h = ground (arith, h)
  get_elem?-some (x ∷ xs) zero h = (x, refl)
  get_elem?-some (x ∷ xs) (suc i) h = get_elem?-some xs i (omega (arith, h))

  pub get_elem?-bound : (xs : List A) (i : ℕ) (a : A) → get_elem? xs i ≡ some a → i < length xs
  get_elem?-bound [] i a e = ground (arith, e)
  get_elem?-bound (x ∷ xs) zero a e = omega arith
  get_elem?-bound (x ∷ xs) (suc i) a e = omega (arith, get_elem?-bound xs i a e)

  pub length-set : (xs : List A) (i : ℕ) (a : A) → length (set xs i a) ≡ length xs
  length-set [] i a = refl
  length-set (x ∷ xs) zero a = refl
  length-set (x ∷ xs) (suc i) a = omega (arith, length-set xs i a)

pub flight_bytes-set :
    (infos : List TransmissionInfo) (i : ℕ) (old new : TransmissionInfo)
    → get_elem? infos i ≡ some old
    → flight_bytes (set infos i new) + flight old ≡ flight_bytes infos + flight new
unfolding flight_bytes
flight_bytes-set [] i old new e = ground (arith, e)
flight_bytes-set (info ∷ infos) zero old new e = ground (arith, e)
flight_bytes-set (info ∷ infos) (suc i) old new e =
    omega (arith, flight_bytes-set infos i old new e)

pub IsLinked-get :
    (infos : List TransmissionInfo) (i number end : ℕ) (info : TransmissionInfo)
    → get_elem? infos i ≡ some info
    → IsLinked infos number end
    → IsLink info (number + i) end
unfolding IsLinked IsLink
IsLinked-get [] i number end info e h = ground (arith, e)
IsLinked-get (x ∷ infos) zero number end info e h = ground (arith, e, h)
IsLinked-get (x ∷ infos) (suc i) number end info e h =
    ground (arith, IsLinked-get infos i (suc number) end info e h.1)

pub IsLinked-set :
    (infos : List TransmissionInfo) (i number end : ℕ) (info : TransmissionInfo)
    → IsLink info (number + i) end
    → IsLinked infos number end
    → IsLinked (set infos i info) number end
unfolding IsLinked IsLink
IsLinked-set [] i number end info k h = tt
IsLinked-set (x ∷ infos) zero number end info k h = (ground (arith, k), h.1)
IsLinked-set (x ∷ infos) (suc i) number end info k h =
    (h.0, IsLinked-set infos i (suc number) end info (ground (arith, k)) h.1)

-- The frames of a record.
abbrev pub frames_of : Option TransmissionInfo → List QuicFrame
frames_of none = []
frames_of (some info) = info.retransmittable_frames

abbrev pub frames_at : List TransmissionInfo → ℕ → List QuicFrame
frames_at infos i = frames_of (get_elem? infos i)

module _ {ℓ} {A : Type ℓ} where
  pub get_elem?-set_other :
      (xs : List A) (i k : ℕ) (a : A) → (i == k) ≡ false → get_elem? (set xs i a) k ≡ get_elem? xs k
  get_elem?-set_other [] i k a n = refl
  get_elem?-set_other (x ∷ xs) zero zero a n = absurd (ground (arith, n))
  get_elem?-set_other (x ∷ xs) zero (suc k) a n = refl
  get_elem?-set_other (x ∷ xs) (suc i) zero a n = refl
  get_elem?-set_other (x ∷ xs) (suc i) (suc k) a n =
      get_elem?-set_other xs i k a (ground (arith, n))

  pub get_elem?-set_same :
      (xs : List A) (i : ℕ) (a : A) → i < length xs → get_elem? (set xs i a) i ≡ some a
  get_elem?-set_same [] i a l = absurd (omega arith)
  get_elem?-set_same (x ∷ xs) zero a l = refl
  get_elem?-set_same (x ∷ xs) (suc i) a l = get_elem?-set_same xs i a (omega arith)

frames_at-set :
    (infos : List TransmissionInfo) (i k : ℕ) (info new : TransmissionInfo)
    → get_elem? infos i ≡ some info
    → new.retransmittable_frames ≡ info.retransmittable_frames
    → frames_at (set infos i new) k ≡ frames_at infos k
frames_at-set [] i k info new e f = refl
frames_at-set (x ∷ xs) zero zero info new e f = f ∙ sym (ap frames_of e)
frames_at-set (x ∷ xs) zero (suc k) info new e f = refl
frames_at-set (x ∷ xs) (suc i) zero info new e f = refl
frames_at-set (x ∷ xs) (suc i) (suc k) info new e f = frames_at-set xs i k info new e f

-- The links from the record `i` lead to the record `j`, which has none.
pub data Chain (least : ℕ) (infos : List TransmissionInfo) : ℕ → ℕ → Type 0 where
  stops :
      (i : ℕ) (info : TransmissionInfo)
      → get_elem? infos i ≡ some info
      → (info.retransmission == 0) ≡ true
      → Chain least infos i i
  links :
      (i j : ℕ) (info : TransmissionInfo)
      → get_elem? infos i ≡ some info
      → (info.retransmission == 0) ≡ false
      → Chain least infos (sub64 info.retransmission least) j
      → Chain least infos i j

-- A walk from `i` ends where the links lead, and leaves the frames alone.
abbrev pub IsWalk : ℕ → List TransmissionInfo → ℕ → List TransmissionInfo × ℕ → Type 0
IsWalk least infos i r = Chain least infos i r.1 × ((k : ℕ) → frames_at r.0 k ≡ frames_at infos k)

-- Where a walk ends: a record of the deque, whose links and bytes in flight are as before.
unfoldable pub IsEnd : ℕ → ℕ → List TransmissionInfo → List TransmissionInfo × ℕ → Type 0
unfolding IsLinked flight_bytes
IsEnd least end infos (infos', j) =
    IsLinked infos' least end
    × (length infos' ≡ length infos)
    × (flight_bytes infos' ≡ flight_bytes infos)
    × (j < length infos)

reset_link :
    (infos : List TransmissionInfo) (i least end : ℕ) (info : TransmissionInfo)
    → get_elem? infos i ≡ some info
    → IsLinked infos least end
    → IsEnd least end infos (set infos i (record info { retransmission = 0 }), i)
unfolding IsEnd
reset_link infos i least end info e h =
    let cleared : TransmissionInfo = record info { retransmission = 0 } in
    (
      IsLinked-set infos i least end cleared (unfold IsLink in inl refl) h,
      length-set infos i cleared,
      unfold flight in omega (arith, flight_bytes-set infos i info cleared e),
      get_elem?-bound infos i info e,
    )

IsEnd-trans :
    (least end : ℕ) (infos infos' : List TransmissionInfo) (i : ℕ) (r : List TransmissionInfo × ℕ)
    → IsEnd least end infos (infos', i)
    → IsEnd least end infos' r
    → IsEnd least end infos r
unfolding IsEnd
IsEnd-trans least end infos infos' i (infos'', j) h k =
    (k.0, omega (arith, h, k), omega (arith, h, k), omega (arith, h, k))

-- A link that is set leads forward, to a record of the deque.
forward_link :
    (infos : List TransmissionInfo) (i least end : ℕ) (info : TransmissionInfo)
    → get_elem? infos i ≡ some info
    → (info.retransmission == 0) ≡ false
    → IsLinked infos least end
    → end ≡ least + length infos
    → end < u64_mod
    → (i < sub64 info.retransmission least) × (sub64 info.retransmission least < length infos)
unfolding IsLink
forward_link infos i least end info found n h e w =
    elim (IsLinked-get infos i least end info found h) [
      | inl z ↦ ground (arith, z, n)
      | inr b ↦ (omega (arith, b, e, w), omega (arith, b, e, w))
    ]

-- What was done to an earlier record is no matter to the links.
Chain-set :
    (least end : ℕ) (infos : List TransmissionInfo) (i : ℕ) (new : TransmissionInfo) {k j : ℕ}
    → Chain least (set infos i new) k j
    → i < k
    → IsLinked (set infos i new) least end
    → end ≡ least + length (set infos i new)
    → end < u64_mod
    → Chain least infos k j
Chain-set least end infos i new (stops k info e z) l h q w =
    stops k info (sym (get_elem?-set_other infos i k new (ground (arith, l))) ∙ e) z
Chain-set least end infos i new (links k j info e n c) l h q w =
    let forward = forward_link (set infos i new) k least end info e n h q w in
    links k j info (sym (get_elem?-set_other infos i k new (ground (arith, l))) ∙ e) n
      (Chain-set least end infos i new c (omega (arith, forward, l)) h q w)

chain_end-stop :
    (fuel least : ℕ) (infos : List TransmissionInfo) (i : ℕ) (info : TransmissionInfo)
    → get_elem? infos i ≡ some info
    → (info.retransmission == 0) ≡ true
    → chain_end (suc fuel) least infos i ≡ some (infos, i)
unfolding chain_end
chain_end-stop fuel least infos i info e t = rw (chain_end, e) (rw t refl)

chain_end-follow :
    (fuel least : ℕ) (infos : List TransmissionInfo) (i : ℕ) (info : TransmissionInfo)
    → get_elem? infos i ≡ some info
    → (info.retransmission == 0) ≡ false
    → chain_end (suc fuel) least infos i
      ≡ chain_end fuel least
          (set infos i (record info { retransmission = 0 }))
          (sub64 info.retransmission least)
unfolding chain_end
chain_end-follow fuel least infos i info e t = rw (chain_end, e) (rw t refl)

-- With fuel for the records from `i` on the walk ends.
pub chain_end_lem :
    (fuel least end : ℕ) (infos : List TransmissionInfo) (i : ℕ)
    → IsLinked infos least end
    → end ≡ least + length infos
    → end < u64_mod
    → i < length infos
    → length infos < fuel + i + 1
    → (r : List TransmissionInfo × ℕ) × (chain_end fuel least infos i ≡ some r)
      × IsEnd least end infos r
      × IsWalk least infos i r
chain_end_lem zero least end infos i h e w l f = ground arith
chain_end_lem (suc fuel) least end infos i h e w l f =
    let (info, found) = get_elem?-some infos i l in
    elim (Bool-cases (info.retransmission == 0)) [
      | inl t ↦ (
        (infos, i),
        chain_end-stop fuel least infos i info found t,
        unfold IsEnd in (h, refl, refl, l),
        (stops i info found t, λ k. refl),
      )
      | inr n ↦
          let infos' : List TransmissionInfo = set infos i (record info { retransmission = 0 }) in
          let next : ℕ = sub64 info.retransmission least in
          let reset : IsEnd least end infos (infos', i) =
            reset_link infos i least end info found h in
          let linked : IsLinked infos' least end = unfold IsEnd in reset.0 in
          let len : length infos' ≡ length infos = unfold IsEnd in reset.1 in
          let forward = forward_link infos i least end info found n h e w in
          let (r, ends, k, (c, kept)) =
            chain_end_lem fuel least end infos' next linked (omega (arith, e, len)) w
              (omega (arith, len, forward, e)) (omega (arith, len, forward, f)) in
          (
            r,
            chain_end-follow fuel least infos i info found n ∙ ends,
            IsEnd-trans least end infos infos' i r reset k,
            (
              links i r.1 info found n (
                  Chain-set least end infos i (record info { retransmission = 0 }) c forward.0
                    linked (omega (arith, e, len)) w),
              λ x.
                  kept x
                  ∙ frames_at-set infos i x info (record info { retransmission = 0 }) found refl,
            ),
          )
    ]
