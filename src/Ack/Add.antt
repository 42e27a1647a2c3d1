-- ===== src/Ack/Add.antt =====
-- PacketNumberQueue::Add keeps the deque well formed and adds exactly one number.
use puic.Prelude.{ℕ, suc, ◌<◌, ◌≡◌, arith, true, add64}
use puic.Prelude.{◌||◌, ◌==◌, leb, ltb, List, [], ◌∷◌, Bool-cases, if-cases, ◌∙◌, inl, inr, u64_mod}
use puic.Ack.{Interval, interval, rev_onto, holds, interval_contains, extend_down, insert_backwards}
use puic.Ack.{add_in_front, add_at_back, add}
use puic.Ack.Sorted.{
  IsAbove, IsBelow, IsValid, IsAbove-weaken, rev_onto-IsValid, rev_onto-IsBelow, holds-rev_onto,
}
use puic.Ack.Sorted.{starts_by, starts_by-rev_onto}

extend_down-IsValid :
    (before : List Interval) (cur : Interval) (after : List Interval) (p : ℕ)
    → cur.min ≡ suc p
    → cur.min < cur.max
    → IsBelow before cur.min
    → IsAbove after (suc cur.max)
    → IsValid (extend_down before cur after p)
unfolding extend_down
extend_down-IsValid [] cur after p e c h k = unfold IsValid IsAbove in (omega arith, omega arith, k)
extend_down-IsValid (prev ∷ before) cur after p e c h k = elim (Bool-cases (p == prev.max)) [
  | inl t ↦ rw t (
      rev_onto-IsValid before (record prev { max = cur.max } ∷ after) prev.min
        (unfold IsBelow in h.2) (unfold IsAbove IsBelow in (omega arith, ground arith, k)))
  | inr f ↦ rw f (
      rev_onto-IsValid (prev ∷ before) (record cur { min = p } ∷ after) p
        (unfold IsBelow in (ground arith, h.1, h.2))
        (unfold IsAbove in (omega arith, omega arith, k)))
]

holds-extend_down :
    (before : List Interval) (cur : Interval) (after : List Interval) (p x : ℕ)
    → cur.min ≡ suc p
    → cur.min < cur.max
    → IsBelow before cur.min
    → holds (extend_down before cur after p) x ≡ (x == p || holds before x || holds (cur ∷ after) x)
unfolding extend_down
holds-extend_down [] cur after p x e c h = unfold holds interval_contains in ground arith
holds-extend_down (prev ∷ before) cur after p x e c h = elim (Bool-cases (p == prev.max)) [
  | inl t ↦ rw t (
      unfold holds interval_contains IsBelow in
      ground (arith, holds-rev_onto before (record prev { max = cur.max } ∷ after) x))
  | inr f ↦ rw f (
      unfold holds interval_contains in
      ground (arith, holds-rev_onto (prev ∷ before) (record cur { min = p } ∷ after) x))
]

-- What the loop keeps: the packet lies below everything that was passed, and above the start of
-- something that was not.
unfoldable IsPassed : List Interval → List Interval → ℕ → ℕ → Type 0
unfolding IsAbove IsBelow starts_by
IsPassed before after p bound =
    IsBelow before bound
    × IsAbove after bound
    × IsAbove after (suc (suc p))
    × (starts_by before p ≡ true)

IsPassed-next :
    (cur : Interval) (before after : List Interval) (p bound : ℕ)
    → IsPassed (cur ∷ before) after p bound
    → suc p < cur.min
    → IsPassed before (cur ∷ after) p cur.min
unfolding IsPassed
IsPassed-next cur before after p bound h l = (
  unfold IsBelow in h.0.2,
  unfold IsAbove IsBelow in (omega arith, h.0.1, IsAbove-weaken after (omega arith) h.1),
  unfold IsAbove IsBelow in (omega arith, h.0.1, IsAbove-weaken after (omega arith) h.1),
  unfold starts_by in ground arith,
)

holds-move :
    (cur : Interval) (before after : List Interval) (p x : ℕ)
    → (x == p || holds before x || holds (cur ∷ after) x)
      ≡ (x == p || holds (cur ∷ before) x || holds after x)
unfolding holds
holds-move cur before after p x = ground arith

insert_backwards_lem :
    (before after : List Interval) (p bound x : ℕ)
    → IsPassed before after p bound
    → IsValid (insert_backwards before after p (suc p))
      × (holds (insert_backwards before after p (suc p)) x
          ≡ (x == p || holds before x || holds after x))
unfolding insert_backwards IsPassed IsBelow IsAbove
insert_backwards_lem [] after p bound x h = unfold starts_by in ground (arith, h)
insert_backwards_lem (cur ∷ before) after p bound x h =
    let (below, above, over, start) = h in
    let (_, full, hb) = below in
    let ka : IsAbove after (suc cur.max) = IsAbove-weaken after (omega arith) above in
    elim (Bool-cases (interval_contains cur p)) [
      | inl t ↦ rw t (
        rev_onto-IsValid before (cur ∷ after) cur.min hb (omega arith, full, ka),
        unfold holds interval_contains in ground (arith, holds-rev_onto before (cur ∷ after) x),
      )
      | inr f ↦ rw f (elim (Bool-cases (cur.max == p)) [
        | inl t ↦ rw t (
          rev_onto-IsValid before (interval cur.min (suc p) ∷ after) cur.min hb (
            omega arith,
            ground arith,
            unfold interval_contains in IsAbove-weaken after (ground arith) over,
          ),
          unfold holds interval_contains in
              ground (arith, holds-rev_onto before (interval cur.min (suc p) ∷ after) x),
        )
        | inr g ↦ rw g (elim (Bool-cases (cur.min == suc p)) [
          | inl t ↦ rw t (
            extend_down-IsValid before cur after p (ground arith) full hb ka,
            unfold holds interval_contains in
                ground (arith, holds-extend_down before cur after p x (ground arith) full hb),
          )
          | inr k ↦ rw k (elim (Bool-cases (ltb cur.max (suc p))) [
            | inl t ↦ rw t (
              rev_onto-IsValid before (cur ∷ interval p (suc p) ∷ after) cur.min hb
                  (omega arith, full, (ground arith, omega arith, over)),
              unfold holds interval_contains in
                  ground (arith, holds-rev_onto before (cur ∷ interval p (suc p) ∷ after) x),
            )
            | inr m ↦ rw m (
                let (v, e) = insert_backwards_lem before (cur ∷ after) p cur.min x (
                  IsPassed-next cur before after p bound h
                    (unfold interval_contains in ground arith)) in
                (v, e ∙ holds-move cur before after p x))
          ])
        ])
      ])
    ]

add_in_front_lem :
    (front : Interval) (q reversed : List Interval) (p bound x : ℕ)
    → IsValid (front ∷ q)
    → IsBelow reversed bound
    → (leb front.min p ≡ true → starts_by reversed p ≡ true)
    → holds reversed x ≡ holds (front ∷ q) x
    → IsValid (add_in_front (front ∷ q) reversed p (suc p))
      × (holds (add_in_front (front ∷ q) reversed p (suc p)) x ≡ (x == p || holds (front ∷ q) x))
unfolding add_in_front
add_in_front_lem front q reversed p bound x v b s e = elim (Bool-cases (ltb (suc p) front.min)) [
  | inl t ↦ rw t (
    unfold IsValid IsAbove in (omega arith, omega arith, (ground arith, v.1, v.2)),
    unfold holds interval_contains in ground arith,
  )
  | inr f ↦ rw f (elim (Bool-cases (front.min == suc p)) [
    | inl t ↦ rw t (
      unfold IsValid IsAbove in (omega arith, ground arith, v.2),
      unfold holds interval_contains IsValid IsAbove in ground arith,
    )
    | inr g ↦ rw g (
        let (w, h) =
          insert_backwards_lem reversed [] p bound x
            (unfold IsPassed IsAbove in (b, tt, tt, s (ground arith))) in
        (w, unfold holds in ground (arith, h, e)))
  ])
]

add_at_back_lem :
    (front : Interval) (q reversed : List Interval) (p bound x : ℕ)
    → IsValid (front ∷ q)
    → IsBelow reversed bound
    → (leb front.min p ≡ true → starts_by reversed p ≡ true)
    → holds reversed x ≡ holds (front ∷ q) x
    → IsValid (add_at_back (front ∷ q) reversed p (suc p))
      × (holds (add_at_back (front ∷ q) reversed p (suc p)) x ≡ (x == p || holds (front ∷ q) x))
unfolding add_at_back
add_at_back_lem front q [] p bound x v b s e = (
  unfold IsValid IsAbove in (omega arith, omega arith, tt),
  unfold holds interval_contains in ground (arith, e),
)
add_at_back_lem front q (back ∷ before) p bound x v b s e =
    if-cases (λ r. IsValid r × (holds r x ≡ (x == p || holds (front ∷ q) x))) (back.max == p)
      (λ t. (
        rev_onto-IsValid before (interval back.min (suc p) ∷ []) back.min (unfold IsBelow in b.2)
            (unfold IsAbove IsBelow in (omega arith, ground arith, tt)),
        unfold holds interval_contains IsBelow in
            ground (arith, e, holds-rev_onto before (interval back.min (suc p) ∷ []) x),
      ))
      (λ f.
        if-cases (λ r. IsValid r × (holds r x ≡ (x == p || holds (front ∷ q) x))) (ltb back.max p)
          (λ t. (
            rev_onto-IsValid (back ∷ before) (interval p (suc p) ∷ []) p
                (unfold IsBelow in (ground arith, b.1, b.2))
                (unfold IsAbove in (omega arith, omega arith, tt)),
            unfold holds interval_contains in
                ground (arith, e, holds-rev_onto (back ∷ before) (interval p (suc p) ∷ []) x),
          ))
          (λ g. add_in_front_lem front q (back ∷ before) p bound x v b s e))

-- Add keeps the deque well formed, and afterwards exactly the packet and what was there is in it.
pub add_lem :
    (q : List Interval) (p x : ℕ)
    → IsValid q
    → suc p < u64_mod
    → IsValid (add q p) × (holds (add q p) x ≡ (x == p || holds q x))
unfolding add
add_lem [] p x v h =
    let next : add64 p 1 ≡ suc p = omega arith in
    rw next (
      unfold IsValid IsAbove add_at_back rev_onto in (omega arith, omega arith, tt),
      unfold holds interval_contains add_at_back rev_onto in ground arith,
    )
add_lem (front ∷ q) p x v h =
    let (bound, b) =
      rev_onto-IsBelow (front ∷ q) [] 0 (unfold IsValid in v) (unfold IsBelow in tt) in
    let next : add64 p 1 ≡ suc p = omega arith in
    rw next (
      add_at_back_lem front q (rev_onto (front ∷ q) []) p bound x v b
        (λ l.
          unfold rev_onto in
          starts_by-rev_onto q (front ∷ []) p (unfold starts_by in ground (arith, l)))
        (unfold holds in ground (arith, holds-rev_onto (front ∷ q) [] x)))
