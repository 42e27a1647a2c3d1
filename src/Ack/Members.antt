-- ===== src/Ack/Members.antt =====
-- What a PacketNumberQueue holds, as Contains, Min and RemoveUpTo see it.
use puic.Prelude.{
  ℕ, suc, ◌≤◌, ◌<◌, ◌≡◌, refl, arith, Bool, true, false, not, if-cases, Bool-cases, inl, inr,
}
use puic.Prelude.{◌||◌, ◌&&◌, ◌==◌, leb, leb_false→lt, ltb, ltb→lt, List, [], ◌∷◌, u64_mod, sym}
use puic.Ack.{Interval, holds, interval_contains, contains, back_max, add}
use puic.Ack.{drop_below, min_moved, remove_up_to, is_awaiting_packet}
use puic.Ack.Sorted.{IsAbove, IsValid, IsAbove-weaken}
use puic.Ack.Add.{add_lem}

pub holds-below : (q : List Interval) (b x : ℕ) → IsAbove q b → x < b → holds q x ≡ false
unfolding holds IsAbove interval_contains
holds-below [] b x v l = refl
holds-below (i ∷ q) b x v l = ground (arith, holds-below q (suc i.max) x v.2 (omega arith))

holds-bound : (q : List Interval) (b x : ℕ) → IsAbove q b → (leb b x || not (holds q x)) ≡ true
holds-bound q b x v = elim (Bool-cases (leb b x)) [
  | inl t ↦ rw t refl
  | inr f ↦ rw (holds-below q b x v (leb_false→lt _ _ f)) (ground arith)
]

front_max-back_max :
    (front : Interval) (q : List Interval) (b : ℕ)
    → IsAbove (front ∷ q) b
    → front.max ≤ back_max front q
unfolding IsAbove
front_max-back_max front [] b v = omega arith
front_max-back_max front (i ∷ q) b v = omega (arith, front_max-back_max i q (suc front.max) v.2)

holds-above :
    (front : Interval) (q : List Interval) (b x : ℕ)
    → IsAbove (front ∷ q) b
    → back_max front q ≤ x
    → holds (front ∷ q) x ≡ false
unfolding holds IsAbove interval_contains
holds-above front [] b x v l = ground arith
holds-above front (i ∷ q) b x v l =
    ground
      (arith, holds-above i q (suc front.max) x v.2 l, front_max-back_max i q (suc front.max) v.2)

-- The two early tests of Contains are only short cuts.
pub contains_lem : (q : List Interval) (x : ℕ) → IsValid q → contains q x ≡ holds q x
unfolding contains IsValid
contains_lem [] x v = unfold holds in refl
contains_lem (front ∷ q) x v =
    if-cases (λ r. r ≡ holds (front ∷ q) x) (ltb x front.min || leb (back_max front q) x)
      (λ t. elim (Bool-cases (ltb x front.min)) [
        | inl l ↦ sym (
            holds-below (front ∷ q) front.min x (unfold IsAbove in (omega arith, v.1, v.2))
              (ltb→lt _ _ l))
        | inr l ↦ sym (holds-above front q 0 x v (ground arith))
      ])
      (λ f. refl)

-- Add keeps the deque well formed, and then it contains the packet and what it contained.
pub contains-add :
    (q : List Interval) (p x : ℕ)
    → IsValid q
    → suc p < u64_mod
    → IsValid (add q p) × (contains (add q p) x ≡ (x == p || contains q x))
contains-add q p x v h =
    let (w, e) = add_lem q p x v h in
    (w, rw (contains_lem (add q p) x w) (rw (contains_lem q x v) e))

drop_below-IsAbove :
    (q : List Interval) (h b : ℕ)
    → IsAbove q b
    → IsAbove (drop_below q h) b × IsAbove (drop_below q h) h
unfolding drop_below
drop_below-IsAbove [] h b v = unfold IsAbove in (tt, tt)
drop_below-IsAbove (front ∷ q) h b v =
    let rest = drop_below-IsAbove q h (suc front.max) (unfold IsAbove in v.2) in
    if-cases (λ r. IsAbove r b × IsAbove r h) (ltb front.max h)
      (λ t. (
        IsAbove-weaken (drop_below q h) {b = suc front.max} (unfold IsAbove in omega arith) rest.0,
        rest.1,
      ))
      (λ f.
        if-cases (λ r. IsAbove r b × IsAbove r h) (ltb front.min h && leb h front.max)
          (λ t.
            if-cases (λ r. IsAbove r b × IsAbove r h) (front.max == h)
              (λ e.
                unfold IsAbove in
                (
                  IsAbove-weaken q {b = suc front.max} (omega arith) v.2,
                  IsAbove-weaken q {b = suc front.max} (ground arith) v.2,
                ))
              (λ n.
                unfold IsAbove in
                ((ground arith, ground arith, v.2), (ground arith, ground arith, v.2))))
          (λ g. unfold IsAbove in (v, (ground arith, v.1, v.2))))

holds-drop_below :
    (q : List Interval) (h b x : ℕ)
    → IsAbove q b
    → holds (drop_below q h) x ≡ (leb h x && holds q x)
unfolding drop_below IsAbove holds interval_contains
holds-drop_below [] h b x v = ground arith
holds-drop_below (front ∷ q) h b x v =
    ground (arith, holds-drop_below q h (suc front.max) x v.2, holds-bound q (suc front.max) x v.2)

-- Whether the packets below `higher` include some of the deque.
unfoldable pub starts_below : List Interval → ℕ → Bool
starts_below [] higher = false
starts_below (front ∷ q) higher = ltb front.min higher

min_moved-true :
    (old : ℕ) (q : List Interval) (h : ℕ) → IsAbove q h → old < h → min_moved old q ≡ true
unfolding min_moved IsAbove
min_moved-true old [] h v l = refl
min_moved-true old (i ∷ q) h v l = ground arith

min_moved-drop_below :
    (front : Interval) (q : List Interval) (h b : ℕ)
    → IsAbove (front ∷ q) b
    → min_moved front.min (drop_below (front ∷ q) h) ≡ ltb front.min h
min_moved-drop_below front q h b v = elim (Bool-cases (ltb front.min h)) [
  | inl t ↦ rw t (
      min_moved-true front.min (drop_below (front ∷ q) h) h
        ((drop_below-IsAbove (front ∷ q) h b v).1) (ltb→lt _ _ t))
  | inr f ↦ unfold drop_below min_moved IsAbove in ground arith
]

-- RemoveUpTo keeps the deque well formed, takes out the packets below `higher` and no other, and is
-- true exactly when there were some.
pub remove_up_to_lem :
    (q : List Interval) (higher x : ℕ)
    → IsValid q
    → let (removed, rest) = remove_up_to q higher in
      IsValid rest
      × (contains rest x ≡ (leb higher x && contains q x))
      × (removed ≡ starts_below q higher)
remove_up_to_lem [] higher x v =
    unfold remove_up_to contains starts_below in (v, ground arith, refl)
remove_up_to_lem (front ∷ q) higher x v =
    let a : IsAbove (front ∷ q) 0 = unfold IsValid in v in
    let w : IsValid (drop_below (front ∷ q) higher) =
      unfold IsValid in (drop_below-IsAbove (front ∷ q) higher 0 a).0 in
    unfold remove_up_to starts_below in
    (
      w,
      rw (contains_lem (drop_below (front ∷ q) higher) x w)
          (rw (contains_lem (front ∷ q) x v) (holds-drop_below (front ∷ q) higher 0 x a)),
      min_moved-drop_below front q higher 0 a,
    )

-- Nothing that the peer still waits for is in the deque, and nothing below what it waits for counts.
pub is_awaiting_packet-add :
    (q : List Interval) (p x least : ℕ)
    → IsValid q
    → suc p < u64_mod
    → is_awaiting_packet (add q p) x least ≡ (is_awaiting_packet q x least && not (x == p))
unfolding is_awaiting_packet
is_awaiting_packet-add q p x least v h = rw ((contains-add q p x v h).1) (ground arith)
