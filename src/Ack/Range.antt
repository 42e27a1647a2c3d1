-- ===== src/Ack/Range.antt =====
-- PacketNumberQueue::AddRange: a range above or below all that is there is added, any other refused.
use puic.Prelude.{ℕ, ◌<◌, ◌≡◌, refl, arith, Bool, true, if-cases}
use puic.Prelude.{◌||◌, ◌&&◌, ◌==◌, leb, ltb, List, [], ◌∷◌, if◌then◌else◌}
use puic.Ack.{Interval, interval, rev_onto, holds, interval_contains, contains, back_max, add_range}
use puic.Ack.{add_range_at_back, add_range_in_front}
use puic.Ack.Sorted.{IsAbove, IsBelow, IsValid, rev_onto-IsValid, rev_onto-IsBelow}
use puic.Ack.Sorted.{holds-rev_onto}
use puic.Ack.Members.{contains_lem}

-- Whether a range lies above or below everything in the deque.
unfoldable pub fits : List Interval → ℕ → ℕ → Bool
fits [] lower higher = true
fits (front ∷ q) lower higher = leb (back_max front q) lower || leb higher front.min

unfoldable last_max : List Interval → ℕ
last_max [] = 0
last_max (back ∷ before) = back.max

last_max-rev_onto :
    (q before : List Interval) (front : Interval)
    → last_max (rev_onto q (front ∷ before)) ≡ back_max front q
unfolding last_max rev_onto
last_max-rev_onto [] before front = refl
last_max-rev_onto (i ∷ q) before front = last_max-rev_onto q (front ∷ before) i

add_range_in_front_lem :
    (front : Interval) (q : List Interval) (l h x : ℕ)
    → IsValid (front ∷ q)
    → l < h
    → l < back_max front q
    → let r = add_range_in_front (front ∷ q) l h in
      IsValid r
      × (holds r x ≡ (
          if fits (front ∷ q) l h
          then (leb l x && ltb x h) || holds (front ∷ q) x
          else holds (front ∷ q) x))
unfolding add_range_in_front fits holds interval_contains IsValid IsAbove
add_range_in_front_lem front q l h x v s u = ground arith

-- The deque with the range in it, if it fits.
abbrev widened : List Interval → ℕ → ℕ → ℕ → Bool
widened q l h x = if fits q l h then (leb l x && ltb x h) || holds q x else holds q x

add_range_at_back_lem :
    (front : Interval) (q reversed : List Interval) (l h bound x : ℕ)
    → IsValid (front ∷ q)
    → l < h
    → IsBelow reversed bound
    → last_max reversed ≡ back_max front q
    → holds reversed x ≡ holds (front ∷ q) x
    → let r = add_range_at_back (front ∷ q) reversed l h in
      IsValid r × (holds r x ≡ widened (front ∷ q) l h x)
unfolding add_range_at_back
add_range_at_back_lem front q [] l h bound x v s b m e = (
  unfold IsValid IsAbove in (omega arith, s, tt),
  unfold last_max holds interval_contains fits in ground (arith, m, e),
)
add_range_at_back_lem front q (back ∷ before) l h bound x v s b m e =
    if-cases (λ r. IsValid r × (holds r x ≡ widened (front ∷ q) l h x)) (back.max == l)
      (λ t. (
        rev_onto-IsValid before (interval back.min h ∷ []) back.min (unfold IsBelow in b.2)
            (unfold IsAbove IsBelow in (omega arith, ground arith, tt)),
        unfold last_max holds interval_contains IsBelow fits in
            ground (arith, e, m, holds-rev_onto before (interval back.min h ∷ []) x),
      ))
      (λ f.
        if-cases (λ r. IsValid r × (holds r x ≡ widened (front ∷ q) l h x)) (ltb back.max l)
          (λ t. (
            rev_onto-IsValid (back ∷ before) (interval l h ∷ []) l
                (unfold IsBelow in (ground arith, b.1, b.2))
                (unfold IsAbove in (omega arith, s, tt)),
            unfold last_max holds interval_contains fits in
                ground (arith, e, m, holds-rev_onto (back ∷ before) (interval l h ∷ []) x),
          ))
          (λ g. add_range_in_front_lem front q l h x v s (unfold last_max in ground (arith, m))))

add_range-holds :
    (q : List Interval) (l h x : ℕ)
    → IsValid q
    → IsValid (add_range q l h) × (holds (add_range q l h) x ≡ widened q l h x)
unfolding add_range
add_range-holds [] l h x v =
    unfold IsValid IsAbove add_range_at_back rev_onto holds interval_contains fits in ground arith
add_range-holds (front ∷ q) l h x v =
    if-cases (λ r. IsValid r × (holds r x ≡ widened (front ∷ q) l h x)) (leb h l)
      (λ t. (v, unfold fits in ground arith))
      (λ f.
        let (bound, b) =
          rev_onto-IsBelow (front ∷ q) [] 0 (unfold IsValid in v) (unfold IsBelow in tt) in
        add_range_at_back_lem front q (rev_onto (front ∷ q) []) l h bound x v (ground arith) b
          (unfold rev_onto in last_max-rev_onto q [] front)
          (unfold holds in ground (arith, holds-rev_onto (front ∷ q) [] x)))

-- AddRange keeps the deque well formed. If the range lies above or below all that is there, the
-- deque then contains the range and what it contained, and otherwise what it contained.
pub contains-add_range :
    (q : List Interval) (lower higher x : ℕ)
    → IsValid q
    → IsValid (add_range q lower higher)
      × (contains (add_range q lower higher) x ≡ (
          if fits q lower higher
          then (leb lower x && ltb x higher) || contains q x
          else contains q x))
contains-add_range q l h x v =
    let (w, e) = add_range-holds q l h x v in
    (w, rw (contains_lem (add_range q l h) x w) (rw (contains_lem q x v) e))
