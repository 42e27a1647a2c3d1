-- ===== src/Ack.antt =====
-- The packet numbers an ACK frame lists: PacketNumberQueue of
-- puicbase/net/quic/core/frames/quic_ack_frame.{h,cc}, a deque of the half-open intervals of
-- puicbase/net/base/interval.h. The deque is a list, front first; a loop from the back runs over the
-- reversed deque and holds what it has passed.
pub mod Sorted
pub mod Add
pub mod Members
pub mod Range
mod Examples
use puic.Prelude.{ℕ, ◌+◌, ◌-◌, ◌*◌, ◌%◌, ◌^◌, ◌==◌, ltb, leb, if◌then◌else◌, Bool, true, false, not}
use puic.Prelude.{◌&&◌, ◌||◌, Option, none, some, List, [], ◌∷◌, length, add64, sub64}

pub record Interval : Type 0 where
  pub min : ℕ
  pub max : ℕ

abbrev pub interval : ℕ → ℕ → Interval
interval min max = record { min = min; max = max }

unfoldable pub interval_contains : Interval → ℕ → Bool
interval_contains i t = leb i.min t && ltb t i.max

unfoldable pub interval_length : Interval → ℕ
interval_length i = if leb i.max i.min then 0 else i.max - i.min

-- The elements of a reversed deque put back in front of what follows them.
unfoldable pub rev_onto : List Interval → List Interval → List Interval
rev_onto [] after = after
rev_onto (i ∷ before) after = rev_onto before (i ∷ after)

-- In these helpers of Add, `next` is packet_number + 1. The interval `cur` now starts at the packet;
-- it is merged with the one before it if that ends there.
unfoldable pub extend_down : List Interval → Interval → List Interval → ℕ → List Interval
unfolding rev_onto
extend_down [] cur after p = record cur { min = p } ∷ after
extend_down (prev ∷ before) cur after p =
    if p == prev.max
    then rev_onto before (record prev { max = cur.max } ∷ after)
    else rev_onto (prev ∷ before) (record cur { min = p } ∷ after)

-- The loop from the back.
unfoldable pub insert_backwards : List Interval → List Interval → ℕ → ℕ → List Interval
unfolding rev_onto extend_down interval_contains
insert_backwards [] after p next = after
insert_backwards (cur ∷ before) after p next =
    let rest : List Interval = insert_backwards before (cur ∷ after) p next in
    if interval_contains cur p
    then rev_onto before (cur ∷ after)
    else if cur.max == p
    then rev_onto before (record cur { max = next } ∷ after)
    else if cur.min == next
    then extend_down before cur after p
    else if ltb cur.max next
    then rev_onto before (cur ∷ interval p next ∷ after)
    else rest

unfoldable pub add_in_front : List Interval → List Interval → ℕ → ℕ → List Interval
unfolding insert_backwards
add_in_front [] reversed p next = []
add_in_front (front ∷ q) reversed p next =
    if ltb next front.min
    then interval p next ∷ front ∷ q
    else if front.min == next
    then record front { min = p } ∷ q
    else insert_backwards reversed [] p next

unfoldable pub add_at_back : List Interval → List Interval → ℕ → ℕ → List Interval
unfolding add_in_front rev_onto
add_at_back q [] p next = interval p next ∷ []
add_at_back q (back ∷ before) p next =
    if back.max == p
    then rev_onto before (record back { max = next } ∷ [])
    else if ltb back.max p
    then rev_onto (back ∷ before) (interval p next ∷ [])
    else add_in_front q (back ∷ before) p next

unfoldable pub add : List Interval → ℕ → List Interval
unfolding add_at_back
add q packet_number = add_at_back q (rev_onto q []) packet_number (add64 packet_number 1)

unfoldable pub add_range_in_front : List Interval → ℕ → ℕ → List Interval
add_range_in_front [] lower higher = []
add_range_in_front (front ∷ q) lower higher =
    if front.min == higher
    then record front { min = lower } ∷ q
    else if ltb higher front.min
    then interval lower higher ∷ front ∷ q
    else front ∷ q

unfoldable pub add_range_at_back : List Interval → List Interval → ℕ → ℕ → List Interval
unfolding add_range_in_front rev_onto
add_range_at_back q [] lower higher = interval lower higher ∷ []
add_range_at_back q (back ∷ before) lower higher =
    if back.max == lower
    then rev_onto before (record back { max = higher } ∷ [])
    else if ltb back.max lower
    then rev_onto (back ∷ before) (interval lower higher ∷ [])
    else add_range_in_front q lower higher

-- A range that overlaps what is there is refused.
unfoldable pub add_range : List Interval → ℕ → ℕ → List Interval
unfolding add_range_at_back
add_range q lower higher =
    if leb higher lower then q else add_range_at_back q (rev_onto q []) lower higher

unfoldable pub drop_below : List Interval → ℕ → List Interval
drop_below [] higher = []
drop_below (front ∷ q) higher =
    let rest : List Interval = drop_below q higher in
    if ltb front.max higher
    then rest
    else if ltb front.min higher && leb higher front.max
    then (if front.max == higher then q else record front { min = higher } ∷ q)
    else front ∷ q

-- Whether the deque is empty, or starts elsewhere than at `old_min`.
unfoldable pub min_moved : ℕ → List Interval → Bool
min_moved old_min [] = true
min_moved old_min (front ∷ q) = not (old_min == front.min)

unfoldable pub remove_up_to : List Interval → ℕ → Bool × List Interval
unfolding drop_below min_moved
remove_up_to [] higher = (false, [])
remove_up_to (front ∷ q) higher =
    let rest : List Interval = drop_below (front ∷ q) higher in (min_moved front.min rest, rest)

unfoldable pub remove_smallest_interval : List Interval → List Interval
remove_smallest_interval [] = []
remove_smallest_interval (front ∷ q) = q

-- Some interval contains the number.
unfoldable pub holds : List Interval → ℕ → Bool
unfolding interval_contains
holds [] p = false
holds (i ∷ q) p = interval_contains i p || holds q p

abbrev pub back_max : Interval → List Interval → ℕ
back_max front [] = front.max
back_max front (i ∷ q) = back_max i q

unfoldable pub contains : List Interval → ℕ → Bool
unfolding holds
contains [] p = false
contains (front ∷ q) p =
    if ltb p front.min || leb (back_max front q) p then false else holds (front ∷ q) p

-- Undefined for an empty deque in the source.
unfoldable pub min : List Interval → Option ℕ
min [] = none
min (front ∷ q) = some front.min

unfoldable pub max : List Interval → Option ℕ
max [] = none
max (front ∷ q) = some (sub64 (back_max front q) 1)

unfoldable pub is_awaiting_packet : List Interval → ℕ → ℕ → Bool
unfolding contains
is_awaiting_packet packets packet_number least_awaiting =
    leb least_awaiting packet_number && not (contains packets packet_number)

-- The sum is kept in an `int` of 32 bits, and the `int` is returned as a `size_t`.
unfoldable pub sum_lengths : List Interval → ℕ → ℕ
unfolding interval_length
sum_lengths [] n = n
sum_lengths (i ∷ q) n = sum_lengths q ((n + interval_length i) % 2 ^ 32)

unfoldable pub num_packets_slow : List Interval → ℕ
unfolding sum_lengths
num_packets_slow q =
    let n : ℕ = sum_lengths q 0 in if ltb n (2 ^ 31) then n else add64 n (2 ^ 64 - 2 ^ 32)
