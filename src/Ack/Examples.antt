-- ===== src/Ack/Examples.antt =====
-- The theorems on PacketNumberQueue at a concrete deque, and tests.
use puic.Prelude.{◌≡◌, refl, arith, ◌&&◌, ◌||◌, ◌==◌, leb}
use puic.Prelude.{List, [], ◌∷◌}
use puic.Ack.{Interval, interval, contains, add, remove_up_to}
use puic.Ack.{num_packets_slow}
use puic.Ack.Sorted.{IsValid, IsAbove}
use puic.Ack.Members.{contains-add, remove_up_to_lem, starts_below}

-- Packets 1 to 4 and 6 to 9.
abbrev acked : List Interval
acked = interval 1 5 ∷ interval 6 10 ∷ []

acked-IsValid : IsValid acked
unfolding IsValid IsAbove
acked-IsValid = (omega arith, omega arith, (omega arith, omega arith, tt))

-- Packet 5 joins the two intervals.
contains-add_example :
    IsValid (add acked 5) × (contains (add acked 5) 7 ≡ (7 == 5 || contains acked 7))
contains-add_example = contains-add acked 5 7 acked-IsValid (omega arith)

add_joins : add acked 5 ≡ interval 1 10 ∷ []
unfolding add
add_joins = refl

remove_up_to_lem_example :
    let (removed, rest) = remove_up_to acked 7 in
    IsValid rest
    × (contains rest 3 ≡ (leb 7 3 && contains acked 3))
    × (removed ≡ starts_below acked 7)
remove_up_to_lem_example = remove_up_to_lem acked 7 3 acked-IsValid

num_packets_of_two : num_packets_slow acked ≡ 8
unfolding num_packets_slow
num_packets_of_two = refl
