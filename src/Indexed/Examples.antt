-- ===== src/Indexed/Examples.antt =====
-- A queue of two entries.
use puic.Prelude.{ℕ, ◌≡◌, refl, true, ◌&&◌, ◌==◌, if◌then◌else◌, none}
use puic.Indexed.{IndexedQueue, indexed_queue, emplace, remove, get_entry, last_packet}
use puic.Indexed.Entries.{IsValid}
use puic.Indexed.Refines.{put, take, apply_lem}

abbrev q0 : IndexedQueue ℕ
q0 = indexed_queue

abbrev q1 : IndexedQueue ℕ
q1 = (emplace q0 7 70).1

abbrev q2 : IndexedQueue ℕ
q2 = (emplace q1 10 100).1

q0-IsValid : IsValid q0
unfolding indexed_queue
q0-IsValid = record { counted = refl; front = refl }

q2-IsValid : IsValid q2
q2-IsValid = (apply_lem q1 (put 10 100) (apply_lem q0 (put 7 70) q0-IsValid).0).0

after_removal : last_packet (remove q2 7).1 ≡ 10
unfolding indexed_queue emplace remove last_packet
after_removal = refl

apply_lem_example :
    IsValid (remove q2 7).1
    × ((remove q2 7).0 ≡ true)
    × ((x : ℕ)
        → get_entry (remove q2 7).1 x
          ≡ (if (remove q2 7).0 && (x == 7) then none else get_entry q2 x))
unfolding indexed_queue emplace get_entry
apply_lem_example = apply_lem q2 (take 7) q2-IsValid
