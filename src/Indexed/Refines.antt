-- ===== src/Indexed/Refines.antt =====
-- The queue is a finite map from packet numbers to entries.
use puic.Prelude.{ℕ, ◌≡◌, ◌==◌, ltb, ◌||◌, ◌&&◌, Bool, if◌then◌else◌}
use puic.Prelude.{Option, none, some}
use puic.Indexed.{IndexedQueue, is_present, get_entry, is_empty, last_packet, emplace, remove}
use puic.Indexed.Entries.{IsValid, emplace_lem}
use puic.Indexed.Removal.{remove_lem}

-- A call of Emplace or of Remove.
pub data Op (A : Type 0) : Type 0 where
  put : ℕ → A → Op A
  take : ℕ → Op A

module _ {A : Type 0} where
  abbrev pub apply : IndexedQueue A → Op A → Bool × IndexedQueue A
  apply q (put n a) = emplace q n a
  apply q (take n) = remove q n

  -- A packet number is taken in if it is above all that were, and given up if it has an entry.
  abbrev pub is_accepted : IndexedQueue A → Op A → Bool
  is_accepted q (put n a) = is_empty q || ltb (last_packet q) n
  is_accepted q (take n) = is_present (get_entry q n)

  -- What a call does to a map from numbers to entries, if it is accepted.
  abbrev pub effect : Op A → Bool → (ℕ → Option A) → ℕ → Option A
  effect (put n a) ok m x = if ok && (x == n) then some a else m x
  effect (take n) ok m x = if ok && (x == n) then none else m x

  -- Emplace and Remove are the insertion and the removal of a finite map, of which GetEntry is the
  -- lookup, for every packet number. They return true exactly if they are accepted, change nothing if
  -- not, and keep the queue valid: its count is that of the entries and its front is present.
  pub apply_lem :
      (q : IndexedQueue A) (op : Op A)
      → IsValid q
      → IsValid (apply q op).1
        × ((apply q op).0 ≡ is_accepted q op)
        × ((x : ℕ) → get_entry (apply q op).1 x ≡ effect op (apply q op).0 (get_entry q) x)
  apply_lem q (put n a) v = emplace_lem q v n a
  apply_lem q (take n) v = remove_lem q v n
