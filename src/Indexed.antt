-- ===== src/Indexed.antt =====
-- PacketNumberIndexedQueue (puicbase/net/quic/core/packet_number_indexed_queue.h): entries by packet
-- number in a deque that starts at the lowest one present. An EntryWrapper is some entry if it is
-- present and none if not; that its data stays behind when it is removed is left out.
pub mod Entries
pub mod Removal
pub mod Refines
mod Examples
use puic.Prelude.{
  ℕ, zero, suc, ◌+◌, ◌-◌, ◌==◌, ltb, leb, if◌then◌else◌, Bool, true, false, List, [], ◌∷◌, ◌++◌,
  Option, none, some,
}
use puic.Prelude.{not, length, set, replicate}

pub record IndexedQueue {ℓ} (A : Type ℓ) : Type ℓ where
  pub entries : List (Option A)
  pub number_of_present_entries : ℕ
  pub first_packet : ℕ

module _ {ℓ} {A : Type ℓ} where
  unfoldable pub indexed_queue : IndexedQueue A
  indexed_queue = record { entries = []; number_of_present_entries = 0; first_packet = 0 }

  abbrev pub entry_at : List (Option A) → ℕ → Option A
  entry_at [] i = none
  entry_at (e ∷ es) zero = e
  entry_at (e ∷ es) (suc i) = entry_at es i

  abbrev pub is_present : Option A → Bool
  is_present none = false
  is_present (some a) = true

  -- GetEntryWrapper, by which GetEntry finds its entry.
  unfoldable pub get_entry : IndexedQueue A → ℕ → Option A
  get_entry q packet_number =
      if ltb packet_number q.first_packet
      then none
      else entry_at q.entries (packet_number - q.first_packet)

  unfoldable pub is_empty : IndexedQueue A → Bool
  is_empty q = q.number_of_present_entries == 0

  unfoldable pub last_packet : IndexedQueue A → ℕ
  unfolding is_empty
  last_packet q = if is_empty q then 0 else q.first_packet + length q.entries - 1

  unfoldable pub emplace : IndexedQueue A → ℕ → A → Bool × IndexedQueue A
  unfolding is_empty last_packet
  emplace q packet_number a =
      if is_empty q
      then (
        true,
        record {
          entries = q.entries ++ (some a ∷ []);
          number_of_present_entries = 1;
          first_packet = packet_number;
        },
      )
      else if leb packet_number (last_packet q)
      then (false, q)
      else (
        true,
        record q {
          entries =
              q.entries
              ++ (replicate (packet_number - q.first_packet - length q.entries) none
                  ++ (some a ∷ []));
          number_of_present_entries = q.number_of_present_entries + 1;
        },
      )

  -- Pops what is not present off the front.
  unfoldable pub cleanup : List (Option A) → ℕ → ℕ → IndexedQueue A
  cleanup [] count first = record {
    entries = [];
    number_of_present_entries = count;
    first_packet = 0;
  }
  cleanup (none ∷ es) count first = cleanup es count (first + 1)
  cleanup (some a ∷ es) count first = record {
    entries = some a ∷ es;
    number_of_present_entries = count;
    first_packet = first;
  }

  unfoldable pub remove : IndexedQueue A → ℕ → Bool × IndexedQueue A
  unfolding get_entry cleanup
  remove q packet_number =
      let rest : List (Option A) = set q.entries (packet_number - q.first_packet) none in
      let count : ℕ = q.number_of_present_entries - 1 in
      if not (is_present (get_entry q packet_number))
      then (false, q)
      else if packet_number == q.first_packet
      then (true, cleanup rest count q.first_packet)
      else (true, record q { entries = rest; number_of_present_entries = count })
