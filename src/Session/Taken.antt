-- ===== src/Session/Taken.antt =====
-- Which identifiers were used, and what a well-formed session is.
use puic.Prelude.{
  ℕ, zero, suc, ◌+◌, ◌-◌, ◌/◌, ◌%◌, ◌^◌, ◌≤◌, ◌<◌, ◌≡◌, refl, arith, Bool, true, false, not,
}
use puic.Prelude.{◌&&◌, ◌||◌, ◌==◌, ltb, leb, List, [], ◌∷◌, All}
use puic.Prelude.{if◌then◌else◌, length}
use puic.Prelude.{mem, remove_id}
use puic.Session.{
  Session, Stream, is_incoming, is_open, is_taken, is_closed, insert_available,
  additional_available, max_available,
}
use puic.Session.{crypto_stream_id, take_out, activate_stream, has_key}
use puic.Prelude.{mem-remove_id}
use puic.Session.Maps.{IsMap, count, find_stream-erase_stream}

abbrev pub count_keys : (ℕ → Bool) → List (ℕ × ℕ) → ℕ
count_keys p [] = 0
count_keys p ((k, v) ∷ m) = (if p k then 1 else 0) + count_keys p m

abbrev pub IsKeyMap : List (ℕ × ℕ) → Type 0
IsKeyMap [] = Unit
IsKeyMap ((k, v) ∷ m) = (has_key m k ≡ false) × IsKeyMap m

-- Whether the other side numbers its streams so; `side` is the parity of one's own.
abbrev pub theirs : ℕ → ℕ → Bool
theirs side id = not (id % 2 == side)

abbrev pub IsGone : Session → ℕ × ℕ → Type 0
IsGone s k = is_closed s k.0 ≡ true

abbrev pub IsUsed : Session → ℕ → Type 0
IsUsed s x = (is_taken s x && not (x == crypto_stream_id)) ≡ true

-- The streams that count towards the limit are those of the peer that neither drain nor left.
pub record IsValid (side : ℕ) (s : Session) : Type 0 where
  pub own : s.next_outgoing % 2 ≡ side
  pub parity : (s.next_outgoing + s.largest_peer) % 2 ≡ 1
  pub unique : IsMap s.streams
  pub started : 1 < s.next_outgoing
  pub used : All (λ (t : Stream). IsUsed s t.id) s.streams
  pub final : All (λ (t : Stream). (not t.draining || t.has_final_offset) ≡ true) s.streams
  pub incoming : s.num_incoming ≡ count (λ (t : Stream). theirs side t.id) s.streams
  pub drains : s.num_draining ≡ count (λ (t : Stream). t.draining && theirs side t.id) s.streams
  pub keys : IsKeyMap s.locally_closed
  pub gone : All (IsGone s) s.locally_closed
  pub counted : s.num_locally_closed ≡ count_keys (theirs side) s.locally_closed
  pub few : s.num_incoming + s.num_locally_closed ≤ s.max_open_incoming + s.num_draining
  pub fewer : length s.available ≤ max_available s

-- A closed identifier stays closed.
abbrev pub Kept : Session → Session → Type 0
Kept s u = (x : ℕ) → is_closed s x ≡ true → is_closed u x ≡ true

pub take_out-Kept :
    (s : Session) (t : Stream) (locally_reset : Bool) → Kept s (take_out s t locally_reset)
unfolding take_out is_closed
take_out-Kept s t locally_reset x h = ground (arith, h, find_stream-erase_stream s.streams t.id x)

pub activate_stream-closed :
    (s : Session) (t : Stream) (x : ℕ)
    → (t.id == x) ≡ false
    → is_closed s x ≡ true
    → is_closed (activate_stream s t) x ≡ true
unfolding activate_stream is_closed
activate_stream-closed s t x n h = ground (arith, n, h, find_stream-erase_stream s.streams t.id x)

mem-insert_available :
    (fuel from id : ℕ) (available : List ℕ) (x : ℕ)
    → mem x (insert_available fuel from id available) ≡ true
    → (mem x available || (leb from x && ltb x id)) ≡ true
unfolding insert_available
mem-insert_available zero from id available x h = ground (arith, h)
mem-insert_available (suc fuel) from id available x h = ground (
  arith,
  h,
  mem-insert_available fuel (from + 2) id
      (if mem from available then available else from ∷ available) x,
)

length-insert_available :
    (fuel from id : ℕ) (available : List ℕ)
    → length (insert_available fuel from id available) ≤ length available + (id + 1 - from) / 2
unfolding insert_available
length-insert_available zero from id available = omega arith
length-insert_available (suc fuel) from id available = ground (
  arith,
  length-insert_available fuel (from + 2) id
      (if mem from available then available else from ∷ available),
)

-- What the streams that are there allow to be kept.
pub Kept-of_taken :
    (s u : Session)
    → u.streams ≡ s.streams
    → ((x : ℕ) → is_taken s x ≡ true → is_taken u x ≡ true)
    → Kept s u
unfolding is_closed is_open
Kept-of_taken s u e mono x h = ground (arith, h, e, mono x)

-- An identifier is no longer merely available.
abbrev pub release : Session → ℕ → Session
release s id = record s { available = remove_id id s.available }

abbrev pub raise : Session → ℕ → Session
raise s id = record s {
  available = insert_available id (s.largest_peer + 2) id s.available;
  largest_peer = id;
}

pub release-taken :
    (s : Session) (id x : ℕ) → is_taken s x ≡ true → is_taken (release s id) x ≡ true
unfolding is_taken
release-taken s id x h = ground (arith, h, mem-remove_id x id s.available)

pub raise-taken :
    (s : Session) (id x : ℕ)
    → s.largest_peer < id
    → is_taken s x ≡ true
    → is_taken (raise s id) x ≡ true
unfolding is_taken
raise-taken s id x l h =
    ground (arith, h, l, mem-insert_available id (s.largest_peer + 2) id s.available x)

pub release-Kept : (s : Session) (id : ℕ) → Kept s (release s id)
release-Kept s id = Kept-of_taken s (release s id) refl (release-taken s id)

pub raise-Kept : (s : Session) (id : ℕ) → s.largest_peer < id → Kept s (raise s id)
raise-Kept s id l = Kept-of_taken s (raise s id) refl (λ x h. raise-taken s id x l h)

-- The identifier itself is used then.
pub release-taken_self :
    (s : Session) (id : ℕ)
    → is_incoming s id ≡ true
    → id ≤ s.largest_peer
    → is_taken (release s id) id ≡ true
unfolding is_taken
release-taken_self s id i l = ground (arith, i, l, mem-remove_id id id s.available)

pub raise-taken_self :
    (s : Session) (id : ℕ)
    → is_incoming s id ≡ true
    → mem id s.available ≡ false
    → is_taken (raise s id) id ≡ true
unfolding is_taken
raise-taken_self s id i m =
    ground (arith, i, m, mem-insert_available id (s.largest_peer + 2) id s.available id)

pub raise-fewer :
    (s : Session) (id : ℕ)
    → (s.next_outgoing + s.largest_peer) % 2 ≡ 1
    → is_incoming s id ≡ true
    → s.largest_peer < id
    → id < 2 ^ 32
    → length s.available + additional_available id s.largest_peer ≤ max_available s
    → length (raise s id).available ≤ max_available (raise s id)
unfolding is_incoming additional_available max_available
raise-fewer s id p i l b h =
    ground (arith, p, i, l, b, h, length-insert_available id (s.largest_peer + 2) id s.available)
