-- ===== src/Wire/SessionId.antt =====
-- ReadPuicSessionId, by which a server finds the session of a packet
-- (puicbase/puic/puic_session_base.cc).
use puic.Prelude.{ℕ, ◌<◌, ◌≡◌, refl, ap, ◌∙◌, arith, ◌==◌, if◌then◌else◌, IsU64}
use puic.Prelude.{Option, none, some, List, [], ◌∷◌, ◌++◌, length, reverse, length-reverse}
use puic.Prelude.{Bool, true, false}
use puic.Wire.Bytes.{le_bytes, length-le_bytes, from_le, byte_swap}
use puic.Wire.Writer.{network_byte_order}
use puic.Wire.Reader.{DataReader, data_reader, read_bytes, read_connection_id}
use puic.Wire.Reader.Consume.{IsValid, remaining, Consumes, read_bytes_short}
use puic.Wire.Fields.Integers.{from_le-reverse, read_exact}
use Prim.Native.Nat.{bit_and}
use mathlib.Core.Option

-- PACKET_PUBLIC_FLAGS_8BYTE_CONNECTION_ID
abbrev pub flag_8byte_connection_id : ℕ
flag_8byte_connection_id = 8

-- What follows from the flag byte, if there is one. An identifier that cannot be read is 0.
unfoldable pub session_id_behind : Option (List ℕ) → DataReader → ℕ
session_id_behind none r = 0
session_id_behind (some flags) r =
    if bit_and (from_le flags) flag_8byte_connection_id == flag_8byte_connection_id
    then Option.get_or (read_connection_id r).0 0
    else 0

unfoldable pub read_session_id : List ℕ → ℕ → ℕ
unfolding session_id_behind
read_session_id packet packet_len =
    let (public_flags, r) = read_bytes (data_reader packet packet_len network_byte_order) 1 in
    session_id_behind public_flags r

module _ (flags : ℕ) (rest : List ℕ) (bound : IsU64 (length (flags ∷ rest))) where
  start : DataReader
  start = data_reader (flags ∷ rest) (length (flags ∷ rest)) network_byte_order

  start-IsValid : IsValid start
  unfolding start data_reader
  start-IsValid = omega arith

  first : Consumes start (List ℕ) (flags ∷ []) rest (read_bytes start 1)
  first =
      read_exact 1 (flags ∷ []) rest start-IsValid refl (unfold remaining start data_reader in refl)

  -- Behind the flag byte the function reads a connection identifier, or answers 0.
  read_session_id-cons :
      (id : Option ℕ)
      → (read_connection_id (read_bytes start 1).1).0 ≡ id
      → read_session_id (flags ∷ rest) (length (flags ∷ rest))
        ≡ (if bit_and flags 8 == 8 then Option.get_or id 0 else 0)
  unfolding read_session_id start from_le
  read_session_id-cons id e =
      ap (λ o. session_id_behind o (read_bytes start 1).1) first.done
      ∙ ap (λ o. if bit_and (from_le (flags ∷ [])) 8 == 8 then Option.get_or o 0 else 0) e
      ∙ ap (λ n. if bit_and n 8 == 8 then Option.get_or id 0 else 0) (omega arith)

if_same : (n : ℕ) (b : Bool) → (if b then n else n) ≡ n
if_same n true = refl
if_same n false = refl

read_exact_id :
    {r : DataReader} (id : ℕ) (rest : List ℕ)
    → IsU64 id
    → IsValid r
    → remaining r ≡ reverse (le_bytes 8 id) ++ rest
    → (read_connection_id r).0 ≡ some id
unfolding read_connection_id
read_exact_id {r} id rest h v e = ground (
  arith,
  read_exact 8 (reverse (le_bytes 8 id)) rest v
      (length-reverse (le_bytes 8 id) ∙ length-le_bytes 8 id) e,
  from_le-reverse 8 id (omega arith),
)

-- A packet of at least 9 bytes with the flag set has the identifier that stands behind the flags,
-- highest byte first; any other packet has the identifier 0.
pub read_session_id_lem :
    (flags id : ℕ) (rest : List ℕ)
    → IsU64 id
    → let packet = flags ∷ (reverse (le_bytes 8 id) ++ rest) in
      IsU64 (length packet)
      → read_session_id packet (length packet) ≡ (if bit_and flags 8 == 8 then id else 0)
read_session_id_lem flags id rest h bound =
    let at_id = first flags (reverse (le_bytes 8 id) ++ rest) bound in
    read_session_id-cons flags _ bound (some id) (read_exact_id id rest h at_id.valid at_id.left)

-- Too short a packet has the identifier 0.
pub read_session_id_short :
    (packet : List ℕ) → length packet < 9 → read_session_id packet (length packet) ≡ 0
unfolding read_connection_id
read_session_id_short [] h =
    unfold read_session_id in
    ap (λ p. session_id_behind p.0 p.1)
      (read_bytes_short {r = data_reader [] 0 network_byte_order} 1
        (unfold data_reader in omega arith) (unfold remaining data_reader in omega arith))
read_session_id_short (flags ∷ rest) h =
    let bound : IsU64 (length (flags ∷ rest)) = omega arith in
    let head = first flags rest bound in
    read_session_id-cons flags rest bound none (
      ap (λ p. Option.map (λ bs. byte_swap 8 (from_le bs)) p.0)
        (read_bytes_short 8 head.valid (omega (arith, ap length head.left))))
    ∙ if_same 0 (bit_and flags 8 == 8)
