-- ===== src/Wire/Fields.antt =====
-- The fields that packets are made of: one constructor for each write of QuicDataWriter with a read
-- of QuicDataReader beside it (puicbase/net/quic/core/quic_data_{writer,reader}.cc).
pub mod Write
pub mod Sequence
pub mod Integers
pub mod Read
pub mod RoundTrip
use puic.Prelude.{ℕ, ◌+◌, ◌*◌, ◌^◌, ◌≤◌, ◌<◌, if◌then◌else◌}
use puic.Prelude.{Bool, true, false, Option, none, some, List, [], ◌∷◌, ◌++◌, length, All, reverse}
use puic.Wire.Bytes.{IsByte, le_bytes}
use puic.Wire.Ufloat.{to_ufloat16, from_ufloat16}
use puic.Wire.Writer
use puic.Wire.Writer.{DataWriter, Endianness}
use puic.Wire.Writer.Append.{ordered}
use puic.Wire.Reader
use puic.Wire.Reader.{DataReader}
use mathlib.Core.Option

pub data Field : Type 0 where
  uint8 uint16 uint32 uint64 ufloat16 connection_id tag : ℕ → Field
  low_bytes : ℕ → ℕ → Field
  string_piece16 bytes : List ℕ → Field

-- The values that the parameter types of the source hold.
unfoldable pub IsField : Field → Type 0
IsField (uint8 v) = v < 2 ^ 8
IsField (uint16 v) = v < 2 ^ 16
IsField (uint32 v) = v < 2 ^ 32
IsField (uint64 v) = v < 2 ^ 64
IsField (ufloat16 v) = v < 2 ^ 64
IsField (connection_id v) = v < 2 ^ 64
IsField (tag v) = v < 2 ^ 32
IsField (low_bytes n v) = (n ≤ 8) × (v < 256 ^ n)
IsField (string_piece16 bs) = length bs < 2 ^ 16
IsField (bytes bs) = Unit {0}

unfoldable pub write_field : DataWriter → Field → Bool × DataWriter
write_field w (uint8 v) = Writer.write_uint8 w v
write_field w (uint16 v) = Writer.write_uint16 w v
write_field w (uint32 v) = Writer.write_uint32 w v
write_field w (uint64 v) = Writer.write_uint64 w v
write_field w (ufloat16 v) = Writer.write_ufloat16 w v
write_field w (connection_id v) = Writer.write_connection_id w v
write_field w (tag v) = Writer.write_tag w v
write_field w (low_bytes n v) = Writer.write_bytes_to_uint64 w n v
write_field w (string_piece16 bs) = Writer.write_string_piece16 w bs
write_field w (bytes bs) = Writer.write_bytes w bs

-- Writes in a row, which stop at the first that fails.
unfoldable pub write_fields : DataWriter → List Field → Bool × DataWriter
write_fields w [] = (true, w)
write_fields w (f ∷ fs) =
    let rest = write_fields (write_field w f).1 fs in
    if (write_field w f).0 then rest else (false, (write_field w f).1)

-- The read that stands beside the write; of the field only its shape is used.
unfoldable pub read_field : DataReader → Field → Option Field × DataReader
read_field r (uint8 _) = let (v, r') = Reader.read_uint8 r in (Option.map uint8 v, r')
read_field r (uint16 _) = let (v, r') = Reader.read_uint r 2 in (Option.map uint16 v, r')
read_field r (uint32 _) = let (v, r') = Reader.read_uint r 4 in (Option.map uint32 v, r')
read_field r (uint64 _) = let (v, r') = Reader.read_uint r 8 in (Option.map uint64 v, r')
read_field r (ufloat16 _) = let (v, r') = Reader.read_ufloat16 r in (Option.map ufloat16 v, r')
read_field r (connection_id _) =
    let (v, r') = Reader.read_connection_id r in (Option.map connection_id v, r')
read_field r (tag _) = let (v, r') = Reader.read_tag r in (Option.map tag v, r')
read_field r (low_bytes n _) =
    let (v, r') = Reader.read_bytes_to_uint64 r n in (Option.map (low_bytes n) v, r')
read_field r (string_piece16 _) =
    let (bs, r') = Reader.read_string_piece16 r in (Option.map string_piece16 bs, r')
read_field r (bytes bs) =
    let (bs, r') = Reader.read_bytes r (length bs) in (Option.map bytes bs, r')

unfoldable pub read_fields : DataReader → List Field → Option (List Field) × DataReader
read_fields r [] = (some [], r)
read_fields r (f ∷ fs) =
    let rest = read_fields (read_field r f).1 fs in
    elim (read_field r f).0 [
      | none ↦ (none, (read_field r f).1)
      | some g ↦ (Option.map (λ gs. g ∷ gs) rest.0, rest.1)
    ]

-- What stands on the wire for a field.
unfoldable pub encoding : Endianness → Field → List ℕ
encoding e (uint8 v) = le_bytes 1 v
encoding e (uint16 v) = ordered e 2 v
encoding e (uint32 v) = ordered e 4 v
encoding e (uint64 v) = ordered e 8 v
encoding e (ufloat16 v) = ordered e 2 (to_ufloat16 v)
encoding e (connection_id v) = reverse (le_bytes 8 v)
encoding e (tag v) = le_bytes 4 v
encoding e (low_bytes n v) = ordered e n v
encoding e (string_piece16 bs) = ordered e 2 (length bs) ++ bs
encoding e (bytes bs) = bs

unfoldable pub encodings : Endianness → List Field → List ℕ
encodings e [] = []
encodings e (f ∷ fs) = encoding e f ++ encodings e fs

-- What comes back: a float is rounded, all else is kept.
unfoldable pub carried : Field → Field
carried (ufloat16 v) = ufloat16 (from_ufloat16 (to_ufloat16 v))
carried f = f
