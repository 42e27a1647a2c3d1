-- ===== src/Wire/Fields/Read.antt =====
-- Each read of a field, behind the write of that field and on any other input.
use puic.Prelude.{ℕ, ◌≡◌, refl, ◌∙◌, arith}
use puic.Prelude.{Option, none, some, List, ◌++◌}
use puic.Prelude.{append_assoc, length, reverse}
use puic.Wire.Bytes.{le_bytes, from_le-le_bytes}
use puic.Wire.Bytes.{length-le_bytes}
use puic.Prelude.{length-reverse}
use puic.Wire.Ufloat.{to_ufloat16}
use puic.Wire.Ufloat.Rounding.{to_ufloat16-lt}
use puic.Wire.Writer.Append.{ordered, length-ordered}
use puic.Wire.Reader.{DataReader}
use puic.Wire.Reader.{read_bytes, read_uint8, read_uint, read_bytes_to_uint64, read_ufloat16}
use puic.Wire.Reader.{read_string_piece16, read_sized, read_connection_id, read_tag}
use puic.Wire.Reader.Consume.{IsValid, remaining, Consumes}
use puic.Wire.Fields.{Field, uint8, uint16, uint32, uint64, ufloat16, connection_id, tag}
use puic.Wire.Fields.{low_bytes, string_piece16, bytes, IsField}
use puic.Wire.Fields.{read_field, encoding, carried}
use puic.Wire.Fields.Integers.{from_le-reverse, place_bytes-ordered, read_exact, read_ordered}

-- Every read hands out the field that was written, a float rounded, and leaves what follows.
pub read_field-Consumes :
    {r : DataReader} (f : Field) (rest : List ℕ)
    → IsValid r
    → IsField f
    → remaining r ≡ encoding r.endianness f ++ rest
    → Consumes r Field (carried f) rest (read_field r f)
unfolding read_field encoding IsField carried read_uint8 read_ufloat16 read_connection_id read_tag
    read_bytes_to_uint64 read_string_piece16
read_field-Consumes {r} (uint8 v) rest i h e = ground (
  arith,
  read_exact 1 (le_bytes 1 v) rest i (length-le_bytes 1 v) e,
  from_le-le_bytes 1 v (omega arith),
)
read_field-Consumes {r} (uint16 v) rest i h e =
    ground (arith, read_ordered 2 v rest i (omega arith) e)
read_field-Consumes {r} (uint32 v) rest i h e =
    ground (arith, read_ordered 4 v rest i (omega arith) e)
read_field-Consumes {r} (uint64 v) rest i h e =
    ground (arith, read_ordered 8 v rest i (omega arith) e)
read_field-Consumes {r} (ufloat16 v) rest i h e =
    ground (arith, read_ordered 2 (to_ufloat16 v) rest i (to_ufloat16-lt v) e)
read_field-Consumes {r} (connection_id v) rest i h e = ground (
  arith,
  read_exact 8 (reverse (le_bytes 8 v)) rest i (length-reverse (le_bytes 8 v) ∙ length-le_bytes 8 v)
      e,
  from_le-reverse 8 v (omega arith),
)
read_field-Consumes {r} (tag v) rest i h e = ground (
  arith,
  read_exact 4 (le_bytes 4 v) rest i (length-le_bytes 4 v) e,
  from_le-le_bytes 4 v (omega arith),
)
read_field-Consumes {r} (low_bytes n v) rest i (hn, hv) e = ground (
  arith,
  read_exact n (ordered r.endianness n v) rest i (length-ordered r.endianness n v) e,
  place_bytes-ordered r.endianness n v hn hv,
)
read_field-Consumes {r} (string_piece16 bs) rest i h e =
    let size : Consumes r ℕ (length bs) (bs ++ rest) (read_uint r 2) =
      read_ordered 2 (length bs) (bs ++ rest) i (omega arith)
        (e ∙ append_assoc (ordered r.endianness 2 (length bs)) bs rest) in
    ground (arith, size, read_exact (length bs) bs rest size.valid refl size.left)
read_field-Consumes {r} (bytes bs) rest i h e =
    ground (arith, read_exact (length bs) bs rest i refl e)

read_bytes-IsValid : {r : DataReader} (n : ℕ) → IsValid r → IsValid (read_bytes r n).1
unfolding read_bytes
read_bytes-IsValid n v = ground arith

read_uint-IsValid : {r : DataReader} (n : ℕ) → IsValid r → IsValid (read_uint r n).1
unfolding read_uint
read_uint-IsValid n v = read_bytes-IsValid n v

read_sized-IsValid : (size : Option ℕ) {r : DataReader} → IsValid r → IsValid (read_sized size r).1
unfolding read_sized
read_sized-IsValid none v = v
read_sized-IsValid (some n) v = read_bytes-IsValid n v

-- On any input, and whether it succeeds or not, a read stays inside the buffer.
pub read_field-IsValid : {r : DataReader} (f : Field) → IsValid r → IsValid (read_field r f).1
unfolding read_field read_uint8 read_ufloat16 read_connection_id read_tag read_bytes_to_uint64
    read_string_piece16
read_field-IsValid {r} (uint8 v) i = read_bytes-IsValid 1 i
read_field-IsValid {r} (uint16 v) i = read_uint-IsValid 2 i
read_field-IsValid {r} (uint32 v) i = read_uint-IsValid 4 i
read_field-IsValid {r} (uint64 v) i = read_uint-IsValid 8 i
read_field-IsValid {r} (ufloat16 v) i = read_uint-IsValid 2 i
read_field-IsValid {r} (connection_id v) i = read_bytes-IsValid 8 i
read_field-IsValid {r} (tag v) i = read_bytes-IsValid 4 i
read_field-IsValid {r} (low_bytes n v) i = ground (arith, read_bytes-IsValid n i)
read_field-IsValid {r} (string_piece16 bs) i =
    read_sized-IsValid (read_uint r 2).0 (read_uint-IsValid 2 i)
read_field-IsValid {r} (bytes bs) i = read_bytes-IsValid (length bs) i
