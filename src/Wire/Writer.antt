-- ===== src/Wire/Writer.antt =====
-- QuicDataWriter (puicbase/net/quic/core/quic_data_writer.{h,cc}). A method that may fail returns
-- its `bool` and the writer after it. `char` buffers are lists of numbers.
pub mod Append
use puic.Prelude.{ℕ, ◌-◌, ltb, if◌then◌else◌}
use puic.Prelude.{Bool, true, false, List, length, take, drop, replicate, add64}
use puic.Prelude.{Option, none, some}
use puic.Wire.Bytes.{le_bytes, byte_swap}
use puic.Wire.Memory.{overwrite}
use puic.Wire.Ufloat.{to_ufloat16}

pub data Endianness : Type 0 where
  network_byte_order host_byte_order : Endianness

pub record DataWriter : Type 0 where
  pub buffer : List ℕ
  pub capacity : ℕ
  pub written : ℕ
  pub endianness : Endianness

unfoldable pub data_writer : ℕ → List ℕ → Endianness → DataWriter
data_writer size buffer endianness = record {
  buffer = buffer;
  capacity = size;
  written = 0;
  endianness = endianness;
}

-- The pointer that BeginWrite returns, as an offset into the buffer; `none` is nullptr.
unfoldable pub begin_write : DataWriter → ℕ → Option ℕ
begin_write w count =
    if ltb w.capacity w.written
    then none
    else if ltb (w.capacity - w.written) count
    then none
    else some w.written

unfoldable pub write_bytes : DataWriter → List ℕ → Bool × DataWriter
unfolding begin_write
write_bytes w bytes = elim (begin_write w (length bytes)) [
  | none ↦ (false, w)
  | some dest ↦ (
    true,
    record w { buffer = overwrite w.buffer dest bytes; written = add64 w.written (length bytes) },
  )
]

unfoldable pub host_to_net : Endianness → ℕ → ℕ → ℕ
host_to_net network_byte_order n v = byte_swap n v
host_to_net host_byte_order n v = v

unfoldable pub write_uint8 : DataWriter → ℕ → Bool × DataWriter
write_uint8 w value = write_bytes w (le_bytes 1 value)

unfoldable pub write_uint16 : DataWriter → ℕ → Bool × DataWriter
write_uint16 w value = write_bytes w (le_bytes 2 (host_to_net w.endianness 2 value))

unfoldable pub write_uint32 : DataWriter → ℕ → Bool × DataWriter
write_uint32 w value = write_bytes w (le_bytes 4 (host_to_net w.endianness 4 value))

unfoldable pub write_uint64 : DataWriter → ℕ → Bool × DataWriter
write_uint64 w value = write_bytes w (le_bytes 8 (host_to_net w.endianness 8 value))

-- The write at a place before the end: the length is moved there and back.
unfoldable pub write_uint8_at_offset : DataWriter → ℕ → ℕ → Bool × DataWriter
write_uint8_at_offset w value offset =
    if ltb w.written offset
    then (false, w)
    else let (result, w') = write_bytes (record w { written = offset }) (le_bytes 1 value) in
      (result, record w' { written = w.written })

-- The bytes of a uint64_t that WriteBytesToUInt64 takes: those at its start, or at its end once it
-- is swapped.
unfoldable pub uint64_part : Endianness → ℕ → ℕ → List ℕ
uint64_part host_byte_order num_bytes value = take num_bytes (le_bytes 8 value)
uint64_part network_byte_order num_bytes value =
    take num_bytes (drop (8 - num_bytes) (le_bytes 8 (byte_swap 8 value)))

unfoldable pub write_bytes_to_uint64 : DataWriter → ℕ → ℕ → Bool × DataWriter
write_bytes_to_uint64 w num_bytes value =
    if ltb 8 num_bytes then (false, w) else write_bytes w (uint64_part w.endianness num_bytes value)

unfoldable pub write_ufloat16 : DataWriter → ℕ → Bool × DataWriter
write_ufloat16 w value = write_bytes w (le_bytes 2 (host_to_net w.endianness 2 (to_ufloat16 value)))

unfoldable pub write_string_piece16 : DataWriter → List ℕ → Bool × DataWriter
write_string_piece16 w val =
    if ltb 65535 (length val)
    then (false, w)
    else let (result, w') = write_uint16 w (length val) in
      if result then write_bytes w' val else (false, w')

unfoldable pub write_repeated_byte : DataWriter → ℕ → ℕ → Bool × DataWriter
unfolding begin_write
write_repeated_byte w byte count = elim (begin_write w count) [
  | none ↦ (false, w)
  | some dest ↦ (
    true,
    record w {
      buffer = overwrite w.buffer dest (replicate count byte);
      written = add64 w.written count;
    },
  )
]

unfoldable pub write_padding : DataWriter → DataWriter
write_padding w = if ltb w.capacity w.written then w else record w {
  buffer = overwrite w.buffer w.written (replicate (w.capacity - w.written) 0);
  written = w.capacity;
}

unfoldable pub write_padding_bytes : DataWriter → ℕ → Bool × DataWriter
write_padding_bytes w count = write_repeated_byte w 0 count

-- Always in network byte order, whatever the writer's.
unfoldable pub write_connection_id : DataWriter → ℕ → Bool × DataWriter
write_connection_id w connection_id = write_bytes w (le_bytes 8 (byte_swap 8 connection_id))

-- Always in host byte order.
unfoldable pub write_tag : DataWriter → ℕ → Bool × DataWriter
write_tag w tag = write_bytes w (le_bytes 4 tag)
