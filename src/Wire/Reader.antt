-- ===== src/Wire/Reader.antt =====
-- QuicDataReader (puicbase/net/quic/core/quic_data_reader.{h,cc}). A method returns the value read,
-- `none` where the source returns false, and the reader after it.
pub mod Consume
use puic.Prelude.{ℕ, ◌-◌, ltb, leb, ◌==◌, if◌then◌else◌}
use puic.Prelude.{Bool, List, ◌++◌, take, drop, replicate, get_or}
use puic.Prelude.{Option, none, some, add64, sub64}
use puic.Wire.Bytes.{from_le, byte_swap}
use puic.Wire.Writer.{Endianness, network_byte_order, host_byte_order}
use puic.Wire.Ufloat.{from_ufloat16}
use mathlib.Core.Option

-- `bytes` is what lies at `data_`; `size` is `len_`, `pos` is `pos_`.
pub record DataReader : Type 0 where
  pub bytes : List ℕ
  pub size : ℕ
  pub pos : ℕ
  pub endianness : Endianness

unfoldable pub data_reader : List ℕ → ℕ → Endianness → DataReader
data_reader bytes size endianness = record {
  bytes = bytes;
  size = size;
  pos = 0;
  endianness = endianness;
}

unfoldable pub can_read : DataReader → ℕ → Bool
can_read r count = leb count (sub64 r.size r.pos)

unfoldable pub on_failure : DataReader → DataReader
on_failure r = record r { pos = r.size }

-- ReadBytes and ReadStringPiece.
unfoldable pub read_bytes : DataReader → ℕ → Option (List ℕ) × DataReader
unfolding can_read on_failure
read_bytes r count =
    if can_read r count
    then (some (take count (drop r.pos r.bytes)), record r { pos = add64 r.pos count })
    else (none, on_failure r)

unfoldable pub net_to_host : Endianness → ℕ → ℕ → ℕ
net_to_host network_byte_order n v = byte_swap n v
net_to_host host_byte_order n v = v

unfoldable pub read_uint8 : DataReader → Option ℕ × DataReader
read_uint8 r = let (result, r') = read_bytes r 1 in (Option.map from_le result, r')

-- ReadUInt16, ReadUInt32 and ReadUInt64: an integer of `n` bytes.
unfoldable pub read_uint : DataReader → ℕ → Option ℕ × DataReader
read_uint r n =
    let (result, r') = read_bytes r n in
    (Option.map (λ bs. net_to_host r.endianness n (from_le bs)) result, r')

-- The uint64_t with these bytes at its start, or at its end and then swapped.
unfoldable pub place_bytes : Endianness → ℕ → List ℕ → ℕ
place_bytes host_byte_order n bs = from_le (bs ++ replicate (8 - n) 0)
place_bytes network_byte_order n bs = byte_swap 8 (from_le (replicate (8 - n) 0 ++ bs))

-- Too large a count is refused with the reader left as it is.
unfoldable pub read_bytes_to_uint64 : DataReader → ℕ → Option ℕ × DataReader
read_bytes_to_uint64 r num_bytes =
    if ltb 8 num_bytes
    then (none, r)
    else let (result, r') = read_bytes r num_bytes in
      (Option.map (place_bytes r.endianness num_bytes) result, r')

unfoldable pub read_ufloat16 : DataReader → Option ℕ × DataReader
read_ufloat16 r = let (result, r') = read_uint r 2 in (Option.map from_ufloat16 result, r')

-- Once the length is read: ReadStringPiece, or nothing if there was no length.
unfoldable pub read_sized : Option ℕ → DataReader → Option (List ℕ) × DataReader
read_sized none r = (none, r)
read_sized (some size) r = read_bytes r size

unfoldable pub read_string_piece16 : DataReader → Option (List ℕ) × DataReader
unfolding read_sized
read_string_piece16 r = let (result_len, r') = read_uint r 2 in read_sized result_len r'

unfoldable pub read_connection_id : DataReader → Option ℕ × DataReader
read_connection_id r =
    let (result, r') = read_bytes r 8 in (Option.map (λ bs. byte_swap 8 (from_le bs)) result, r')

unfoldable pub read_tag : DataReader → Option ℕ × DataReader
read_tag r = let (result, r') = read_bytes r 4 in (Option.map from_le result, r')

unfoldable pub peek_remaining_payload : DataReader → List ℕ
peek_remaining_payload r = take (sub64 r.size r.pos) (drop r.pos r.bytes)

unfoldable pub read_remaining_payload : DataReader → List ℕ × DataReader
read_remaining_payload r = (peek_remaining_payload r, record r { pos = r.size })

unfoldable pub is_done_reading : DataReader → Bool
is_done_reading r = r.size == r.pos

unfoldable pub bytes_remaining : DataReader → ℕ
bytes_remaining r = sub64 r.size r.pos

unfoldable pub peek_byte : DataReader → ℕ
peek_byte r = if leb r.size r.pos then 0 else get_or r.bytes r.pos 0
