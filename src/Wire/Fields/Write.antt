-- ===== src/Wire/Fields/Write.antt =====
-- Each write appends the encoding of its field, or fails because that does not fit.
use puic.Prelude.{ℕ, ◌+◌, ◌^◌, ◌≤◌, ◌<◌, ◌≡◌, refl, sym, ap, ◌∙◌, arith}
use puic.Prelude.{false, List, ◌++◌, append_assoc, length}
use puic.Prelude.{length-append, take, take-length_append}
use puic.Wire.Memory.{take-take}
use puic.Wire.Bytes.{le_bytes, le_bytes-byte_swap}
use puic.Wire.Writer.{DataWriter, host_to_net}
use puic.Wire.Writer.{write_bytes, write_uint8, write_uint16, write_uint32, write_uint64}
use puic.Wire.Writer.{write_ufloat16, write_connection_id, write_tag, write_bytes_to_uint64}
use puic.Wire.Writer.{write_string_piece16}
use puic.Wire.Writer.Append.{IsValid, payload, Appends, write_bytes-Appends, write_bytes_full}
use puic.Wire.Writer.Append.{length-payload, ordered, length-ordered, le_bytes-host_to_net}
use puic.Wire.Writer.Append.{uint64_part-ordered}
use puic.Wire.Fields.{Field, uint8, uint16, uint32, uint64, ufloat16, connection_id, tag}
use puic.Wire.Fields.{low_bytes, string_piece16, bytes, IsField, write_field}
use puic.Wire.Fields.{encoding}
use native.Mathlib.Decide.{dec_le}

-- WriteBytesToUInt64 in either order.
write_low_bytes :
    (w : DataWriter) (n v : ℕ)
    → n ≤ 8
    → write_bytes_to_uint64 w n v ≡ write_bytes w (ordered w.endianness n v)
unfolding write_bytes_to_uint64
write_low_bytes w n v h = ground (arith, uint64_part-ordered w.endianness n v h)

-- A write in the writer's own order is one WriteBytes.
write_ordered :
    (w : DataWriter) (n v : ℕ)
    → write_bytes w (le_bytes n (host_to_net w.endianness n v))
      ≡ write_bytes w (ordered w.endianness n v)
write_ordered w n v = ap (write_bytes w) (le_bytes-host_to_net w.endianness n v)

-- A string is its length, in the writer's order, and then its bytes.
write_string-Appends :
    {w : DataWriter} (bs : List ℕ)
    → IsValid w
    → length bs < 2 ^ 16
    → w.written + length (ordered w.endianness 2 (length bs) ++ bs) ≤ w.capacity
    → Appends w (ordered w.endianness 2 (length bs) ++ bs) (write_string_piece16 w bs)
unfolding write_string_piece16 write_uint16
write_string-Appends {w} bs v h fits = ground (
  arith,
  write_ordered w 2 (length bs),
  length-append size bs,
  head,
  write_bytes-Appends bs head.valid,
  append_assoc (payload w) size bs,
)
  where
    size : List ℕ
    size = ordered w.endianness 2 (length bs)

    head : Appends w size (write_bytes w size)
    head = write_bytes-Appends size v (omega (arith, length-append size bs))

-- A write whose encoding fits appends it.
pub write_field-Appends :
    {w : DataWriter} (f : Field)
    → IsValid w
    → IsField f
    → w.written + length (encoding w.endianness f) ≤ w.capacity
    → Appends w (encoding w.endianness f) (write_field w f)
unfolding write_field encoding IsField
write_field-Appends (uint8 n) v h fits = unfold write_uint8 in write_bytes-Appends _ v fits
write_field-Appends {w} (uint16 n) v h fits =
    unfold write_uint16 in rw write_ordered (write_bytes-Appends _ v fits)
write_field-Appends {w} (uint32 n) v h fits =
    unfold write_uint32 in rw write_ordered (write_bytes-Appends _ v fits)
write_field-Appends {w} (uint64 n) v h fits =
    unfold write_uint64 in rw write_ordered (write_bytes-Appends _ v fits)
write_field-Appends {w} (ufloat16 n) v h fits =
    unfold write_ufloat16 in rw write_ordered (write_bytes-Appends _ v fits)
write_field-Appends {w} (connection_id n) v h fits =
    unfold write_connection_id in rw (le_bytes-byte_swap 8 n) (write_bytes-Appends _ v fits)
write_field-Appends {w} (tag n) v h fits = unfold write_tag in write_bytes-Appends _ v fits
write_field-Appends {w} (low_bytes k n) v h fits =
    rw (write_low_bytes w k n h.0) (write_bytes-Appends _ v fits)
write_field-Appends {w} (string_piece16 bs) v h fits = write_string-Appends bs v h fits
write_field-Appends {w} (bytes bs) v h fits = write_bytes-Appends _ v fits

take-payload : (w : DataWriter) → take w.written (payload w) ≡ payload w
unfolding payload
take-payload w = take-take w.written w.written w.buffer (omega arith)

take-payload_append :
    {w : DataWriter} → IsValid w → (bs : List ℕ) → take w.written (payload w ++ bs) ≡ payload w
take-payload_append {w} v bs =
    ap (λ n. take n (payload w ++ bs)) (sym (length-payload v)) ∙ take-length_append (payload w) bs

write_bytes_short :
    {w : DataWriter} (bs : List ℕ)
    → IsValid w
    → w.capacity < w.written + length bs
    → ((write_bytes w bs).0 ≡ false)
      × IsValid (write_bytes w bs).1
      × (take w.written (payload (write_bytes w bs).1) ≡ payload w)
write_bytes_short {w} bs v over = rw (write_bytes_full w bs v.within over) (refl, v, take-payload w)

-- A string that does not fit may leave its length behind, and nothing else.
write_string_short :
    {w : DataWriter} (bs : List ℕ)
    → IsValid w
    → length bs < 2 ^ 16
    → w.capacity < w.written + length (ordered w.endianness 2 (length bs) ++ bs)
    → ((write_string_piece16 w bs).0 ≡ false)
      × IsValid (write_string_piece16 w bs).1
      × (take w.written (payload (write_string_piece16 w bs).1) ≡ payload w)
unfolding write_string_piece16 write_uint16
write_string_short {w} bs v h over = elim (dec_le (w.written + 2) w.capacity) [
  | yes fits ↦ after_size fits
  | no full ↦ ground (
    arith,
    write_ordered w 2 (length bs),
    write_bytes_full w size,
    length-ordered w.endianness 2 (length bs),
    take-payload w,
  )
]
  where
    size : List ℕ
    size = ordered w.endianness 2 (length bs)

    after_size :
        w.written + 2 ≤ w.capacity
        → ((write_string_piece16 w bs).0 ≡ false)
          × IsValid (write_string_piece16 w bs).1
          × (take w.written (payload (write_string_piece16 w bs).1) ≡ payload w)
    after_size fits =
        let head : Appends w size (write_bytes w size) =
          write_bytes-Appends size v (omega (arith, length-ordered w.endianness 2 (length bs))) in
        ground (
          arith,
          write_ordered w 2 (length bs),
          head,
          write_bytes_full (write_bytes w size).1 bs,
          length-append size bs,
          head.valid.within,
          take-payload_append v size,
        )

-- A write whose encoding does not fit fails; what was written before it stands.
pub write_field_short :
    {w : DataWriter} (f : Field)
    → IsValid w
    → IsField f
    → w.capacity < w.written + length (encoding w.endianness f)
    → ((write_field w f).0 ≡ false)
      × IsValid (write_field w f).1
      × (take w.written (payload (write_field w f).1) ≡ payload w)
unfolding write_field encoding IsField
write_field_short (uint8 n) v h over = unfold write_uint8 in write_bytes_short _ v over
write_field_short {w} (uint16 n) v h over =
    unfold write_uint16 in rw write_ordered (write_bytes_short _ v over)
write_field_short {w} (uint32 n) v h over =
    unfold write_uint32 in rw write_ordered (write_bytes_short _ v over)
write_field_short {w} (uint64 n) v h over =
    unfold write_uint64 in rw write_ordered (write_bytes_short _ v over)
write_field_short {w} (ufloat16 n) v h over =
    unfold write_ufloat16 in rw write_ordered (write_bytes_short _ v over)
write_field_short {w} (connection_id n) v h over =
    unfold write_connection_id in rw (le_bytes-byte_swap 8 n) (write_bytes_short _ v over)
write_field_short (tag n) v h over = unfold write_tag in write_bytes_short _ v over
write_field_short {w} (low_bytes k n) v h over =
    rw (write_low_bytes w k n h.0) (write_bytes_short _ v over)
write_field_short (string_piece16 bs) v h over = write_string_short bs v h over
write_field_short (bytes bs) v h over = write_bytes_short _ v over
