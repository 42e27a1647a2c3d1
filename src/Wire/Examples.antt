-- ===== src/Wire/Examples.antt =====
-- Runs of the readers and writers at concrete inputs.
use puic.Prelude.{ℕ, ◌-◌, ◌*◌, ◌^◌, ◌≤◌, ◌<◌, ◌≡◌, refl, arith, ◌⊎◌, true, false, none, some}
use puic.Prelude.{List, [], ◌∷◌, ◌++◌, map, length, replicate, reverse, take}
use puic.Wire.Bytes.{le_bytes}
use puic.Wire.Ufloat.{normalise, to_ufloat16, from_ufloat16, max_value}
use puic.Wire.Ufloat.Rounding.{ufloat16_rounds_down, to-from_ufloat16}
use puic.Wire.Writer.{network_byte_order, host_byte_order, data_writer, DataWriter}
use puic.Wire.Writer.Append.{payload}
use puic.Wire.Writer.Append
use puic.Wire.Reader.{DataReader, data_reader, is_done_reading, read_bytes, read_bytes_to_uint64}
use puic.Wire.Fields.{
  Field, uint8, uint16, ufloat16, low_bytes, string_piece16, write_field, IsField,
}
use puic.Wire.Fields.{write_fields, read_fields, encoding, encodings, carried}
use puic.Wire.Fields.Write.{write_field_short}
use puic.Wire.Fields.RoundTrip.{wire_round_trip}
use puic.Wire.SessionId.{read_session_id, read_session_id_lem}

abbrev room : List ℕ
room = replicate 16 7

abbrev header : List Field
header = uint8 8 ∷ uint16 513 ∷ ufloat16 4097 ∷ low_bytes 3 66051 ∷ string_piece16 (9 ∷ 8 ∷ []) ∷ []

header_bytes :
    encodings network_byte_order header ≡ 8 ∷ 2 ∷ 1 ∷ 16 ∷ 0 ∷ 1 ∷ 2 ∷ 3 ∷ 0 ∷ 2 ∷ 9 ∷ 8 ∷ []
unfolding encodings encoding Append.ordered le_bytes to_ufloat16 normalise
header_bytes = refl

wire_round_trip_example :
    let (done, w) = write_fields (data_writer 16 room network_byte_order) header in
    let (got, r) = read_fields (data_reader (payload w) w.written network_byte_order) header in
    (done ≡ true) × (got ≡ some (map carried header)) × (is_done_reading r ≡ true)
wire_round_trip_example =
    wire_round_trip network_byte_order 16 room header refl (omega arith)
      (unfold IsField in omega arith) (rw header_bytes (omega arith))

ufloat16_rounds_down_example :
    let r = from_ufloat16 (to_ufloat16 4099) in
    ((4099 < 2 ^ 12) × (r ≡ 4099))
    ⊎ ((2 ^ 12 ≤ 4099) × (4099 < max_value) × (r ≤ 4099) × ((4099 - r) * 2 ^ 11 ≤ 4099))
    ⊎ ((max_value ≤ 4099) × (r ≡ max_value))
ufloat16_rounds_down_example = ufloat16_rounds_down 4099

to-from_ufloat16_example : to_ufloat16 (from_ufloat16 40000) ≡ 40000
to-from_ufloat16_example = to-from_ufloat16 40000 (omega arith)

-- A writer of four bytes with three of them taken.
abbrev nearly_full : DataWriter
nearly_full = record {
  buffer = 1 ∷ 2 ∷ 3 ∷ 0 ∷ [];
  capacity = 4;
  written = 3;
  endianness = host_byte_order;
}

write_field_short_example :
    ((write_field nearly_full (uint16 5)).0 ≡ false)
    × Append.IsValid (write_field nearly_full (uint16 5)).1
    × (take 3 (payload (write_field nearly_full (uint16 5)).1) ≡ payload nearly_full)
write_field_short_example =
    write_field_short (uint16 5) (omega arith) (unfold IsField in omega arith)
      (unfold encoding Append.ordered le_bytes in omega arith)

abbrev three_bytes : DataReader
three_bytes = record { bytes = 1 ∷ 2 ∷ 3 ∷ []; size = 3; pos = 1; endianness = network_byte_order }

short_read : (read_bytes three_bytes 3).0 ≡ none
unfolding read_bytes
short_read = refl

-- A count that ReadBytesToUInt64 refuses does not stop the reads after it.
read_after_refusal :
    ((read_bytes_to_uint64 three_bytes 9).0 ≡ none)
    × ((read_bytes (read_bytes_to_uint64 three_bytes 9).1 1).0 ≡ some (2 ∷ []))
unfolding read_bytes_to_uint64 read_bytes
read_after_refusal = (refl, refl)

read_session_id_example :
    let packet : List ℕ = 12 ∷ (reverse (le_bytes 8 77) ++ (1 ∷ 2 ∷ [])) in
    read_session_id packet (length packet) ≡ 77
read_session_id_example =
    read_session_id_lem 12 77 (1 ∷ 2 ∷ []) (omega arith) (unfold le_bytes in omega arith)
