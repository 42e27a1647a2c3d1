-- ===== src/Wire/Fields/RoundTrip.antt =====
-- What was written is read back.
use puic.Prelude.{ℕ, ◌≤◌, ◌≡◌, refl, sym, ◌∙◌, arith}
use puic.Prelude.{true, some, List, [], ◌∷◌, ◌++◌, append-nil}
use puic.Prelude.{map, IsU64, append_assoc, length, All}
use puic.Wire.Bytes.{}
use puic.Wire.Writer.{Endianness, data_writer, DataWriter}
use puic.Wire.Writer.Append.{payload, length-payload, Appends}
use puic.Wire.Reader.{DataReader, data_reader, is_done_reading}
use puic.Wire.Reader.Consume.{IsValid, remaining, is_done_reading_of_empty, Consumes}
use puic.Wire.Fields.{Field}
use puic.Wire.Fields.{IsField, write_fields}
use puic.Wire.Fields.{read_field, read_fields, encoding, encodings, carried}
use mathlib.Core.Path.{subst}
use puic.Wire.Fields.Sequence.{write_fields-Appends}
use puic.Wire.Fields.Read.{read_field-Consumes}

-- Fields that stand one behind the other are read in that order.
pub read_fields-Consumes :
    (e : Endianness) (fs : List Field) (rest : List ℕ) (r : DataReader)
    → r.endianness ≡ e
    → IsValid r
    → All IsField fs
    → remaining r ≡ encodings e fs ++ rest
    → Consumes r (List Field) (map carried fs) rest (read_fields r fs)
unfolding read_fields encodings
read_fields-Consumes e [] rest r o v h q = record {
  done = refl;
  valid = v;
  left = q;
  same_order = refl;
}
read_fields-Consumes e (f ∷ fs) rest r o v (hf, h) q =
    let front : remaining r ≡ encoding r.endianness f ++ (encodings e fs ++ rest) =
      subst (λ d. remaining r ≡ encoding d f ++ (encodings e fs ++ rest)) (sym o)
        (q ∙ append_assoc (encoding e f) (encodings e fs) rest) in
    let head : Consumes r Field (carried f) (encodings e fs ++ rest) (read_field r f) =
      read_field-Consumes f (encodings e fs ++ rest) v hf front in
    let next : Consumes (read_field r f).1 (List Field) (map carried fs) rest
        (read_fields (read_field r f).1 fs) =
      read_fields-Consumes e fs rest (read_field r f).1 (head.same_order ∙ o) head.valid h
        head.left in
    ground (arith, head, next)

-- Fields that fit into a buffer are written, and a reader of what was written gets them back in
-- order, floats rounded, and is then done.
pub wire_round_trip :
    (e : Endianness) (size : ℕ) (buffer : List ℕ) (fs : List Field)
    → length buffer ≡ size
    → IsU64 size
    → All IsField fs
    → length (encodings e fs) ≤ size
    → let (done, w) = write_fields (data_writer size buffer e) fs in
      let (got, r) = read_fields (data_reader (payload w) w.written e) fs in
      (done ≡ true) × (got ≡ some (map carried fs)) × (is_done_reading r ≡ true)
unfolding data_writer data_reader
wire_round_trip e size buffer fs same_size bound h fits =
    (wrote.done, got.done, is_done_reading_of_empty got.valid got.left)
  where
    fresh : DataWriter
    fresh = data_writer size buffer e

    w : DataWriter
    w = (write_fields fresh fs).1

    wrote : Appends fresh (encodings e fs) (write_fields fresh fs)
    wrote = write_fields-Appends e fs fresh refl (omega arith) h (omega arith)

    start : DataReader
    start = data_reader (payload w) w.written e

    got : Consumes start (List Field) (map carried fs) [] (read_fields start fs)
    got =
        read_fields-Consumes e fs [] start refl
          (record {
            allocated = length-payload wrote.valid;
            within = omega arith;
            addressable = omega (arith, wrote.valid.within, wrote.same_capacity);
          })
          h
          (unfold remaining in (wrote.grown ∙ unfold payload in sym (append-nil (encodings e fs))))
