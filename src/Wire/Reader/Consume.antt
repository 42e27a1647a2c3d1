-- ===== src/Wire/Reader/Consume.antt =====
-- The reader as a list of bytes that shrinks: what each read of `quic_data_reader.cc` consumes.
use puic.Prelude.{ℕ, ◌≤◌, ◌<◌, ◌≡◌, sym, ap, ◌∙◌, arith, IsU64}
use puic.Prelude.{true, List, [], ◌++◌, length, take, drop, Option, none, some}
use puic.Prelude.{length-drop, take-length_append, drop-length_append, length-append}
use puic.Wire.Memory.{drop-drop}
use puic.Wire.Reader.{DataReader, read_bytes, is_done_reading, bytes_remaining}

pub record IsValid (r : DataReader) : Type 0 where
  pub allocated : length r.bytes ≡ r.size
  pub within : r.pos ≤ r.size
  pub addressable : IsU64 r.size

-- What is still to be read.
unfoldable pub remaining : DataReader → List ℕ
remaining r = drop r.pos r.bytes

-- The result of a read that hands out `a` and leaves `rest`.
pub record Consumes (r : DataReader) (A : Type 0) (a : A) (rest : List ℕ)
    (result : Option A × DataReader) : Type 0 where
  pub done : result.0 ≡ some a
  pub valid : IsValid result.1
  pub left : remaining result.1 ≡ rest
  pub same_order : result.1.endianness ≡ r.endianness

pub length-remaining : {r : DataReader} → IsValid r → length (remaining r) ≡ bytes_remaining r
unfolding remaining bytes_remaining
length-remaining {r} v = omega (arith, length-drop r.pos r.bytes)

-- A read takes what stands at the front.
pub read_bytes-Consumes :
    {r : DataReader} (front rest : List ℕ)
    → IsValid r
    → remaining r ≡ front ++ rest
    → Consumes r (List ℕ) front rest (read_bytes r (length front))
unfolding read_bytes remaining
read_bytes-Consumes {r} front rest v e = ground (
  arith,
  length-drop r.pos r.bytes,
  ap length e,
  length-append front rest,
  ap (take (length front)) e ∙ take-length_append front rest,
  sym (drop-drop (length front) r.pos r.bytes)
      ∙ ap (drop (length front)) e
      ∙ drop-length_append front rest,
)

-- A read beyond the end fails, and leaves nothing to read.
pub read_bytes_short :
    {r : DataReader} (count : ℕ)
    → IsValid r
    → length (remaining r) < count
    → read_bytes r count ≡ (none, record r { pos = r.size })
unfolding read_bytes remaining
read_bytes_short {r} count v h = ground (arith, length-drop r.pos r.bytes)

-- A reader with nothing left knows it.
pub is_done_reading_of_empty :
    {r : DataReader} → IsValid r → remaining r ≡ [] → is_done_reading r ≡ true
unfolding remaining is_done_reading
is_done_reading_of_empty {r} v e = ground (arith, length-drop r.pos r.bytes, ap length e)

-- A failed read is final: no read of a byte or more succeeds after it.
pub read_bytes_after_failure :
    (r : DataReader) (m n : ℕ)
    → IsValid r
    → (read_bytes r m).0 ≡ none
    → 0 < n
    → (read_bytes (read_bytes r m).1 n).0 ≡ none
unfolding read_bytes
read_bytes_after_failure r m n v e h = ground arith
