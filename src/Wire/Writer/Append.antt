-- ===== src/Wire/Writer/Append.antt =====
-- The writer as a list of bytes that grows: what each write of `quic_data_writer.cc` appends.
use puic.Prelude.{ℕ, ◌+◌, ◌-◌, ◌≤◌, ◌<◌, ◌≡◌, refl, sym, ap, ◌∙◌, arith, IsU64}
use puic.Prelude.{Bool, true, false, List, [], ◌++◌, reverse, length, take, drop}
use puic.Prelude.{
  length-append, length-take, length-reverse, take-length_append, drop-length_append,
}
use puic.Wire.Bytes.{le_bytes, byte_swap, length-le_bytes, le_bytes-byte_swap, le_bytes-split}
use puic.Wire.Memory.{length-overwrite, take-overwrite}
use puic.Wire.Writer.{Endianness, network_byte_order, host_byte_order, DataWriter}
use puic.Wire.Writer.{write_bytes, host_to_net, uint64_part}
use mathlib.Core.List.{append-nil, append_assoc, reverse-append}

-- The buffer is as long as the writer believes, and what is written lies in it.
pub record IsValid (w : DataWriter) : Type 0 where
  pub allocated : length w.buffer ≡ w.capacity
  pub within : w.written ≤ w.capacity
  pub addressable : IsU64 w.capacity

-- What has been written.
unfoldable pub payload : DataWriter → List ℕ
payload w = take w.written w.buffer

pub length-payload : {w : DataWriter} → IsValid w → length (payload w) ≡ w.written
unfolding payload
length-payload {w} v = omega (arith, length-take w.written w.buffer)

-- The result of a write that appends `bytes`.
pub record Appends (w : DataWriter) (bytes : List ℕ) (result : Bool × DataWriter) : Type 0 where
  pub done : result.0 ≡ true
  pub valid : IsValid result.1
  pub grown : payload result.1 ≡ payload w ++ bytes
  pub moved : result.1.written ≡ w.written + length bytes
  pub same_capacity : result.1.capacity ≡ w.capacity
  pub same_order : result.1.endianness ≡ w.endianness

pub write_bytes-Appends :
    {w : DataWriter} (bytes : List ℕ)
    → IsValid w
    → w.written + length bytes ≤ w.capacity
    → Appends w bytes (write_bytes w bytes)
unfolding write_bytes payload
write_bytes-Appends {w} bytes v h =
    ground
      (arith, length-overwrite w.buffer w.written bytes, take-overwrite w.buffer w.written bytes)

pub write_bytes_full :
    (w : DataWriter) (bytes : List ℕ)
    → w.written ≤ w.capacity
    → w.capacity < w.written + length bytes
    → write_bytes w bytes ≡ (false, w)
unfolding write_bytes
write_bytes_full w bytes v h = ground arith

-- The bytes of an integer in the order of the wire.
unfoldable pub ordered : Endianness → ℕ → ℕ → List ℕ
ordered network_byte_order n v = reverse (le_bytes n v)
ordered host_byte_order n v = le_bytes n v

pub length-ordered : (e : Endianness) (n v : ℕ) → length (ordered e n v) ≡ n
unfolding ordered
length-ordered network_byte_order n v = length-reverse (le_bytes n v) ∙ length-le_bytes n v
length-ordered host_byte_order n v = length-le_bytes n v

pub le_bytes-host_to_net :
    (e : Endianness) (n v : ℕ) → le_bytes n (host_to_net e n v) ≡ ordered e n v
unfolding ordered host_to_net
le_bytes-host_to_net network_byte_order n v = le_bytes-byte_swap n v
le_bytes-host_to_net host_byte_order n v = refl

take_all {ℓ} : {A : Type ℓ} (n : ℕ) (xs : List A) → length xs ≡ n → take n xs ≡ xs
take_all n xs e =
    ap (take n) (sym (append-nil xs))
    ∙ ap (λ k. take k (xs ++ [])) (sym e)
    ∙ take-length_append xs []

-- The lowest bytes of a uint64_t, as WriteBytesToUInt64 cuts them out of it.
low_bytes_host : (n v : ℕ) → n ≤ 8 → take n (le_bytes 8 v) ≡ le_bytes n v
low_bytes_host n v h =
    let (rest, same, size) = le_bytes-split n (8 - n) v in
    let e : 8 ≡ n + (8 - n) = omega arith in
    ap (λ k. take n (le_bytes k v)) e
    ∙ ap (take n) same
    ∙ ap (λ k. take k (le_bytes n v ++ rest)) (sym (length-le_bytes n v))
    ∙ take-length_append (le_bytes n v) rest

low_bytes_network :
    (n v : ℕ) → n ≤ 8 → take n (drop (8 - n) (le_bytes 8 (byte_swap 8 v))) ≡ reverse (le_bytes n v)
low_bytes_network n v h =
    let (rest, same, size) = le_bytes-split n (8 - n) v in
    let e : 8 ≡ n + (8 - n) = omega arith in
    let cut : length (reverse rest) ≡ 8 - n = length-reverse rest ∙ size in
    let whole : le_bytes 8 v ≡ le_bytes n v ++ rest = ap (λ k. le_bytes k v) e ∙ same in
    ap (λ bs. take n (drop (8 - n) bs))
      (le_bytes-byte_swap 8 v ∙ ap reverse whole ∙ reverse-append (le_bytes n v) rest)
    ∙ ap (λ k. take n (drop k (reverse rest ++ reverse (le_bytes n v)))) (sym cut)
    ∙ ap (take n) (drop-length_append (reverse rest) (reverse (le_bytes n v)))
    ∙ take_all n (reverse (le_bytes n v)) (length-reverse (le_bytes n v) ∙ length-le_bytes n v)

pub uint64_part-ordered : (e : Endianness) (n v : ℕ) → n ≤ 8 → uint64_part e n v ≡ ordered e n v
unfolding uint64_part ordered
uint64_part-ordered host_byte_order n v h = low_bytes_host n v h
uint64_part-ordered network_byte_order n v h = low_bytes_network n v h

pub Appends-trans :
    {w : DataWriter} {a b : List ℕ} (first second : Bool × DataWriter)
    → Appends w a first
    → Appends first.1 b second
    → Appends w (a ++ b) second
Appends-trans {w} {a} {b} first second p q = record {
  done = q.done;
  valid = q.valid;
  grown = q.grown ∙ ap (λ t. t ++ b) p.grown ∙ append_assoc (payload w) a b;
  moved = omega (arith, p.moved, q.moved, length-append a b);
  same_capacity = q.same_capacity ∙ p.same_capacity;
  same_order = q.same_order ∙ p.same_order;
}
