-- ===== src/Wire/Fields/Integers.antt =====
-- Integers in either byte order, written and read back.
use puic.Prelude.{ℕ, zero, suc, ◌-◌, ◌^◌, ◌≤◌, ◌<◌, ◌≡◌, refl, sym, ap, ap₂, ◌∙◌, arith}
use puic.Prelude.{List, [], ◌∷◌, ◌++◌}
use puic.Prelude.{length, reverse, replicate, All, length-append}
use puic.Wire.Bytes.{le_bytes, from_le, byte_swap, from_le-le_bytes, byte_swap-byte_swap}
use puic.Wire.Bytes.{length-le_bytes, from_le-zeros, IsByte, le_bytes-IsByte, All-reverse}
use puic.Wire.Bytes.{le_bytes-from_le}
use puic.Prelude.{length-reverse, All-append}
use mathlib.Core.List.{reverse-append, reverse-reverse}
use puic.Wire.Writer.{Endianness, network_byte_order, host_byte_order}
use puic.Wire.Writer.Append.{ordered, length-ordered}
use puic.Wire.Reader.{DataReader, net_to_host, place_bytes}
use puic.Wire.Reader.{read_bytes, read_uint}
use puic.Wire.Reader.Consume.{IsValid, remaining, Consumes, read_bytes-Consumes}
use mathlib.Core.Path.{subst}

pub from_le-reverse : (n v : ℕ) → v < 256 ^ n → byte_swap n (from_le (reverse (le_bytes n v))) ≡ v
unfolding byte_swap
from_le-reverse n v h = byte_swap-byte_swap n v h

-- An integer read in the order in which it was written.
net_to_host-ordered :
    (e : Endianness) (n v : ℕ) → v < 256 ^ n → net_to_host e n (from_le (ordered e n v)) ≡ v
unfolding net_to_host ordered
net_to_host-ordered network_byte_order n v h = from_le-reverse n v h
net_to_host-ordered host_byte_order n v h = from_le-le_bytes n v h

abbrev zeros : ℕ → List ℕ
zeros n = replicate n 0

length-zeros : (n : ℕ) → length (zeros n) ≡ n
length-zeros zero = refl
length-zeros (suc n) = ap suc (length-zeros n)

zeros-IsByte : (n : ℕ) → All IsByte (zeros n)
zeros-IsByte zero = tt
zeros-IsByte (suc n) = (omega arith, zeros-IsByte n)

zeros-snoc : (n : ℕ) → zeros n ++ (0 ∷ []) ≡ zeros (suc n)
zeros-snoc zero = refl
zeros-snoc (suc n) = ap (λ bs. 0 ∷ bs) (zeros-snoc n)

reverse-zeros : (n : ℕ) → reverse (zeros n) ≡ zeros n
reverse-zeros zero = refl
reverse-zeros (suc n) =
    reverse-append (0 ∷ []) (zeros n) ∙ ap (λ bs. bs ++ (0 ∷ [])) (reverse-zeros n) ∙ zeros-snoc n

pub place_bytes-ordered :
    (e : Endianness) (n v : ℕ) → n ≤ 8 → v < 256 ^ n → place_bytes e n (ordered e n v) ≡ v
unfolding place_bytes ordered byte_swap
place_bytes-ordered network_byte_order n v h k =
    ap (λ bs. from_le (reverse bs)) whole
    ∙ ap from_le (reverse-append front (reverse (le_bytes n v)))
    ∙ ap₂ (λ xs ys. from_le (xs ++ ys)) (reverse-reverse (le_bytes n v)) (reverse-zeros (8 - n))
    ∙ from_le-zeros (le_bytes n v) (8 - n)
    ∙ from_le-le_bytes n v k
  where
    front : List ℕ
    front = zeros (8 - n)

    size : length (front ++ reverse (le_bytes n v)) ≡ 8
    size = omega (
      arith,
      length-append front (reverse (le_bytes n v)),
      length-zeros (8 - n),
      length-reverse (le_bytes n v),
      length-le_bytes n v,
    )

    whole : le_bytes 8 (from_le (front ++ reverse (le_bytes n v))) ≡ front ++ reverse (le_bytes n v)
    whole =
        ap (λ m. le_bytes m (from_le (front ++ reverse (le_bytes n v)))) (sym size)
        ∙ le_bytes-from_le (front ++ reverse (le_bytes n v)) (
            All-append IsByte front (reverse (le_bytes n v)) (zeros-IsByte (8 - n))
              (All-reverse (le_bytes n v) (le_bytes-IsByte n v)))
place_bytes-ordered host_byte_order n v h k =
    from_le-zeros (le_bytes n v) (8 - n) ∙ from_le-le_bytes n v k

-- ReadBytes at `n` bytes that are at hand.
pub read_exact :
    {r : DataReader} (n : ℕ) (front rest : List ℕ)
    → IsValid r
    → length front ≡ n
    → remaining r ≡ front ++ rest
    → Consumes r (List ℕ) front rest (read_bytes r n)
read_exact {r} n front rest v e h =
    subst (λ k. Consumes r (List ℕ) front rest (read_bytes r k)) e
      (read_bytes-Consumes front rest v h)

pub read_ordered :
    {r : DataReader} (n v : ℕ) (rest : List ℕ)
    → IsValid r
    → v < 256 ^ n
    → remaining r ≡ ordered r.endianness n v ++ rest
    → Consumes r ℕ v rest (read_uint r n)
unfolding read_uint
read_ordered {r} n v rest i h e = ground (
  arith,
  read_exact n (ordered r.endianness n v) rest i (length-ordered r.endianness n v) e,
  net_to_host-ordered r.endianness n v h,
)
