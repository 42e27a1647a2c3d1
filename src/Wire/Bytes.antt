-- ===== src/Wire/Bytes.antt =====
-- How an integer lies in memory on a little-endian host, and the byte swaps of QuicEndian
-- (puicbase/base/sys_byteorder.h, puicbase/net/quic/platform/impl/quic_endian_impl.h).
use puic.Prelude.{ℕ, zero, suc, ◌+◌, ◌*◌, ◌/◌, ◌%◌, ◌^◌, ◌<◌, ◌≡◌, refl, sym, ap, ap₂, ◌∙◌, arith}
use puic.Prelude.{List, [], ◌∷◌, ◌++◌, reverse, replicate, length, length-reverse, All, All-append}
use mathlib.Core.List.{reverse-append, reverse-reverse}
use native.Mathlib.Nat.{pow-suc}

abbrev pub IsByte : ℕ → Type 0
IsByte b = b < 256

-- The `n` bytes of an integer, lowest first.
unfoldable pub le_bytes : ℕ → ℕ → List ℕ
le_bytes zero v = []
le_bytes (suc n) v = (v % 256) ∷ le_bytes n (v / 256)

-- The integer that lies at such bytes.
unfoldable pub from_le : List ℕ → ℕ
from_le [] = 0
from_le (b ∷ bs) = b + 256 * from_le bs

-- ByteSwap of an integer of `n` bytes.
unfoldable pub byte_swap : ℕ → ℕ → ℕ
byte_swap n v = from_le (reverse (le_bytes n v))

pub length-le_bytes : (n v : ℕ) → length (le_bytes n v) ≡ n
unfolding le_bytes
length-le_bytes zero v = refl
length-le_bytes (suc n) v = ap suc (length-le_bytes n (v / 256))

pub le_bytes-IsByte : (n v : ℕ) → All IsByte (le_bytes n v)
unfolding le_bytes
le_bytes-IsByte zero v = tt
le_bytes-IsByte (suc n) v = (omega arith, le_bytes-IsByte n (v / 256))

pub from_le-le_bytes : (n v : ℕ) → v < 256 ^ n → from_le (le_bytes n v) ≡ v
unfolding le_bytes from_le
from_le-le_bytes zero v h = omega arith
from_le-le_bytes (suc n) v h =
    omega (arith, from_le-le_bytes n (v / 256) (omega (arith, pow-suc 256 n)))

pub le_bytes-from_le : (bs : List ℕ) → All IsByte bs → le_bytes (length bs) (from_le bs) ≡ bs
unfolding le_bytes from_le
le_bytes-from_le [] h = refl
le_bytes-from_le (b ∷ bs) (hb, h) =
    ap₂ ◌∷◌ (omega arith) (ap (le_bytes (length bs)) (omega arith) ∙ le_bytes-from_le bs h)

pub All-reverse : (bs : List ℕ) → All IsByte bs → All IsByte (reverse bs)
All-reverse [] h = tt
All-reverse (b ∷ bs) (hb, h) =
    rw (reverse-append (b ∷ []) bs)
      (All-append IsByte (reverse bs) (b ∷ []) (All-reverse bs h) (hb, tt))

-- A swapped integer lies in memory backwards.
pub le_bytes-byte_swap : (n v : ℕ) → le_bytes n (byte_swap n v) ≡ reverse (le_bytes n v)
unfolding byte_swap
le_bytes-byte_swap n v =
    ap (λ k. le_bytes k (from_le (reverse (le_bytes n v))))
      (sym (length-reverse (le_bytes n v) ∙ length-le_bytes n v))
    ∙ le_bytes-from_le (reverse (le_bytes n v)) (All-reverse (le_bytes n v) (le_bytes-IsByte n v))

-- Swapping twice gives the integer back.
pub byte_swap-byte_swap : (n v : ℕ) → v < 256 ^ n → byte_swap n (byte_swap n v) ≡ v
byte_swap-byte_swap n v h =
    unfold byte_swap in
    (ap (λ bs. from_le (reverse bs)) (le_bytes-byte_swap n v)
      ∙ ap from_le (reverse-reverse (le_bytes n v))
      ∙ from_le-le_bytes n v h)

-- The first `a` bytes of a wider integer are those of its lowest `a` bytes.
pub le_bytes-split :
    (a b v : ℕ) → (rest : List ℕ) × (le_bytes (a + b) v ≡ le_bytes a v ++ rest) × (length rest ≡ b)
unfolding le_bytes
le_bytes-split zero b v =
    let e : 0 + b ≡ b = omega arith in (le_bytes b v, ap (λ n. le_bytes n v) e, length-le_bytes b v)
le_bytes-split (suc a) b v =
    let (rest, same, size) = le_bytes-split a b (v / 256) in
    let e : suc a + b ≡ suc (a + b) = omega arith in
    (rest, ap (λ n. le_bytes n v) e ∙ ap (λ bs. (v % 256) ∷ bs) same, size)

pub from_le-zeros : (bs : List ℕ) (n : ℕ) → from_le (bs ++ replicate n 0) ≡ from_le bs
unfolding from_le
from_le-zeros [] zero = refl
from_le-zeros [] (suc n) = omega (arith, from_le-zeros [] n)
from_le-zeros (b ∷ bs) n = omega (arith, from_le-zeros bs n)
