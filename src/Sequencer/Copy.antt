-- ===== src/Sequencer/Copy.antt =====
-- CopyStreamData, block by block, writes all of the data and leaves the rest as it is.
use puic.Prelude.{
  ℕ, zero, suc, ◌+◌, ◌-◌, ◌%◌, ◌≤◌, ◌<◌, ◌≡◌, refl, arith, inl, inr, Bool-cases, Bool, true, false,
}
use puic.Prelude.{leb, ◌||◌, min}
use puic.Sequencer.{Blocks, get_block_index, get_in_block_offset, get_block_capacity, blocks_count}
use puic.Sequencer.Write.{bytes_avail, write_block, copy_stream_data}
use puic.Sequencer.Read.{copy_from}
use puic.Sequencer.Address.{capacity_lem, index-bound}
use puic.Sequencer.Memory.{
  Holds, InRound, in_range, write_block-Holds, length-copy_from, take-copy_from,
}
use puic.Sequencer.Memory.{drop-copy_from}

-- There is a byte free at least, and none behind the end of the block.
pub block_room :
    (cap o : ℕ)
    → 0 < cap
    → get_in_block_offset cap o < get_block_capacity cap (get_block_index cap o)
unfolding get_in_block_offset get_block_index
block_room cap o p = omega (arith, capacity_lem cap (o % cap) (omega arith))

bytes_avail_lem :
    (cap limit o : ℕ)
    → 0 < cap
    → o < limit
    → (0 < bytes_avail cap limit o)
      × (get_in_block_offset cap o + bytes_avail cap limit o
          ≤ get_block_capacity cap (get_block_index cap o))
unfolding bytes_avail
bytes_avail_lem cap limit o p h = ground (arith, block_room cap o p)

leb-index : (cap o : ℕ) → 0 < cap → leb (blocks_count cap) (get_block_index cap o) ≡ false
leb-index cap o p = ground (arith, index-bound cap o p)

-- A round of the loop writes as much as the block has room for.
copy_step :
    (fuel cap limit : ℕ) (stream : ℕ → ℕ) (blocks : Blocks) (offset n : ℕ)
    → 0 < cap
    → let k = min (bytes_avail cap limit offset) (suc n) in
      let r =
        copy_stream_data fuel cap limit
          (write_block cap blocks offset (copy_from stream offset k))
          (offset + k)
          (copy_from stream (offset + k) (suc n - k)) in
      copy_stream_data (suc fuel) cap limit blocks offset (copy_from stream offset (suc n))
      ≡ (r.0, k + r.1, r.2)
unfolding copy_stream_data
copy_step fuel cap limit stream blocks offset n p =
    let k : ℕ = min (bytes_avail cap limit offset) (suc n) in
    rw (leb-index cap offset p) (
      rw (length-copy_from stream (offset + 1) n) (
        rw (take-copy_from stream offset (suc n) k (omega arith))
          (rw (drop-copy_from stream offset (suc n) k (omega arith)) refl)))

pub InRound-more :
    (cap base : ℕ) (held : ℕ → Bool) (offset n : ℕ)
    → InRound cap base held
    → base ≤ offset
    → offset + n ≤ base + cap
    → InRound cap base (λ x. held x || in_range offset n x)
InRound-more cap base held offset n w a b x hx = elim (Bool-cases (held x)) [
  | inl t ↦ w x t
  | inr f ↦ ground (arith, f, hx)
]

in_range-split :
    (here : Bool) (offset k n x : ℕ)
    → k ≤ n
    → (here || in_range offset n x) ≡ true
    → ((here || in_range offset k x) || in_range (offset + k) (n - k) x) ≡ true
in_range-split true offset k n x l h = refl
in_range-split false offset k n x l h = ground (arith, h, l)

pub copy_stream_data-Holds :
    (fuel cap base : ℕ) (stream : ℕ → ℕ) (held : ℕ → Bool) (blocks : Blocks) (offset n : ℕ)
    → InRound cap base held
    → Holds cap stream blocks held
    → n ≤ fuel
    → base ≤ offset
    → offset + n ≤ base + cap
    → let r = copy_stream_data fuel cap (base + cap) blocks offset (copy_from stream offset n) in
      (r.0 ≡ true) × (r.1 ≡ n) × Holds cap stream r.2 (λ x. held x || in_range offset n x)
copy_stream_data-Holds fuel cap base stream held blocks offset zero w h f a b =
    unfold copy_stream_data in (refl, refl, λ x hx. h x (ground (arith, hx)))
copy_stream_data-Holds zero cap base stream held blocks offset (suc n) w h f a b =
    absurd (omega arith)
copy_stream_data-Holds (suc fuel) cap base stream held blocks offset (suc n) w h f a b =
    let k : ℕ = min (bytes_avail cap (base + cap) offset) (suc n) in
    let (p, q) = bytes_avail_lem cap (base + cap) offset (omega arith) (omega arith) in
    let first =
      write_block-Holds cap base stream held w blocks offset k h a (omega arith) (omega (arith, p))
        (omega (arith, q)) in
    let held' : ℕ → Bool = λ x. held x || in_range offset k x in
    let w' : InRound cap base held' = InRound-more cap base held offset k w a (omega arith) in
    let (t, c, g) =
      copy_stream_data-Holds fuel cap base stream held'
        (write_block cap blocks offset (copy_from stream offset k)) (offset + k) (suc n - k) w'
        first (omega (arith, p)) (omega (arith, a)) (omega arith) in
    rw (copy_step fuel cap (base + cap) stream blocks offset n (omega arith)) (
      t,
      omega (arith, c),
      λ x hx. g x (in_range-split (held x) offset k (suc n) x (omega arith) hx),
    )
