-- ===== src/Sequencer/Retire.antt =====
-- RetireBlockIfEmpty frees no block that a byte still waits in.
use puic.Prelude.{ℕ, ◌+◌, ◌-◌, ◌%◌, ◌≤◌, ◌<◌, ◌≡◌, arith, inl, inr, ◌⊎◌, Bool-cases, false}
use puic.Prelude.{◌==◌}
use puic.Sequencer.{get_block_index, get_in_block_offset, get_block_capacity, block_size_bytes}
use puic.Sequencer.Address.{round-cases, capacity_lem}

-- `p` was read last, `x` still waits and lies in its block, and so does the last byte received: the
-- data has come round to the block.
came_round :
    (cap p x e : ℕ)
    → p < x
    → x < e
    → e ≤ p + cap
    → x % cap + cap + p ≡ p % cap + x
    → get_block_index cap x ≡ get_block_index cap p
    → get_block_index cap (e - 1) ≡ get_block_index cap p
unfolding get_block_index
came_round cap p x e a b c w i = elim (round-cases cap p (e - 1) (omega arith) (omega arith)) [
  | inl u ↦ absurd (omega (arith, u, w))
  | inr u ↦ omega (arith, u, w, i)
]

-- Either the next byte to read is in another block, or a gap comes first that ends in another block.
pub no_byte_left :
    (cap p x e end : ℕ)
    → p < x
    → x < e
    → e ≤ p + cap
    → (get_block_index cap (e - 1) == get_block_index cap p) ≡ false
    → ((get_block_index cap (p + 1) == get_block_index cap p) ≡ false)
      ⊎ ((p < end) × (end ≤ x) × ((get_block_index cap end == get_block_index cap p) ≡ false))
    → (get_block_index cap x == get_block_index cap p) ≡ false
unfolding get_block_index
no_byte_left cap p x e end a b c d f =
    elim (Bool-cases (get_block_index cap x == get_block_index cap p)) [
      | inr g ↦ g
      | inl t ↦ elim (round-cases cap p x (omega arith) (omega arith)) [
        | inr w ↦ absurd (ground (arith, d, came_round cap p x e a b c w (ground (arith, t))))
        | inl w ↦ elim (f) [
          | inl g ↦ elim (round-cases cap p (p + 1) (omega arith) (omega arith)) [
            | inl u ↦ absurd (ground (arith, u, w, t, g, a))
            | inr u ↦ absurd (omega (arith, u, w, a))
          ]
          | inr (k, l, g) ↦ elim (round-cases cap p end (omega arith) (omega arith)) [
            | inl u ↦ absurd (ground (arith, u, w, t, g, k, l))
            | inr u ↦ absurd (omega (arith, u, w, k, l))
          ]
        ]
      ]
    ]

-- Behind the end of a block another one starts.
pub next_block :
    (cap o n : ℕ)
    → block_size_bytes < cap
    → 0 < n
    → get_in_block_offset cap o + n ≡ get_block_capacity cap (get_block_index cap o)
    → (get_block_index cap (o + n) == get_block_index cap o) ≡ false
unfolding get_block_index get_in_block_offset
next_block cap o n l p h =
    let k = capacity_lem cap (o % cap) (omega arith) in
    elim (round-cases cap o (o + n) (omega arith) (omega (arith, h, k))) [
      | inl u ↦ ground (arith, u, h, k, l, p)
      | inr u ↦ ground (arith, u, h, k, l, p)
    ]
