-- ===== src/Sequencer/Address.antt =====
-- Where an offset of the stream lies in the circular buffer.
use puic.Prelude.{
  ℕ, ap, ◌+◌, ◌-◌, ◌*◌, ◌/◌, ◌%◌, ◌≤◌, ◌<◌, ◌≡◌, sym, arith, ◌⊎◌, inl, inr, ◌∙◌, Bool-cases,
}
use puic.Prelude.{ltb, ltb→lt, ltb_false→le, min}
use puic.Sequencer.{
  get_block_index, get_in_block_offset, get_block_capacity, blocks_count, block_size_bytes,
}
use native.Mathlib.Nat.{mod_self, mod-add-mod, mod-eq_of_lt, mod-eq-sub-mod}

-- Within one round of the buffer an offset is `d` places behind another, or wraps once.
pub wrap-cases :
    (cap r d : ℕ) → d < cap → ((r + d) % cap ≡ r % cap + d) ⊎ ((r + d) % cap + cap ≡ r % cap + d)
wrap-cases cap r d h = elim (Bool-cases (ltb (r % cap + d) cap)) [
  | inl t ↦ inl (sym (mod-add-mod r cap d) ∙ mod-eq_of_lt (ltb→lt _ _ t))
  | inr f ↦ inr (
      let e : (r + d) % cap ≡ r % cap + d - cap =
        sym (mod-add-mod r cap d)
        ∙ mod-eq-sub-mod (ltb_false→le _ _ f)
        ∙ mod-eq_of_lt (omega arith) in
      omega (arith, e, ltb_false→le _ _ f))
]

-- The same for any two offsets of one round.
pub round-cases :
    (cap r x : ℕ)
    → r ≤ x
    → x < r + cap
    → (x % cap + r ≡ r % cap + x) ⊎ (x % cap + cap + r ≡ r % cap + x)
round-cases cap r x h k =
    let e : r + (x - r) ≡ x = omega arith in
    let f : (r + (x - r)) % cap ≡ x % cap = ap (λ z. z % cap) e in
    elim (wrap-cases cap r (x - r) (omega arith)) [
      | inl w ↦ inl (omega (arith, sym f ∙ w))
      | inr w ↦ inr (omega (arith, ap (λ z. z + cap) (sym f) ∙ w))
    ]

pub capacity_lem :
    (cap a : ℕ)
    → a < cap
    → get_block_capacity cap (a / block_size_bytes)
      ≡ min block_size_bytes (cap - block_size_bytes * (a / block_size_bytes))
unfolding get_block_capacity blocks_count
capacity_lem cap a h = ground arith

pub index-bound : (cap o : ℕ) → 0 < cap → get_block_index cap o < blocks_count cap
unfolding get_block_index blocks_count
index-bound cap o h = omega arith

-- The bytes up to the end of a block lie one behind the other.
pub run_in_block :
    (cap o n x : ℕ)
    → get_in_block_offset cap o + n ≤ get_block_capacity cap (get_block_index cap o)
    → 0 < cap
    → o ≤ x
    → x < o + n
    → (get_block_index cap x ≡ get_block_index cap o)
      × (get_in_block_offset cap x ≡ get_in_block_offset cap o + (x - o))
unfolding get_block_index get_in_block_offset
run_in_block cap o n x h p l u =
    let k : get_block_capacity cap (get_block_index cap o)
        ≡ min block_size_bytes (cap - block_size_bytes * ((o % cap) / block_size_bytes)) =
      unfold get_block_index in capacity_lem cap (o % cap) (omega arith) in
    elim (round-cases cap o x l (omega (arith, k, h))) [
      | inl w ↦ (omega (arith, k, h, w), omega (arith, k, h, w))
      | inr w ↦ absurd (omega (arith, k, h, w))
    ]

-- In one round of the buffer no two offsets share a byte.
pub same_place :
    (cap base x y : ℕ)
    → base ≤ x
    → x < base + cap
    → base ≤ y
    → y < base + cap
    → get_block_index cap x ≡ get_block_index cap y
    → get_in_block_offset cap x ≡ get_in_block_offset cap y
    → x ≡ y
unfolding get_block_index get_in_block_offset
same_place cap base x y a b c d i o = elim (round-cases cap base x a b) [
  | inl u ↦ elim (round-cases cap base y c d) [
    | inl v ↦ omega (arith, i, o, u, v)
    | inr v ↦ omega (arith, i, o, u, v)
  ]
  | inr u ↦ elim (round-cases cap base y c d) [
    | inl v ↦ omega (arith, i, o, u, v)
    | inr v ↦ omega (arith, i, o, u, v)
  ]
]

-- Of two offsets in one block and one round, the places differ as the offsets do.
pub same_block :
    (cap o e : ℕ)
    → o ≤ e
    → e < o + cap
    → get_block_index cap o ≡ get_block_index cap e
    → get_in_block_offset cap o ≤ get_in_block_offset cap e
    → get_in_block_offset cap e ≡ get_in_block_offset cap o + (e - o)
unfolding get_block_index get_in_block_offset
same_block cap o e a b i l = elim (round-cases cap o e a b) [
  | inl u ↦ omega (arith, u, i, l)
  | inr u ↦ absurd (omega (arith, u, i, l))
]

-- Where a block ends, the next one starts, and the first after the last.
pub next_index :
    (cap o n : ℕ)
    → block_size_bytes < cap
    → 0 < n
    → get_in_block_offset cap o + n ≡ get_block_capacity cap (get_block_index cap o)
    → (get_in_block_offset cap (o + n) ≡ 0)
      × (get_block_index cap (o + n) ≡ (get_block_index cap o + 1) % blocks_count cap)
unfolding get_block_index get_in_block_offset blocks_count
next_index cap o n l p h =
    let k = capacity_lem cap (o % cap) (omega arith) in
    let m : ℕ = (cap + block_size_bytes - 1) / block_size_bytes in
    let i : ℕ = (o % cap) / block_size_bytes in
    elim (round-cases cap o (o + n) (omega arith) (omega (arith, h, k))) [
      | inl u ↦ (
        omega (arith, u, h, k, p),
        omega (arith, u, h, k, l, p, mod-eq_of_lt {n = i + 1} {m = m} (omega (arith, u, h, k, p))),
      )
      | inr u ↦
          let e : i + 1 ≡ m = omega (arith, u, h, k, l, p) in
          (omega (arith, u, h, k, p), omega (arith, u, h, k, l, p, ap (λ j. j % m) e ∙ mod_self m))
    ]
