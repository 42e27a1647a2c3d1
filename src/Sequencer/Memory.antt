-- ===== src/Sequencer/Memory.antt =====
-- What the blocks of the buffer hold: bytes of the stream that the peer sends.
use puic.Prelude.{
  ℕ, zero, suc, ◌+◌, ◌-◌, ◌≤◌, ◌<◌, ◌≡◌, refl, sym, ap, ap₂, arith, ◌∙◌, inl, inr, ◌⊎◌, Bool-cases,
  Bool, true, false,
}
use puic.Prelude.{ltb, leb, ◌&&◌, ◌||◌, ◌==◌, List, ◌∷◌, length, take, drop, get_or}
use puic.Prelude.{some}
use puic.Sequencer.{Blocks, get_block_index, get_in_block_offset, get_block_capacity}
use puic.Sequencer.Write.{copy_into, block_or_new, write_block}
use puic.Sequencer.Read.{is_null, copy_from}
use puic.Sequencer.Address.{run_in_block, same_place}

pub length-copy_from : (buffer : ℕ → ℕ) (start n : ℕ) → length (copy_from buffer start n) ≡ n
length-copy_from buffer start zero = refl
length-copy_from buffer start (suc n) = omega (arith, length-copy_from buffer (start + 1) n)

pub get_or-copy_from :
    (buffer : ℕ → ℕ) (start n i : ℕ)
    → i < n
    → get_or (copy_from buffer start n) i 0 ≡ buffer (start + i)
get_or-copy_from buffer start zero i h = absurd (omega arith)
get_or-copy_from buffer start (suc n) zero h = ap buffer (omega arith)
get_or-copy_from buffer start (suc n) (suc i) h =
    get_or-copy_from buffer (start + 1) n i (omega arith) ∙ ap buffer (omega arith)

pub take-copy_from :
    (buffer : ℕ → ℕ) (start n m : ℕ)
    → m ≤ n
    → take m (copy_from buffer start n) ≡ copy_from buffer start m
take-copy_from buffer start n zero h = refl
take-copy_from buffer start zero (suc m) h = absurd (omega arith)
take-copy_from buffer start (suc n) (suc m) h =
    ap (λ xs. buffer start ∷ xs) (take-copy_from buffer (start + 1) n m (omega arith))

pub drop-copy_from :
    (buffer : ℕ → ℕ) (start n m : ℕ)
    → m ≤ n
    → drop m (copy_from buffer start n) ≡ copy_from buffer (start + m) (n - m)
drop-copy_from buffer start n zero h = ap₂ (copy_from buffer) (omega arith) (omega arith)
drop-copy_from buffer start zero (suc m) h = absurd (omega arith)
drop-copy_from buffer start (suc n) (suc m) h =
    drop-copy_from buffer (start + 1) n m (omega arith)
    ∙ ap₂ (copy_from buffer) (omega arith) (omega arith)

module _ (buffer : ℕ → ℕ) (start : ℕ) (stream : ℕ → ℕ) (offset n i : ℕ) where
  copy_into-inside :
      start ≤ i
      → i < start + n
      → copy_into buffer start (copy_from stream offset n) i ≡ stream (offset + (i - start))
  copy_into-inside h k =
      rw (length-copy_from stream offset n)
        (ground (arith, h, k, get_or-copy_from stream offset n (i - start) (omega (arith, h, k))))

  copy_into-outside :
      (leb start i && ltb i (start + n)) ≡ false
      → copy_into buffer start (copy_from stream offset n) i ≡ buffer i
  copy_into-outside h = rw (length-copy_from stream offset n) (rw h refl)

module _ (cap : ℕ) (blocks : Blocks) (offset : ℕ) (bytes : List ℕ) (x : ℕ) where
  write_block-same :
      get_block_index cap x ≡ get_block_index cap offset
      → write_block cap blocks offset bytes (get_block_index cap x)
        ≡ some (
            copy_into
              (block_or_new (blocks (get_block_index cap offset)))
              (get_in_block_offset cap offset)
              bytes)
  unfolding write_block
  write_block-same e = ground (arith, e)

  write_block-other :
      (get_block_index cap x == get_block_index cap offset) ≡ false
      → write_block cap blocks offset bytes (get_block_index cap x) ≡ blocks (get_block_index cap x)
  unfolding write_block
  write_block-other e = rw e refl

-- The offsets in `held` have their bytes of the stream.
abbrev pub Holds : ℕ → (ℕ → ℕ) → Blocks → (ℕ → Bool) → Type 0
Holds cap stream blocks held =
    (x : ℕ)
    → held x ≡ true
    → (is_null (blocks (get_block_index cap x)) ≡ false)
      × (block_or_new (blocks (get_block_index cap x)) (get_in_block_offset cap x) ≡ stream x)

-- The offsets in `held` are in one round of the buffer.
abbrev pub InRound : ℕ → ℕ → (ℕ → Bool) → Type 0
InRound cap base held = (x : ℕ) → held x ≡ true → (base ≤ x) × (x < base + cap)

abbrev pub in_range : ℕ → ℕ → ℕ → Bool
in_range start n x = leb start x && ltb x (start + n)

module _ (cap base : ℕ) (stream : ℕ → ℕ) (held : ℕ → Bool) (w : InRound cap base held) where
  -- A byte of the block outside the bytes written is none of the offsets written.
  outside_region :
      (offset n x : ℕ)
      → base ≤ offset
      → offset + n ≤ base + cap
      → get_in_block_offset cap offset + n ≤ get_block_capacity cap (get_block_index cap offset)
      → base ≤ x
      → x < base + cap
      → get_block_index cap x ≡ get_block_index cap offset
      → in_range offset n x ≡ false
      → in_range (get_in_block_offset cap offset) n (get_in_block_offset cap x) ≡ false
  outside_region offset n x a b c d u e f =
      let start : ℕ = get_in_block_offset cap offset in
      let i : ℕ = get_in_block_offset cap x in
      elim (Bool-cases (in_range start n i)) [
        | inl t ↦
            let l : start ≤ i = ground (arith, t) in
            let m : i < start + n = ground (arith, t) in
            let y : ℕ = offset + (i - start) in
            let (g, k) =
              run_in_block cap offset n y c (omega (arith, d, u)) (omega arith)
                (omega (arith, l, m)) in
            let s : x ≡ y =
              same_place cap base x y d u (omega (arith, a)) (omega (arith, b, l, m)) (e ∙ sym g)
                (omega (arith, k, l)) in
            absurd (ground (arith, s, f, l, m))
        | inr g ↦ g
      ]

  pub write_block-Holds :
      (blocks : Blocks) (offset n : ℕ)
      → Holds cap stream blocks held
      → base ≤ offset
      → offset + n ≤ base + cap
      → 0 < n
      → get_in_block_offset cap offset + n ≤ get_block_capacity cap (get_block_index cap offset)
      → Holds cap stream
          (write_block cap blocks offset (copy_from stream offset n))
          (λ x. held x || in_range offset n x)
  write_block-Holds blocks offset n h a b p c x hx =
      let inside : (held x ≡ true) ⊎ (in_range offset n x ≡ true) = ground arith in
      let win : (base ≤ x) × (x < base + cap) = elim (inside) [
        | inl t ↦ w x t
        | inr t ↦ ground arith
      ] in
      let bytes : List ℕ = copy_from stream offset n in
      let old : ℕ → ℕ = block_or_new (blocks (get_block_index cap offset)) in
      let start : ℕ = get_in_block_offset cap offset in
      elim (Bool-cases (in_range offset n x)) [
        | inl t ↦
            let (e, f) =
              run_in_block cap offset n x c (omega (arith, win)) (ground (arith, t))
                (ground (arith, t)) in
            rw (write_block-same cap blocks offset bytes x e) (
              refl,
              copy_into-inside old start stream offset n _ (omega (arith, f)) (ground (arith, f, t))
                  ∙ ap stream (ground (arith, f, t)),
            )
        | inr f ↦ elim (Bool-cases (get_block_index cap x == get_block_index cap offset)) [
          | inl e ↦ rw (write_block-same cap blocks offset bytes x (ground (arith, e))) (
            refl,
            copy_into-outside old start stream offset n _
                  (outside_region offset n x a b c win.0 win.1 (ground (arith, e)) f)
                ∙ ap (λ i. block_or_new (blocks i) (get_in_block_offset cap x)) (ground (arith, e))
                ∙ (h x (ground (arith, f, hx))).1,
          )
          | inr e ↦ rw (write_block-other cap blocks offset bytes x e) (h x (ground (arith, f, hx)))
        ]
      ]
