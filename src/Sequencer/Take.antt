-- ===== src/Sequencer/Take.antt =====
-- One round of the loops of Readv and MarkConsumed: it takes the next bytes of the stream and keeps the
-- buffer valid.
use puic.Prelude.{
  ℕ, zero, suc, ◌+◌, ◌-◌, ◌^◌, ◌≤◌, ◌<◌, ◌≡◌, refl, sym, ap, ap₂, arith, ◌∙◌, inl, inr, ◌⊎◌, Bool,
  true, false,
}
use puic.Prelude.{◌==◌, if-cases, List, [], ◌∷◌, min}
use puic.Sequencer.{SequencerBuffer, Gap, front_gap}
use puic.Sequencer.{get_block_capacity, offset_max, readable_bytes}
use puic.Sequencer.Write.{block_or_new}
use puic.Sequencer.Read.{is_null, copy_from, next_block_to_read, read_offset}
use puic.Sequencer.Read.{take_from_block, advance, available_in_block}
use puic.Sequencer.Address.{run_in_block}
use puic.Sequencer.Copy.{block_room}
use puic.Sequencer.Gaps.{IsChain, in_gaps, in_gaps-below, back-StartBy, StartBy, IsChain-le}
use puic.Sequencer.Receive.{IsValid, held}
use puic.Sequencer.Retire.{next_block}
use puic.Sequencer.Retired.{Keeps, retire_block_if_empty-Keeps}

front-le :
    (gs : List Gap) (lo : ℕ) → IsChain gs lo → lo ≤ offset_max → lo ≤ (front_gap gs).begin_offset
unfolding IsChain
front-le [] lo c l = absurd (omega arith)
front-le (g ∷ gs) lo c l = c.0

front-u64 : (gs : List Gap) (lo : ℕ) → IsChain gs lo → (front_gap gs).begin_offset ≤ offset_max
unfolding IsChain
front-u64 [] lo c = omega arith
front-u64 (g ∷ gs) lo c = omega (arith, c, IsChain-le gs (suc g.end_offset) c.2)

front-in_gaps :
    (gs : List Gap) (lo x : ℕ)
    → IsChain gs lo
    → x < (front_gap gs).begin_offset
    → in_gaps gs x ≡ false
unfolding IsChain
front-in_gaps [] lo x c h = refl
front-in_gaps (g ∷ gs) lo x c h =
    ground (arith, h, in_gaps-below gs (suc g.end_offset) x c.2 (omega (arith, c)))

IsChain-raise :
    (gs : List Gap) (lo hi : ℕ)
    → IsChain gs lo
    → lo ≤ offset_max
    → hi ≤ (front_gap gs).begin_offset
    → IsChain gs hi
unfolding IsChain
IsChain-raise [] lo hi c l h = absurd (omega arith)
IsChain-raise (g ∷ gs) lo hi c l h = (h, c.1, c.2)

StartBy-weaken : (gs : List Gap) (a b : ℕ) → a ≤ b → StartBy a gs → StartBy b gs
StartBy-weaken [] a b l h = tt
StartBy-weaken (g ∷ gs) a b l h = (omega (arith, h), StartBy-weaken gs a b l h.1)

pub copy_from-ext :
    (b c : ℕ → ℕ) (i j n : ℕ)
    → ((k : ℕ) → k < n → b (i + k) ≡ c (j + k))
    → copy_from b i n ≡ copy_from c j n
copy_from-ext b c i j zero h = refl
copy_from-ext b c i j (suc n) h =
    ap₂ (λ x xs. x ∷ xs) (ap b (omega arith) ∙ h 0 (omega arith) ∙ ap c (omega arith))
      (copy_from-ext b c (i + 1) (j + 1) n
        (λ k l. ap b (omega arith) ∙ h (suc k) (omega arith) ∙ ap c (omega arith)))

module _ {stream : ℕ → ℕ} {s : SequencerBuffer} (v : IsValid stream s) where
  pub readable_bytes_lem : readable_bytes s + s.total_bytes_read ≡ (front_gap s.gaps).begin_offset
  unfolding readable_bytes
  readable_bytes_lem = omega (
    arith,
    front-le s.gaps s.total_bytes_read v.chain (omega (arith, v.bound)),
    front-u64 s.gaps s.total_bytes_read v.chain,
    v.bound,
  )

  pub readable-held :
      (x : ℕ) → s.total_bytes_read ≤ x → x < s.total_bytes_read + readable_bytes s → held s x ≡ true
  readable-held x a b =
      let h : x < (front_gap s.gaps).begin_offset = omega (arith, b, readable_bytes_lem) in
      ground (
        arith,
        a,
        h,
        front-in_gaps s.gaps s.total_bytes_read x v.chain h,
        front-u64 s.gaps s.total_bytes_read v.chain,
      )

  advance-IsValid :
      (n : ℕ)
      → n ≤ readable_bytes s
      → s.total_bytes_read + n + s.max_buffer_capacity_bytes < 2 ^ 62
      → IsValid stream (advance s n)
  unfolding advance
  advance-IsValid n l b = record {
    room = v.room;
    bound = b;
    chain =
        IsChain-raise s.gaps s.total_bytes_read _ v.chain (omega (arith, v.bound))
          (omega (arith, l, readable_bytes_lem));
    begins = StartBy-weaken s.gaps _ _ (omega arith) v.begins;
    holds = λ x h. v.holds x (ground (arith, h));
  }

  -- Where the bytes of the next block end.
  pub available_in_block-fits :
      (available_in_block s ≤ readable_bytes s)
      × (read_offset s + available_in_block s
          ≤ get_block_capacity s.max_buffer_capacity_bytes (next_block_to_read s))
      × (min 1 (available_in_block s) ≡ min 1 (readable_bytes s))
      × ((available_in_block s ≡ readable_bytes s)
          ⊎ (read_offset s + available_in_block s
              ≡ get_block_capacity s.max_buffer_capacity_bytes (next_block_to_read s)))
  unfolding available_in_block read_offset next_block_to_read
  available_in_block-fits =
      let h = block_room s.max_buffer_capacity_bytes s.total_bytes_read (omega (arith, v.room)) in
      (omega arith, omega (arith, h), omega (arith, h), ground (arith, h))

  pub read_bytes :
      (n : ℕ)
      → n ≤ available_in_block s
      → copy_from (block_or_new (s.blocks (next_block_to_read s))) (read_offset s) n
        ≡ copy_from stream s.total_bytes_read n
  unfolding next_block_to_read read_offset
  read_bytes n l = copy_from-ext _ _ _ _ n (λ k h.
      let (a, b, c, d) = available_in_block-fits in
      let (e, f) =
        run_in_block s.max_buffer_capacity_bytes s.total_bytes_read (available_in_block s)
          (s.total_bytes_read + k) b (omega (arith, v.room)) (omega arith) (omega (arith, l, h)) in
      ap₂ (λ i o. block_or_new (s.blocks i) o) (sym e) (omega (arith, f))
      ∙ (v.holds (s.total_bytes_read + k)
          (readable-held _ (omega arith) (omega (arith, l, h, a)))).1)

  pub block-there : 0 < available_in_block s → is_null (s.blocks (next_block_to_read s)) ≡ false
  unfolding next_block_to_read
  block-there p =
      (v.holds s.total_bytes_read (
        readable-held s.total_bytes_read (omega arith)
          (omega (arith, p, available_in_block-fits)))).0

  -- A block is retired only when nothing waits in it, and there is one to retire.
  pub take_from_block_lem :
      (n : ℕ)
      → 0 < n
      → n ≤ available_in_block s
      → (front_gap s.gaps).begin_offset + s.max_buffer_capacity_bytes < 2 ^ 62
      → ((take_from_block s n).0 ≡ true) × Keeps stream (advance s n) (take_from_block s n).1
  unfolding take_from_block next_block_to_read read_offset
  take_from_block_lem n p l b =
      let cap : ℕ = s.max_buffer_capacity_bytes in
      let o : ℕ = s.total_bytes_read in
      let (a, c, d, f) = available_in_block-fits in
      let (e, g) =
        run_in_block cap o (available_in_block s) (o + n - 1) c (omega (arith, v.room))
          (omega (arith, p)) (omega (arith, l, p)) in
      let w : IsValid stream (advance s n) =
        advance-IsValid n (omega (arith, l, a)) (omega (arith, l, a, b, readable_bytes_lem)) in
      if-cases (λ (r : Bool × SequencerBuffer). (r.0 ≡ true) × Keeps stream (advance s n) r.1)
        (n == available_in_block s)
        (λ t.
          let m : n ≡ available_in_block s = ground (arith, t) in
          rw (sym e) (
            retire_block_if_empty-Keeps {s = advance s n} (o + n - 1) w (omega (arith, p))
              (rw e (block-there (omega (arith, p, l))))
              (omega (arith, back-StartBy s.gaps _ v.begins, p))
              (elim (f) [
                | inl k ↦ inl (omega (arith, k, m, readable_bytes_lem))
                | inr k ↦ inr (rw e (next_block cap o n v.room p (omega (arith, k, m))))
              ])))
        (λ t. (refl, (w, refl, refl, refl)))
