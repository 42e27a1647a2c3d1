-- ===== src/Sequencer/Retired.antt =====
-- RetireBlockIfEmpty, called when a block or what there is before a gap was read, succeeds and keeps
-- the buffer valid.
use puic.Prelude.{
  ℕ, ◌+◌, ◌-◌, ◌≤◌, ◌<◌, ◌≡◌, refl, sym, ap, arith, ◌∙◌, inl, inr, ◌⊎◌, Bool-cases, Bool, true,
  false,
}
use puic.Prelude.{◌&&◌, ◌==◌, if-cases, List, [], ◌∷◌, none, length}
use puic.Sequencer.{SequencerBuffer, Gap, front_gap, back_gap, set_block, get_block_index}
use puic.Sequencer.{empty}
use puic.Sequencer.Read.{is_null, retire_block, retire_block_if_empty, next_block_to_read}
use puic.Sequencer.Gaps.{IsChain, is_held, held-below_back}
use puic.Sequencer.Receive.{IsValid, held}
use puic.Sequencer.Retire.{no_byte_left}

-- `t` is valid and differs from `s` in its blocks at most.
abbrev pub Keeps : (ℕ → ℕ) → SequencerBuffer → SequencerBuffer → Type 0
Keeps stream s t =
    IsValid stream t
    × (t.gaps ≡ s.gaps)
    × (t.total_bytes_read ≡ s.total_bytes_read)
    × (t.max_buffer_capacity_bytes ≡ s.max_buffer_capacity_bytes)

set_block-other :
    (cap : ℕ) (s : SequencerBuffer) (index i : ℕ)
    → (i == index) ≡ false
    → set_block s.blocks index none i ≡ s.blocks i
set_block-other cap s index i h = rw h refl

retire_block-Keeps :
    {stream : ℕ → ℕ} {s : SequencerBuffer} (index : ℕ)
    → IsValid stream s
    → is_null (s.blocks index) ≡ false
    → (left : (x : ℕ)
        → held s x ≡ true
        → (get_block_index s.max_buffer_capacity_bytes x == index) ≡ false)
    → ((retire_block s index).0 ≡ true) × Keeps stream s (retire_block s index).1
unfolding retire_block
retire_block-Keeps {stream} {s} index v n left = rw n (
  refl,
  (
    record {
      room = v.room;
      bound = v.bound;
      chain = v.chain;
      begins = v.begins;
      holds = λ x h.
          rw (set_block-other 0 s index (get_block_index s.max_buffer_capacity_bytes x) (left x h))
            (v.holds x h);
    },
    refl,
    refl,
    refl,
  ),
)

-- If reading has come to a gap, what is left waits behind it.
held-behind_front :
    (gs : List Gap) (read x : ℕ)
    → IsChain gs read
    → (front_gap gs).begin_offset ≡ read
    → is_held read gs x ≡ true
    → (read < (front_gap gs).end_offset) × ((front_gap gs).end_offset ≤ x)
unfolding IsChain
held-behind_front [] read x c e h = absurd (ground (arith, c, h))
held-behind_front (g ∷ gs) read x c e h = (omega (arith, c, e), ground (arith, c, e, h))

one_gap :
    (gs : List Gap)
    → (length gs == 1) ≡ true
    → (back_gap gs).begin_offset ≡ (front_gap gs).begin_offset
one_gap [] h = refl
one_gap (g ∷ []) h = refl
one_gap (g ∷ k ∷ gs) h = ground (arith, h)

pub retire_block_if_empty-Keeps :
    {stream : ℕ → ℕ} {s : SequencerBuffer} (p : ℕ)
    → IsValid stream s
    → s.total_bytes_read ≡ p + 1
    → is_null (s.blocks (get_block_index s.max_buffer_capacity_bytes p)) ≡ false
    → (back_gap s.gaps).begin_offset ≤ p + s.max_buffer_capacity_bytes
    → ((front_gap s.gaps).begin_offset ≡ s.total_bytes_read)
      ⊎ ((next_block_to_read s == get_block_index s.max_buffer_capacity_bytes p) ≡ false)
    → let r = retire_block_if_empty s (get_block_index s.max_buffer_capacity_bytes p) in
      (r.0 ≡ true) × Keeps stream s r.1
unfolding retire_block_if_empty empty next_block_to_read
retire_block_if_empty-Keeps {stream} {s} p v e n b f =
    let cap : ℕ = s.max_buffer_capacity_bytes in
    let index : ℕ = get_block_index cap p in
    let P : Bool × SequencerBuffer → Type 0 = λ r. (r.0 ≡ true) × Keeps stream s r.1 in
    let waits : (x : ℕ) → held s x ≡ true → x < (back_gap s.gaps).begin_offset = λ x h.
      held-below_back s.gaps s.total_bytes_read x v.chain (omega (arith, v.bound))
        (ground (arith, h)) (ground (arith, h)) in
    if-cases P ((length s.gaps == 1) && ((front_gap s.gaps).begin_offset == s.total_bytes_read))
      (λ t.
        retire_block-Keeps index v n
          (λ x h. absurd (ground (arith, t, h, waits x h, one_gap s.gaps))))
      (λ t.
        if-cases P (get_block_index cap ((back_gap s.gaps).begin_offset - 1) == index)
          (λ u. (refl, (v, refl, refl, refl)))
          (λ u.
            if-cases P
              ((get_block_index cap s.total_bytes_read == index)
                && (get_block_index cap (front_gap s.gaps).end_offset == index))
              (λ w. (refl, (v, refl, refl, refl)))
              (λ w. retire_block-Keeps index v n (λ x h.
                no_byte_left cap p x (back_gap s.gaps).begin_offset (front_gap s.gaps).end_offset
                  (ground (arith, h, e)) (waits x h) b u
                  (elim (Bool-cases (get_block_index cap s.total_bytes_read == index)) [
                    | inr g ↦ inl (ap (λ i. get_block_index cap i == index) (sym e) ∙ g)
                    | inl g ↦ elim (f) [
                      | inr k ↦ absurd (ground (arith, k, g))
                      | inl k ↦
                          let (l, m) = held-behind_front s.gaps s.total_bytes_read x v.chain k h in
                          inr (omega (arith, l, e), m, ground (arith, w, g))
                    ]
                  ])))))
