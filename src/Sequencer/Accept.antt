-- ===== src/Sequencer/Accept.antt =====
-- Frames that OnStreamData must take.
use puic.Prelude.{ℕ, ◌+◌, ◌≤◌, ◌<◌, ◌≡◌, refl, sym, ap, arith, ◌∙◌, zero, suc}
use puic.Prelude.{ltb, leb, not, ◌&&◌, ◌||◌, ◌==◌, if-cases, List, ◌∷◌, ◌++◌, length, add64}
use puic.Sequencer.{SequencerBuffer, Gap, max_num_gaps_allowed}
use puic.Sequencer.Write.{
  QuicErrorCode, no_error, copy_stream_data, find_gap, after_copy, buffer_in_gap, on_stream_data,
}
use puic.Sequencer.Read.{copy_from}
use puic.Sequencer.Memory.{length-copy_from}
use puic.Sequencer.Copy.{copy_stream_data-Holds}
use puic.Sequencer.Gaps.{chain-lo, find_gap-at, IsChain}
use puic.Sequencer.Receive.{IsValid, held, held-InRound}

module _ {stream : ℕ → ℕ} {s : SequencerBuffer} (v : IsValid stream s) (offset n time : ℕ)
    (before after : List Gap) (g : Gap) (split : before ++ g ∷ after ≡ s.gaps)
    (b : g.begin_offset ≤ offset) (e : offset + n ≤ g.end_offset)
    (l : offset + n ≤ s.total_bytes_read + s.max_buffer_capacity_bytes) where
  chained : IsChain (before ++ g ∷ after) s.total_bytes_read
  chained = rw split v.chain

  after_copy-fine :
      let r = after_copy s offset n time before g after (
        copy_stream_data n s.max_buffer_capacity_bytes
          (s.total_bytes_read + s.max_buffer_capacity_bytes)
          s.blocks
          offset
          (copy_from stream offset n)) in
      (r.0 ≡ no_error) × (r.1 ≡ n)
  unfolding after_copy
  after_copy-fine =
      let (t, c, h) =
        copy_stream_data-Holds n s.max_buffer_capacity_bytes s.total_bytes_read stream (held s)
          s.blocks offset n (held-InRound v) v.holds (omega arith)
          (omega (arith, b, chain-lo before g after _ chained)) l in
      rw t (refl, c)

  buffer_in_gap-fine :
      0 < n
      → length s.gaps < max_num_gaps_allowed
      → let r = buffer_in_gap s offset (copy_from stream offset n) time before (g ∷ after) in
        (r.0 ≡ no_error) × (r.1 ≡ n)
  unfolding buffer_in_gap
  buffer_in_gap-fine p m =
      let P : QuicErrorCode × ℕ × SequencerBuffer → Type 0 = λ r. (r.0 ≡ no_error) × (r.1 ≡ n) in
      let limit : add64 s.total_bytes_read s.max_buffer_capacity_bytes
          ≡ s.total_bytes_read + s.max_buffer_capacity_bytes =
        omega (arith, v.bound) in
      let sum : add64 offset n ≡ offset + n = omega (arith, l, v.bound) in
      rw limit (
        rw (length-copy_from stream offset n) (
          rw sum (
            if-cases P (ltb offset g.begin_offset && leb (offset + n) g.begin_offset)
              (λ t. ground (arith, t, b))
              (λ _.
                if-cases P (ltb offset g.begin_offset && ltb g.begin_offset (offset + n))
                  (λ t. ground (arith, t, b))
                  (λ _.
                    if-cases P (ltb g.end_offset (offset + n)) (λ t. ground (arith, t, e))
                      (λ _.
                        if-cases P
                          (ltb (s.total_bytes_read + s.max_buffer_capacity_bytes) (offset + n)
                            || ltb (offset + n) offset)
                          (λ t. ground (arith, t, l))
                          (λ _.
                            if-cases P
                              (not (g.begin_offset == offset)
                                && not (g.end_offset == offset + n)
                                && leb max_num_gaps_allowed (length s.gaps))
                              (λ t. ground (arith, t, m)) (λ _. after_copy-fine))))))))

-- A frame whose bytes are all missing and fit the buffer is taken, while there are not too many gaps.
pub missing_frame_is_taken :
    {stream : ℕ → ℕ} {s : SequencerBuffer}
    → IsValid stream s
    → (offset n time : ℕ) → 0 < n
    → (before after : List Gap) (g : Gap) → before ++ g ∷ after ≡ s.gaps
    → g.begin_offset ≤ offset
    → offset + n ≤ g.end_offset
    → offset + n ≤ s.total_bytes_read + s.max_buffer_capacity_bytes
    → length s.gaps < max_num_gaps_allowed
    → let r = on_stream_data s offset (copy_from stream offset n) time in
      (r.0 ≡ no_error) × (r.1 ≡ n)
unfolding on_stream_data
missing_frame_is_taken v offset zero time p before after g split b e l m = absurd (omega arith)
missing_frame_is_taken {stream} {s} v offset (suc n) time p before after g split b e l m =
    let f : find_gap s.gaps offset ≡ (before, g ∷ after) =
      ap (λ xs. find_gap xs offset) (sym split)
      ∙ find_gap-at before after g offset s.total_bytes_read (rw split v.chain) b
          (omega (arith, e)) in
    rw f (buffer_in_gap-fine v offset (suc n) time before after g split b e l p m)
