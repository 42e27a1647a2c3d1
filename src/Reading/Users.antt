-- ===== src/Reading/Users.antt =====
-- What the user of a stream does to its sequencer, and what is counted.
use puic.Prelude.{ℕ, ◌+◌, ◌*◌, ◌^◌, ◌<◌, ◌≡◌, refl, ap, arith, Bool, true, not, ◌||◌, ◌∙◌, if-cases}
use puic.Prelude.{List, [], ◌∷◌, length, inl, inr, min}
use puic.Sequencer.{SequencerBuffer, front_gap, clear, release_whole_buffer, readable_bytes, empty}
use puic.Sequencer.Read.{readv, mark_consumed, copy_from}
use puic.Reading.{set_unblocked}
use puic.Sequencer.{has_bytes_to_read}
use puic.Sequencer.Gaps.{front-StartBy}
use puic.Sequencer.Receive.{IsValid, is_fine}
use puic.Sequencer.Deliver.{readv_lem, mark_consumed_lem, total}
use puic.Reading.{
  StreamSequencer, StreamEvent, reset_error_processing_stream, bytes_consumed, is_closed,
}
use puic.Reading.{
  sequencer_readv, sequencer_mark_consumed, stop_reading, release_buffer, release_buffer_if_empty,
}
use puic.Sequencer.Memory.{length-copy_from}
use puic.Prelude.{sym, if◌then◌else◌}
use mathlib.Core.Path.{subst}
use puic.Reading.Kept.{Counts, consumed, offset_of, capacity_of, flush-Counts, clear-IsValid}

module _ (stream : ℕ → ℕ) where
  -- Readv counts what it read.
  pub readv-Counts :
      (s : StreamSequencer) (lens : List ℕ)
      → IsValid stream s.buffered_frames
      → offset_of s + 2 * capacity_of s < 2 ^ 62
      → let r = sequencer_readv s lens in
        (r.0 ≡ copy_from stream (offset_of s) (min (total lens) (readable_bytes s.buffered_frames)))
        × Counts stream s (r.1, r.2)
  unfolding sequencer_readv
  readv-Counts s lens v far =
      let near : (front_gap s.buffered_frames.gaps).begin_offset + capacity_of s < 2 ^ 62 =
        omega (arith, front-StartBy s.buffered_frames.gaps _ v.begins, far) in
      let (f, e, a) = readv_lem v lens near in
      let b : SequencerBuffer = (readv s.buffered_frames lens).2 in
      let m : ℕ = min (total lens) (readable_bytes s.buffered_frames) in
      let sum : b.total_bytes_read ≡ offset_of s + length (readv s.buffered_frames lens).1 =
        a.2
        ∙ ap (λ k. offset_of s + k) (sym (ap length e ∙ length-copy_from stream (offset_of s) m)) in
      (
        e,
        (
          a.0,
          if-cases
              (λ (event : StreamEvent). b.total_bytes_read ≡ offset_of s + consumed (event ∷ []))
              (not (is_fine (readv s.buffered_frames lens).0))
              (λ t. absurd (ground (arith, ap is_fine f, t))) (λ _. omega (arith, sum)),
          a.3,
        ),
      )

  -- MarkConsumed counts what it passes over, or nothing.
  pub mark_consumed-Counts :
      (s : StreamSequencer) (n : ℕ)
      → IsValid stream s.buffered_frames
      → offset_of s + 2 * capacity_of s < 2 ^ 62
      → Counts stream s (sequencer_mark_consumed s n)
  unfolding sequencer_mark_consumed
  mark_consumed-Counts s n v far =
      let near : (front_gap s.buffered_frames.gaps).begin_offset + capacity_of s < 2 ^ 62 =
        omega (arith, front-StartBy s.buffered_frames.gaps _ v.begins, far) in
      let r : Bool × SequencerBuffer = mark_consumed s.buffered_frames n in
      let P : StreamEvent → Type 0 =
        λ event. r.1.total_bytes_read ≡ offset_of s + consumed (event ∷ []) in
      elim (mark_consumed_lem v n near) [
        | inl (l, yes_, a) ↦ (
          a.0,
          if-cases P (not r.0) (λ t. absurd (ground (arith, yes_, t))) (λ _. omega (arith, a.2)),
          a.3,
        )
        | inr (l, e) ↦
            subst
              (λ (q : Bool × SequencerBuffer). Counts stream s (
                (if not q.0 then reset_error_processing_stream else bytes_consumed n) ∷ [],
                record s { buffered_frames = q.1 },
              ))
              (sym e) (v, omega arith, refl)
      ]

  pub stop_reading-Counts :
      (s : StreamSequencer)
      → IsValid stream s.buffered_frames
      → offset_of s + 2 * capacity_of s < 2 ^ 62
      → Counts stream s (stop_reading s)
  unfolding stop_reading
  stop_reading-Counts s v far =
      if-cases (Counts stream s) s.ignore_read_data (λ _. (v, omega arith, refl))
        (λ _. flush-Counts stream (record s { ignore_read_data = true }) v far)

  pub release_buffer-Counts :
      (s : StreamSequencer)
      → IsValid stream s.buffered_frames
      → Counts stream s ([], release_buffer s)
  unfolding release_buffer release_whole_buffer
  release_buffer-Counts s v =
      (clear-IsValid stream s.buffered_frames v, unfold clear in omega arith, unfold clear in refl)

  pub release_buffer_if_empty-Counts :
      (s : StreamSequencer)
      → IsValid stream s.buffered_frames
      → Counts stream s ([], release_buffer_if_empty s)
  unfolding release_buffer_if_empty
  release_buffer_if_empty-Counts s v =
      if-cases (λ (t : StreamSequencer). Counts stream s ([], t)) (empty s.buffered_frames)
        (λ _. release_buffer-Counts s v) (λ _. (v, omega arith, refl))

  pub set_unblocked-Counts :
      (s : StreamSequencer) → IsValid stream s.buffered_frames → Counts stream s (set_unblocked s)
  unfolding set_unblocked
  set_unblocked-Counts s v = (
    v,
    if-cases (λ (es : List StreamEvent). offset_of s ≡ offset_of s + consumed es)
        (is_closed s || has_bytes_to_read s.buffered_frames) (λ _. omega arith) (λ _. omega arith),
    refl,
  )
