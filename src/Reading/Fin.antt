-- ===== src/Reading/Fin.antt =====
-- The end of the stream: a FIN fixes it, and reading gets there.
use puic.Prelude.{
  ℕ, ◌+◌, ◌-◌, ◌*◌, ◌^◌, ◌≤◌, ◌<◌, ◌≡◌, ◌==◌, refl, ap, ◌⊎◌, inl, inr, arith, ◌∙◌, Bool, true,
  false, not, ◌&&◌, if◌then◌else◌, if-cases, List, [], ◌∷◌, ◌++◌, length, min, add64,
}
use puic.Sequencer.{SequencerBuffer, front_gap, readable_bytes, offset_max}
use puic.Sequencer.Write.{QuicErrorCode, on_stream_data}
use puic.Sequencer.Read.{copy_from, is_nil, readv}
use puic.Sequencer.Gaps.{front-StartBy}
use puic.Sequencer.Take.{readable_bytes_lem}
use puic.Sequencer.Receive.{IsValid}
use puic.Sequencer.Deliver.{readv_lem, total}
use puic.Reading.{
  StreamSequencer, StreamEvent, reset_multiple_termination_offsets, is_closed, maybe_close_stream,
  close_stream_at_offset, flush, after_data, buffer_data, counted, close_at_fin, on_stream_frame,
  sequencer_readv,
}
use puic.Reading.Kept.{offset_of, capacity_of}

-- When the stream has come without gaps up to the offset where a FIN closed it, a Readv with enough
-- room returns exactly the rest of the stream, and the sequencer is closed after it.
pub reads_to_end :
    (stream : ℕ → ℕ) (s : StreamSequencer) (lens : List ℕ)
    → IsValid stream s.buffered_frames
    → s.buffered_frames.total_bytes_read + 2 * s.buffered_frames.max_buffer_capacity_bytes < 2 ^ 62
    → (front_gap s.buffered_frames.gaps).begin_offset ≡ s.close_offset
    → s.close_offset ≤ s.buffered_frames.total_bytes_read + total lens
    → let r = sequencer_readv s lens in
      (r.0
        ≡ copy_from stream s.buffered_frames.total_bytes_read
            (s.close_offset - s.buffered_frames.total_bytes_read))
      × (is_closed r.2 ≡ true)
unfolding is_closed sequencer_readv
reads_to_end stream s lens v far all room =
    let near : (front_gap s.buffered_frames.gaps).begin_offset + capacity_of s < 2 ^ 62 =
      omega (arith, front-StartBy s.buffered_frames.gaps _ v.begins, far) in
    let (f, e, a) = readv_lem v lens near in
    let rest : ℕ = s.close_offset - offset_of s in
    let r : readable_bytes s.buffered_frames + offset_of s ≡ s.close_offset =
      readable_bytes_lem v ∙ all in
    let m : min (total lens) (readable_bytes s.buffered_frames) ≡ rest = omega (arith, r, room) in
    let o : (readv s.buffered_frames lens).2.total_bytes_read ≡ s.close_offset =
      omega (arith, a.2, m, r) in
    (e ∙ ap (copy_from stream (offset_of s)) m, ground (arith, o))

-- The end does not move.
maybe_close_stream-close :
    (s : StreamSequencer) → (maybe_close_stream s).1.close_offset ≡ s.close_offset
unfolding maybe_close_stream
maybe_close_stream-close s = ground arith

flush-close : (s : StreamSequencer) → (flush s).1.close_offset ≡ s.close_offset
unfolding flush
flush-close s = maybe_close_stream-close _

after_data-close :
    (s : StreamSequencer) (offset : ℕ) (result : QuicErrorCode) (written : ℕ)
    → (after_data s offset result written).1.close_offset ≡ s.close_offset
unfolding after_data
after_data-close s offset result written = ground (arith, flush-close s)

buffer_data-close :
    (s : StreamSequencer) (offset : ℕ) (bytes : List ℕ) (time : ℕ)
    → (buffer_data s offset bytes time).1.close_offset ≡ s.close_offset
unfolding buffer_data
buffer_data-close s offset bytes time =
    let r : QuicErrorCode × ℕ × SequencerBuffer =
      on_stream_data s.buffered_frames offset bytes time in
    after_data-close (record s { buffered_frames = r.2 }) offset r.0 r.1

close_at_fin-close :
    (s : StreamSequencer) (offset : ℕ) (bytes : List ℕ) (fin : Bool)
    → (s.close_offset == offset_max) ≡ false
    → (close_at_fin s offset bytes fin).1.close_offset ≡ s.close_offset
unfolding close_at_fin close_stream_at_offset
close_at_fin-close s offset bytes fin h =
    ground
      (arith, h, maybe_close_stream-close (record s { close_offset = add64 offset (length bytes) }))

close_at_fin-told :
    (s : StreamSequencer) (offset : ℕ) (bytes : List ℕ)
    → (s.close_offset == offset_max) ≡ false
    → (add64 offset (length bytes) == s.close_offset) ≡ false
    → close_at_fin s offset bytes true ≡ (reset_multiple_termination_offsets ∷ [], s)
unfolding close_at_fin close_stream_at_offset
close_at_fin-told s offset bytes h k = ground (arith, h, k)

-- What a frame's events are when its FIN says another end.
told :
    (s : StreamSequencer) (offset : ℕ) (bytes : List ℕ) (fin same : Bool)
    (rest : List StreamEvent × StreamSequencer)
    → (s.close_offset == offset_max) ≡ false
    → (add64 offset (length bytes) == s.close_offset) ≡ same
    → let first : List StreamEvent × StreamSequencer = close_at_fin s offset bytes fin in
      ((fin && not same) ≡ false)
      ⊎ ((es : List StreamEvent) × ((if fin && is_nil bytes
              then first
              else (first.0 ++ rest.0, rest.1)).0
            ≡ reset_multiple_termination_offsets ∷ es))
told s offset bytes false same rest h e = inl refl
told s offset bytes true true rest h e = inl refl
told s offset bytes true false rest h e =
    let first : List StreamEvent × StreamSequencer = close_at_fin s offset bytes true in
    let q : first.0 ≡ reset_multiple_termination_offsets ∷ [] =
      ap (λ (r : List StreamEvent × StreamSequencer). r.0) (close_at_fin-told s offset bytes h e) in
    inr (
      if-cases
        (λ (r : List StreamEvent × StreamSequencer).
          (es : List StreamEvent) × (r.0 ≡ reset_multiple_termination_offsets ∷ es))
        (is_nil bytes) (λ _. ([], q)) (λ _. (rest.0, ap (λ es. es ++ rest.0) q)))

-- Once a FIN has fixed the end of the stream, no frame moves it; and for a frame with a FIN at another
-- offset the first thing the stream is told is a reset with QUIC_MULTIPLE_TERMINATION_OFFSETS.
pub one_end :
    (s : StreamSequencer) (offset : ℕ) (bytes : List ℕ) (fin : Bool) (time : ℕ)
    → (s.close_offset == offset_max) ≡ false
    → let r = on_stream_frame s offset bytes fin time in
      (r.1.close_offset ≡ s.close_offset)
      × (((fin && not (add64 offset (length bytes) == s.close_offset)) ≡ false)
          ⊎ ((es : List StreamEvent) × (r.0 ≡ reset_multiple_termination_offsets ∷ es)))
unfolding on_stream_frame counted
one_end s offset bytes fin time h =
    let s0 : StreamSequencer = record s { num_frames_received = s.num_frames_received + 1 } in
    let first : List StreamEvent × StreamSequencer = close_at_fin s0 offset bytes fin in
    let rest : List StreamEvent × StreamSequencer = buffer_data first.1 offset bytes time in
    let c = close_at_fin-close s0 offset bytes fin h in
    (
      if-cases (λ (r : List StreamEvent × StreamSequencer). r.1.close_offset ≡ s.close_offset)
          (fin && is_nil bytes) (λ _. c) (λ _. buffer_data-close first.1 offset bytes time ∙ c),
      told s0 offset bytes fin (add64 offset (length bytes) == s.close_offset) rest h refl,
    )
