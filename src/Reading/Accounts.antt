-- ===== src/Reading/Accounts.antt =====
-- The account a stream keeps with its flow controller, over a whole run of its sequencer.
use puic.Prelude.{
  ℕ, ◌+◌, ◌*◌, ◌^◌, ◌<◌, ◌≡◌, refl, arith, ◌∙◌, true, ◌||◌, ltb, Bool, List, [], ◌++◌, IsU64,
}
use puic.Sequencer.Read.{copy_from}
use puic.Sequencer.Receive.{IsValid}
use puic.Sequencer.Order.{sequencer_buffer-IsValid}
use puic.Sequencer.{sequencer_buffer}
use puic.Reading.{
  StreamSequencer, StreamEvent, stream_sequencer, stream_receive_window_limit, on_stream_frame,
  sequencer_readv, sequencer_mark_consumed, set_blocked_until_flush, set_unblocked, stop_reading,
  release_buffer, release_buffer_if_empty,
}
use puic.Reading.Kept.{
  Counts, consumed, consumed-append, offset_of, capacity_of, on_stream_frame-Counts,
}
use puic.Reading.Users.{
  readv-Counts, mark_consumed-Counts, stop_reading-Counts, release_buffer-Counts,
  release_buffer_if_empty-Counts, set_unblocked-Counts,
}

-- Far enough from the end of the range of offsets for a window of data.
abbrev pub IsFar : StreamSequencer → Type 0
IsFar s = offset_of s + 2 * stream_receive_window_limit < 2 ^ 62

-- What a sequencer may go through, and all that its stream has been told.
pub data Runs (stream : ℕ → ℕ) : StreamSequencer → List StreamEvent → Type 0 where
  start : Runs stream stream_sequencer []
  frame :
      {s : StreamSequencer} {es : List StreamEvent} (offset n : ℕ) (fin : Bool) (time : ℕ)
      → Runs stream s es
      → IsFar s
      → IsU64 offset
      → n < 2 ^ 62
      → (fin || ltb 0 n) ≡ true
      → Runs stream
          (on_stream_frame s offset (copy_from stream offset n) fin time).1
          (es ++ (on_stream_frame s offset (copy_from stream offset n) fin time).0)
  read :
      {s : StreamSequencer} {es : List StreamEvent} (lens : List ℕ)
      → Runs stream s es
      → IsFar s
      → Runs stream (sequencer_readv s lens).2 (es ++ (sequencer_readv s lens).1)
  mark :
      {s : StreamSequencer} {es : List StreamEvent} (n : ℕ)
      → Runs stream s es
      → IsFar s
      → Runs stream (sequencer_mark_consumed s n).1 (es ++ (sequencer_mark_consumed s n).0)
  stop :
      {s : StreamSequencer} {es : List StreamEvent}
      → Runs stream s es
      → IsFar s
      → Runs stream (stop_reading s).1 (es ++ (stop_reading s).0)
  block :
      {s : StreamSequencer} {es : List StreamEvent}
      → Runs stream s es
      → Runs stream (set_blocked_until_flush s) es
  unblock :
      {s : StreamSequencer} {es : List StreamEvent}
      → Runs stream s es
      → Runs stream (set_unblocked s).1 (es ++ (set_unblocked s).0)
  release :
      {s : StreamSequencer} {es : List StreamEvent}
      → Runs stream s es
      → Runs stream (release_buffer s) es
  release_if_empty :
      {s : StreamSequencer} {es : List StreamEvent}
      → Runs stream s es
      → Runs stream (release_buffer_if_empty s) es

module _ (stream : ℕ → ℕ) where
  -- The buffer is valid and its offset is what has been counted.
  abbrev IsSettled : StreamSequencer → List StreamEvent → Type 0
  IsSettled s es =
      IsValid stream s.buffered_frames
      × (offset_of s ≡ consumed es)
      × (capacity_of s ≡ stream_receive_window_limit)

  settle :
      (s : StreamSequencer) (es : List StreamEvent) (r : List StreamEvent × StreamSequencer)
      → IsSettled s es
      → Counts stream s r
      → IsSettled r.1 (es ++ r.0)
  settle s es r k c = (c.0, omega (arith, k.1, c.1, consumed-append es r.0), c.2 ∙ k.2)

  settle_quiet :
      (s : StreamSequencer) (es : List StreamEvent) (t : StreamSequencer)
      → IsSettled s es
      → Counts stream s ([], t)
      → IsSettled t es
  settle_quiet s es t k c = (c.0, omega (arith, k.1, c.1), c.2 ∙ k.2)

  blocked-Counts :
      (s : StreamSequencer)
      → IsValid stream s.buffered_frames
      → Counts stream s ([], set_blocked_until_flush s)
  unfolding set_blocked_until_flush
  blocked-Counts s v = (v, omega arith, refl)

  far_of :
      (s : StreamSequencer)
      → IsFar s
      → capacity_of s ≡ stream_receive_window_limit
      → offset_of s + 2 * capacity_of s < 2 ^ 62
  far_of s f c = omega (arith, f, c)

-- Whatever frames of its stream come, in any order and any pieces, with or without a FIN, and however
-- the user reads, skips, blocks, unblocks, stops reading or releases, far enough from the end of the range
-- of offsets, the sum of the bytes that the stream was told are consumed is the offset that reading has
-- got to, so each byte the offset passes is counted exactly once; and the buffer stays valid, of the size
-- it was made with. Bytes that a release or the end of the stream drops from the buffer are counted only
-- if the offset passes them.
pub consumed_once :
    {stream : ℕ → ℕ} {s : StreamSequencer} {es : List StreamEvent}
    → Runs stream s es
    → IsValid stream s.buffered_frames
      × (s.buffered_frames.total_bytes_read ≡ consumed es)
      × (s.buffered_frames.max_buffer_capacity_bytes ≡ stream_receive_window_limit)
unfolding stream_sequencer sequencer_buffer
consumed_once {stream} start = (
  sequencer_buffer-IsValid stream stream_receive_window_limit (omega arith) (omega arith),
  refl,
  refl,
)
consumed_once {stream} (frame {s} {es} offset n fin time r f u w p) =
    let k = consumed_once r in
    settle stream s es (on_stream_frame s offset (copy_from stream offset n) fin time) k
      (on_stream_frame-Counts stream s offset n fin time k.0 (far_of stream s f k.2) u w p)
consumed_once {stream} (read {s} {es} lens r f) =
    let k = consumed_once r in
    let q = sequencer_readv s lens in
    settle stream s es (q.1, q.2) k (readv-Counts stream s lens k.0 (far_of stream s f k.2)).1
consumed_once {stream} (mark {s} {es} n r f) =
    let k = consumed_once r in
    settle stream s es (sequencer_mark_consumed s n) k
      (mark_consumed-Counts stream s n k.0 (far_of stream s f k.2))
consumed_once {stream} (stop {s} {es} r f) =
    let k = consumed_once r in
    settle stream s es (stop_reading s) k (stop_reading-Counts stream s k.0 (far_of stream s f k.2))
consumed_once {stream} (block {s} {es} r) =
    let k = consumed_once r in
    settle_quiet stream s es (set_blocked_until_flush s) k (blocked-Counts stream s k.0)
consumed_once {stream} (unblock {s} {es} r) =
    let k = consumed_once r in
    settle stream s es (set_unblocked s) k (set_unblocked-Counts stream s k.0)
consumed_once {stream} (release {s} {es} r) =
    let k = consumed_once r in
    settle_quiet stream s es (release_buffer s) k (release_buffer-Counts stream s k.0)
consumed_once {stream} (release_if_empty {s} {es} r) =
    let k = consumed_once r in
    settle_quiet stream s es (release_buffer_if_empty s) k
      (release_buffer_if_empty-Counts stream s k.0)
