-- ===== src/Reading/Examples.antt =====
-- A stream of five bytes whose end comes first.
use puic.Prelude.{
  ◌⊎◌, ℕ, ◌+◌, ◌-◌, ◌%◌, ◌≡◌, ◌==◌, ◌&&◌, not, refl, arith, true, false, [], ◌∷◌, ◌++◌, List,
  length, add64,
}
use puic.Sequencer.{sequencer_buffer}
use puic.Sequencer.Write.{on_stream_data}
use puic.Sequencer.Read.{copy_from}
use puic.Sequencer.Receive.{IsValid}
use puic.Reading.{
  StreamSequencer, StreamEvent, stream_sequencer, stream_receive_window_limit, on_stream_frame,
  sequencer_readv, data_available, reset_multiple_termination_offsets, is_closed,
}
use puic.Reading.Kept.{consumed}
use puic.Reading.Accounts.{Runs, start, frame, read, consumed_once}
use puic.Reading.Fin.{reads_to_end, one_end}

abbrev stream : ℕ → ℕ
stream i = (i + 1) % 256

abbrev q1 : List StreamEvent × StreamSequencer
q1 = on_stream_frame stream_sequencer 3 (copy_from stream 3 2) true 0

abbrev q2 : List StreamEvent × StreamSequencer
q2 = on_stream_frame q1.1 0 (copy_from stream 0 3) false 0

abbrev q3 : List ℕ × List StreamEvent × StreamSequencer
q3 = sequencer_readv q2.1 (9 ∷ [])

told1 : (q1.0 ≡ []) × (q2.0 ≡ data_available ∷ [])
unfolding stream_sequencer sequencer_buffer on_stream_frame on_stream_data
told1 = (refl, refl)

run1 : Runs stream q1.1 ([] ++ q1.0)
unfolding stream_sequencer sequencer_buffer
run1 = frame 3 2 true 0 start (omega arith) (omega arith) (omega arith) refl

run2 : Runs stream q2.1 (([] ++ q1.0) ++ q2.0)
unfolding stream_sequencer sequencer_buffer on_stream_frame on_stream_data
run2 = frame 0 3 false 0 run1 (omega arith) (omega arith) (omega arith) refl

run3 : Runs stream q3.2 ((([] ++ q1.0) ++ q2.0) ++ q3.1)
unfolding stream_sequencer sequencer_buffer on_stream_frame on_stream_data
run3 = read (9 ∷ []) run2 (omega arith)

consumed_once_example :
    IsValid stream q3.2.buffered_frames
    × (q3.2.buffered_frames.total_bytes_read ≡ consumed ((([] ++ q1.0) ++ q2.0) ++ q3.1))
    × (q3.2.buffered_frames.max_buffer_capacity_bytes ≡ stream_receive_window_limit)
consumed_once_example = consumed_once run3

reads_to_end_example :
    (q3.0
      ≡ copy_from stream q2.1.buffered_frames.total_bytes_read
          (q2.1.close_offset - q2.1.buffered_frames.total_bytes_read))
    × (is_closed q3.2 ≡ true)
unfolding stream_sequencer sequencer_buffer on_stream_frame on_stream_data
reads_to_end_example =
    reads_to_end stream q2.1 (9 ∷ []) (consumed_once run2).0 (omega arith) refl (omega arith)

one_end_example :
    let r = on_stream_frame q1.1 6 (copy_from stream 6 2) true 0 in
    (r.1.close_offset ≡ q1.1.close_offset)
    × (((true && not (add64 6 (length (copy_from stream 6 2)) == q1.1.close_offset)) ≡ false)
        ⊎ ((es : List StreamEvent) × (r.0 ≡ reset_multiple_termination_offsets ∷ es)))
unfolding stream_sequencer sequencer_buffer on_stream_frame on_stream_data
one_end_example = one_end q1.1 6 (copy_from stream 6 2) true 0 refl
