-- ===== src/Sequencer/Examples.antt =====
-- A buffer of two blocks on concrete frames.
use puic.Prelude.{◌⊎◌, length, ℕ, ◌%◌, ◌≡◌, refl, arith, ◌&&◌, ◌||◌, leb, [], ◌∷◌, ◌++◌}
use puic.Sequencer.{SequencerBuffer, sequencer_buffer, readable_bytes, offset_max}
use puic.Sequencer.Write.{no_error, on_stream_data}
use puic.Sequencer.Read.{
  read_offset, copy_from, readv, read_all, read_into, next_block_to_read, take_from_block,
}
use puic.Sequencer.Memory.{in_range}
use puic.Sequencer.Receive.{IsValid, held, is_fine, on_stream_data_lem}
use puic.Sequencer.Accept.{missing_frame_is_taken}
use puic.Sequencer.Deliver.{total, IsAdvanced, readv_lem}
use puic.Sequencer.Regions.{region_lengths, get_readable_regions, region_bytes}
use puic.Sequencer.Shown.{get_readable_regions_lem}
use puic.Sequencer.Order.{sequencer_buffer-IsValid, Runs, start, frame, read, in_order}

-- The stream 0, 1, 2, ... modulo 256.
abbrev stream : ℕ → ℕ
stream i = i % 256

abbrev s0 : SequencerBuffer
s0 = sequencer_buffer 16384

abbrev s1 : SequencerBuffer
s1 = (on_stream_data s0 3 (copy_from stream 3 2) 0).2

abbrev s2 : SequencerBuffer
s2 = (on_stream_data s1 0 (copy_from stream 0 3) 0).2

gaps1 :
    s1.gaps
    ≡ record { begin_offset = 0; end_offset = 3 }
      ∷ record { begin_offset = 5; end_offset = offset_max }
      ∷ []
unfolding sequencer_buffer on_stream_data
gaps1 = refl

read2 : (readv s2 (2 ∷ 9 ∷ [])).1 ≡ 0 ∷ 1 ∷ 2 ∷ 3 ∷ 4 ∷ []
unfolding sequencer_buffer on_stream_data readv read_all readable_bytes read_into next_block_to_read
    take_from_block
read2 = refl

s0-IsValid : IsValid stream s0
s0-IsValid = sequencer_buffer-IsValid stream 16384 (omega arith) (omega arith)

on_stream_data_lem_example :
    IsValid stream s1
    × (s1.total_bytes_read ≡ s0.total_bytes_read)
    × (s1.max_buffer_capacity_bytes ≡ s0.max_buffer_capacity_bytes)
    × ((x : ℕ)
        → held s1 x ≡ (
            held s0 x
            || (is_fine (on_stream_data s0 3 (copy_from stream 3 2) 0).0
                && leb s0.total_bytes_read x
                && in_range 3 2 x)))
on_stream_data_lem_example =
    on_stream_data_lem s0-IsValid 3 2 0 (omega arith) (omega arith) (omega arith)

missing_frame_is_taken_example :
    ((on_stream_data s0 3 (copy_from stream 3 2) 0).0 ≡ no_error)
    × ((on_stream_data s0 3 (copy_from stream 3 2) 0).1 ≡ 2)
unfolding sequencer_buffer
missing_frame_is_taken_example =
    missing_frame_is_taken s0-IsValid 3 2 0 (omega arith) [] []
      (record { begin_offset = 0; end_offset = offset_max }) refl (omega arith) (omega arith)
      (omega arith) (omega arith)

r1 : Runs stream 16384 s1 []
r1 = frame 3 2 0 start (omega arith) (omega arith) (omega arith)

r2 : Runs stream 16384 s2 []
r2 = frame 0 3 0 r1 (omega arith) (omega arith) (omega arith)

s2-IsValid : IsValid stream s2
s2-IsValid = (in_order r2 (omega arith) (omega arith)).0

readv_lem_example :
    ((readv s2 (2 ∷ 9 ∷ [])).0 ≡ no_error)
    × ((readv s2 (2 ∷ 9 ∷ [])).1 ≡ copy_from stream 0 5)
    × IsAdvanced stream s2 5 (readv s2 (2 ∷ 9 ∷ [])).2
unfolding sequencer_buffer on_stream_data readable_bytes
readv_lem_example = readv_lem s2-IsValid (2 ∷ 9 ∷ []) (omega arith)

abbrev s3 : SequencerBuffer
s3 = (readv s2 (2 ∷ 9 ∷ [])).2

in_order_example :
    IsValid stream s3
    × (s3.max_buffer_capacity_bytes ≡ 16384)
    × ([] ++ (readv s2 (2 ∷ 9 ∷ [])).1 ≡ copy_from stream 0 s3.total_bytes_read)
unfolding sequencer_buffer on_stream_data
in_order_example = in_order (read (2 ∷ 9 ∷ []) r2 (omega arith)) (omega arith) (omega arith)

get_readable_regions_lem_example :
    (region_bytes s2 (get_readable_regions s2 4) ≡ (readv s2 (5 ∷ [])).1)
    × ((total (region_lengths (get_readable_regions s2 4)) ≡ readable_bytes s2)
        ⊎ (length (get_readable_regions s2 4) ≡ 4))
unfolding sequencer_buffer on_stream_data get_readable_regions next_block_to_read readable_bytes
    read_offset
get_readable_regions_lem_example = get_readable_regions_lem s2-IsValid 4 (omega arith) (omega arith)
