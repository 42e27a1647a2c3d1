-- ===== src/Sequencer/Read.antt =====
-- Reading: Readv, GetReadableRegions, GetReadableRegion and MarkConsumed
-- (puicbase/net/quic/core/quic_stream_sequencer_buffer.cc).
use puic.Prelude.{
  ℕ, zero, suc, ◌+◌, ◌-◌, ◌==◌, ltb, if◌then◌else◌, Bool, true, false, ◌&&◌, ◌||◌, not,
}
use puic.Prelude.{List, [], ◌∷◌, ◌++◌, Option, none, some, min, sub64}
use puic.Sequencer.{SequencerBuffer, FrameInfo, set_block, front_gap, back_gap}
use puic.Sequencer.{get_block_index, get_in_block_offset, get_block_capacity, readable_bytes, empty}
use puic.Sequencer.Write.{
  QuicErrorCode, no_error, stream_sequencer_invalid_state, block_or_new, insert_frame,
}

unfoldable pub read_offset : SequencerBuffer → ℕ
unfolding get_in_block_offset
read_offset s = get_in_block_offset s.max_buffer_capacity_bytes s.total_bytes_read

unfoldable pub next_block_to_read : SequencerBuffer → ℕ
unfolding get_block_index
next_block_to_read s = get_block_index s.max_buffer_capacity_bytes s.total_bytes_read

abbrev pub is_null : Option (ℕ → ℕ) → Bool
is_null none = true
is_null (some buffer) = false

unfoldable pub retire_block : SequencerBuffer → ℕ → Bool × SequencerBuffer
retire_block s index =
    if is_null (s.blocks index)
    then (false, s)
    else (true, record s { blocks = set_block s.blocks index none })

unfoldable pub retire_block_if_empty : SequencerBuffer → ℕ → Bool × SequencerBuffer
unfolding empty retire_block get_block_index next_block_to_read
retire_block_if_empty s index =
    let capacity : ℕ = s.max_buffer_capacity_bytes in
    if empty s
    then retire_block s index
    else if get_block_index capacity ((back_gap s.gaps).begin_offset - 1) == index
    then (true, s)
    else if (next_block_to_read s == index)
        && (get_block_index capacity (front_gap s.gaps).end_offset == index)
    then (true, s)
    else retire_block s index

unfoldable pub update_frame_arrival_map : List (ℕ × FrameInfo) → ℕ → List (ℕ × FrameInfo)
unfolding insert_frame
update_frame_arrival_map [] offset = []
update_frame_arrival_map (e ∷ es) offset =
    let rest : List (ℕ × FrameInfo) = update_frame_arrival_map es offset in
    if ltb offset e.0
    then e ∷ es
    else if ltb offset (e.0 + e.1.length)
    then insert_frame rest offset (record e.1 { length = e.0 + e.1.length - offset })
    else rest

-- How many bytes the next block to read has.
unfoldable pub available_in_block : SequencerBuffer → ℕ
unfolding readable_bytes get_block_capacity next_block_to_read read_offset
available_in_block s =
    min (readable_bytes s)
      (get_block_capacity s.max_buffer_capacity_bytes (next_block_to_read s) - read_offset s)

-- memcpy from a block.
abbrev pub copy_from : (ℕ → ℕ) → ℕ → ℕ → List ℕ
copy_from buffer start zero = []
copy_from buffer start (suc n) = buffer start ∷ copy_from buffer (start + 1) n

unfoldable pub advance : SequencerBuffer → ℕ → SequencerBuffer
advance s n = record s {
  num_bytes_buffered = sub64 s.num_bytes_buffered n;
  total_bytes_read = s.total_bytes_read + n;
}

-- Takes `n` bytes off the next block, which is retired if it was read to its end or to a gap.
unfoldable pub take_from_block : SequencerBuffer → ℕ → Bool × SequencerBuffer
unfolding available_in_block advance retire_block_if_empty next_block_to_read
take_from_block s n =
    if n == available_in_block s
    then retire_block_if_empty (advance s n) (next_block_to_read s)
    else (true, advance s n)

-- The inner loop of Readv, for one destination with `remaining` bytes left, at most as many rounds.
-- The result is the bytes that were copied and whether there was no error.
unfoldable pub read_into : ℕ → SequencerBuffer → ℕ → Bool × List ℕ × SequencerBuffer
read_into zero s remaining = (true, [], s)
read_into (suc fuel) s remaining =
    let index : ℕ = next_block_to_read s in
    let n : ℕ = min (available_in_block s) remaining in
    let bytes : List ℕ = copy_from (block_or_new (s.blocks index)) (read_offset s) n in
    let (retired, s') = take_from_block s n in
    let (fine, more, s'') = read_into fuel s' (remaining - n) in
    if (remaining == 0) || (readable_bytes s == 0)
    then (true, [], s)
    else if is_null (s.blocks index)
    then (false, [], s)
    else if not retired
    then (false, bytes, s')
    else (fine, bytes ++ more, s'')

-- The outer loop of Readv; the destinations are given by their lengths.
unfoldable pub read_all : SequencerBuffer → List ℕ → Bool × List ℕ × SequencerBuffer
read_all s [] = (true, [], s)
read_all s (len ∷ lens) =
    let (fine, bytes, s') = read_into len s len in
    let (fine', more, s'') = read_all s' lens in
    if readable_bytes s == 0
    then (true, [], s)
    else if not fine
    then (false, bytes, s')
    else (fine', bytes ++ more, s'')

abbrev pub is_nil : List ℕ → Bool
is_nil [] = true
is_nil (x ∷ xs) = false

-- The result has the bytes copied in place of bytes_read.
unfoldable pub readv : SequencerBuffer → List ℕ → QuicErrorCode × List ℕ × SequencerBuffer
readv s lens =
    let (fine, bytes, s') = read_all s lens in
    if not fine
    then (stream_sequencer_invalid_state, bytes, s')
    else if is_nil bytes
    then (no_error, bytes, s')
    else (
      no_error,
      bytes,
      record s' {
        frame_arrival_time_map =
            update_frame_arrival_map s'.frame_arrival_time_map s'.total_bytes_read;
      },
    )

-- The loop of MarkConsumed; what RetireBlockIfEmpty returns is ignored.
unfoldable pub consume : ℕ → SequencerBuffer → ℕ → SequencerBuffer
consume fuel s zero = s
consume zero s (suc n) = s
consume (suc fuel) s (suc rest) =
    let n : ℕ = min (suc rest) (available_in_block s) in
    consume fuel (take_from_block s n).1 (suc rest - n)

unfoldable pub mark_consumed : SequencerBuffer → ℕ → Bool × SequencerBuffer
mark_consumed s bytes_used =
    let s' : SequencerBuffer = consume bytes_used s bytes_used in
    if ltb (readable_bytes s) bytes_used
    then (false, s)
    else if bytes_used == 0
    then (true, s')
    else (
      true,
      record s' {
        frame_arrival_time_map =
            update_frame_arrival_map s'.frame_arrival_time_map s'.total_bytes_read;
      },
    )
