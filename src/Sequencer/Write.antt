-- ===== src/Sequencer/Write.antt =====
-- Data that arrives: OnStreamData and the calls it makes
-- (puicbase/net/quic/core/quic_stream_sequencer_buffer.cc).
use puic.Prelude.{
  ℕ, zero, suc, ◌+◌, ◌-◌, ◌==◌, ltb, leb, if◌then◌else◌, Bool, true, false, ◌&&◌, ◌||◌, not,
}
use puic.Prelude.{List, [], ◌∷◌, ◌++◌, Option, none, some, length, take, drop, get_or, min, add64}
use puic.Sequencer.{
  SequencerBuffer, Gap, FrameInfo, Blocks, max_num_gaps_allowed, blocks_count, set_block,
}
use puic.Sequencer.{get_block_index, get_in_block_offset, get_block_capacity}

pub data QuicErrorCode : Type 0 where
  no_error : QuicErrorCode
  empty_stream_frame_no_fin : QuicErrorCode
  internal_error : QuicErrorCode
  overlapping_stream_data : QuicErrorCode
  too_many_frame_gaps : QuicErrorCode
  stream_sequencer_invalid_state : QuicErrorCode

-- memcpy to `start` of a block.
abbrev pub copy_into : (ℕ → ℕ) → ℕ → List ℕ → (ℕ → ℕ)
copy_into buffer start bytes i =
    if leb start i && ltb i (start + length bytes) then get_or bytes (i - start) 0 else buffer i

-- The buffer of a new block is not initialised; its bytes are taken as 0.
abbrev pub block_or_new : Option (ℕ → ℕ) → (ℕ → ℕ)
block_or_new none i = 0
block_or_new (some buffer) i = buffer i

-- How many bytes are free in the block of `offset`, up to the limit of the buffer.
unfoldable pub bytes_avail : ℕ → ℕ → ℕ → ℕ
unfolding get_block_capacity get_block_index get_in_block_offset
bytes_avail capacity limit offset =
    let avail : ℕ =
      get_block_capacity capacity (get_block_index capacity offset)
      - get_in_block_offset capacity offset in
    if ltb limit (offset + avail) then limit - offset else avail

unfoldable pub write_block : ℕ → Blocks → ℕ → List ℕ → Blocks
unfolding get_block_index get_in_block_offset
write_block capacity blocks offset bytes =
    let index : ℕ = get_block_index capacity offset in
    set_block blocks index
      (some (copy_into (block_or_new (blocks index)) (get_in_block_offset capacity offset) bytes))

-- The loop of CopyStreamData, with as many rounds as there are bytes; `limit` is the logical end of the
-- buffer, which the bytes do not pass. The result has bytes_copy.
unfoldable pub copy_stream_data : ℕ → ℕ → ℕ → Blocks → ℕ → List ℕ → Bool × ℕ × Blocks
unfolding bytes_avail write_block get_block_index blocks_count
copy_stream_data fuel capacity limit blocks offset [] = (true, 0, blocks)
copy_stream_data zero capacity limit blocks offset (x ∷ xs) = (false, 0, blocks)
copy_stream_data (suc fuel) capacity limit blocks offset (x ∷ xs) =
    let n : ℕ = min (bytes_avail capacity limit offset) (length (x ∷ xs)) in
    let (done, copied, after) =
      copy_stream_data fuel capacity limit (write_block capacity blocks offset (take n (x ∷ xs)))
        (offset + n) (drop n (x ∷ xs)) in
    if leb (blocks_count capacity) (get_block_index capacity offset)
    then (false, 0, blocks)
    else (done, n + copied, after)

-- The gaps that end before `offset`, and from current_gap on.
unfoldable pub find_gap : List Gap → ℕ → List Gap × List Gap
find_gap [] offset = ([], [])
find_gap (g ∷ gs) offset =
    let (before, rest) = find_gap gs offset in
    if leb g.end_offset offset then (g ∷ before, rest) else ([], g ∷ gs)

-- What UpdateGapList leaves of the gap.
unfoldable pub update_gap : Gap → ℕ → ℕ → List Gap
update_gap g start_offset bytes_written =
    let end : ℕ = start_offset + bytes_written in
    if (g.begin_offset == start_offset) && ltb end g.end_offset
    then record g { begin_offset = end } ∷ []
    else if ltb g.begin_offset start_offset && (g.end_offset == end)
    then record g { end_offset = start_offset } ∷ []
    else if ltb g.begin_offset start_offset && ltb end g.end_offset
    then record g { end_offset = start_offset }
      ∷ record { begin_offset = end; end_offset = g.end_offset }
      ∷ []
    else if (g.begin_offset == start_offset) && (g.end_offset == end)
    then []
    else g ∷ []

-- std::map::insert keeps an entry that is there.
unfoldable pub insert_frame : List (ℕ × FrameInfo) → ℕ → FrameInfo → List (ℕ × FrameInfo)
insert_frame [] offset info = (offset, info) ∷ []
insert_frame (e ∷ es) offset info =
    let rest : List (ℕ × FrameInfo) = insert_frame es offset info in
    if ltb offset e.0 then (offset, info) ∷ e ∷ es else if offset == e.0 then e ∷ es else e ∷ rest

-- The end of OnStreamData, once CopyStreamData has returned.
unfoldable pub after_copy :
    SequencerBuffer
    → ℕ
    → ℕ
    → ℕ
    → List Gap
    → Gap
    → List Gap
    → Bool × ℕ × Blocks
    → QuicErrorCode × ℕ × SequencerBuffer
unfolding update_gap insert_frame
after_copy s offset size timestamp before current_gap after (done, copied, blocks) =
    if not done then (stream_sequencer_invalid_state, copied, record s { blocks = blocks }) else (
      no_error,
      copied,
      record s {
        blocks = blocks;
        gaps = before ++ update_gap current_gap offset copied ++ after;
        frame_arrival_time_map =
            insert_frame s.frame_arrival_time_map offset
              (record { length = size; timestamp = timestamp });
        num_bytes_buffered = add64 s.num_bytes_buffered copied;
      },
    )

-- Data for current_gap, the first of `rest`. The result is the error, bytes_buffered and the buffer.
unfoldable pub buffer_in_gap :
    SequencerBuffer → ℕ → List ℕ → ℕ → List Gap → List Gap → QuicErrorCode × ℕ × SequencerBuffer
unfolding copy_stream_data after_copy
buffer_in_gap s offset bytes timestamp before [] = (internal_error, 0, s)
buffer_in_gap s offset bytes timestamp before (current_gap ∷ after) =
    let size : ℕ = length bytes in
    let end : ℕ = add64 offset size in
    let limit : ℕ = add64 s.total_bytes_read s.max_buffer_capacity_bytes in
    if ltb offset current_gap.begin_offset && leb end current_gap.begin_offset
    then (no_error, 0, s)
    else if ltb offset current_gap.begin_offset && ltb current_gap.begin_offset end
    then (overlapping_stream_data, 0, s)
    else if ltb current_gap.end_offset end
    then (overlapping_stream_data, 0, s)
    else if ltb limit end || ltb end offset
    then (internal_error, 0, s)
    else if not (current_gap.begin_offset == offset)
        && not (current_gap.end_offset == end)
        && leb max_num_gaps_allowed (length s.gaps)
    then (too_many_frame_gaps, 0, s)
    else after_copy s offset size timestamp before current_gap after
        (copy_stream_data size s.max_buffer_capacity_bytes limit s.blocks offset bytes)

unfoldable pub on_stream_data :
    SequencerBuffer → ℕ → List ℕ → ℕ → QuicErrorCode × ℕ × SequencerBuffer
unfolding find_gap buffer_in_gap
on_stream_data s starting_offset [] timestamp = (empty_stream_frame_no_fin, 0, s)
on_stream_data s starting_offset (x ∷ xs) timestamp =
    let (before, rest) = find_gap s.gaps starting_offset in
    buffer_in_gap s starting_offset (x ∷ xs) timestamp before rest
