-- ===== src/Sequencer/Regions.antt =====
-- GetReadableRegions (puicbase/net/quic/core/quic_stream_sequencer_buffer.cc): what can be read without
-- a copy, block by block.
use puic.Prelude.{
  min, ltb, not, ◌||◌, Bool, false, Option, none, some, ℕ, zero, suc, ◌+◌, ◌-◌, ◌%◌, ◌==◌, leb,
  if◌then◌else◌, ◌&&◌, List, [], ◌∷◌, ◌++◌,
}
use puic.Sequencer.{
  FrameInfo, SequencerBuffer, front_gap, blocks_count, get_block_index, get_in_block_offset,
}
use puic.Sequencer.{get_block_capacity, readable_bytes}
use puic.Sequencer.Write.{block_or_new}
use puic.Sequencer.Read.{copy_from, read_offset, next_block_to_read}

-- An iovec: `len` bytes of a block from `start` on.
pub record Region : Type 0 where
  pub block : ℕ
  pub start : ℕ
  pub len : ℕ

-- The loop over the blocks behind the first, and the last block.
unfoldable pub regions_behind : ℕ → ℕ → ℕ → ℕ → ℕ → ℕ → ℕ → List Region
regions_behind zero capacity start_idx end_idx end_offset iov_used iov_count = []
regions_behind (suc fuel) capacity start_idx end_idx end_offset iov_used iov_count =
    let index : ℕ = (start_idx + iov_used) % blocks_count capacity in
    let rest : List Region =
      regions_behind fuel capacity start_idx end_idx end_offset (iov_used + 1) iov_count in
    if leb iov_count iov_used
    then []
    else if index == end_idx
    then record { block = end_idx; start = 0; len = end_offset + 1 } ∷ []
    else record { block = index; start = 0; len = get_block_capacity capacity index } ∷ rest

-- At most `iov_count` regions.
unfoldable pub get_readable_regions : SequencerBuffer → ℕ → List Region
get_readable_regions s iov_count =
    let capacity : ℕ = s.max_buffer_capacity_bytes in
    let index : ℕ = next_block_to_read s in
    let readable_end : ℕ = (front_gap s.gaps).begin_offset - 1 in
    let end_offset : ℕ = get_in_block_offset capacity readable_end in
    let end_idx : ℕ = get_block_index capacity readable_end in
    if readable_bytes s == 0
    then []
    else if (index == end_idx) && leb (read_offset s) end_offset
    then record { block = index; start = read_offset s; len = readable_bytes s } ∷ []
    else record {
      block = index;
      start = read_offset s;
      len = get_block_capacity capacity index - read_offset s;
    }
      ∷ regions_behind iov_count capacity index end_idx end_offset 1 iov_count

abbrev pub region_bytes : SequencerBuffer → List Region → List ℕ
region_bytes s [] = []
region_bytes s (r ∷ rs) =
    copy_from (block_or_new (s.blocks r.block)) r.start r.len ++ region_bytes s rs

abbrev pub region_lengths : List Region → List ℕ
region_lengths [] = []
region_lengths (r ∷ rs) = r.len ∷ region_lengths rs

-- The loop of GetReadableRegion: how long the frames are that came at one time, until one of another
-- time or one that does not fit, and whether such a one of another time was met.
unfoldable pub region_of_time : List (ℕ × FrameInfo) → ℕ → ℕ → ℕ → ℕ × Bool
region_of_time [] timestamp in_block region_len = (region_len, false)
region_of_time (e ∷ es) timestamp in_block region_len =
    let rest : ℕ × Bool = region_of_time es timestamp in_block (region_len + e.1.length) in
    if ltb in_block (region_len + e.1.length) || not (e.1.timestamp == timestamp)
    then (region_len, not (e.1.timestamp == timestamp))
    else rest

abbrev pub first_time : List (ℕ × FrameInfo) → ℕ
first_time [] = 0
first_time (e ∷ es) = e.1.timestamp

-- GetReadableRegion: the region, whose bytes came at one time, and that time; none for false.
unfoldable pub get_readable_region : SequencerBuffer → Option (Region × ℕ)
unfolding region_of_time
get_readable_region s =
    let index : ℕ = next_block_to_read s in
    let in_block : ℕ =
      min (get_block_capacity s.max_buffer_capacity_bytes index - read_offset s)
        (readable_bytes s) in
    let timestamp : ℕ = first_time s.frame_arrival_time_map in
    let (region_len, other) = region_of_time s.frame_arrival_time_map timestamp in_block 0 in
    if readable_bytes s == 0
    then none
    else some (
      record { block = index; start = read_offset s; len = if other then region_len else in_block },
      timestamp,
    )
