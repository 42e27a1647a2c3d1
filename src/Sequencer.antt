-- ===== src/Sequencer.antt =====
-- QuicStreamSequencerBuffer (puicbase/net/quic/core/quic_stream_sequencer_buffer.{h,cc}): the bytes of
-- a stream that came in any order wait in a circular buffer of blocks until they are read. blocks_ is
-- a function from the index of a block to its bytes, none for nullptr; that the array is allocated by
-- the first write is the same here as all blocks being nullptr. Logs and error texts are left out.
pub mod Write
pub mod Read
pub mod Address
pub mod Memory
pub mod Copy
pub mod Gaps
pub mod Receive
pub mod Accept
pub mod Retire
pub mod Retired
pub mod Take
pub mod Deliver
pub mod Order
pub mod Regions
pub mod Shown
mod Examples
use puic.Prelude.{
  ℕ, ◌+◌, ◌-◌, ◌/◌, ◌%◌, ◌==◌, ltb, leb, if◌then◌else◌, Bool, true, false, ◌&&◌, ◌||◌, not,
}
use puic.Prelude.{List, [], ◌∷◌, Option, none, some, u64_mod, sub64, length}

abbrev pub block_size_bytes : ℕ
block_size_bytes = 8192

abbrev pub max_num_gaps_allowed : ℕ
max_num_gaps_allowed = 10000

-- The greatest QuicStreamOffset.
abbrev pub offset_max : ℕ
offset_max = u64_mod - 1

pub record Gap : Type 0 where
  pub begin_offset : ℕ
  pub end_offset : ℕ

pub record FrameInfo : Type 0 where
  pub length : ℕ
  pub timestamp : ℕ

abbrev pub Blocks : Type 0
Blocks = ℕ → Option (ℕ → ℕ)

-- `frame_arrival_time_map` is sorted by its keys.
pub record SequencerBuffer : Type 0 where
  pub max_buffer_capacity_bytes : ℕ
  pub total_bytes_read : ℕ
  pub gaps : List Gap
  pub blocks : Blocks
  pub num_bytes_buffered : ℕ
  pub frame_arrival_time_map : List (ℕ × FrameInfo)

unfoldable pub blocks_count : ℕ → ℕ
blocks_count capacity = (capacity + block_size_bytes - 1) / block_size_bytes

abbrev pub null_blocks : Blocks
null_blocks index = none

unfoldable pub clear : SequencerBuffer → SequencerBuffer
clear s = record s {
  blocks = null_blocks;
  num_bytes_buffered = 0;
  gaps = record { begin_offset = s.total_bytes_read; end_offset = offset_max } ∷ [];
  frame_arrival_time_map = [];
}

unfoldable pub sequencer_buffer : ℕ → SequencerBuffer
unfolding clear
sequencer_buffer capacity = clear record {
  max_buffer_capacity_bytes = capacity;
  total_bytes_read = 0;
  gaps = [];
  blocks = null_blocks;
  num_bytes_buffered = 0;
  frame_arrival_time_map = [];
}

unfoldable pub get_block_index : ℕ → ℕ → ℕ
get_block_index capacity offset = (offset % capacity) / block_size_bytes

unfoldable pub get_in_block_offset : ℕ → ℕ → ℕ
get_in_block_offset capacity offset = (offset % capacity) % block_size_bytes

unfoldable pub get_block_capacity : ℕ → ℕ → ℕ
unfolding blocks_count
get_block_capacity capacity index =
    let result : ℕ = capacity % block_size_bytes in
    if (index + 1) == blocks_count capacity
    then (if result == 0 then block_size_bytes else result)
    else block_size_bytes

-- gaps_.front() and gaps_.back(); gaps_ is never empty.
abbrev pub front_gap : List Gap → Gap
front_gap [] = record { begin_offset = 0; end_offset = 0 }
front_gap (g ∷ gs) = g

abbrev pub back_gap : List Gap → Gap
back_gap [] = record { begin_offset = 0; end_offset = 0 }
back_gap (g ∷ []) = g
back_gap (g ∷ h ∷ gs) = back_gap (h ∷ gs)

abbrev pub set_block : Blocks → ℕ → Option (ℕ → ℕ) → Blocks
set_block blocks index block i = if i == index then block else blocks i

unfoldable pub readable_bytes : SequencerBuffer → ℕ
readable_bytes s = sub64 (front_gap s.gaps).begin_offset s.total_bytes_read

unfoldable pub has_bytes_to_read : SequencerBuffer → Bool
unfolding readable_bytes
has_bytes_to_read s = ltb 0 (readable_bytes s)

unfoldable pub empty : SequencerBuffer → Bool
empty s = (length s.gaps == 1) && ((front_gap s.gaps).begin_offset == s.total_bytes_read)

unfoldable pub flush_buffered_frames : SequencerBuffer → ℕ × SequencerBuffer
unfolding clear
flush_buffered_frames s =
    let end : ℕ = (back_gap s.gaps).begin_offset in
    (sub64 end s.total_bytes_read, clear (record s { total_bytes_read = end }))

-- Clear; that the array is freed is the same here as that all blocks are.
unfoldable pub release_whole_buffer : SequencerBuffer → SequencerBuffer
unfolding clear
release_whole_buffer s = clear s
