-- ===== src/Reading.antt =====
-- QuicStreamSequencer (puicbase/net/quic/core/quic_stream_sequencer.{h,cc}) on top of its buffer: the
-- end of the stream, what the stream is told, and what it counts as consumed. Calls of the stream are
-- events, in order. A stream that reads when it is told of data does so by later calls here: in the
-- source it can read inside the call, before MaybeCloseStream clears the buffer or the data of the
-- frame with the FIN is looked at. A frame's data comes with the time of its arrival. The counters of
-- frames, which only statistics read, do not wrap.
pub mod Kept
pub mod Users
pub mod Accounts
pub mod Fin
mod Examples
use puic.Prelude.{
  ℕ, ◌+◌, ◌==◌, ltb, leb, if◌then◌else◌, Bool, true, false, not, ◌&&◌, ◌||◌, List, [], ◌∷◌, ◌++◌,
  length, add64,
}
use puic.Sequencer.{
  SequencerBuffer, sequencer_buffer, offset_max, clear, flush_buffered_frames, release_whole_buffer,
  has_bytes_to_read, empty,
}
use puic.Sequencer.Write.{QuicErrorCode, no_error, on_stream_data}
use puic.Sequencer.Read.{is_nil, readv, mark_consumed}
use puic.Sequencer.Receive.{is_fine}

pub record StreamSequencer : Type 0 where
  pub buffered_frames : SequencerBuffer
  pub close_offset : ℕ
  pub blocked : Bool
  pub ignore_read_data : Bool
  pub num_frames_received : ℕ
  pub num_duplicate_frames_received : ℕ

pub data StreamEvent : Type 0 where
  data_available fin_read reset_multiple_termination_offsets : StreamEvent
  reset_error_processing_stream : StreamEvent
  bytes_consumed : ℕ → StreamEvent
  close_connection : QuicErrorCode → StreamEvent

abbrev pub stream_receive_window_limit : ℕ
stream_receive_window_limit = 16777216

unfoldable pub stream_sequencer : StreamSequencer
stream_sequencer = record {
  buffered_frames = sequencer_buffer stream_receive_window_limit;
  close_offset = offset_max;
  blocked = false;
  ignore_read_data = false;
  num_frames_received = 0;
  num_duplicate_frames_received = 0;
}

unfoldable pub is_closed : StreamSequencer → Bool
is_closed s = leb s.close_offset s.buffered_frames.total_bytes_read

-- What the stream is told, and the sequencer after it; no caller reads the result.
unfoldable pub maybe_close_stream : StreamSequencer → List StreamEvent × StreamSequencer
unfolding is_closed
maybe_close_stream s = if s.blocked || not (is_closed s) then ([], s) else (
  (if s.ignore_read_data then fin_read else data_available) ∷ [],
  record s { buffered_frames = clear s.buffered_frames },
)

-- If there is a scheduled close, the new offset should match it.
unfoldable pub close_stream_at_offset : StreamSequencer → ℕ → List StreamEvent × StreamSequencer
unfolding maybe_close_stream
close_stream_at_offset s offset =
    if not (s.close_offset == offset_max) && not (offset == s.close_offset)
    then (reset_multiple_termination_offsets ∷ [], s)
    else maybe_close_stream (record s { close_offset = offset })

unfoldable pub flush : StreamSequencer → List StreamEvent × StreamSequencer
unfolding maybe_close_stream
flush s =
    let (bytes_flushed, buffer) = flush_buffered_frames s.buffered_frames in
    let r : List StreamEvent × StreamSequencer =
      maybe_close_stream (record s { buffered_frames = buffer }) in
    (bytes_consumed bytes_flushed ∷ r.0, r.1)

-- The rest of OnStreamFrame, with what OnStreamData answered.
unfoldable pub after_data :
    StreamSequencer → ℕ → QuicErrorCode → ℕ → List StreamEvent × StreamSequencer
unfolding flush
after_data s byte_offset result bytes_written =
    if not (is_fine result)
    then (close_connection result ∷ [], s)
    else if bytes_written == 0
    then ([], record s { num_duplicate_frames_received = s.num_duplicate_frames_received + 1 })
    else if s.blocked
    then ([], s)
    else if byte_offset == s.buffered_frames.total_bytes_read
    then (if s.ignore_read_data then flush s else (data_available ∷ [], s))
    else ([], s)

unfoldable pub buffer_data : StreamSequencer → ℕ → List ℕ → ℕ → List StreamEvent × StreamSequencer
unfolding after_data
buffer_data s byte_offset bytes time =
    let r : QuicErrorCode × ℕ × SequencerBuffer =
      on_stream_data s.buffered_frames byte_offset bytes time in
    after_data (record s { buffered_frames = r.2 }) byte_offset r.0 r.1

unfoldable pub counted : StreamSequencer → StreamSequencer
counted s = record s { num_frames_received = s.num_frames_received + 1 }

-- The part of OnStreamFrame that deals with a FIN.
unfoldable pub close_at_fin :
    StreamSequencer → ℕ → List ℕ → Bool → List StreamEvent × StreamSequencer
unfolding close_stream_at_offset
close_at_fin s byte_offset bytes fin =
    if fin then close_stream_at_offset s (add64 byte_offset (length bytes)) else ([], s)

unfoldable pub on_stream_frame :
    StreamSequencer → ℕ → List ℕ → Bool → ℕ → List StreamEvent × StreamSequencer
unfolding close_at_fin buffer_data counted
on_stream_frame s byte_offset bytes fin time =
    let first : List StreamEvent × StreamSequencer =
      close_at_fin (counted s) byte_offset bytes fin in
    let rest : List StreamEvent × StreamSequencer = buffer_data first.1 byte_offset bytes time in
    if fin && is_nil bytes then first else (first.0 ++ rest.0, rest.1)

-- The bytes read, with what the stream is told.
unfoldable pub sequencer_readv :
    StreamSequencer → List ℕ → List ℕ × List StreamEvent × StreamSequencer
sequencer_readv s lens =
    let r : QuicErrorCode × List ℕ × SequencerBuffer = readv s.buffered_frames lens in
    let event : StreamEvent =
      if not (is_fine r.0) then close_connection r.0 else bytes_consumed (length r.1) in
    (r.1, event ∷ [], record s { buffered_frames = r.2 })

unfoldable pub sequencer_mark_consumed : StreamSequencer → ℕ → List StreamEvent × StreamSequencer
sequencer_mark_consumed s num_bytes =
    let r : Bool × SequencerBuffer = mark_consumed s.buffered_frames num_bytes in
    (
      (if not r.0 then reset_error_processing_stream else bytes_consumed num_bytes) ∷ [],
      record s { buffered_frames = r.1 },
    )

unfoldable pub set_blocked_until_flush : StreamSequencer → StreamSequencer
set_blocked_until_flush s = record s { blocked = true }

unfoldable pub set_unblocked : StreamSequencer → List StreamEvent × StreamSequencer
unfolding is_closed
set_unblocked s = (
  if is_closed s || has_bytes_to_read s.buffered_frames then data_available ∷ [] else [],
  record s { blocked = false },
)

unfoldable pub stop_reading : StreamSequencer → List StreamEvent × StreamSequencer
unfolding flush
stop_reading s =
    if s.ignore_read_data then ([], s) else flush (record s { ignore_read_data = true })

unfoldable pub release_buffer : StreamSequencer → StreamSequencer
release_buffer s = record s { buffered_frames = release_whole_buffer s.buffered_frames }

unfoldable pub release_buffer_if_empty : StreamSequencer → StreamSequencer
unfolding release_buffer
release_buffer_if_empty s = if empty s.buffered_frames then release_buffer s else s
