-- ===== src/Reading/Kept.antt =====
-- What is counted as consumed is what the offset of reading has passed, and the buffer stays valid.
use puic.Prelude.{
  ℕ, zero, suc, ◌+◌, ◌*◌, ◌^◌, ◌≤◌, ◌<◌, ◌≡◌, refl, arith, Bool, true, false, not, ◌&&◌, ◌||◌, ◌∙◌,
  if-cases,
}
use puic.Prelude.{List, [], ◌∷◌, ◌++◌, length, IsU64, ltb, ◌==◌}
use puic.Sequencer.{SequencerBuffer, Gap, offset_max, back_gap, clear, flush_buffered_frames}
use puic.Sequencer.Write.{QuicErrorCode, on_stream_data}
use puic.Sequencer.Read.{copy_from}
use puic.Prelude.{add64}
use puic.Sequencer.Read.{is_nil}
use puic.Sequencer.Gaps.{IsChain-le, IsChain, back-StartBy}
use puic.Sequencer.Receive.{IsValid, is_fine, on_stream_data_lem}
use puic.Reading.{
  StreamSequencer, StreamEvent, data_available, fin_read, reset_multiple_termination_offsets,
  reset_error_processing_stream, bytes_consumed, close_connection, is_closed, maybe_close_stream,
  close_stream_at_offset, flush, after_data, buffer_data, counted, close_at_fin, on_stream_frame,
}
use puic.Reading.{}

-- What the stream is told to count.
abbrev pub consumed : List StreamEvent → ℕ
consumed [] = 0
consumed (bytes_consumed n ∷ es) = n + consumed es
consumed (data_available ∷ es) = consumed es
consumed (fin_read ∷ es) = consumed es
consumed (reset_multiple_termination_offsets ∷ es) = consumed es
consumed (reset_error_processing_stream ∷ es) = consumed es
consumed (close_connection e ∷ es) = consumed es

pub consumed-append : (es fs : List StreamEvent) → consumed (es ++ fs) ≡ consumed es + consumed fs
consumed-append [] fs = omega arith
consumed-append (bytes_consumed n ∷ es) fs = omega (arith, consumed-append es fs)
consumed-append (data_available ∷ es) fs = consumed-append es fs
consumed-append (fin_read ∷ es) fs = consumed-append es fs
consumed-append (reset_multiple_termination_offsets ∷ es) fs = consumed-append es fs
consumed-append (reset_error_processing_stream ∷ es) fs = consumed-append es fs
consumed-append (close_connection e ∷ es) fs = consumed-append es fs

abbrev pub offset_of : StreamSequencer → ℕ
offset_of s = s.buffered_frames.total_bytes_read

abbrev pub capacity_of : StreamSequencer → ℕ
capacity_of s = s.buffered_frames.max_buffer_capacity_bytes

-- The sequencer after some events.
abbrev pub Counts : (ℕ → ℕ) → StreamSequencer → List StreamEvent × StreamSequencer → Type 0
Counts stream s r =
    IsValid stream r.1.buffered_frames
    × (offset_of r.1 ≡ offset_of s + consumed r.0)
    × (capacity_of r.1 ≡ capacity_of s)

back_gap-lo :
    (gs : List Gap) (lo : ℕ) → IsChain gs lo → lo ≤ offset_max → lo ≤ (back_gap gs).begin_offset
unfolding IsChain
back_gap-lo [] lo c h = absurd (omega arith)
back_gap-lo (g ∷ []) lo c h = c.0
back_gap-lo (g ∷ k ∷ gs) lo c h = omega (
  arith,
  c,
  back_gap-lo (k ∷ gs) (suc g.end_offset) c.2
      (omega (arith, c, IsChain-le gs (suc k.end_offset) c.2.2)),
)

-- An empty buffer that starts where reading has got to.
cleared-IsValid :
    (stream : ℕ → ℕ) (b : SequencerBuffer)
    → 8192 < b.max_buffer_capacity_bytes
    → b.total_bytes_read + b.max_buffer_capacity_bytes < 2 ^ 62
    → IsValid stream (clear b)
unfolding clear IsChain
cleared-IsValid stream b r h = record {
  room = r;
  bound = h;
  chain = (omega arith, omega arith, refl);
  begins = (omega arith, tt);
  holds = λ x e. absurd (ground (arith, e));
}

pub clear-IsValid :
    (stream : ℕ → ℕ) (b : SequencerBuffer) → IsValid stream b → IsValid stream (clear b)
clear-IsValid stream b v = cleared-IsValid stream b v.room v.bound

module _ (stream : ℕ → ℕ) where
  maybe_close_stream-Counts :
      (s : StreamSequencer)
      → IsValid stream s.buffered_frames
      → Counts stream s (maybe_close_stream s)
  unfolding maybe_close_stream
  maybe_close_stream-Counts s v =
      if-cases (Counts stream s) (s.blocked || not (is_closed s)) (λ _. (v, omega arith, refl))
        (λ _. (
          clear-IsValid stream s.buffered_frames v,
          unfold clear in ground arith,
          unfold clear in refl,
        ))

  close_stream_at_offset-Counts :
      (s : StreamSequencer) (offset : ℕ)
      → IsValid stream s.buffered_frames
      → Counts stream s (close_stream_at_offset s offset)
  unfolding close_stream_at_offset
  close_stream_at_offset-Counts s offset v =
      if-cases (Counts stream s)
        (not (s.close_offset == offset_max) && not (offset == s.close_offset))
        (λ _. (v, omega arith, refl))
        (λ _. maybe_close_stream-Counts (record s { close_offset = offset }) v)

  -- Flushing drops what is buffered, up to the end of what was received.
  flushed-IsValid :
      (b : SequencerBuffer)
      → IsValid stream b
      → b.total_bytes_read + 2 * b.max_buffer_capacity_bytes < 2 ^ 62
      → let r = flush_buffered_frames b in
        IsValid stream r.1
        × (r.1.total_bytes_read ≡ b.total_bytes_read + r.0)
        × (r.1.max_buffer_capacity_bytes ≡ b.max_buffer_capacity_bytes)
  unfolding flush_buffered_frames
  flushed-IsValid b v far =
      let end : ℕ = (back_gap b.gaps).begin_offset in
      let l : b.total_bytes_read ≤ end =
        back_gap-lo b.gaps b.total_bytes_read v.chain (omega (arith, v.bound)) in
      let u : end ≤ b.total_bytes_read + b.max_buffer_capacity_bytes =
        back-StartBy b.gaps _ v.begins in
      (
        cleared-IsValid stream (record b { total_bytes_read = end }) v.room (omega (arith, u, far)),
        unfold clear in omega (arith, l, u, far),
        unfold clear in refl,
      )

  pub flush-Counts :
      (s : StreamSequencer)
      → IsValid stream s.buffered_frames
      → offset_of s + 2 * capacity_of s < 2 ^ 62
      → Counts stream s (flush s)
  unfolding flush
  flush-Counts s v far =
      let f = flushed-IsValid s.buffered_frames v far in
      let t : StreamSequencer = record s {
        buffered_frames = (flush_buffered_frames s.buffered_frames).1;
      } in
      let m = maybe_close_stream-Counts t f.0 in (m.0, omega (arith, m.1, f.1), m.2 ∙ f.2)

  after_data-Counts :
      (s : StreamSequencer) (offset : ℕ) (result : QuicErrorCode) (written : ℕ)
      → IsValid stream s.buffered_frames
      → offset_of s + 2 * capacity_of s < 2 ^ 62
      → Counts stream s (after_data s offset result written)
  unfolding after_data
  after_data-Counts s offset result written v far =
      let still : (es : List StreamEvent) → consumed es ≡ 0 → Counts stream s (es, s) =
        λ es z. (v, omega (arith, z), refl) in
      if-cases (Counts stream s) (not (is_fine result))
        (λ _. still (close_connection result ∷ []) refl)
        (λ _.
          if-cases (Counts stream s) (written == 0) (λ _. (v, omega arith, refl))
            (λ _.
              if-cases (Counts stream s) s.blocked (λ _. still [] refl)
                (λ _.
                  if-cases (Counts stream s) (offset == offset_of s)
                    (λ _.
                      if-cases (Counts stream s) s.ignore_read_data (λ _. flush-Counts s v far)
                        (λ _. still (data_available ∷ []) refl))
                    (λ _. still [] refl))))

  -- A frame of the stream, with some data.
  buffer_data-Counts :
      (s : StreamSequencer) (offset n time : ℕ)
      → IsValid stream s.buffered_frames
      → offset_of s + 2 * capacity_of s < 2 ^ 62
      → IsU64 offset
      → n < 2 ^ 62
      → 0 < n
      → Counts stream s (buffer_data s offset (copy_from stream offset n) time)
  unfolding buffer_data
  buffer_data-Counts s offset n time v far u w p =
      let r = on_stream_data s.buffered_frames offset (copy_from stream offset n) time in
      let t : StreamSequencer = record s { buffered_frames = r.2 } in
      let (a, same, c, e) = on_stream_data_lem v offset n time u w p in
      let b = after_data-Counts t offset r.0 r.1 a (omega (arith, same, c, far)) in
      (b.0, omega (arith, b.1, same), b.2 ∙ c)

  close_at_fin-Counts :
      (s : StreamSequencer) (offset : ℕ) (bytes : List ℕ) (fin : Bool)
      → IsValid stream s.buffered_frames
      → Counts stream s (close_at_fin s offset bytes fin)
  unfolding close_at_fin
  close_at_fin-Counts s offset bytes fin v =
      if-cases (Counts stream s) fin
        (λ _. close_stream_at_offset-Counts s (add64 offset (length bytes)) v)
        (λ _. (v, omega arith, refl))

  close_at_fin-offset :
      (s : StreamSequencer) (offset : ℕ) (bytes : List ℕ) (fin : Bool)
      → offset_of (close_at_fin s offset bytes fin).1 ≡ offset_of s
  unfolding close_at_fin close_stream_at_offset maybe_close_stream clear
  close_at_fin-offset s offset bytes fin = ground arith

  pos_of :
      (n offset : ℕ) (fin : Bool)
      → (fin && is_nil (copy_from stream offset n)) ≡ false
      → (fin || ltb 0 n) ≡ true
      → 0 < n
  pos_of zero offset fin f p = absurd (ground (arith, f, p))
  pos_of (suc n) offset fin f p = omega arith

  pub Counts-trans :
      (s : StreamSequencer) (r q : List StreamEvent × StreamSequencer)
      → Counts stream s r
      → Counts stream r.1 q
      → Counts stream s (r.0 ++ q.0, q.1)
  Counts-trans s r q a b = (b.0, omega (arith, a.1, b.1, consumed-append r.0 q.0), b.2 ∙ a.2)

  pub on_stream_frame-Counts :
      (s : StreamSequencer) (offset n : ℕ) (fin : Bool) (time : ℕ)
      → IsValid stream s.buffered_frames
      → offset_of s + 2 * capacity_of s < 2 ^ 62
      → IsU64 offset
      → n < 2 ^ 62
      → (fin || ltb 0 n) ≡ true
      → Counts stream s (on_stream_frame s offset (copy_from stream offset n) fin time)
  unfolding on_stream_frame counted
  on_stream_frame-Counts s offset n fin time v far u w p =
      let bytes : List ℕ = copy_from stream offset n in
      let s0 : StreamSequencer = record s { num_frames_received = s.num_frames_received + 1 } in
      let first = close_at_fin s0 offset bytes fin in
      let a = close_at_fin-Counts s0 offset bytes fin v in
      if-cases (Counts stream s) (fin && is_nil bytes) (λ _. a)
        (λ f. Counts-trans s first (buffer_data first.1 offset bytes time) a (
          buffer_data-Counts first.1 offset n time a.0
            (omega (arith, a.2, far, close_at_fin-offset s0 offset bytes fin)) u w
            (pos_of n offset fin f p)))
