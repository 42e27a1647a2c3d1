-- ===== src/Sequencer/Receive.antt =====
-- OnStreamData on a stream that the peer sends: what it takes, and what it refuses.
use puic.Prelude.{
  ℕ, zero, suc, ◌+◌, ◌^◌, ◌≤◌, ◌<◌, ◌≡◌, refl, sym, ap, arith, ◌∙◌, inl, inr, Bool-cases, Bool,
  true, false,
}
use puic.Prelude.{
  ltb, leb, not, ◌&&◌, ◌||◌, ◌==◌, if-cases, List, [], ◌∷◌, ◌++◌, length, add64, IsU64,
}
use puic.Sequencer.{SequencerBuffer, Gap, offset_max, max_num_gaps_allowed}
use puic.Sequencer.Write.{
  QuicErrorCode, no_error, empty_stream_frame_no_fin, internal_error, overlapping_stream_data,
}
use puic.Sequencer.Write.{
  too_many_frame_gaps, stream_sequencer_invalid_state, copy_stream_data, find_gap, update_gap,
}
use puic.Sequencer.Write.{after_copy, buffer_in_gap, on_stream_data}
use puic.Sequencer.Read.{copy_from}
use puic.Sequencer.Memory.{Holds, InRound, in_range, length-copy_from}
use puic.Sequencer.Copy.{copy_stream_data-Holds}
use puic.Sequencer.Gaps.{
  chain-lo, IsChain, in_gaps, is_held, held-below_back, StartBy, back-StartBy, at-StartBy,
}
use puic.Sequencer.Gaps.{
  update_gap-StartBy, update_gap-IsChain, update_gap-in_gaps, find_gap-append, find_gap-in_gaps,
}

abbrev pub held : SequencerBuffer → ℕ → Bool
held s = is_held s.total_bytes_read s.gaps

-- `stream` is what the peer sends: every byte that was received and not read is in its block.
pub record IsValid (stream : ℕ → ℕ) (s : SequencerBuffer) : Type 0 where
  pub room : 8192 < s.max_buffer_capacity_bytes
  pub bound : s.total_bytes_read + s.max_buffer_capacity_bytes < 2 ^ 62
  pub chain : IsChain s.gaps s.total_bytes_read
  pub begins : StartBy (s.total_bytes_read + s.max_buffer_capacity_bytes) s.gaps
  pub holds : Holds s.max_buffer_capacity_bytes stream s.blocks (is_held s.total_bytes_read s.gaps)

abbrev pub is_fine : QuicErrorCode → Bool
is_fine no_error = true
is_fine empty_stream_frame_no_fin = false
is_fine internal_error = false
is_fine overlapping_stream_data = false
is_fine too_many_frame_gaps = false
is_fine stream_sequencer_invalid_state = false

pub held-InRound :
    {stream : ℕ → ℕ} {s : SequencerBuffer}
    → IsValid stream s
    → InRound s.max_buffer_capacity_bytes s.total_bytes_read (held s)
held-InRound {stream} {s} v x h =
    let l =
      held-below_back s.gaps s.total_bytes_read x v.chain (omega (arith, v.bound))
        (ground (arith, h)) (ground (arith, h)) in
    (ground (arith, h), omega (arith, l, back-StartBy s.gaps _ v.begins))

-- What became of a frame.
abbrev pub IsTaken :
    (ℕ → ℕ) → SequencerBuffer → ℕ → ℕ → QuicErrorCode × ℕ × SequencerBuffer → Type 0
IsTaken stream s offset size r =
    IsValid stream r.2
    × (r.2.total_bytes_read ≡ s.total_bytes_read)
    × (r.2.max_buffer_capacity_bytes ≡ s.max_buffer_capacity_bytes)
    × ((x : ℕ)
        → held r.2 x
          ≡ (held s x || (is_fine r.0 && leb s.total_bytes_read x && in_range offset size x)))

refused :
    {stream : ℕ → ℕ} {s : SequencerBuffer} (offset size : ℕ) (e : QuicErrorCode)
    → is_fine e ≡ false
    → IsValid stream s
    → IsTaken stream s offset size (e, 0, s)
refused {s} offset size e f v = (v, refl, refl, λ x. ground (arith, f))

-- Data that lies in one gap.
module _ {stream : ℕ → ℕ} {s : SequencerBuffer} (v : IsValid stream s) (offset size : ℕ)
    (before after : List Gap) (g : Gap) (split : before ++ g ∷ after ≡ s.gaps)
    (b : g.begin_offset ≤ offset) (e : offset + size ≤ g.end_offset) (p : 0 < size)
    (l : offset + size ≤ s.total_bytes_read + s.max_buffer_capacity_bytes) where
  chained : IsChain (before ++ g ∷ after) s.total_bytes_read
  chained = rw split v.chain

  started : StartBy (s.total_bytes_read + s.max_buffer_capacity_bytes) (before ++ g ∷ after)
  started = rw split v.begins

  new_held :
      (x : ℕ)
      → is_held s.total_bytes_read (before ++ update_gap g offset size ++ after) x
        ≡ (held s x || (leb s.total_bytes_read x && in_range offset size x))
  new_held x =
      let m : offset + size < offset_max = omega (arith, l, v.bound) in
      rw (update_gap-in_gaps g offset size b e p m before after s.total_bytes_read x chained)
        (rw split (ground (arith, m)))

  filled :
      (time : ℕ)
      → IsTaken stream s offset size (
          after_copy s offset size time before g after (
            copy_stream_data size s.max_buffer_capacity_bytes
              (s.total_bytes_read + s.max_buffer_capacity_bytes)
              s.blocks
              offset
              (copy_from stream offset size)))
  unfolding after_copy
  filled time =
      let m : offset + size < offset_max = omega (arith, l, v.bound) in
      let (t, c, h) =
        copy_stream_data-Holds size s.max_buffer_capacity_bytes s.total_bytes_read stream (held s)
          s.blocks offset size (held-InRound v) v.holds (omega arith)
          (omega (arith, b, chain-lo before g after _ chained)) l in
      rw t (
        rw c (
          record {
            room = v.room;
            bound = v.bound;
            chain = update_gap-IsChain g offset size b e p m before after _ chained;
            begins = update_gap-StartBy g offset size before after _ l started;
            holds = λ x k. h x (ground (arith, sym (new_held x) ∙ k));
          },
          refl,
          refl,
          new_held,
        ))

-- All bytes of a frame that ends before the gap are there, or were read.
duplicate :
    {stream : ℕ → ℕ} {s : SequencerBuffer} (v : IsValid stream s) (offset size begin : ℕ)
    (free : (x : ℕ) → offset ≤ x → x < begin → in_gaps s.gaps x ≡ false)
    → begin ≤ s.total_bytes_read + s.max_buffer_capacity_bytes
    → offset + size ≤ begin
    → IsTaken stream s offset size (no_error, 0, s)
duplicate {stream} {s} v offset size begin free m k = (
  v,
  refl,
  refl,
  λ x. elim (Bool-cases (in_range offset size x)) [
    | inl t ↦ ground (arith, t, free x (ground (arith, t)) (ground (arith, t, k)), v.bound, m, k)
    | inr f ↦ ground (arith, f)
  ],
)

buffer_in_gap-IsTaken :
    {stream : ℕ → ℕ} {s : SequencerBuffer} (v : IsValid stream s) (offset n time : ℕ)
    → IsU64 offset
    → n < 2 ^ 62
    → (before after : List Gap) (g : Gap) → (split : before ++ g ∷ after ≡ s.gaps)
    → (free : (x : ℕ) → offset ≤ x → x < g.begin_offset → in_gaps s.gaps x ≡ false) → 0 < n
    → IsTaken stream s offset n
        (buffer_in_gap s offset (copy_from stream offset n) time before (g ∷ after))
unfolding buffer_in_gap
buffer_in_gap-IsTaken {stream} {s} v offset n time u w before after g split free p =
    let P : QuicErrorCode × ℕ × SequencerBuffer → Type 0 = IsTaken stream s offset n in
    let began : StartBy (s.total_bytes_read + s.max_buffer_capacity_bytes) (before ++ g ∷ after) =
      rw split v.begins in
    let start : g.begin_offset ≤ s.total_bytes_read + s.max_buffer_capacity_bytes =
      at-StartBy before after g _ began in
    let limit : add64 s.total_bytes_read s.max_buffer_capacity_bytes
        ≡ s.total_bytes_read + s.max_buffer_capacity_bytes =
      omega (arith, v.bound) in
    rw limit (
      rw (length-copy_from stream offset n) (
        if-cases P (ltb offset g.begin_offset && leb (add64 offset n) g.begin_offset)
          (λ t. duplicate v offset n g.begin_offset free start (ground (arith, t, start, v.bound)))
          (λ a.
            if-cases P (ltb offset g.begin_offset && ltb g.begin_offset (add64 offset n))
              (λ t. refused offset n overlapping_stream_data refl v)
              (λ b.
                if-cases P (ltb g.end_offset (add64 offset n))
                  (λ t. refused offset n overlapping_stream_data refl v)
                  (λ c.
                    if-cases P
                      (ltb (s.total_bytes_read + s.max_buffer_capacity_bytes) (add64 offset n)
                        || ltb (add64 offset n) offset)
                      (λ t. refused offset n internal_error refl v)
                      (λ d.
                        if-cases P
                          (not (g.begin_offset == offset)
                            && not (g.end_offset == add64 offset n)
                            && leb max_num_gaps_allowed (length s.gaps))
                          (λ t. refused offset n too_many_frame_gaps refl v)
                          (λ f.
                            let sum : add64 offset n ≡ offset + n = ground (arith, d, u, w) in
                            filled v offset n before after g split (ground (arith, a, b, d, p))
                              (ground (arith, c, sum)) p (ground (arith, d, sum)) time)))))))

on_gap-IsTaken :
    {stream : ℕ → ℕ} {s : SequencerBuffer} (v : IsValid stream s) (offset n time : ℕ)
    → IsU64 offset
    → n < 2 ^ 62
    → 0 < n
    → (before rest : List Gap) → find_gap s.gaps offset ≡ (before, rest)
    → IsTaken stream s offset n
        (buffer_in_gap s offset (copy_from stream offset n) time before rest)
unfolding buffer_in_gap
on_gap-IsTaken v offset n time u w p before [] e = refused offset n internal_error refl v
on_gap-IsTaken {s} v offset n time u w p before (g ∷ after) e =
    buffer_in_gap-IsTaken v offset n time u w before after g
      (sym (ap (λ r. r.0 ++ r.1) e) ∙ find_gap-append s.gaps offset)
      (λ x h k.
        find_gap-in_gaps s.gaps offset s.total_bytes_read x g after v.chain (ap (λ r. r.1) e) h k)
      p

-- Whatever is buffered so far and wherever a frame of the stream starts, OnStreamData keeps the buffer
-- valid and does not move what was read; when it reports no error, exactly the bytes of the frame that
-- were not read yet are held in addition, and when it reports an error nothing is.
pub on_stream_data_lem :
    {stream : ℕ → ℕ} {s : SequencerBuffer}
    → IsValid stream s
    → (offset n time : ℕ) → IsU64 offset
    → n < 2 ^ 62
    → 0 < n
    → IsTaken stream s offset n (on_stream_data s offset (copy_from stream offset n) time)
unfolding on_stream_data
on_stream_data_lem v offset zero time u w p = absurd (omega arith)
on_stream_data_lem {s} v offset (suc n) time u w p =
    on_gap-IsTaken v offset (suc n) time u w p (find_gap s.gaps offset).0 (find_gap s.gaps offset).1
      refl
