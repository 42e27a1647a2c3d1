-- ===== src/Sequencer/Order.antt =====
-- The buffer as its user sees it: a queue of the bytes of the stream, whatever the order of the frames.
use puic.Prelude.{ℕ, ◌+◌, ◌*◌, ◌^◌, ◌≤◌, ◌<◌, ◌≡◌, refl, sym, ap, ap₂, arith, ◌∙◌, min}
use puic.Prelude.{take, inl, inr, List, [], ◌++◌, IsU64}
use puic.Sequencer.{SequencerBuffer, front_gap, sequencer_buffer, readable_bytes}
use puic.Sequencer.Write.{on_stream_data}
use puic.Sequencer.Read.{copy_from, readv, mark_consumed}
use puic.Sequencer.Regions.{get_readable_regions, region_bytes, region_lengths}
use puic.Sequencer.Memory.{take-copy_from}
use puic.Sequencer.Shown.{IsShown, get_readable_regions-IsShown}
use puic.Sequencer.Gaps.{IsChain, front-StartBy}
use puic.Sequencer.Receive.{IsValid, on_stream_data_lem}
use puic.Sequencer.Take.{readable_bytes_lem}
use puic.Sequencer.Deliver.{mark_consumed_lem, readv_lem, copy_from-append, total}

pub sequencer_buffer-IsValid :
    (stream : ℕ → ℕ) (cap : ℕ) → 8192 < cap → cap < 2 ^ 62 → IsValid stream (sequencer_buffer cap)
unfolding sequencer_buffer IsChain
sequencer_buffer-IsValid stream cap h k = record {
  room = h;
  bound = omega (arith, k);
  chain = (omega arith, omega arith, omega arith);
  begins = (omega arith, tt);
  holds = λ x e. absurd (ground (arith, e));
}

-- Frames of the stream come, in any order and any pieces, and the bytes read so far are `out`, by Readv
-- or by GetReadableRegions and MarkConsumed for no more than the regions hold. The
-- buffer stays far from the end of the range of offsets.
pub data Runs (stream : ℕ → ℕ) (cap : ℕ) : SequencerBuffer → List ℕ → Type 0 where
  start : Runs stream cap (sequencer_buffer cap) []
  frame :
      {s : SequencerBuffer} {out : List ℕ} (offset n time : ℕ)
      → Runs stream cap s out
      → IsU64 offset
      → n < 2 ^ 62
      → 0 < n
      → Runs stream cap (on_stream_data s offset (copy_from stream offset n) time).2 out
  read :
      {s : SequencerBuffer} {out : List ℕ} (lens : List ℕ)
      → Runs stream cap s out
      → s.total_bytes_read + 2 * cap < 2 ^ 62
      → Runs stream cap (readv s lens).2 (out ++ (readv s lens).1)
  look :
      {s : SequencerBuffer} {out : List ℕ} (count n : ℕ)
      → Runs stream cap s out
      → s.total_bytes_read + 2 * cap < 2 ^ 62
      → 0 < count
      → n ≤ total (region_lengths (get_readable_regions s count))
      → Runs stream cap
          (mark_consumed s n).1
          (out ++ take n (region_bytes s (get_readable_regions s count)))

-- However the peer cuts its stream into frames and in whatever order, once or twice, they come, the
-- bytes that the user has read, by Readv or by GetReadableRegions and MarkConsumed, are the first bytes
-- of the stream, in order, and the buffer is valid.
pub in_order :
    {stream : ℕ → ℕ} {cap : ℕ} {s : SequencerBuffer} {out : List ℕ}
    → Runs stream cap s out
    → 8192 < cap
    → cap < 2 ^ 62
    → IsValid stream s
      × (s.max_buffer_capacity_bytes ≡ cap)
      × (out ≡ copy_from stream 0 s.total_bytes_read)
unfolding IsShown
in_order {stream} {cap} start h k = (
  sequencer_buffer-IsValid stream cap h k,
  unfold sequencer_buffer in refl,
  unfold sequencer_buffer in refl,
)
in_order {stream} (frame offset n time r u w p) h k =
    let (v, c, o) = in_order r h k in
    let (a, t, d, e) = on_stream_data_lem v offset n time u w p in
    (a, d ∙ c, o ∙ ap (copy_from stream 0) (sym t))
in_order {stream} {cap} (read {s} {out} lens r b) h k =
    let (v, c, o) = in_order r h k in
    let (f, e, a) = readv_lem v lens (omega (arith, front-StartBy s.gaps _ v.begins, b, c)) in
    let m : ℕ = min (total lens) (readable_bytes s) in
    let z : s.total_bytes_read ≡ 0 + s.total_bytes_read = omega arith in
    let y : s.total_bytes_read + m ≡ (readv s lens).2.total_bytes_read = omega (arith, a.2) in
    (
      a.0,
      a.3 ∙ c,
      ap₂ (λ xs ys. xs ++ ys) o (e ∙ ap (λ i. copy_from stream i m) z)
          ∙ copy_from-append stream 0 s.total_bytes_read m
          ∙ ap (copy_from stream 0) y,
    )
in_order {stream} {cap} (look {s} {out} count n r b p l) h k =
    let (v, c, o) = in_order r h k in
    let e : (front_gap s.gaps).begin_offset + s.max_buffer_capacity_bytes < 2 ^ 62 =
      omega (arith, front-StartBy s.gaps _ v.begins, b, c) in
    let (d, t, f) = get_readable_regions-IsShown v count p in
    elim (mark_consumed_lem v n e) [
      | inl (i, j, a) ↦
          let z : s.total_bytes_read ≡ 0 + s.total_bytes_read = omega arith in
          let y : s.total_bytes_read + n ≡ (mark_consumed s n).1.total_bytes_read =
            omega (arith, a.2) in
          (
            a.0,
            a.3 ∙ c,
            ap₂ (λ xs ys. xs ++ ys) o
                  (ap (take n) t
                    ∙ take-copy_from stream s.total_bytes_read _ n l
                    ∙ ap (λ i. copy_from stream i n) z)
                ∙ copy_from-append stream 0 s.total_bytes_read n
                ∙ ap (copy_from stream 0) y,
          )
      | inr (i, j) ↦ absurd (omega (arith, i, l, d, readable_bytes_lem v))
    ]
