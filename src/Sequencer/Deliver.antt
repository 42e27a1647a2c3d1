-- ===== src/Sequencer/Deliver.antt =====
-- Readv and MarkConsumed take what is readable, in order, and leave the rest.
use puic.Prelude.{
  ℕ, zero, suc, ◌+◌, ◌-◌, ◌^◌, ◌≤◌, ◌<◌, ◌≡◌, refl, ap, ap₂, arith, ◌∙◌, Bool, true, false,
}
use puic.Prelude.{
  ◌||◌, ◌==◌, if-cases, List, [], ◌∷◌, ◌++◌, min, inl, inr, ◌⊎◌, ltb→lt, ltb_false→le, ltb,
}
use puic.Sequencer.{FrameInfo, SequencerBuffer, front_gap, readable_bytes}
use puic.Sequencer.Write.{QuicErrorCode, no_error}
use puic.Sequencer.Read.{copy_from, advance, available_in_block}
use puic.Sequencer.Read.{
  take_from_block, read_into, read_all, readv, is_nil, consume, mark_consumed,
}
use puic.Sequencer.Receive.{IsValid}
use puic.Sequencer.Take.{
  readable_bytes_lem, available_in_block-fits, block-there, take_from_block_lem, read_bytes,
}

-- `t` is `s` after `m` bytes were read.
abbrev pub IsAdvanced : (ℕ → ℕ) → SequencerBuffer → ℕ → SequencerBuffer → Type 0
IsAdvanced stream s m t =
    IsValid stream t
    × (t.gaps ≡ s.gaps)
    × (t.total_bytes_read ≡ s.total_bytes_read + m)
    × (t.max_buffer_capacity_bytes ≡ s.max_buffer_capacity_bytes)

abbrev pub IsRead : (ℕ → ℕ) → SequencerBuffer → ℕ → Bool × List ℕ × SequencerBuffer → Type 0
IsRead stream s m r =
    (r.0 ≡ true) × (r.1 ≡ copy_from stream s.total_bytes_read m) × IsAdvanced stream s m r.2

pub copy_from-append :
    (b : ℕ → ℕ) (i m n : ℕ) → copy_from b i m ++ copy_from b (i + m) n ≡ copy_from b i (m + n)
copy_from-append b i zero n = ap₂ (copy_from b) (omega arith) (omega arith)
copy_from-append b i (suc m) n =
    let e : i + suc m ≡ i + 1 + m = omega arith in
    let f : suc (m + n) ≡ suc m + n = omega arith in
    ap (λ xs. b i ∷ xs)
      (ap (λ j. copy_from b (i + 1) m ++ copy_from b j n) (e) ∙ copy_from-append b (i + 1) m n)
    ∙ ap (copy_from b i) f

-- Two reads, one behind the other.
IsAdvanced-trans :
    (stream : ℕ → ℕ) (s t u : SequencerBuffer) (m n k : ℕ)
    → m + n ≡ k
    → IsAdvanced stream s m t
    → IsAdvanced stream t n u
    → IsAdvanced stream s k u
IsAdvanced-trans stream s t u m n k e (v, g, o, c) (w, h, p, d) =
    (w, h ∙ g, omega (arith, o, p, e), d ∙ c)

IsRead-trans :
    (stream : ℕ → ℕ) (s t : SequencerBuffer) (m n k : ℕ) (bytes : List ℕ)
    (r : Bool × List ℕ × SequencerBuffer)
    → m + n ≡ k
    → bytes ≡ copy_from stream s.total_bytes_read m
    → IsAdvanced stream s m t
    → IsRead stream t n r
    → IsRead stream s k (r.0, bytes ++ r.1, r.2)
IsRead-trans stream s t m n k bytes r e b a (f, c, d) = (
  f,
  ap₂ (λ xs ys. xs ++ ys) b (c ∙ ap (λ o. copy_from stream o n) a.2)
      ∙ copy_from-append stream s.total_bytes_read m n
      ∙ ap (copy_from stream s.total_bytes_read) e,
  IsAdvanced-trans stream s t r.2 m n k e a d,
)

-- What is readable after `m` bytes.
readable-IsAdvanced :
    (stream : ℕ → ℕ) (s t : SequencerBuffer) (m : ℕ)
    → IsValid stream s
    → IsAdvanced stream s m t
    → readable_bytes t + m ≡ readable_bytes s
readable-IsAdvanced stream s t m v (w, g, o, c) =
    let e : (front_gap t.gaps).begin_offset ≡ (front_gap s.gaps).begin_offset =
      ap (λ gs. (front_gap gs).begin_offset) g in
    omega (arith, e, o, readable_bytes_lem v, readable_bytes_lem w)

bound-IsAdvanced :
    (stream : ℕ → ℕ) (s t : SequencerBuffer) (m : ℕ)
    → IsAdvanced stream s m t
    → (front_gap s.gaps).begin_offset + s.max_buffer_capacity_bytes < 2 ^ 62
    → (front_gap t.gaps).begin_offset + t.max_buffer_capacity_bytes < 2 ^ 62
bound-IsAdvanced stream s t m (w, g, o, c) b = rw g (rw c b)

-- A round of a loop.
round-IsAdvanced :
    {stream : ℕ → ℕ} {s : SequencerBuffer} (n : ℕ)
    → IsValid stream s
    → 0 < n
    → n ≤ available_in_block s
    → (front_gap s.gaps).begin_offset + s.max_buffer_capacity_bytes < 2 ^ 62
    → IsAdvanced stream s n (take_from_block s n).1
round-IsAdvanced n v p l b = unfold advance in (take_from_block_lem v n p l b).1

nothing-IsRead :
    {stream : ℕ → ℕ} {s : SequencerBuffer} {m : ℕ}
    → m ≡ 0
    → IsValid stream s
    → IsRead stream s m (true, [], s)
nothing-IsRead {stream} {s} e v = rw e (refl, refl, (v, refl, omega arith, refl))

read_into_lem :
    {stream : ℕ → ℕ} (fuel : ℕ) {s : SequencerBuffer} (remaining : ℕ)
    → IsValid stream s
    → (front_gap s.gaps).begin_offset + s.max_buffer_capacity_bytes < 2 ^ 62
    → remaining ≤ fuel
    → IsRead stream s (min remaining (readable_bytes s)) (read_into fuel s remaining)
unfolding read_into
read_into_lem {stream} zero {s} remaining v b h = nothing-IsRead (omega arith) v
read_into_lem {stream} (suc fuel) {s} remaining v b h =
    let n : ℕ = min (available_in_block s) remaining in
    let m : ℕ = min remaining (readable_bytes s) in
    let P : Bool × List ℕ × SequencerBuffer → Type 0 = IsRead stream s m in
    if-cases P ((remaining == 0) || (readable_bytes s == 0))
      (λ t. nothing-IsRead (ground (arith, t)) v)
      (λ t.
        let (a, c, d, f) = available_in_block-fits v in
        let p : 0 < n = ground (arith, t, d) in
        let (g, k) = take_from_block_lem v n p (omega arith) b in
        let s' : SequencerBuffer = (take_from_block s n).1 in
        let q : IsAdvanced stream s n s' = round-IsAdvanced n v p (omega arith) b in
        let r = readable-IsAdvanced stream s s' n v q in
        let more : IsRead stream s' (min (remaining - n) (readable_bytes s'))
            (read_into fuel s' (remaining - n)) =
          read_into_lem fuel (remaining - n) q.0 (bound-IsAdvanced stream s s' n q b)
            (omega (arith, p)) in
        rw (block-there v (omega (arith, p))) (
          rw g (
            IsRead-trans stream s s' n (min (remaining - n) (readable_bytes s')) m _
              (read_into fuel s' (remaining - n)) (omega (arith, r, a))
              (read_bytes v n (omega arith)) q more)))

abbrev pub total : List ℕ → ℕ
total [] = 0
total (len ∷ lens) = len + total lens

read_all_lem :
    {stream : ℕ → ℕ} (lens : List ℕ) {s : SequencerBuffer}
    → IsValid stream s
    → (front_gap s.gaps).begin_offset + s.max_buffer_capacity_bytes < 2 ^ 62
    → IsRead stream s (min (total lens) (readable_bytes s)) (read_all s lens)
unfolding read_all
read_all_lem [] v b = nothing-IsRead (omega arith) v
read_all_lem {stream} (len ∷ lens) {s} v b =
    let m : ℕ = min (total (len ∷ lens)) (readable_bytes s) in
    let n : ℕ = min len (readable_bytes s) in
    let r : Bool × List ℕ × SequencerBuffer = read_into len s len in
    let (f, c, a) = read_into_lem len len v b (omega arith) in
    let q : IsAdvanced stream s n r.2 = a in
    let l = readable-IsAdvanced stream s r.2 n v q in
    let k : ℕ = min (total lens) (readable_bytes r.2) in
    let more : IsRead stream r.2 k (read_all r.2 lens) =
      read_all_lem lens q.0 (bound-IsAdvanced stream s r.2 n q b) in
    if-cases (IsRead stream s m) (readable_bytes s == 0) (λ t. nothing-IsRead (ground (arith, t)) v)
      (λ t.
        rw f (IsRead-trans stream s r.2 n k m r.1 (read_all r.2 lens) (omega (arith, l)) c q more))

-- The arrival times are no matter here.
with_map-IsAdvanced :
    (stream : ℕ → ℕ) (s t : SequencerBuffer) (m : ℕ) (infos : List (ℕ × FrameInfo))
    → IsAdvanced stream s m t
    → IsAdvanced stream s m (record t { frame_arrival_time_map = infos })
with_map-IsAdvanced stream s t m infos (v, g, o, c) = (
  record { room = v.room; bound = v.bound; chain = v.chain; begins = v.begins; holds = v.holds },
  g,
  o,
  c,
)

-- Readv never fails on a valid buffer: it copies the next bytes of the stream, as many as there are
-- before the first gap and as the destinations hold, and keeps the buffer valid and its gaps.
pub readv_lem :
    {stream : ℕ → ℕ} {s : SequencerBuffer}
    → IsValid stream s
    → (lens : List ℕ) → (front_gap s.gaps).begin_offset + s.max_buffer_capacity_bytes < 2 ^ 62
    → let m = min (total lens) (readable_bytes s) in
      let r = readv s lens in
      (r.0 ≡ no_error) × (r.1 ≡ copy_from stream s.total_bytes_read m) × IsAdvanced stream s m r.2
unfolding readv
readv_lem {stream} {s} v lens b =
    let m : ℕ = min (total lens) (readable_bytes s) in
    let r : Bool × List ℕ × SequencerBuffer = read_all s lens in
    let (f, c, a) = read_all_lem lens v b in
    rw f (
      if-cases
        (λ (r : QuicErrorCode × List ℕ × SequencerBuffer).
          (r.0 ≡ no_error)
          × (r.1 ≡ copy_from stream s.total_bytes_read m)
          × IsAdvanced stream s m r.2)
        (is_nil r.1) (λ t. (refl, c, a)) (λ t. (refl, c, with_map-IsAdvanced stream s r.2 m _ a)))

consume_lem :
    {stream : ℕ → ℕ} (fuel : ℕ) {s : SequencerBuffer} (rest : ℕ)
    → IsValid stream s
    → (front_gap s.gaps).begin_offset + s.max_buffer_capacity_bytes < 2 ^ 62
    → rest ≤ fuel
    → rest ≤ readable_bytes s
    → IsAdvanced stream s rest (consume fuel s rest)
unfolding consume
consume_lem fuel zero v b h l = (v, refl, omega arith, refl)
consume_lem zero (suc rest) v b h l = absurd (omega arith)
consume_lem {stream} (suc fuel) {s} (suc rest) v b h l =
    let n : ℕ = min (suc rest) (available_in_block s) in
    let (a, c, d, f) = available_in_block-fits v in
    let p : 0 < n = omega (arith, d, l) in
    let s' : SequencerBuffer = (take_from_block s n).1 in
    let q : IsAdvanced stream s n s' = round-IsAdvanced n v p (omega arith) b in
    let r = readable-IsAdvanced stream s s' n v q in
    IsAdvanced-trans stream s s' _ n (suc rest - n) (suc rest) (omega arith) q (
      consume_lem fuel (suc rest - n) q.0 (bound-IsAdvanced stream s s' n q b) (omega (arith, p))
        (omega (arith, r, l)))

-- MarkConsumed moves over the bytes it is asked to, if so many are readable, keeps the buffer valid and
-- its gaps; else it changes nothing and returns false.
pub mark_consumed_lem :
    {stream : ℕ → ℕ} {s : SequencerBuffer}
    → IsValid stream s
    → (n : ℕ) → (front_gap s.gaps).begin_offset + s.max_buffer_capacity_bytes < 2 ^ 62
    → ((n ≤ readable_bytes s)
        × ((mark_consumed s n).0 ≡ true)
        × IsAdvanced stream s n (mark_consumed s n).1)
      ⊎ ((readable_bytes s < n) × (mark_consumed s n ≡ (false, s)))
unfolding mark_consumed
mark_consumed_lem {stream} {s} v n b =
    let P : Bool × SequencerBuffer → Type 0 = λ r.
      ((n ≤ readable_bytes s) × (r.0 ≡ true) × IsAdvanced stream s n r.1)
      ⊎ ((readable_bytes s < n) × (r ≡ (false, s))) in
    if-cases P (ltb (readable_bytes s) n) (λ t. inr (ltb→lt _ _ t, refl))
      (λ t.
        let l : n ≤ readable_bytes s = ltb_false→le _ _ t in
        let a : IsAdvanced stream s n (consume n s n) = consume_lem n n v b (omega arith) l in
        if-cases P (n == 0) (λ u. inl (l, refl, a))
          (λ u. inl (l, refl, with_map-IsAdvanced stream s (consume n s n) n _ a)))
