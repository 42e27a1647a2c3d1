-- ===== src/Sequencer/Shown.antt =====
-- GetReadableRegions shows the bytes that Readv would copy.
use puic.Prelude.{
  ℕ, zero, suc, ◌+◌, ◌-◌, ◌%◌, ◌^◌, ◌≤◌, ◌<◌, ◌≡◌, refl, sym, ap, ap₂, arith, ◌∙◌, inl, inr, ◌⊎◌,
  Bool-cases,
}
use puic.Prelude.{leb, leb_false→lt, ◌&&◌, ◌==◌, if-cases, List, [], ◌∷◌, ◌++◌, length, min}
use puic.Sequencer.{
  SequencerBuffer, front_gap, get_block_index, get_in_block_offset, get_block_capacity,
}
use puic.Sequencer.{blocks_count, readable_bytes}
use puic.Sequencer.Write.{block_or_new}
use puic.Sequencer.Read.{copy_from, read_offset, next_block_to_read, readv}
use puic.Sequencer.Address.{same_block, next_index, run_in_block}
use puic.Sequencer.Copy.{block_room}
use puic.Sequencer.Gaps.{front-StartBy}
use puic.Sequencer.Receive.{IsValid}
use puic.Sequencer.Take.{readable_bytes_lem, readable-held, copy_from-ext}
use puic.Sequencer.Deliver.{copy_from-append, total, readv_lem}
use puic.Sequencer.Regions.{
  Region, regions_behind, get_readable_regions, region_bytes, region_lengths,
}
use native.Mathlib.Nat.{mod-add-mod}

module _ {stream : ℕ → ℕ} {s : SequencerBuffer} (v : IsValid stream s) where
  chunk_bytes :
      (o n : ℕ)
      → s.total_bytes_read ≤ o
      → o + n ≤ s.total_bytes_read + readable_bytes s
      → get_in_block_offset s.max_buffer_capacity_bytes o + n
        ≤ get_block_capacity s.max_buffer_capacity_bytes
            (get_block_index s.max_buffer_capacity_bytes o)
      → copy_from
          (block_or_new (s.blocks (get_block_index s.max_buffer_capacity_bytes o)))
          (get_in_block_offset s.max_buffer_capacity_bytes o)
          n
        ≡ copy_from stream o n
  chunk_bytes o n a b c = copy_from-ext _ _ _ _ n (λ k h.
      let (e, f) =
        run_in_block s.max_buffer_capacity_bytes o n (o + k) c (omega (arith, v.room)) (omega arith)
          (omega (arith, h)) in
      ap₂ (λ i j. block_or_new (s.blocks i) j) (sym e) (omega (arith, f))
      ∙ (v.holds (o + k) (readable-held v _ (omega (arith, a)) (omega (arith, b, h)))).1)

  -- The regions from `o` on: their bytes are those of the stream, and they end early only if there is no
  -- room for more.
  unfoldable pub IsShown : ℕ → ℕ → List Region → Type 0
  IsShown o room rs =
      (o + total (region_lengths rs) ≤ (front_gap s.gaps).begin_offset)
      × (region_bytes s rs ≡ copy_from stream o (total (region_lengths rs)))
      × ((o + total (region_lengths rs) ≡ (front_gap s.gaps).begin_offset) ⊎ (length rs ≡ room))

  one_region :
      (o n room more block start : ℕ) (rs : List Region)
      → room ≡ suc more
      → get_block_index s.max_buffer_capacity_bytes o ≡ block
      → get_in_block_offset s.max_buffer_capacity_bytes o ≡ start
      → s.total_bytes_read ≤ o
      → o + n ≤ (front_gap s.gaps).begin_offset
      → start + n ≤ get_block_capacity s.max_buffer_capacity_bytes block
      → IsShown (o + n) more rs
      → IsShown o room (record { block = block; start = start; len = n } ∷ rs)
  unfolding IsShown
  one_region o n room more block start rs m i j a b c (d, e, f) = (
    omega (arith, d),
    ap₂ (λ xs ys. xs ++ ys)
          (ap₂ (λ i j. copy_from (block_or_new (s.blocks i)) j n) (sym i) (sym j)
            ∙ chunk_bytes o n a (omega (arith, b, readable_bytes_lem v)) (rw i (rw j c)))
          e
        ∙ copy_from-append stream o n (total (region_lengths rs)),
    elim (f) [ inl g ↦ inl (omega (arith, g)) | inr g ↦ inr (omega (arith, g, m)) ],
  )

  no_region :
      (o room : ℕ)
      → (o ≡ (front_gap s.gaps).begin_offset) ⊎ (0 ≡ room)
      → o ≤ (front_gap s.gaps).begin_offset
      → IsShown o room []
  unfolding IsShown
  no_region o room (inl f) l = (omega (arith, l), refl, inl (omega (arith, f)))
  no_region o room (inr f) l = (omega (arith, l), refl, inr f)

  regions_behind-IsShown :
      (fuel start o used count : ℕ)
      → let cap = s.max_buffer_capacity_bytes in
        let e = (front_gap s.gaps).begin_offset - 1 in
        used ≤ count
        → count ≤ fuel + used
        → s.total_bytes_read ≤ o
        → o < (front_gap s.gaps).begin_offset
        → get_in_block_offset cap o ≡ 0
        → get_block_index cap o ≡ (start + used) % blocks_count cap
        → IsShown o (count - used) (
            regions_behind fuel cap start
              (get_block_index cap e)
              (get_in_block_offset cap e)
              used
              count)
  unfolding regions_behind
  regions_behind-IsShown zero start o used count a b c d z i =
      no_region o _ (inr (omega arith)) (omega arith)
  regions_behind-IsShown (suc fuel) start o used count a b c d z i =
      let cap : ℕ = s.max_buffer_capacity_bytes in
      let e : ℕ = (front_gap s.gaps).begin_offset - 1 in
      let P : List Region → Type 0 = IsShown o (count - used) in
      let near : e < o + cap = omega (arith, front-StartBy s.gaps _ v.begins) in
      rw (sym i) (
        if-cases P (leb count used) (λ t. no_region o _ (inr (ground (arith, t))) (omega arith))
          (λ t.
            if-cases P (get_block_index cap o == get_block_index cap e)
              (λ u.
                let same : get_block_index cap o ≡ get_block_index cap e = ground (arith, u) in
                let k = same_block cap o e (omega arith) near same (omega (arith, z)) in
                let n : ℕ = get_in_block_offset cap e + 1 in
                let m : o + n ≡ (front_gap s.gaps).begin_offset = omega (arith, k, z) in
                one_region o n (count - used) (count - used - 1) (get_block_index cap e) 0 []
                  (ground (arith, t)) same z c (omega (arith, m))
                  (omega (arith, block_room cap e (omega (arith, v.room))))
                  (no_region (o + n) _ (inl m) (omega (arith, m))))
              (λ u.
                let n : ℕ = get_block_capacity cap (get_block_index cap o) in
                let p : 0 < n = omega (arith, block_room cap o (omega (arith, v.room))) in
                let behind : o + n ≤ e = elim (Bool-cases (leb (o + n) e)) [
                  | inl w ↦ ground (arith, w)
                  | inr w ↦ absurd (
                      ground (
                        arith,
                        u,
                        (run_in_block cap o n e (omega (arith, z)) (omega (arith, v.room))
                            (omega arith) (leb_false→lt _ _ w)).0,
                      ))
                ] in
                let later : start + used + 1 ≡ start + (used + 1) = omega arith in
                let (z', i') = next_index cap o n v.room p (omega (arith, z)) in
                one_region o n (count - used) (count - (used + 1)) (get_block_index cap o) 0 _
                  (ground (arith, t)) refl z c (omega (arith, behind)) (omega arith)
                  (regions_behind-IsShown fuel start (o + n) (used + 1) count (ground (arith, t))
                    (omega arith) (omega (arith, c)) (omega (arith, behind)) z'
                    (i'
                      ∙ ap (λ j. (j + 1) % blocks_count cap) i
                      ∙ mod-add-mod (start + used) (blocks_count cap) 1
                      ∙ ap (λ j. j % blocks_count cap) later)))))

  pub get_readable_regions-IsShown :
      (count : ℕ) → 0 < count → IsShown s.total_bytes_read count (get_readable_regions s count)
  unfolding get_readable_regions next_block_to_read read_offset
  get_readable_regions-IsShown count p =
      let cap : ℕ = s.max_buffer_capacity_bytes in
      let o : ℕ = s.total_bytes_read in
      let e : ℕ = (front_gap s.gaps).begin_offset - 1 in
      let n : ℕ = readable_bytes s in
      let P : List Region → Type 0 = IsShown o count in
      let r : n + o ≡ (front_gap s.gaps).begin_offset = readable_bytes_lem v in
      let ends : (front_gap s.gaps).begin_offset ≤ o + cap = front-StartBy s.gaps _ v.begins in
      if-cases P (n == 0) (λ t. no_region o count (inl (ground (arith, t, r))) (omega (arith, r)))
        (λ t.
          let some : 0 < n = ground (arith, t) in
          if-cases P
            ((get_block_index cap o == get_block_index cap e)
              && leb (get_in_block_offset cap o) (get_in_block_offset cap e))
            (λ u.
              let k =
                same_block cap o e (omega (arith, r, some)) (omega (arith, r, some, ends))
                  (ground (arith, u)) (ground (arith, u)) in
              let same : get_block_index cap o ≡ get_block_index cap e = ground (arith, u) in
              one_region o n count (count - 1) (get_block_index cap o) (get_in_block_offset cap o)
                [] (omega arith) refl refl (omega arith) (omega (arith, r))
                (rw same (omega (arith, k, r, some, block_room cap e (omega (arith, v.room)))))
                (no_region (o + n) _ (inl (omega (arith, r))) (omega (arith, r))))
            (λ u.
              let m : ℕ =
                get_block_capacity cap (get_block_index cap o) - get_in_block_offset cap o in
              let room = block_room cap o (omega (arith, v.room)) in
              let behind : o + m ≤ e = elim (Bool-cases (leb (o + m) e)) [
                | inl w ↦ ground (arith, w)
                | inr w ↦ absurd (
                    ground (
                      arith,
                      u,
                      run_in_block cap o m e (omega (arith, room)) (omega (arith, v.room))
                          (omega (arith, r, some)) (leb_false→lt _ _ w),
                    ))
              ] in
              let (z', i') =
                next_index cap o m v.room (omega (arith, room)) (omega (arith, room)) in
              one_region o m count (count - 1) (get_block_index cap o) (get_in_block_offset cap o) _
                (omega arith) refl refl (omega arith) (omega (arith, behind)) (omega (arith, room))
                (regions_behind-IsShown count (get_block_index cap o) (o + m) 1 count (omega arith)
                  (omega arith) (omega arith) (omega (arith, behind, r, some)) z' i')))

-- The regions that GetReadableRegions shows hold, one behind the other, exactly the bytes that Readv
-- would copy into destinations of their lengths; they are all that is readable, unless they are as many
-- as were asked for.
pub get_readable_regions_lem :
    {stream : ℕ → ℕ} {s : SequencerBuffer}
    → IsValid stream s
    → (count : ℕ) → 0 < count
    → (front_gap s.gaps).begin_offset + s.max_buffer_capacity_bytes < 2 ^ 62
    → let rs = get_readable_regions s count in
      (region_bytes s rs ≡ (readv s (region_lengths rs)).1)
      × ((total (region_lengths rs) ≡ readable_bytes s) ⊎ (length rs ≡ count))
unfolding IsShown
get_readable_regions_lem {stream} {s} v count p b =
    let rs : List Region = get_readable_regions s count in
    let (l, e, f) = get_readable_regions-IsShown v count p in
    let (g, h, a) = readv_lem v (region_lengths rs) b in
    let m : total (region_lengths rs) ≡ min (total (region_lengths rs)) (readable_bytes s) =
      omega (arith, l, readable_bytes_lem v) in
    (
      e ∙ ap (copy_from stream s.total_bytes_read) m ∙ sym h,
      elim (f) [ inl k ↦ inl (omega (arith, k, readable_bytes_lem v)) | inr k ↦ inr k ],
    )
