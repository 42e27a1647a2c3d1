-- ===== src/Sequencer/Gaps.antt =====
-- The gaps of the buffer: in order, apart, and the last one without end. UpdateGapList takes the bytes
-- that were written out of one gap.
use puic.Prelude.{
  ℕ, suc, ◌+◌, ◌≤◌, ◌<◌, ◌≡◌, refl, sym, ap, arith, ◌∙◌, inl, inr, Bool-cases, Bool, true, false,
}
use puic.Prelude.{
  ltb, leb, not, ◌&&◌, ◌||◌, ◌==◌, if◌then◌else◌, if-cases, List, [], ◌∷◌, ◌++◌, All,
}
use puic.Sequencer.{Gap, front_gap, back_gap, offset_max}
use puic.Sequencer.Write.{find_gap, update_gap}
use puic.Sequencer.Memory.{in_range}

-- The gaps start at `lo` or later, and no byte from `lo` on is behind the last.
unfoldable pub IsChain : List Gap → ℕ → Type 0
IsChain [] lo = lo ≡ suc offset_max
IsChain (g ∷ gs) lo =
    (lo ≤ g.begin_offset) × (g.begin_offset < g.end_offset) × IsChain gs (suc g.end_offset)

abbrev pub in_gaps : List Gap → ℕ → Bool
in_gaps [] x = false
in_gaps (g ∷ gs) x = (leb g.begin_offset x && ltb x g.end_offset) || in_gaps gs x

-- A byte that was received and not read.
abbrev pub is_held : ℕ → List Gap → ℕ → Bool
is_held read gaps x = leb read x && ltb x offset_max && not (in_gaps gaps x)

pub IsChain-le : (gs : List Gap) (lo : ℕ) → IsChain gs lo → lo ≤ suc offset_max
unfolding IsChain
IsChain-le [] lo c = omega arith
IsChain-le (g ∷ gs) lo c = omega (arith, IsChain-le gs (suc g.end_offset) c.2)

pub IsChain-weaken :
    (gs : List Gap) (lo hi : ℕ) → lo ≤ hi → hi ≤ offset_max → IsChain gs hi → IsChain gs lo
unfolding IsChain
IsChain-weaken [] lo hi l m c = absurd (omega arith)
IsChain-weaken (g ∷ gs) lo hi l m c = (omega arith, c.1, c.2)

pub in_gaps-below : (gs : List Gap) (lo x : ℕ) → IsChain gs lo → x < lo → in_gaps gs x ≡ false
unfolding IsChain
in_gaps-below [] lo x c h = refl
in_gaps-below (g ∷ gs) lo x c h =
    ground (arith, in_gaps-below gs (suc g.end_offset) x c.2 (omega arith))

-- From the last gap on everything is missing.
pub held-below_back :
    (gs : List Gap) (lo x : ℕ)
    → IsChain gs lo
    → lo ≤ offset_max
    → in_gaps gs x ≡ false
    → x < offset_max
    → x < (back_gap gs).begin_offset
unfolding IsChain
held-below_back [] lo x c l f h = absurd (omega arith)
held-below_back (g ∷ []) lo x c l f h = ground (arith, c, f, h)
held-below_back (g ∷ k ∷ gs) lo x c l f h =
    held-below_back (k ∷ gs) (suc g.end_offset) x c.2
      (omega (arith, c, IsChain-le gs (suc k.end_offset) c.2.2)) (ground (arith, f)) h

pub chain-lo :
    (before : List Gap) (g : Gap) (after : List Gap) (lo : ℕ)
    → IsChain (before ++ g ∷ after) lo
    → lo ≤ g.begin_offset
unfolding IsChain
chain-lo [] g after lo c = c.0
chain-lo (k ∷ before) g after lo c =
    omega (arith, chain-lo before g after (suc k.end_offset) c.2, c)

module _ (g : Gap) (o n : ℕ) (b : g.begin_offset ≤ o) (e : o + n ≤ g.end_offset) (p : 0 < n)
    (m : o + n < offset_max) where
  pub update_gap-IsChain :
      (before after : List Gap) (lo : ℕ)
      → IsChain (before ++ g ∷ after) lo
      → IsChain (before ++ update_gap g o n ++ after) lo
  unfolding IsChain update_gap
  update_gap-IsChain [] after lo c =
      let P : List Gap → Type 0 = λ u. IsChain (u ++ after) lo in
      if-cases P ((g.begin_offset == o) && ltb (o + n) g.end_offset) (λ t. ground (arith, c, t))
        (λ f.
          if-cases P (ltb g.begin_offset o && (g.end_offset == o + n))
            (λ t. ground (
              arith,
              c,
              t,
              f,
              p,
              IsChain-weaken after (suc o) (suc g.end_offset) (omega arith) (ground (arith, t, m))
                  c.2,
            ))
            (λ h.
              if-cases P (ltb g.begin_offset o && ltb (o + n) g.end_offset)
                (λ t. ground (arith, c, t, p))
                (λ i.
                  if-cases P ((g.begin_offset == o) && (g.end_offset == o + n))
                    (λ t.
                      IsChain-weaken after lo (suc g.end_offset) (omega (arith, c))
                        (ground (arith, t, m)) c.2)
                    (λ j. ground (arith, f, h, i, j)))))
  update_gap-IsChain (k ∷ before) after lo c =
      (c.0, c.1, update_gap-IsChain before after (suc k.end_offset) c.2)

  pub update_gap-in_gaps :
      (before after : List Gap) (lo x : ℕ)
      → IsChain (before ++ g ∷ after) lo
      → in_gaps (before ++ update_gap g o n ++ after) x
        ≡ (in_gaps (before ++ g ∷ after) x && not (in_range o n x))
  unfolding IsChain update_gap
  update_gap-in_gaps [] after lo x c = ground (arith, in_gaps-below after (suc g.end_offset) x c.2)
  update_gap-in_gaps (k ∷ before) after lo x c = ground (
    arith,
    update_gap-in_gaps before after (suc k.end_offset) x c.2,
    chain-lo before g after (suc k.end_offset) c.2,
  )

-- No gap starts behind `bound`.
abbrev pub StartBy : ℕ → List Gap → Type 0
StartBy bound gs = All (λ g. g.begin_offset ≤ bound) gs

pub back-StartBy :
    (gs : List Gap) (bound : ℕ) → StartBy bound gs → (back_gap gs).begin_offset ≤ bound
back-StartBy [] bound h = omega arith
back-StartBy (g ∷ []) bound h = h.0
back-StartBy (g ∷ k ∷ gs) bound h = back-StartBy (k ∷ gs) bound h.1

pub front-StartBy :
    (gs : List Gap) (bound : ℕ) → StartBy bound gs → (front_gap gs).begin_offset ≤ bound
front-StartBy [] bound h = omega arith
front-StartBy (g ∷ gs) bound h = h.0

pub at-StartBy :
    (before after : List Gap) (g : Gap) (bound : ℕ)
    → StartBy bound (before ++ g ∷ after)
    → g.begin_offset ≤ bound
at-StartBy [] after g bound h = h.0
at-StartBy (k ∷ before) after g bound h = at-StartBy before after g bound h.1

pub update_gap-StartBy :
    (g : Gap) (o n : ℕ) (before after : List Gap) (bound : ℕ)
    → o + n ≤ bound
    → StartBy bound (before ++ g ∷ after)
    → StartBy bound (before ++ update_gap g o n ++ after)
unfolding update_gap
update_gap-StartBy g o n [] after bound l h = ground (arith, l, h)
update_gap-StartBy g o n (k ∷ before) after bound l h =
    (h.0, update_gap-StartBy g o n before after bound l h.1)

pub find_gap-append : (gs : List Gap) (o : ℕ) → (find_gap gs o).0 ++ (find_gap gs o).1 ≡ gs
unfolding find_gap
find_gap-append [] o = refl
find_gap-append (g ∷ gs) o =
    if-cases (λ (r : List Gap × List Gap). r.0 ++ r.1 ≡ g ∷ gs) (leb g.end_offset o)
      (λ t. ap (λ xs. g ∷ xs) (find_gap-append gs o)) (λ f. refl)

find_gap-cons :
    (g : Gap) (gs : List Gap) (o : ℕ) (b : Bool)
    → leb g.end_offset o ≡ b
    → find_gap (g ∷ gs) o ≡ (if b then (g ∷ (find_gap gs o).0, (find_gap gs o).1) else ([], g ∷ gs))
unfolding find_gap
find_gap-cons g gs o b e = rw e refl

-- The gap found ends behind `o`, and what lies between is not missing.
pub find_gap-in_gaps :
    (gs : List Gap) (o lo x : ℕ) (g : Gap) (after : List Gap)
    → IsChain gs lo
    → (find_gap gs o).1 ≡ g ∷ after
    → o ≤ x
    → x < g.begin_offset
    → in_gaps gs x ≡ false
unfolding find_gap IsChain
find_gap-in_gaps [] o lo x g after c e h k = cc
find_gap-in_gaps (f ∷ gs) o lo x g after c e h k = elim (Bool-cases (leb f.end_offset o)) [
  | inl t ↦
      let e' : (find_gap gs o).1 ≡ g ∷ after =
        sym (ap (λ r. r.1) (find_gap-cons f gs o true t)) ∙ e in
      ground (arith, t, h, find_gap-in_gaps gs o (suc f.end_offset) x g after c.2 e' h k)
  | inr t ↦
      let e' : f ∷ gs ≡ g ∷ after = sym (ap (λ r. r.1) (find_gap-cons f gs o false t)) ∙ e in
      let b : f.begin_offset ≡ g.begin_offset = ap (λ xs. (front_gap xs).begin_offset) e' in
      ground (arith, b, k, in_gaps-below gs (suc f.end_offset) x c.2 (omega (arith, c, b, k)))
]

lt→leb_false : (a b : ℕ) → a < b → leb b a ≡ false
lt→leb_false a b h = ground arith

le→leb : (a b : ℕ) → a ≤ b → leb a b ≡ true
le→leb a b h = ground arith

-- The gap that the bytes lie in is the one found.
pub find_gap-at :
    (before after : List Gap) (g : Gap) (o lo : ℕ)
    → IsChain (before ++ g ∷ after) lo
    → g.begin_offset ≤ o
    → o < g.end_offset
    → find_gap (before ++ g ∷ after) o ≡ (before, g ∷ after)
unfolding find_gap IsChain
find_gap-at [] after g o lo c b e = rw (lt→leb_false o g.end_offset e) refl
find_gap-at (k ∷ before) after g o lo c b e =
    rw (le→leb k.end_offset o (omega (arith, chain-lo before g after (suc k.end_offset) c.2)))
      (rw (find_gap-at before after g o (suc k.end_offset) c.2 b e) refl)
