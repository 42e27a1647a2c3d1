-- ===== src/Ack/Sorted.antt =====
-- The shape of a PacketNumberQueue: intervals that are not empty, in order, with a gap between any
-- two; and what a reversed prefix of such a deque looks like.
use puic.Prelude.{ℕ, suc, ◌≤◌, ◌<◌, ◌≡◌, refl, arith, Bool, true, false}
use puic.Prelude.{◌||◌, leb, List, [], ◌∷◌}
use puic.Ack.{Interval, rev_onto, holds}

-- Nothing below `bound`.
unfoldable pub IsAbove : List Interval → ℕ → Type 0
IsAbove [] bound = Unit
IsAbove (i ∷ q) bound = (bound ≤ i.min) × (i.min < i.max) × IsAbove q (suc i.max)

unfoldable pub IsValid : List Interval → Type 0
unfolding IsAbove
IsValid q = IsAbove q 0

-- A reversed deque that ends before `bound`.
unfoldable pub IsBelow : List Interval → ℕ → Type 0
IsBelow [] bound = Unit
IsBelow (i ∷ q) bound = (i.max < bound) × (i.min < i.max) × IsBelow q i.min

pub IsAbove-weaken : (q : List Interval) {a b : ℕ} → a ≤ b → IsAbove q b → IsAbove q a
unfolding IsAbove
IsAbove-weaken [] h v = tt
IsAbove-weaken (i ∷ q) h v = (omega arith, v.1, v.2)

pub IsBelow-weaken : (q : List Interval) {a b : ℕ} → a ≤ b → IsBelow q a → IsBelow q b
unfolding IsBelow
IsBelow-weaken [] h v = tt
IsBelow-weaken (i ∷ q) h v = (omega arith, v.1, v.2)

-- Put back together, the two parts are well formed.
pub rev_onto-IsValid :
    (before after : List Interval) (bound : ℕ)
    → IsBelow before bound
    → IsAbove after bound
    → IsValid (rev_onto before after)
unfolding rev_onto IsValid IsAbove IsBelow
rev_onto-IsValid [] after bound h k = IsAbove-weaken after (omega arith) k
rev_onto-IsValid (i ∷ before) after bound h k =
    rev_onto-IsValid before (i ∷ after) i.min (h.2)
      (omega arith, h.1, IsAbove-weaken after (omega arith) k)

-- A well-formed deque reversed, with a bound it ends before.
pub rev_onto-IsBelow :
    (q before : List Interval) (bound : ℕ)
    → IsAbove q bound
    → IsBelow before bound
    → (b : ℕ) × IsBelow (rev_onto q before) b
unfolding rev_onto IsAbove IsBelow
rev_onto-IsBelow [] before bound h k = (bound, k)
rev_onto-IsBelow (i ∷ q) before bound h k =
    rev_onto-IsBelow q (i ∷ before) (suc i.max) (h.2)
      (omega arith, h.1, IsBelow-weaken before (h.0) k)

pub holds-rev_onto :
    (before after : List Interval) (x : ℕ)
    → holds (rev_onto before after) x ≡ (holds before x || holds after x)
unfolding holds rev_onto
holds-rev_onto [] after x = refl
holds-rev_onto (i ∷ before) after x = ground (arith, holds-rev_onto before (i ∷ after) x)

-- Some interval starts at the number or below it.
unfoldable pub starts_by : List Interval → ℕ → Bool
starts_by [] p = false
starts_by (i ∷ q) p = leb i.min p || starts_by q p

pub starts_by-rev_onto :
    (q before : List Interval) (p : ℕ)
    → starts_by before p ≡ true
    → starts_by (rev_onto q before) p ≡ true
unfolding rev_onto
starts_by-rev_onto [] before p h = h
starts_by-rev_onto (i ∷ q) before p h =
    starts_by-rev_onto q (i ∷ before) p (unfold starts_by in ground (arith, h))
