-- ===== src/Prelude/Sets.antt =====
-- Sets of numbers as lists.
use Prim.Native.Nat.{ℕ, ◌≤◌}
use mathlib.Core.Path.{◌≡◌, refl}
use mathlib.Core.Bool.{Bool, false, not, ◌&&◌, ◌||◌}
use mathlib.Core.List.{List, [], ◌∷◌, ◌++◌}
use native.Mathlib.Omega.{arith}
use puic.Prelude.Tests.{◌==◌, if◌then◌else◌}
use puic.Prelude.Lists.{length}

abbrev pub mem : ℕ → List ℕ → Bool
mem x [] = false
mem x (y ∷ ys) = (y == x) || mem x ys

abbrev pub remove_id : ℕ → List ℕ → List ℕ
remove_id x [] = []
remove_id x (y ∷ ys) = if y == x then remove_id x ys else y ∷ remove_id x ys

pub mem-remove_id : (y x : ℕ) (ys : List ℕ) → mem y (remove_id x ys) ≡ (mem y ys && not (x == y))
mem-remove_id y x [] = refl
mem-remove_id y x (z ∷ zs) = ground (arith, mem-remove_id y x zs)

pub length-remove_id : (x : ℕ) (ys : List ℕ) → length (remove_id x ys) ≤ length ys
length-remove_id x [] = omega arith
length-remove_id x (y ∷ ys) = ground (arith, length-remove_id x ys)

pub mem-append : (x : ℕ) (ys zs : List ℕ) → mem x (ys ++ zs) ≡ (mem x ys || mem x zs)
mem-append x [] zs = refl
mem-append x (y ∷ ys) zs = ground (arith, mem-append x ys zs)
