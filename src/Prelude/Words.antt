-- ===== src/Prelude/Words.antt =====
-- Machine words: sums and differences of `size_t` and `uint64_t`, modulo 2 ^ 64, and powers of two.
use Prim.Native.Nat.{ℕ, ◌+◌, ◌-◌, ◌*◌, ◌%◌, ◌^◌, ◌≤◌, ◌<◌}
use mathlib.Core.Path.{◌≡◌}
use native.Mathlib.Omega.{arith}

abbrev pub u64_mod : ℕ
u64_mod = 2 ^ 64

abbrev pub add64 : ℕ → ℕ → ℕ
add64 a b = (a + b) % u64_mod

-- `-` on ℕ stops at 0, so the modulus is added first.
abbrev pub sub64 : ℕ → ℕ → ℕ
sub64 a b = (a + u64_mod - b) % u64_mod

abbrev pub mul64 : ℕ → ℕ → ℕ
mul64 a b = (a * b) % u64_mod

abbrev pub IsU64 : ℕ → Type 0
IsU64 n = n < u64_mod

pub sub64_lem : (a b : ℕ) → IsU64 a → b ≤ a → sub64 a b ≡ a - b
sub64_lem a b h k = omega arith
