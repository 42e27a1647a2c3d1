-- ===== src/Wire/Ufloat/Search.antt =====
-- The binary search of WriteUFloat16 (puicbase/net/quic/core/quic_data_writer.cc) and the pair of
-- exponent and mantissa that it ends in.
use puic.Prelude.{ℕ, zero, suc, ◌+◌, ◌-◌, ◌*◌, ◌/◌, ◌^◌, ◌≤◌, ◌<◌, ◌≡◌, ap, ◌∙◌, arith}
use puic.Prelude.{leb, Bool-cases, inl, inr}
use puic.Wire.Ufloat.{search_round, normalise, max_value}
use native.Mathlib.Nat.{pow-suc}
use native.Mathlib.Decide.{dec_le, dec_lt}

-- `m` with `e` shifts below it stands for `v`, cut off below.
pub record Stands (v : ℕ) (p : ℕ × ℕ) : Type 0 where
  pub low : p.1 * 2 ^ p.0 ≤ v
  pub high : v < (p.1 + 1) * 2 ^ p.0

pub pow_pos : (a : ℕ) → 0 < 2 ^ a
pow_pos zero = omega arith
pow_pos (suc a) = omega (arith, pow-suc 2 a, pow_pos a)

pow_add : (a b : ℕ) → 2 ^ (a + b) ≡ 2 ^ b * 2 ^ a
pow_add a zero = let e : a + 0 ≡ a = omega arith in ap (λ n. 2 ^ n) e ∙ omega arith
pow_add a (suc b) =
    let e : a + suc b ≡ suc (a + b) = omega arith in
    ap (λ n. 2 ^ n) e
    ∙ omega (arith, pow-suc 2 (a + b), pow_add a b, ap (λ (t : ℕ). t * 2 ^ a) (pow-suc 2 b))

pub mul_le : (a b p : ℕ) → a ≤ b → a * p ≤ b * p
mul_le a b p h = grind arith

-- Shifting out `q` keeps what the pair stands for.
shift_low : (q p m v : ℕ) → m * p ≤ v → (m / q) * (q * p) ≤ v
shift_low q p m v h = omega (arith, mul_le (m / q * q) m p (omega arith))

shift_high : (q p m v : ℕ) → 0 < q → v < (m + 1) * p → v < (m / q + 1) * (q * p)
shift_high q p m v hq h = omega (arith, mul_le (m + 1) ((m / q + 1) * q) p (omega arith))

search_round-Stands : (offset v : ℕ) (p : ℕ × ℕ) → Stands v p → Stands v (search_round offset p)
unfolding search_round
search_round-Stands offset v (e, m) s = elim (Bool-cases (leb (2 ^ (11 + offset)) m)) [
  | inl big ↦ rw big (record {
    low = rw (pow_add e offset) (shift_low (2 ^ offset) (2 ^ e) m v s.low);
    high = rw (pow_add e offset) (shift_high (2 ^ offset) (2 ^ e) m v (pow_pos offset) s.high);
  })
  | inr small ↦ rw small s
]

pub normalise-Stands : (v : ℕ) → Stands v (normalise v)
unfolding normalise
normalise-Stands v = search_round-Stands 1 v _ (
    search_round-Stands 2 v _ (
      search_round-Stands 4 v _ (
        search_round-Stands 8 v _
          (search_round-Stands 16 v (0, v) (record { low = omega arith; high = omega arith })))))

-- After a round with this offset the value is below 2 ^ (11 + offset), and not below 2 ^ 11.
pub record Narrowed (bits : ℕ) (p : ℕ × ℕ) : Type 0 where
  pub over : 2 ^ 11 ≤ p.1
  pub under : p.1 < 2 ^ bits

pub normalise-Narrowed : (v : ℕ) → 2 ^ 12 ≤ v → v < max_value → Narrowed 12 (normalise v)
unfolding normalise
normalise-Narrowed v h k = ground arith

pub pow_le : (a b : ℕ) → a ≤ b → 2 ^ a ≤ 2 ^ b
pow_le a b h =
    let e : a + (b - a) ≡ b = omega arith in
    omega (arith, ap (λ n. 2 ^ n) e, pow_add a (b - a), mul_le 1 (2 ^ (b - a)) (2 ^ a) (pow_pos _))

double_le : (a b : ℕ) → a < b → 2 * 2 ^ a ≤ 2 ^ b
double_le a b h = omega (arith, pow-suc 2 a, pow_le (suc a) b h)

-- A pair with its hidden bit in place is the only one that stands for its value.
pub normal_unique :
    (e m e' m' : ℕ)
    → Narrowed 12 (e, m)
    → Narrowed 12 (e', m')
    → Stands (m * 2 ^ e) (e', m')
    → (e ≡ e') × (m ≡ m')
normal_unique e m e' m' n n' s = (same, omega (arith, scaled))
  where
    same : e ≡ e'
    same = elim (dec_lt e e') [
      | yes l ↦ absurd (
          omega (
            arith,
            double_le e e' l,
            mul_le (2 ^ 11) m' (2 ^ e') n'.over,
            mul_le m 4095 (2 ^ e) (omega arith),
            pow_pos e,
          ))
      | no g ↦ elim (dec_lt e' e) [
        | yes l ↦ absurd (
            omega (
              arith,
              double_le e' e l,
              mul_le (2 ^ 11) m (2 ^ e) n.over,
              mul_le (m' + 1) (2 ^ 12) (2 ^ e') (omega arith),
            ))
        | no k ↦ omega arith
      ]
    ]

    powers : 2 ^ e ≡ 2 ^ e'
    powers = ap (λ t. 2 ^ t) same

    scaled : (m ≤ m') × (m' ≤ m)
    scaled = (
      elim (dec_lt m' m) [
        | yes l ↦ absurd (
            omega
              (arith, mul_le (m' + 1) m (2 ^ e) (omega arith), ap (λ (t : ℕ). (m' + 1) * t) powers))
        | no g ↦ omega arith
      ],
      elim (dec_lt m m') [
        | yes l ↦ absurd (
            omega (
              arith,
              mul_le (m + 1) m' (2 ^ e) (omega arith),
              ap (λ (t : ℕ). m' * t) powers,
              pow_pos e,
            ))
        | no g ↦ omega arith
      ],
    )

-- The exponents in use: neither 0 nor 31.
pub normalise_exponent :
    (v : ℕ) → 2 ^ 12 ≤ v → v < max_value → (1 ≤ (normalise v).0) × ((normalise v).0 ≤ 30)
normalise_exponent v h k =
    bound (normalise v).0 (normalise v).1 (normalise-Stands v) (normalise-Narrowed v h k)
  where
    bound : (e m : ℕ) → Stands v (e, m) → Narrowed 12 (e, m) → (1 ≤ e) × (e ≤ 30)
    bound zero m s n = absurd (omega arith)
    bound (suc e) m s n = (omega arith, not_above (dec_le (suc e) 30))
      where
        not_above : Dec (suc e ≤ 30) → suc e ≤ 30
        not_above (yes l) = l
        not_above (no g) =
            absurd
              (omega (arith, pow_le 31 (suc e) (omega arith), mul_le (2 ^ 11) m (2 ^ suc e) n.over))
