-- ===== src/Wire/Ufloat/Rounding.antt =====
-- What the 16-bit floats keep of a number, and which patterns they are.
use puic.Prelude.{
  ℕ, ◌+◌, ◌-◌, ◌*◌, ◌/◌, ◌^◌, ◌≤◌, ◌<◌, ◌≡◌, refl, sym, ap, ◌∙◌, arith, ◌⊎◌, inl, inr,
}
use puic.Wire.Ufloat.{normalise, to_ufloat16, from_ufloat16, max_value}
use native.Mathlib.Decide.{dec_lt, ℕ_discrete}
use puic.Wire.Ufloat.Search.{
  Narrowed, pow_le, mul_le, normalise-Stands, normalise-Narrowed, normal_unique, normalise_exponent,
}

from_ufloat16_slow :
    (e m : ℕ) → Narrowed 12 (e, m) → 1 ≤ e → e ≤ 30 → from_ufloat16 (m + e * 2 ^ 11) ≡ m * 2 ^ e
unfolding from_ufloat16
from_ufloat16_slow e m n h k = ground (
  arith,
  pow_le e 30 k,
  mul_le m (2 ^ 12) (2 ^ e),
  ap (λ t. (m + e * 2 ^ 11 - t * 2 ^ 11) * 2 ^ t) shift,
  left,
)
  where
    shift : (m + e * 2 ^ 11) / 2 ^ 11 - 1 ≡ e
    shift = omega arith

    left : m + e * 2 ^ 11 - e * 2 ^ 11 ≡ m
    left = omega arith

-- Between the exact numbers and the clamped ones the encoding is that of the normal pair.
to_ufloat16_slow :
    (v : ℕ)
    → 2 ^ 12 ≤ v
    → v < max_value
    → to_ufloat16 v ≡ (normalise v).1 + (normalise v).0 * 2 ^ 11
unfolding to_ufloat16
to_ufloat16_slow v h k = ground (arith, normalise_exponent v h k, normalise-Narrowed v h k)

decode_slow :
    (v : ℕ)
    → 2 ^ 12 ≤ v
    → v < max_value
    → from_ufloat16 (to_ufloat16 v) ≡ (normalise v).1 * 2 ^ (normalise v).0
decode_slow v h k =
    let (lo, hi) = normalise_exponent v h k in
    ap from_ufloat16 (to_ufloat16_slow v h k)
    ∙ from_ufloat16_slow (normalise v).0 (normalise v).1 (normalise-Narrowed v h k) lo hi

decode_small : (v : ℕ) → v < 2 ^ 12 → from_ufloat16 (to_ufloat16 v) ≡ v
unfolding to_ufloat16 from_ufloat16
decode_small v h = ground arith

decode_clamped : (v : ℕ) → max_value ≤ v → from_ufloat16 (to_ufloat16 v) ≡ max_value
unfolding from_ufloat16
decode_clamped v h = ap from_ufloat16 (clamped v h)
  where
    clamped : (v : ℕ) → max_value ≤ v → to_ufloat16 v ≡ 2 ^ 16 - 1
    clamped v h = unfold to_ufloat16 in ground arith

-- Every result is a uint16_t.
pub to_ufloat16-lt : (v : ℕ) → to_ufloat16 v < 2 ^ 16
unfolding to_ufloat16
to_ufloat16-lt v = ground arith

-- Numbers below 2 ^ 12 are kept exactly; those below the greatest value are rounded down, by at
-- most one part in 2 ^ 11; all others become the greatest value.
pub ufloat16_rounds_down :
    (v : ℕ)
    → let r = from_ufloat16 (to_ufloat16 v) in
      ((v < 2 ^ 12) × (r ≡ v))
      ⊎ ((2 ^ 12 ≤ v) × (v < max_value) × (r ≤ v) × ((v - r) * 2 ^ 11 ≤ v))
      ⊎ ((max_value ≤ v) × (r ≡ max_value))
ufloat16_rounds_down v = elim (dec_lt v (2 ^ 12)) [
  | yes small ↦ inl (small, decode_small v small)
  | no n ↦ elim (dec_lt v max_value) [
    | yes fits ↦
        let below : (from_ufloat16 (to_ufloat16 v) ≤ v)
            × ((v - from_ufloat16 (to_ufloat16 v)) * 2 ^ 11 ≤ v) =
          omega (
            arith,
            decode_slow v (omega arith) fits,
            normalise-Stands v,
            mul_le (2 ^ 11) (normalise v).1 (2 ^ (normalise v).0)
                ((normalise-Narrowed v (omega arith) fits).over),
          ) in
        inr (inl (omega arith, fits, below.0, below.1))
    | no over ↦ inr (inr (omega arith, decode_clamped v (omega arith)))
  ]
]

-- A normal pair in the range of the format is found again.
normal_round_trip :
    (e m : ℕ)
    → Narrowed 12 (e, m)
    → 1 ≤ e
    → e ≤ 30
    → m * 2 ^ e < max_value
    → to_ufloat16 (m * 2 ^ e) ≡ m + e * 2 ^ 11
normal_round_trip e m n lo hi k =
    let (same_e, same_m) =
      normal_unique e m (normalise v).0 (normalise v).1 n (normalise-Narrowed v big k)
        (normalise-Stands v) in
    omega (arith, to_ufloat16_slow v big k, same_e, same_m)
  where
    v : ℕ
    v = m * 2 ^ e

    big : 2 ^ 12 ≤ v
    big = omega (arith, mul_le (2 ^ 11) m (2 ^ e) n.over, pow_le 1 e lo)

below_max : (e m : ℕ) → m + e * 2 ^ 11 < 2 ^ 16 - 1 → m < 2 ^ 12 → e ≤ 30 → m * 2 ^ e < max_value
below_max e m h n k = elim (dec_lt e 30) [
  | yes l ↦ omega (arith, mul_le m 4095 (2 ^ e) (omega arith), pow_le e 29 (omega arith))
  | no g ↦ omega (arith, mul_le m 4094 (2 ^ e) (omega arith), pow_le e 30 k)
]

-- Every 16-bit pattern is the encoding of the value that it decodes to.
pub to-from_ufloat16 : (u : ℕ) → u < 2 ^ 16 → to_ufloat16 (from_ufloat16 u) ≡ u
to-from_ufloat16 u h = elim (dec_lt u (2 ^ 12)) [
  | yes small ↦ exact u small
  | no n ↦ elim (ℕ_discrete u (2 ^ 16 - 1)) [
    | yes top ↦ rw top (unfold to_ufloat16 from_ufloat16 in refl)
    | no ne ↦
        let e : ℕ = u / 2 ^ 11 - 1 in
        let m : ℕ = u - e * 2 ^ 11 in
        let split : m + e * 2 ^ 11 ≡ u = omega arith in
        let narrow : Narrowed 12 (e, m) = omega arith in
        ap (λ t. to_ufloat16 (from_ufloat16 t)) (sym split)
        ∙ ap to_ufloat16 (from_ufloat16_slow e m narrow (omega arith) (omega arith))
        ∙ normal_round_trip e m narrow (omega arith) (omega arith)
            (below_max e m (omega arith) (omega arith) (omega arith))
        ∙ split
  ]
]
  where
    exact : (u : ℕ) → u < 2 ^ 12 → to_ufloat16 (from_ufloat16 u) ≡ u
    exact u h = unfold to_ufloat16 from_ufloat16 in ground arith
