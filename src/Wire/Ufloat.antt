-- ===== src/Wire/Ufloat.antt =====
-- The 16-bit unsigned floats of WriteUFloat16 and ReadUFloat16
-- (puicbase/net/quic/core/quic_data_writer.cc, quic_data_reader.cc, quic_constants.h).
pub mod Search
pub mod Rounding
use puic.Prelude.{ℕ, ◌+◌, ◌-◌, ◌*◌, ◌/◌, ◌%◌, ◌^◌, ltb, leb, if◌then◌else◌, List, [], ◌∷◌}

abbrev pub mantissa_bits : ℕ
mantissa_bits = 11

abbrev pub mantissa_effective_bits : ℕ
mantissa_effective_bits = 12

abbrev pub max_exponent : ℕ
max_exponent = 30

-- 0x3FFC0000000
abbrev pub max_value : ℕ
max_value = (2 ^ 12 - 1) * 2 ^ 30

-- One round of the binary search, on the exponent so far and the shifted value.
unfoldable pub search_round : ℕ → ℕ × ℕ → ℕ × ℕ
search_round offset p = if leb (2 ^ (11 + offset)) p.1 then (p.0 + offset, p.1 / 2 ^ offset) else p

-- The rounds for the offsets 16, 8, 4, 2 and 1.
unfoldable pub normalise : ℕ → ℕ × ℕ
unfolding search_round
normalise value =
    search_round 1 (search_round 2 (search_round 4 (search_round 8 (search_round 16 (0, value)))))

unfoldable pub to_ufloat16 : ℕ → ℕ
to_ufloat16 value =
    if ltb value (2 ^ 12)
    then value % 2 ^ 16
    else if leb max_value value
    then 2 ^ 16 - 1
    else let (exponent, mantissa) = normalise value in (mantissa + exponent * 2 ^ 11) % 2 ^ 16

-- The shift is that of a uint64_t.
unfoldable pub from_ufloat16 : ℕ → ℕ
from_ufloat16 value =
    if ltb value (2 ^ 12)
    then value
    else let exponent = value / 2 ^ 11 - 1 in ((value - exponent * 2 ^ 11) * 2 ^ exponent) % 2 ^ 64
