-- ===== src/Decimal/Tests.antt =====
-- The parser and the rounding at texts that can be followed by hand.
use rule_arena.Common.{◌≡◌, refl, false, some, none}
use rule_arena.Common.Int.{pos, negsuc, ◌-ℤ◌}
use rule_arena.Common.Text.{codes}
use rule_arena.Decimal.{Decimal, parse_decimal, parse_int, quantize}
use rule_arena.Decimal.Quantize.{Nearest, quantize-Nearest}

-- 10.005
abbrev half_cent : Decimal
half_cent = record { negative = false; coefficient = 10005; exponent = negsuc 2 }

parse_half_cent : parse_decimal (codes " 10.0_05 ") ≡ some half_cent
unfolding parse_decimal ◌-ℤ◌
parse_half_cent = refl

quantize-half_cent : quantize half_cent ≡ some (pos 100100)
unfolding quantize
quantize-half_cent = refl

parse_int_words :
    (parse_int (codes "-1_000") ≡ some (negsuc 999)) × (parse_int (codes "1__0") ≡ none)
unfolding parse_int ◌-ℤ◌
parse_int_words = (refl, refl)

quantize-Nearest_example : Nearest half_cent 0 (pos 100100)
unfolding quantize
quantize-Nearest_example = quantize-Nearest half_cent 0 refl refl
