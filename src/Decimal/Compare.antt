-- ===== src/Decimal/Compare.antt =====
-- Sums and comparisons of decimals, exact: both are brought to the smaller exponent. Python compares
-- exactly too, but rounds a sum and a difference to the 28 digits of its context, and can end them in
-- Overflow or underflow to zero: `add_decimal` and `difference_negative` are faithful where the exact
-- result has at most 28 digits and an exponent within the context.
use rule_arena.Common.{◌*◌, ◌+◌, ◌^◌, Bool}
use rule_arena.Common.Int.{ℤ, pos, negsuc, pos_part, neg_part, ◌+ℤ◌, ◌-ℤ◌, min_ℤ, ltb_ℤ}
use rule_arena.Decimal.{Decimal, signed}

-- The decimal as a multiple of 10^exponent, for an exponent that is not above its own.
abbrev pub scaled : ℤ → Decimal → ℤ
scaled exponent d = signed d.negative (d.coefficient * 10 ^ pos_part (d.exponent -ℤ exponent))

abbrev pub common_exponent : Decimal → Decimal → ℤ
common_exponent a b = min_ℤ a.exponent b.exponent

-- `a + b`
unfoldable pub add_decimal : Decimal → Decimal → Decimal
add_decimal a b =
    let e = common_exponent a b in
    let sum = scaled e a +ℤ scaled e b in
    record { negative = ltb_ℤ sum (pos 0); coefficient = pos_part sum + neg_part sum; exponent = e }

-- `a > b`
unfoldable pub above : Decimal → Decimal → Bool
above a b = let e = common_exponent a b in ltb_ℤ (scaled e b) (scaled e a)

-- An amount in ten-thousandths.
abbrev pub of_amount : ℤ → Decimal
of_amount a = record {
  negative = ltb_ℤ a (pos 0);
  coefficient = pos_part a + neg_part a;
  exponent = negsuc 3;
}

-- `a - b < 0`
unfoldable pub difference_negative : Decimal → Decimal → Bool
difference_negative a b = let e = common_exponent a b in ltb_ℤ (scaled e a -ℤ scaled e b) (pos 0)
