-- ===== src/Simulator/Arithmetic.antt =====
-- The decimal and integer arithmetic of simulator.py on amounts of ten-thousandths.
use rule_arena.Common.{
  ℕ, zero, suc, ◌+◌, ◌*◌, ◌/◌, Bool, true, false, Option, none, some, ltb, ◌==◌, if◌then◌else◌,
}
use rule_arena.Common.Int.{ℤ, pos, negsuc, ◌*ℤ◌, ◌-ℤ◌, pos_part, neg_part}
use rule_arena.Decimal.{cent, context_limit}
use rule_arena.Policy.{PointsRule}

-- `int(amount // divisor)`: decimals divide towards zero.
unfoldable pub whole_quotient : ℤ → ℕ → ℤ
whole_quotient (pos n) k = pos (n / k)
whole_quotient (negsuc n) k = pos 0 -ℤ pos (suc n / k)

-- The grant of `_do_pay_order` for a payment.
unfoldable pub points_for : Option PointsRule → ℤ → ℤ
points_for none amount = pos 0
points_for (some rule) amount =
    if ltb 0 rule.spend_amount.amount
    then whole_quotient amount rule.spend_amount.amount *ℤ pos rule.points_granted
    else pos 0

-- `int((a / b).to_integral_value(rounding=ROUND_FLOOR))`; `none` is a division by zero.
unfoldable pub floor_quotient : ℤ → ℤ → Option ℤ
floor_quotient a (pos zero) = none
floor_quotient (pos n) (pos (suc d)) = some (pos (n / suc d))
floor_quotient (negsuc n) (pos (suc d)) = some (negsuc (n / suc d))
floor_quotient (pos zero) (negsuc d) = some (pos 0)
floor_quotient (pos (suc n)) (negsuc d) = some (negsuc (n / suc d))
floor_quotient (negsuc n) (negsuc d) = some (pos (suc n / suc d))

abbrev is_negative : ℤ → Bool
is_negative (pos n) = false
is_negative (negsuc n) = true

abbrev magnitude : ℤ → ℕ
magnitude a = pos_part a + neg_part a

abbrev with_sign : Bool → Bool → ℕ → ℤ
with_sign true false n = pos 0 -ℤ pos n
with_sign false true n = pos 0 -ℤ pos n
with_sign _ _ n = pos n

-- The cents nearest to a/b ten-thousandths, a half rounded up.
abbrev nearest_cents : ℕ → ℕ → ℕ
nearest_cents a b = (2 * a + b * cent) / (2 * (b * cent))

-- `(a / b).quantize(CENT, rounding=ROUND_HALF_UP)`; `none` is a division by zero or a result of
-- more than 28 digits.
unfoldable pub rounded_quotient : ℤ → ℤ → Option ℤ
rounded_quotient a b =
    let cents = nearest_cents (magnitude a) (magnitude b) in
    if magnitude b == 0
    then none
    else if ltb cents context_limit
    then some (with_sign (is_negative a) (is_negative b) (cents * cent))
    else none
