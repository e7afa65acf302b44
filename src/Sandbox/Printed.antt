-- ===== src/Sandbox/Printed.antt =====
-- An amount that the commerce sandbox prints is the amount that it reads.
use rule_arena.Common.{ℕ, ◌+◌, ◌*◌, ◌/◌, ◌%◌, ◌^◌, ◌<◌, ◌≡◌, true, false, some, lt→ltb, ltb, arith}
use rule_arena.Common.Int.{pos, negsuc}
use rule_arena.Common.Text.{codes}
use rule_arena.Common.Json.{Json}
use rule_arena.Decimal.{parse_decimal, quantize_cents, context_limit}
use rule_arena.Decimal.Printed.{parse_decimal-two_places}
use rule_arena.Sandbox.Values.{amount_text, read_cents}

-- What `Decimal` reads from a printed amount.
pub parse_decimal-amount_text :
    (n : ℕ)
    → parse_decimal (codes (amount_text (pos n)))
      ≡ some (record { negative = false; coefficient = n; exponent = negsuc 1 })
unfolding amount_text
parse_decimal-amount_text n =
    let digits : (n / 100 * 10 + n % 100 / 10) * 10 + n % 10 ≡ n = omega arith in
    rw (
      parse_decimal-two_places (n / 100) (n % 100 / 10) (n % 10) (omega arith) (omega arith),
      digits,
    )

-- An amount of the sandbox that is not negative survives its text: `_money` reads what `_amount_text`
-- printed as the same number of cents, if it has at most 28 digits.
pub read_cents-amount_text :
    (n : ℕ) → n < 10 ^ 28 → read_cents (Json.text (amount_text (pos n))) ≡ some (pos n)
unfolding read_cents quantize_cents
read_cents-amount_text n h =
    let small : ltb n context_limit ≡ true = lt→ltb n (10 ^ 28) h in
    rw (parse_decimal-amount_text n, small)
