-- ===== src/Simulator/Argument.antt =====
-- How the handlers of simulator.py read an action's arguments: `_money`, `int`, `Currency` and `str`,
-- with the exceptions that they raise.
pub mod Cents
use rule_arena.Common.{
  ℕ, ◌+◌, ◌*◌, ◌/◌, Bool, true, false, not, Option, none, some, String, ltb, if◌then◌else◌,
}
use rule_arena.Common.Int.{ℤ, pos, negsuc, pos_part, neg_part}
use rule_arena.Common.Text.{codes, str_eq, show_int}
use rule_arena.Common.Outcome.{Outcome, done, raise, Exc, or_raise}
use rule_arena.Decimal.{Decimal, parse_decimal, parse_int, quantize, cent}
use rule_arena.Policy.{Currency}
use rule_arena.Simulator.Models.{Value, Code}

-- What `Decimal(str(value))` reads; the text of a `bool` is no number.
unfoldable pub read_decimal : Value → Option Decimal
read_decimal (Value.text s) = parse_decimal (codes s)
read_decimal (Value.int (pos n)) =
    some (record { negative = false; coefficient = n; exponent = pos 0 })
read_decimal (Value.int (negsuc n)) =
    some (record { negative = true; coefficient = n + 1; exponent = pos 0 })
read_decimal (Value.bool b) = none

abbrev pub to_cents : Option Decimal → Option ℤ
to_cents none = none
to_cents (some d) = quantize d

-- `_money(value)`, where `None` stands for a missing argument with no default.
unfoldable pub money : Option Value → Outcome Code ℤ
unfolding read_decimal
money none = raise Exc.arithmetic_error
money (some v) = or_raise (to_cents (read_decimal v)) Exc.arithmetic_error

-- `_money` of an amount that a rule states, rounded half up to a cent.
unfoldable pub rule_money : ℕ → ℤ
rule_money amount = pos ((amount + 50) / 100 * cent)

-- `_money(action.argument(name, rule_amount))`
unfoldable pub money_or : ℕ → Option Value → Outcome Code ℤ
money_or amount none = done (rule_money amount)
money_or amount (some v) = money (some v)

-- `int(value)`
unfoldable pub integer_value : Value → Outcome Code ℤ
integer_value (Value.text s) = or_raise (parse_int (codes s)) Exc.value_error
integer_value (Value.int n) = done n
integer_value (Value.bool b) = done (if b then pos 1 else pos 0)

-- `int(action.argument(name, default))`
unfoldable pub integer_or : ℕ → Option Value → Outcome Code ℤ
integer_or default none = done (pos default)
integer_or default (some v) = integer_value v

-- `str(value)`
unfoldable pub text_of : Value → String
text_of (Value.text s) = s
text_of (Value.int n) = show_int n
text_of (Value.bool true) = "True"
text_of (Value.bool false) = "False"

-- `str(action.argument(name, default))`
unfoldable pub text_or : String → Option Value → String
text_or default none = default
text_or default (some v) = text_of v

-- `Currency(text)`
unfoldable pub currency_of : String → Outcome Code Currency
currency_of s =
    if str_eq s "CNY"
    then done Currency.cny
    else if str_eq s "USD"
    then done Currency.usd
    else raise Exc.value_error

-- `bool(action.argument(name, False))`
unfoldable pub flag : Option Value → Bool
flag none = false
flag (some (Value.text s)) = not (str_eq s "")
flag (some (Value.int n)) = ltb 0 (pos_part n + neg_part n)
flag (some (Value.bool b)) = b
