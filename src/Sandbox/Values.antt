-- ===== src/Sandbox/Values.antt =====
-- service.py of services/commerce_sandbox: how a handler reads the arguments of a command, and the
-- texts of amounts.
use rule_arena.Common.{
  ℕ, ◌/◌, ◌%◌, ◌^◌, suc, ◌≡◌, refl, Bool, not, ◌||◌, Option, none, some, List, [], ◌∷◌, all, String,
  if◌then◌else◌,
}
use rule_arena.Common.Int.{ℤ, pos, negsuc, ltb_ℤ, leb_ℤ}
use rule_arena.Common.Outcome.{Outcome, Exc, done, reject, raise, reject_if, or_reject, ◌>>=◌, ◌>>◌}
use rule_arena.Common.Text.{codes, str_eq, truthy, or_else, join, digit_text, show_nat, show_int}
use rule_arena.Common.Json.{Json, Fields, get, has_field, names_in}
use rule_arena.Decimal.{Decimal, parse_decimal, parse_int, quantize_cents, of_integer}
use rule_arena.Policy.{Currency}
use rule_arena.Sandbox.Models.{Code, Effect}

-- `_args`
unfoldable pub check_args : List String → List String → Fields → Outcome Code (Unit {0})
check_args allowed required arguments = do
  reject_if (not (names_in allowed arguments)) Code.unknown_argument
  reject_if (not (all (λ name. has_field name arguments) required)) Code.missing_argument

-- `_target`
unfoldable pub target : Option String → Outcome Code String
target target_id =
    if truthy target_id then done (or_else target_id "") else reject Code.target_required

-- `_string`
unfoldable pub text_argument : Json → Outcome Code String
text_argument (Json.text s) = if str_eq s "" then reject Code.invalid_argument else done s
text_argument _ = reject Code.invalid_argument

-- `_strict_bool`
unfoldable pub strict_bool : Json → Outcome Code Bool
strict_bool (Json.boolean b) = done b
strict_bool _ = reject Code.invalid_argument

-- An integer above 0 whose text is as `str` prints it.
abbrev pub printed_positive : String → Option ℤ → Outcome Code ℤ
printed_positive s none = reject Code.invalid_argument
printed_positive s (some n) =
    if not (ltb_ℤ (pos 0) n) || not (str_eq s (show_int n))
    then reject Code.invalid_argument
    else done n

-- `_positive_int`; the text of a number with a fraction or an exponent is never that of its `int`.
unfoldable pub positive_int : Json → Outcome Code ℤ
positive_int (Json.integer n) = if ltb_ℤ (pos 0) n then done n else reject Code.invalid_argument
positive_int (Json.text s) = printed_positive s (parse_int (codes s))
positive_int _ = reject Code.invalid_argument

-- The amount and the currency of a monetary argument, as they were sent.
unfoldable pub money_parts : Json → Outcome Code (Json × Json)
money_parts (Json.object fields) =
    if not (names_in ("amount" ∷ "currency" ∷ []) fields) || not (has_field "amount" fields)
    then reject Code.invalid_money
    else done (
      get "amount" fields,
      (if has_field "currency" fields then get "currency" fields else Json.text "CNY"),
    )
money_parts value = done (value, Json.text "CNY")

abbrev cents_read : Option Decimal → Option ℤ
cents_read none = none
cents_read (some d) = quantize_cents d

-- `_quantize(Decimal(raw_amount))`, in cents.
unfoldable pub read_cents : Json → Option ℤ
read_cents (Json.text s) = cents_read (parse_decimal (codes s))
read_cents (Json.integer n) = quantize_cents (of_integer n)
read_cents _ = none

-- `Currency(currency_value)`
unfoldable pub read_currency : Json → Option Currency
read_currency (Json.text s) =
    if str_eq s "CNY" then some Currency.cny else if str_eq s "USD" then some Currency.usd else none
read_currency _ = none

-- `_money`
unfoldable pub sandbox_money : Json → Outcome Code (ℤ × Currency)
sandbox_money value = do
  (raw, sent) ← money_parts value
  amount ← or_reject (read_cents raw) Code.invalid_money
  currency ← or_reject (read_currency sent) Code.invalid_money
  reject_if (ltb_ℤ amount (pos 0)) Code.invalid_money
  done (amount, currency)

-- `Money(currency=currency, amount=amount)`: the model takes at most fourteen digits before the point.
-- Its `ValidationError` is a `ValueError`, which is not caught.
unfoldable pub money_effect : Currency → ℤ → Outcome Code Effect
money_effect currency amount =
    if ltb_ℤ amount (pos 0) || leb_ℤ (pos (10 ^ 16)) amount
    then raise Exc.value_error
    else done (record { currency = currency; amount = amount })

-- `_points_for`: the whole units of an amount that is not negative.
unfoldable pub whole_points : ℤ → ℤ
whole_points (pos n) = pos (n / 100)
whole_points (negsuc n) = negsuc (n / 100)

abbrev pub cents_text : ℕ → String
cents_text n =
    join (show_nat (n / 100)) (join "." (join (digit_text (n % 100 / 10)) (digit_text (n % 10))))

-- `_amount_text`
unfoldable pub amount_text : ℤ → String
amount_text (pos n) = cents_text n
amount_text (negsuc n) = join "-" (cents_text (suc n))

abbrev pub currency_text : Currency → String
currency_text Currency.cny = "CNY"
currency_text Currency.usd = "USD"

some_amounts : amount_text (pos 12305) ≡ "123.05"
unfolding amount_text show_nat digit_text
some_amounts = refl
