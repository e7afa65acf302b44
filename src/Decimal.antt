-- ===== src/Decimal.antt =====
-- The `decimal` texts that the simulator and the gate read. An amount of money is an integer that
-- counts ten-thousandths, so that a cent is 100 and every amount of a rule (four decimal places at
-- most) is exact. A text is parsed as `Decimal(text)` does, for ASCII digits, and quantized to cents
-- with ROUND_HALF_UP under the default context of 28 digits.
pub mod Quantize
pub mod Compare
pub mod Printed
mod Tests
use rule_arena.Common.{
  ℕ, zero, suc, ◌+◌, ◌-◌, ◌*◌, ◌/◌, ◌^◌, Bool, true, false, not, ◌&&◌, ◌||◌, Option, none, some,
  List, [], ◌∷◌, ltb, leb, ◌==◌, if◌then◌else◌,
}
use rule_arena.Common.Int.{ℤ, pos, negsuc, ◌+ℤ◌, ◌-ℤ◌}

-- A finite decimal, -1^negative * coefficient * 10^exponent.
pub record Decimal : Type 0 where
  pub negative : Bool
  pub coefficient : ℕ
  pub exponent : ℤ

-- `Decimal(n)` for an integer.
abbrev pub of_integer : ℤ → Decimal
of_integer (pos n) = record { negative = false; coefficient = n; exponent = pos 0 }
of_integer (negsuc n) = record { negative = true; coefficient = n + 1; exponent = pos 0 }

-- One cent, in ten-thousandths.
abbrev pub cent : ℕ
cent = 100

abbrev pub context_limit : ℕ
context_limit = 10 ^ 28

is_digit : ℕ → Bool
is_digit c = leb b'0' c && leb c b'9'

is_space : ℕ → Bool
is_space c = c == 32 || leb 9 c && leb c 13 || leb 28 c && leb c 31

strip_front : List ℕ → List ℕ
strip_front [] = []
strip_front (c ∷ cs) = let rest = strip_front cs in if is_space c then rest else c ∷ cs

-- Whether only white space is left.
is_blank : List ℕ → Bool
is_blank [] = true
is_blank (c ∷ cs) = is_space c && is_blank cs

strip_back : List ℕ → List ℕ
strip_back [] = []
strip_back (c ∷ cs) = let rest = strip_back cs in if is_blank (c ∷ cs) then [] else c ∷ rest

-- `text.strip()`
strip : List ℕ → List ℕ
strip cs = strip_back (strip_front cs)

-- `text.replace("_", "")`
without_underscores : List ℕ → List ℕ
without_underscores [] = []
without_underscores (c ∷ cs) =
    let rest = without_underscores cs in if c == b'_' then rest else c ∷ rest

-- The digits at the front: their value behind `acc`, how many there are, and what follows.
take_digits : ℕ → ℕ → List ℕ → ℕ × ℕ × List ℕ
take_digits acc n [] = (acc, n, [])
take_digits acc n (c ∷ cs) =
    let rest = take_digits (acc * 10 + (c - 48)) (n + 1) cs in
    if is_digit c then rest else (acc, n, c ∷ cs)

-- An optional sign.
take_sign : List ℕ → Bool × List ℕ
take_sign [] = (false, [])
take_sign (c ∷ cs) =
    if c == b'-' then (true, cs) else if c == b'+' then (false, cs) else (false, c ∷ cs)

-- An optional point with its digits, which go on behind `acc`.
take_fraction : ℕ → List ℕ → ℕ × ℕ × List ℕ
take_fraction acc [] = (acc, 0, [])
take_fraction acc (c ∷ cs) = if c == b'.' then take_digits acc 0 cs else (acc, 0, c ∷ cs)

abbrev pub signed : Bool → ℕ → ℤ
signed negative n = if negative then pos 0 -ℤ pos n else pos n

-- The digits of an exponent, which must be there and end the text.
exponent_value : Bool → ℕ × ℕ × List ℕ → Option ℤ
exponent_value negative (n, zero, rest) = none
exponent_value negative (n, suc k, []) = some (signed negative n)
exponent_value negative (n, suc k, c ∷ rest) = none

take_exponent : List ℕ → Option ℤ
take_exponent [] = some (pos 0)
take_exponent (c ∷ cs) =
    let (negative, rest) = take_sign cs in
    if c == b'e' || c == b'E' then exponent_value negative (take_digits 0 0 rest) else none

finish_decimal : Bool → ℕ → ℕ → Option ℤ → Option Decimal
finish_decimal negative n places none = none
finish_decimal negative n places (some e) =
    some (record { negative = negative; coefficient = n; exponent = e -ℤ pos places })

-- `Decimal(text)`; `none` is the `InvalidOperation` of a text that is no number.
unfoldable pub parse_decimal : List ℕ → Option Decimal
unfolding strip strip_front strip_back is_blank is_space is_digit without_underscores take_sign
    take_digits take_fraction take_exponent exponent_value finish_decimal
parse_decimal text =
    let (negative, body) = take_sign (without_underscores (strip text)) in
    let (whole, before, rest) = take_digits 0 0 body in
    let (n, after, tail) = take_fraction whole rest in
    if before + after == 0 then none else finish_decimal negative n after (take_exponent tail)

-- The digits of `int(text)`: an underscore may stand between two digits.
int_digits : Bool → ℕ → List ℕ → Option ℕ
int_digits after_digit acc [] = if after_digit then some acc else none
int_digits after_digit acc (c ∷ cs) =
    let more = int_digits true (acc * 10 + (c - 48)) cs in
    let gap = int_digits false acc cs in
    if is_digit c then more else if c == b'_' && after_digit then gap else none

-- `int(text)`; `none` is its `ValueError`.
unfoldable pub parse_int : List ℕ → Option ℤ
unfolding strip strip_front strip_back is_blank is_space is_digit take_sign int_digits
parse_int text =
    let (negative, body) = take_sign (strip text) in
    elim (int_digits false 0 body) [ none ↦ none | some n ↦ some (signed negative n) ]

-- A magnitude coefficient * 10^exponent in cents, rounded half up.
cents_of : ℕ → ℤ → ℕ
cents_of c (pos e) = c * 10 ^ (e + 2)
cents_of c (negsuc zero) = c * 10
cents_of c (negsuc (suc zero)) = c
cents_of c (negsuc (suc (suc k))) = (c + 10 ^ suc k / 2) / 10 ^ suc k

-- `value.quantize(CENT, rounding=ROUND_HALF_UP)`; `none` is the `InvalidOperation` of a result that
-- has more than 28 digits.
unfoldable pub quantize : Decimal → Option ℤ
unfolding cents_of
quantize d =
    let cents = cents_of d.coefficient d.exponent in
    if ltb cents context_limit then some (signed d.negative (cents * cent)) else none

-- The same, counted in cents.
unfoldable pub quantize_cents : Decimal → Option ℤ
unfolding cents_of
quantize_cents d =
    let cents = cents_of d.coefficient d.exponent in
    if ltb cents context_limit then some (signed d.negative cents) else none
