-- ===== src/Common/Text.antt =====
-- Texts: tests on optional texts as Python makes them, code points, and the printing of integers.
use Prim.Native.Nat.{ℕ, zero, suc, ◌/◌, ◌%◌}
use Prim.Native.Char.{code}
use Prim.Native.String.{String, ◌++◌, compare}
use mathlib.Core.Path.{◌≡◌, refl}
use mathlib.Core.Bool.{Bool, true, false, not, ◌&&◌}
use mathlib.Core.List.{List, [], ◌∷◌}
use mathlib.Core.Option.{Option, none, some}
use text.Mathlib.Text.{is_lt}
pub use text.Mathlib.Text.{◌==◌ as str_eq}
pub use text.Mathlib.TextEquality.{eq_iff}
use rule_arena.Common.Tests.{◌==◌, ltb, if◌then◌else◌}
use rule_arena.Common.Int.{ℤ, pos, negsuc}

abbrev pub codes : String → List ℕ
codes String.[] = []
codes (String.◌∷◌ c s) = code c ∷ codes s

-- `text < other`
abbrev pub text_before : String → String → Bool
text_before s t = is_lt (compare s t)

-- `text.startswith(other)`, by code points.
abbrev pub starts_with : List ℕ → List ℕ → Bool
starts_with s [] = true
starts_with [] (d ∷ ds) = false
starts_with (c ∷ cs) (d ∷ ds) = (c == d) && starts_with cs ds

-- `bool(text)`, where the text may be `None`
abbrev pub truthy : Option String → Bool
truthy none = false
truthy (some s) = not (str_eq s "")

-- `text == other`, where the other may be `None`
abbrev pub is_text : String → Option String → Bool
is_text s none = false
is_text s (some t) = str_eq s t

-- `value or default`
abbrev pub or_else : Option String → String → String
or_else none d = d
or_else (some s) d = if str_eq s "" then d else s

-- `text + text`, under a name that leaves `++` to lists.
abbrev pub join : String → String → String
join s t = s ++ t

unfoldable pub digit_text : ℕ → String
digit_text n =
    if n == 0
    then "0"
    else if n == 1
    then "1"
    else if n == 2
    then "2"
    else if n == 3
    then "3"
    else if n == 4
    then "4"
    else if n == 5
    then "5"
    else if n == 6
    then "6"
    else if n == 7
    then "7"
    else if n == 8
    then "8"
    else "9"

-- The fuel bounds the number of digits; a number has fewer digits than its successor counts.
unfoldable pub show_digits : ℕ → ℕ → String
unfolding digit_text
show_digits zero n = ""
show_digits (suc f) n =
    let front = show_digits f (n / 10) in
    if ltb n 10 then digit_text n else front ++ digit_text (n % 10)

-- `str(n)`
unfoldable pub show_nat : ℕ → String
unfolding show_digits
show_nat n = show_digits (suc n) n

unfoldable pub show_int : ℤ → String
unfolding show_nat
show_int (pos n) = show_nat n
show_int (negsuc n) = "-" ++ show_nat (suc n)

show_nat_120 : show_nat 120 ≡ "120"
unfolding show_nat
show_nat_120 = refl
