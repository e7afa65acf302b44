-- ===== src/Simulator/Argument/Cents.antt =====
-- `_money` of simulator.py gives whole cents.
use rule_arena.Common.{ℕ, ◌+◌, ◌/◌, ◌≡◌, sym, ◌*◌, inl, Option, none, some}
use rule_arena.Common.Int.{ℤ, pos}
use rule_arena.Common.Outcome.{done, or_raise-eq-done}
use rule_arena.Decimal.{Decimal, cent}
use rule_arena.Decimal.Quantize.{IsCents, quantize-IsCents}
use rule_arena.Simulator.Models.{Value}
use rule_arena.Simulator.Argument.{money, money_or, rule_money, read_decimal, to_cents}

to_cents-IsCents : (d : Option Decimal) {a : ℤ} → to_cents d ≡ some a → IsCents a
to_cents-IsCents none h = cc
to_cents-IsCents (some d) h = quantize-IsCents d h

pub money-IsCents : (v : Option Value) {a : ℤ} → money v ≡ done a → IsCents a
unfolding money
money-IsCents none h = cc
money-IsCents (some v) h = to_cents-IsCents (read_decimal v) (or_raise-eq-done _ _ h)

pub money_or-IsCents :
    (amount : ℕ) (v : Option Value) {a : ℤ} → money_or amount v ≡ done a → IsCents a
unfolding money_or rule_money
money_or-IsCents amount none {a} h =
    let e : pos ((amount + 50) / 100 * cent) ≡ a = cc in ((amount + 50) / 100, inl (sym e))
money_or-IsCents amount (some v) h = money-IsCents (some v) h
