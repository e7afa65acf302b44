-- ===== src/Sandbox/SnapshotTests.antt =====
-- The snapshot of a run before the gate, and an amount that is printed and read.
use rule_arena.Common.{arith, ◌≡◌, refl, true, none, some, [], ◌∷◌}
use rule_arena.Common.Outcome.{reject_if, or_reject, ◌>>◌, ◌>>=◌}
use rule_arena.Common.Json.{Json, get}
use rule_arena.Common.Int.{pos, ◌+ℤ◌, ◌-ℤ◌, ◌*ℤ◌}
use rule_arena.Common.Text.{digit_text, show_digits, show_nat}
use rule_arena.Decimal.{parse_decimal, quantize_cents}
use rule_arena.Sandbox.Profile.{exhibits}
use rule_arena.Sandbox.Values.{
  check_args, target, sandbox_money, money_parts, read_cents, read_currency, money_effect,
  amount_text, whole_points,
}
use rule_arena.Sandbox.Rows.{next_id, emit}
use rule_arena.Sandbox.Orders.{create_user, create_order}
use rule_arena.Sandbox.Payments.{
  pay_order, use_coupon, refund_order, max_refund, refund_points, reopen_coupon,
}
use rule_arena.Sandbox.Execute.{execute, dispatch, supports, acknowledge, receipt_from_record}
use rule_arena.Sandbox.Reach.{reachable-RunIsValid}
use rule_arena.Simulator.Models.{SimAction, ActionType, Value, argument}
use rule_arena.RuntimeGate.{pre_check, gate_money, orders_of, snapshot_of, decimal_of, budget_check}
use rule_arena.RuntimeGate.Safety.{passes}
use rule_arena.Decimal.{quantize}
use rule_arena.Decimal.Compare.{add_decimal, above}
use rule_arena.Sandbox.Snapshot.{snapshot}
use rule_arena.Sandbox.Printed.{read_cents-amount_text}
use rule_arena.Sandbox.Gate.{IsAffordable, own_reply, pre_check-IsAffordable}
use rule_arena.Sandbox.Tests.{digest, paid, paid_Reachable}

abbrev asked : SimAction
asked = record {
  action_type = ActionType.refund_order;
  actor_id = "user-1";
  target_id = some "order-1";
  arguments = ("amount", Value.text "12.5") ∷ [];
  idempotency_key = none;
}

asked-passes : passes (pre_check asked (own_reply digest paid.0 "now")) ≡ true
unfolding execute dispatch supports acknowledge receipt_from_record create_user create_order
    pay_order use_coupon refund_order max_refund refund_points reopen_coupon check_args target
    sandbox_money money_parts read_cents read_currency money_effect amount_text whole_points next_id
    emit get parse_decimal quantize_cents exhibits reject_if or_reject ◌>>◌ ◌>>=◌ ◌+ℤ◌ ◌-ℤ◌ ◌*ℤ◌
    digit_text show_digits show_nat pre_check gate_money orders_of snapshot_of decimal_of
    budget_check quantize argument add_decimal above snapshot
asked-passes = refl

pre_check-IsAffordable_example : IsAffordable paid.0 asked
pre_check-IsAffordable_example =
    pre_check-IsAffordable digest paid.0 "now" asked
      (reachable-RunIsValid digest paid.0 paid_Reachable) refl asked-passes

read_cents-amount_text_example : read_cents (Json.text (amount_text (pos 12305))) ≡ some (pos 12305)
read_cents-amount_text_example = read_cents-amount_text 12305 (omega arith)
