-- ===== src/RuntimeGate/Tests.antt =====
-- A refund of a paid order, with the snapshot of a sandbox.
use rule_arena.Common.{◌≡◌, refl, true, false, none, some, [], ◌∷◌, String}
use rule_arena.Common.Int.{ℤ, pos, ◌+ℤ◌, ◌-ℤ◌, ◌≤ℤ◌, ◌<ℤ◌}
use rule_arena.Common.Outcome.{ok, err, done, Exc}
use rule_arena.Common.Json.{Json, Items, Fields, get}
use rule_arena.Decimal.{parse_decimal, quantize}
use rule_arena.Decimal.Compare.{add_decimal, above}
use rule_arena.Policy.{Currency}
use rule_arena.Simulator.Models.{
  SimAction, SimOrder, ActionType, Value, OrderStatus, new_order, argument,
}
use rule_arena.Simulator.Argument.{money}
use rule_arena.RuntimeGate.{
  Reply, GateDecisionType, GateReason, decided, pre_check, gate_money, decimal_of, orders_of,
  snapshot_of, budget_check,
}
use rule_arena.RuntimeGate.Safety.{passes}
use rule_arena.RuntimeGate.Agreement.{ShowsOrder, pre_check-refund_order}

abbrev pub paid_order : SimOrder
paid_order = record (new_order "order-1" "user-1" (pos 1000000) Currency.cny) {
  paid_amount = pos 1000000;
  refunded_amount = pos 300000;
  status = OrderStatus.partially_refunded;
}

abbrev order_fields : Fields
order_fields = Fields.field "id" (Json.text "order-1") (
    Fields.field "status" (Json.text "PARTIALLY_REFUNDED") (
      Fields.field "paid_amount" (Json.text "100.00")
        (Fields.field "refunded_amount" (Json.text "30.00") Fields.no_field)))

abbrev snapshot : Fields
snapshot =
    Fields.field "state"
      (Json.object (
        Fields.field "orders" (Json.array (Items.item (Json.object order_fields) Items.no_item))
          Fields.no_field))
      Fields.no_field

abbrev reply : Reply
reply = Reply.response 200 (some (Json.object snapshot))

abbrev refund : String → SimAction
refund amount = record {
  action_type = ActionType.refund_order;
  actor_id = "user-1";
  target_id = some "order-1";
  arguments = ("amount", Value.text amount) ∷ [];
  idempotency_key = none;
}

allowed : passes (pre_check (refund "70.00") reply) ≡ true
unfolding pre_check gate_money orders_of snapshot_of decimal_of budget_check get parse_decimal
    quantize argument add_decimal above ◌-ℤ◌ ◌+ℤ◌
allowed = refl

over_budget :
    pre_check (refund "70.01") reply
    ≡ ok (decided GateDecisionType.block GateReason.refund_budget_exceeded)
unfolding pre_check gate_money orders_of snapshot_of decimal_of budget_check get parse_decimal
    quantize argument add_decimal above ◌-ℤ◌ ◌+ℤ◌
over_budget = refl

shown : ShowsOrder reply "order-1" paid_order
unfolding orders_of snapshot_of decimal_of get parse_decimal ◌-ℤ◌
shown = record {
  snapshot = snapshot;
  orders = ("order-1", order_fields) ∷ [];
  order = order_fields;
  paid_sign = false;
  paid_cents = 10000;
  refunded_sign = false;
  refunded_cents = 3000;
  snapshot_read = refl;
  orders_read = refl;
  order_found = refl;
  paid_read = refl;
  refunded_read = refl;
  paid_shown = refl;
  refunded_shown = refl;
}

pre_check-refund_order_example :
    (amount : ℤ) × (money (argument "amount" (refund "70.00").arguments) ≡ done amount)
    × (pos 0 <ℤ amount)
    × (paid_order.refunded_amount +ℤ amount ≤ℤ paid_order.paid_amount)
pre_check-refund_order_example =
    pre_check-refund_order (refund "70.00") reply "order-1" paid_order shown refl refl allowed

-- An amount that does not fit the decimal context is not answered: the exception is not caught.
overlong : pre_check (refund "1e30") reply ≡ err Exc.arithmetic_error
unfolding pre_check gate_money argument parse_decimal quantize ◌-ℤ◌ ◌+ℤ◌
overlong = refl
