-- ===== src/Oracle/Tests.antt =====
-- The oracle on a snapshot of one paid order, and on one that was refunded beyond it.
use rule_arena.Common.{◌≡◌, refl, false, some, [], ◌∷◌, String}
use rule_arena.Common.Int.{◌-ℤ◌}
use rule_arena.Common.Json.{Json, Items, Fields, get}
use rule_arena.Decimal.{parse_decimal}
use rule_arena.Decimal.Compare.{above}
use rule_arena.Simulator.Models.{SimulationState}
use rule_arena.Simulator.Rules.{ReferenceSimulator, initial_state, reference_simulator}
use rule_arena.Simulator.Reach.{Reach, start, step}
use rule_arena.Simulator.Fixtures.{points_spec, opened, applied_state, new_user, order_of, pay}
use rule_arena.Oracle.{InvariantId, OracleStatus, refund_limit, net_paid, last_items, items, amount}
use rule_arena.Oracle.Reached.{Shows, nothing, one_more, Reach-refund_limit}

abbrev order_fields : String → Fields
order_fields refunded = Fields.field "id" (Json.text "order-1") (
    Fields.field "paid_amount" (Json.text "250.00")
      (Fields.field "refunded_amount" (Json.text refunded) Fields.no_field))

abbrev snapshot : String → Fields
snapshot refunded =
    Fields.field "state"
      (Json.object (
        Fields.field "orders"
          (Json.array (Items.item (Json.object (order_fields refunded)) Items.no_item))
          Fields.no_field))
      Fields.no_field

over_refund : refund_limit (snapshot "250.01" ∷ []) ≡ record {
  invariant_id = InvariantId.refund_not_exceed_paid;
  status = OracleStatus.violated;
  offending = Json.text "order-1" ∷ [];
}
unfolding refund_limit last_items items get amount parse_decimal above ◌-ℤ◌
over_refund = refl

abbrev sim : ReferenceSimulator
sim = reference_simulator points_spec

abbrev with_user : SimulationState
with_user = applied_state sim (initial_state sim) new_user

abbrev with_order : SimulationState
with_order = applied_state sim with_user (order_of "250.00")

abbrev paid : SimulationState
paid = applied_state sim with_order (pay "order-1")

reached : Reach sim paid
unfolding opened applied_state
reached = step (pay "order-1") _ (step (order_of "250.00") _ (step new_user _ start refl) refl) refl

found : last_items (snapshot "0.00" ∷ []) "orders" ≡ some (order_fields "0.00" ∷ [])
unfolding last_items items get
found = refl

shown : Shows (order_fields "0.00" ∷ []) paid.orders
unfolding opened applied_state get amount parse_decimal ◌-ℤ◌
shown =
    one_more
      (record {
        paid_sign = false;
        paid_cents = 25000;
        refunded_sign = false;
        refunded_cents = 0;
        paid_read = refl;
        refunded_read = refl;
        paid_shown = refl;
        refunded_shown = refl;
      })
      nothing

Reach-refund_limit_example :
    ¬ ((refund_limit (snapshot "0.00" ∷ [])).status ≡ OracleStatus.violated)
    × ¬ ((net_paid (snapshot "0.00" ∷ [])).status ≡ OracleStatus.violated)
Reach-refund_limit_example = Reach-refund_limit sim reached (snapshot "0.00" ∷ []) found shown
