-- ===== src/Simulator/Fixtures.antt =====
-- Concrete specifications, actions and runs for the tests and the witnesses of the simulator.
use rule_arena.Common.{ℕ, true, false, Option, none, some, List, [], ◌∷◌, String}
use rule_arena.Common.Int.{◌+ℤ◌, ◌-ℤ◌, ◌*ℤ◌}
use rule_arena.Common.Text.{show_nat, show_int}
use rule_arena.Common.Outcome.{Result, ok, err, ◌>>=◌, ◌>>◌, reject_if, or_reject, or_raise}
use rule_arena.Decimal.{parse_decimal, parse_int, quantize}
use rule_arena.Policy.{first_promotion, first_refund, first_points, first_membership}
use rule_arena.Policy.{RuleSpec, Rule, ScenarioType, Currency, RefundPolicy, Money}
use rule_arena.Simulator.Models.{
  ActionType, Value, SimAction, SimulationState, argument, action_value, entitlement_available,
}
use rule_arena.Simulator.Argument.{
  money, money_or, integer_value, integer_or, text_of, text_or, currency_of, flag, rule_money,
}
use rule_arena.Simulator.Arithmetic.{points_for, whole_quotient, floor_quotient, rounded_quotient}
use rule_arena.Simulator.Ordering.{
  do_create_user, do_issue_coupon, do_create_order, do_apply_coupon,
}
use rule_arena.Simulator.Payment.{
  mark_used, mark_available, use_coupon, do_pay_order, refused_by_policy, revoke_target,
  revoke_points, revoked_after, restore_coupon, do_refund_order,
}
use rule_arena.Simulator.Benefits.{
  do_redeem_points, do_activate_membership, do_consume_entitlement, cancellation_refund,
  do_cancel_membership,
}
use rule_arena.Simulator.Rules.{ReferenceSimulator, reference_simulator}
use rule_arena.Simulator.Transition.{
  transition, supports, handler_of, already_seen, record_marker, conclude,
}

abbrev pub cny : ℕ → Money
cny n = record { currency = Currency.cny; amount = n }

-- 10 points for each 100.00 spent, revoked on refund; two refunds at most.
abbrev pub points_spec : RuleSpec
points_spec = record {
  scenario_type = ScenarioType.refund_points;
  rules =
      Rule.refund (record { allow_partial_refund = true; maximum_refunds_per_order = 2 })
      ∷ Rule.points
          (record { spend_amount = cny 1000000; points_granted = 10; revoke_on_refund = true })
      ∷ [];
}

-- 30.00 off orders of 100.00, restored on a full refund.
abbrev pub promotion_spec : RuleSpec
promotion_spec = record {
  scenario_type = ScenarioType.promotion;
  rules =
      Rule.promotion (record {
        minimum_order_amount = cny 1000000;
        discount_amount = cny 300000;
        new_users_only = false;
        restore_on_full_refund = true;
      })
      ∷ [];
}

abbrev pub membership_spec : RuleSpec
membership_spec = record {
  scenario_type = ScenarioType.membership_entitlement;
  rules =
      Rule.membership (record {
        price = cny 990000;
        entitlement_quantity = 3;
        refund_policy = RefundPolicy.prorated;
      })
      ∷ [];
}

abbrev pub act : ActionType → Option String → List (String × Value) → SimAction
act kind target arguments = record {
  action_type = kind;
  actor_id = "user-1";
  target_id = target;
  arguments = arguments;
  idempotency_key = none;
}

abbrev pub keyed : String → SimAction → SimAction
keyed key action = record action { idempotency_key = some key }

-- Opens the whole simulator for a test by evaluation.
unfoldable pub opened : Unit {0}
unfolding reference_simulator first_promotion first_refund first_points first_membership argument
    action_value money money_or integer_value integer_or text_of text_or currency_of flag rule_money
    parse_decimal parse_int quantize show_nat show_int points_for whole_quotient floor_quotient
    rounded_quotient entitlement_available do_create_user do_issue_coupon do_create_order
    do_apply_coupon mark_used mark_available use_coupon do_pay_order refused_by_policy revoke_target
    revoke_points revoked_after restore_coupon do_refund_order do_redeem_points
    do_activate_membership do_consume_entitlement cancellation_refund do_cancel_membership
    transition supports handler_of already_seen record_marker conclude ◌+ℤ◌ ◌-ℤ◌ ◌*ℤ◌ ◌>>=◌ ◌>>◌
    reject_if or_reject or_raise
opened = tt

-- The state after a run of actions, or the exception that one lets through.
unfoldable pub run : ReferenceSimulator → SimulationState → List SimAction → Result SimulationState
run sim state [] = ok state
run sim state (a ∷ rest) = elim (transition sim state a) [
  | ok t ↦ run sim t.state rest
  | err e ↦ err e
]

abbrev pub new_user : SimAction
new_user = act ActionType.create_user none (("initial_balance", Value.text "500.00") ∷ [])

abbrev pub order_of : String → SimAction
order_of amount = act ActionType.create_order (some "user-1") (("amount", Value.text amount) ∷ [])

abbrev pub pay : String → SimAction
pay order = act ActionType.pay_order (some order) []

abbrev pub refund_of : String → String → SimAction
refund_of order amount =
    act ActionType.refund_order (some order) (("amount", Value.text amount) ∷ [])

-- The state after one action that returns.
unfoldable pub applied_state : ReferenceSimulator → SimulationState → SimAction → SimulationState
applied_state sim s a = elim (transition sim s a) [ ok t ↦ t.state | err e ↦ s ]
