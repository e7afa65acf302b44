-- ===== src/Simulator/Transition.antt =====
-- simulator.py: `transition` and `_reject`. A call returns a result or lets an exception through.
use rule_arena.Common.{
  Bool, true, false, not, ◌&&◌, Option, none, some, List, [], ◌∷◌, String, any, if◌then◌else◌,
}
use rule_arena.Common.Outcome.{Outcome, Result, Exc, done, reject, raise, ok, err}
use rule_arena.Common.Text.{str_eq, truthy, or_else}
use rule_arena.Policy.{ScenarioType}
use rule_arena.Simulator.Models.{
  ActionType, TransitionStatus, TransitionResult, SimulationState, SimAction, Code, action_value,
}
use rule_arena.Simulator.Rules.{ReferenceSimulator, Applied, Handler}
use rule_arena.Simulator.Ordering.{
  do_create_user, do_issue_coupon, do_create_order, do_apply_coupon,
}
use rule_arena.Simulator.Payment.{do_pay_order, do_refund_order}
use rule_arena.Simulator.Benefits.{
  do_redeem_points, do_activate_membership, do_consume_entitlement, do_cancel_membership,
}

-- `common | scenario_actions[scenario_type]`
unfoldable pub supports : ScenarioType → ActionType → Bool
supports _ ActionType.create_user = true
supports ScenarioType.promotion ActionType.issue_coupon = true
supports ScenarioType.promotion ActionType.create_order = true
supports ScenarioType.promotion ActionType.apply_coupon = true
supports ScenarioType.promotion ActionType.pay_order = true
supports ScenarioType.promotion ActionType.cancel_order = true
supports ScenarioType.promotion ActionType.refund_order = true
supports ScenarioType.refund_points ActionType.create_order = true
supports ScenarioType.refund_points ActionType.pay_order = true
supports ScenarioType.refund_points ActionType.cancel_order = true
supports ScenarioType.refund_points ActionType.refund_order = true
supports ScenarioType.refund_points ActionType.redeem_points = true
supports ScenarioType.membership_entitlement ActionType.activate_membership = true
supports ScenarioType.membership_entitlement ActionType.consume_entitlement = true
supports ScenarioType.membership_entitlement ActionType.cancel_membership = true
supports _ _ = false

-- `getattr(self, f"_do_{…}", None)`
unfoldable pub handler_of : ActionType → Option Handler
handler_of ActionType.create_user = some do_create_user
handler_of ActionType.issue_coupon = some do_issue_coupon
handler_of ActionType.create_order = some do_create_order
handler_of ActionType.apply_coupon = some do_apply_coupon
handler_of ActionType.pay_order = some do_pay_order
handler_of ActionType.refund_order = some do_refund_order
handler_of ActionType.redeem_points = some do_redeem_points
handler_of ActionType.activate_membership = some do_activate_membership
handler_of ActionType.consume_entitlement = some do_consume_entitlement
handler_of ActionType.cancel_membership = some do_cancel_membership
handler_of _ = none

abbrev pub without_effect : TransitionStatus → SimulationState → Option Code → TransitionResult
without_effect status state code = record {
  status = status;
  state = state;
  events = [];
  code = code;
}

-- The marker of a keyed action.
abbrev pub marker : SimAction → String → String × String
marker action key = (action_value action.action_type, key)

abbrev pub has_marker : String × String → List (String × String) → Bool
has_marker m seen = any (λ s. str_eq s.0 m.0 && str_eq s.1 m.1) seen

-- `action.idempotency_key` and the marker is in the state's set
unfoldable pub already_seen : SimulationState → SimAction → Bool
already_seen state action =
    truthy action.idempotency_key
    && has_marker (marker action (or_else action.idempotency_key "")) state.seen_idempotency_keys

-- The set with the marker of a keyed action.
unfoldable pub record_marker : SimAction → SimulationState → SimulationState
record_marker action state =
    if truthy action.idempotency_key
    then record state {
      seen_idempotency_keys =
          marker action (or_else action.idempotency_key "") ∷ state.seen_idempotency_keys;
    }
    else state

-- `except (ArithmeticError, TypeError, ValueError, StopIteration)`
abbrev pub is_caught : Exc → Bool
is_caught Exc.arithmetic_error = true
is_caught Exc.value_error = true
is_caught Exc.type_error = true
is_caught Exc.stop_iteration = true
is_caught _ = false

-- The `try` around a handler's call, and what follows it.
unfoldable pub conclude :
    SimulationState → SimAction → Outcome Code Applied → Result TransitionResult
conclude state action (done a) = ok (record {
  status = TransitionStatus.applied;
  state = record_marker action a.state;
  events = a.events;
  code = none;
})
conclude state action (reject c) = ok (without_effect TransitionStatus.rejected state (some c))
conclude state action (raise e) =
    if is_caught e
    then ok (without_effect TransitionStatus.rejected state (some Code.invalid_argument))
    else err e

abbrev pub run_handler :
    ReferenceSimulator → SimulationState → SimAction → Option Handler → Result TransitionResult
run_handler sim state action none =
    ok (without_effect TransitionStatus.unsupported state (some Code.unsupported_action))
run_handler sim state action (some handler) = conclude state action (handler sim state action)

unfoldable pub transition :
    ReferenceSimulator → SimulationState → SimAction → Result TransitionResult
transition sim state action =
    if not (supports state.scenario_type action.action_type)
    then ok (without_effect TransitionStatus.unsupported state (some Code.action_not_supported))
    else if already_seen state action
    then ok (without_effect TransitionStatus.applied state none)
    else run_handler sim state action (handler_of action.action_type)
