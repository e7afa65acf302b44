-- ===== src/Sandbox/Tests.antt =====
-- Runs of the commerce sandbox on small sequences of commands.
use rule_arena.Common.{◌≡◌, refl, true, Option, none, some, [], ◌∷◌, String}
use rule_arena.Common.Outcome.{done, reject, reject_if, or_reject, ◌>>◌, ◌>>=◌}
use rule_arena.Common.Json.{Fields, get}
use rule_arena.Common.Int.{pos, ◌+ℤ◌, ◌-ℤ◌, ◌*ℤ◌}
use rule_arena.Common.Text.{digit_text, show_digits, show_nat}
use rule_arena.Policy.{Currency, ScenarioType}
use rule_arena.Decimal.{parse_decimal, quantize_cents}
use rule_arena.Sandbox.Profile.{
  DefectAxis, SandboxVersion, SandboxProfile, exhibits, unreachable_axes,
}
use rule_arena.Sandbox.Models.{ActionName, ActionCommand, ActionStatus, Code, RunSpace, new_run}
use rule_arena.Sandbox.Values.{
  check_args, target, sandbox_money, money_parts, read_cents, read_currency, money_effect,
  amount_text, whole_points,
}
use rule_arena.Sandbox.Rows.{next_id, emit}
use rule_arena.Sandbox.Orders.{create_user, create_order, one_text, two_texts}
use rule_arena.Sandbox.Payments.{
  pay_order, use_coupon, refund_order, max_refund, refund_points, reopen_coupon,
}
use rule_arena.Sandbox.Execute.{
  Fresh, Response, ActionReceipt, execute, dispatch, supports, acknowledge, receipt_from_record,
}
use rule_arena.Sandbox.Runs.{get_receipt, create_run, get_events, reset_run}
use rule_arena.Sandbox.Valid.{RunIsValid}
use rule_arena.Sandbox.Reach.{Reachable, reachable-RunIsValid}
use rule_arena.Sandbox.Retry.{execute-repeat, execute-unversioned, without_receipts}
use rule_arena.Sandbox.Receipts.{get_receipt-execute, execute-Recovered, Recovered}
use rule_arena.Sandbox.Restart.{reset_run_forgets}
use rule_arena.Sandbox.Axes.{Agree, dispatch_by_axes}

abbrev pub digest : Fields → String
digest fields = "digest"

abbrev pub fresh : String → Fresh
fresh id = record { inspect_id = id; receipt_id = id; now = "2026-01-01T00:00:00+00:00" }

abbrev pub command : ActionName → Option String → Fields → String → ActionCommand
command action target_id arguments key = record {
  action = action;
  actor_id = "user-1";
  target_id = target_id;
  arguments = arguments;
  idempotency_key = some key;
}

abbrev pub join_shop : ActionCommand
join_shop = command ActionName.create_user none (one_text "initial_balance" "100.00") "k1"

abbrev pub order_goods : ActionCommand
order_goods = command ActionName.create_order none (one_text "amount" "30.00") "k2"

abbrev pub pay : ActionCommand
pay = command ActionName.pay_order (some "order-1") Fields.no_field "k3"

abbrev pub refund : ActionCommand
refund = command ActionName.refund_order (some "order-1") (one_text "amount" "30") "k4"

abbrev pub lossy_run : RunSpace
lossy_run =
    new_run "run-1" ScenarioType.promotion SandboxVersion.fixed
      (some (DefectAxis.refund_ack_lost ∷ []))

abbrev pub joined : RunSpace × Response
joined = execute digest (fresh "r1") lossy_run join_shop

abbrev pub ordered : RunSpace × Response
ordered = execute digest (fresh "r2") joined.0 order_goods

abbrev pub paid : RunSpace × Response
paid = execute digest (fresh "r3") ordered.0 pay

abbrev pub refunded : RunSpace × Response
refunded = execute digest (fresh "r4") paid.0 refund

refunded_lost : refunded.1 ≡ Response.ack_lost "r4"
unfolding execute dispatch supports acknowledge receipt_from_record create_user create_order
    pay_order use_coupon refund_order max_refund refund_points reopen_coupon check_args target
    sandbox_money money_parts read_cents read_currency money_effect amount_text whole_points next_id
    emit get parse_decimal quantize_cents exhibits reject_if or_reject ◌>>◌ ◌>>=◌ ◌+ℤ◌ ◌-ℤ◌ ◌*ℤ◌
    digit_text show_digits show_nat
refunded_lost = refl

pub refund_unused : get_receipt paid.0 "k4" ≡ reject Code.receipt_not_found
unfolding execute get_receipt dispatch supports acknowledge receipt_from_record create_user
    create_order pay_order use_coupon refund_order max_refund refund_points reopen_coupon check_args
    target sandbox_money money_parts read_cents read_currency money_effect amount_text whole_points
    next_id emit get parse_decimal quantize_cents exhibits reject_if or_reject ◌>>◌ ◌>>=◌ ◌+ℤ◌ ◌-ℤ◌
    ◌*ℤ◌ digit_text show_digits show_nat
refund_unused = refl

-- The receipt of the payment, as its key answers.
abbrev payment_receipt : ActionReceipt
payment_receipt = record {
  receipt_id = "r3";
  run_id = "run-1";
  idempotency_key = some "k3";
  action_type = ActionName.pay_order;
  status = ActionStatus.succeeded;
  monetary_effects = record { currency = Currency.cny; amount = pos 3000 } ∷ [];
  result = two_texts "order_id" "order-1" "paid_amount" "30.00";
  error = none;
}

payment_found : get_receipt paid.0 "k3" ≡ done payment_receipt
unfolding execute get_receipt dispatch supports acknowledge receipt_from_record create_user
    create_order pay_order use_coupon refund_order max_refund refund_points reopen_coupon check_args
    target sandbox_money money_parts read_cents read_currency money_effect amount_text whole_points
    next_id emit get parse_decimal quantize_cents exhibits reject_if or_reject ◌>>◌ ◌>>=◌ ◌+ℤ◌ ◌-ℤ◌
    ◌*ℤ◌ digit_text show_digits show_nat
payment_found = refl

abbrev join_twice : ActionCommand
join_twice = command ActionName.create_user none (one_text "initial_balance" "5.00") "k5"

twice_unversioned :
    (execute digest (fresh "r5") joined.0 join_twice).0.snapshot_version ≡ joined.0.snapshot_version
unfolding execute dispatch supports acknowledge receipt_from_record create_user create_order
    pay_order use_coupon refund_order max_refund refund_points reopen_coupon check_args target
    sandbox_money money_parts read_cents read_currency money_effect amount_text whole_points next_id
    emit get parse_decimal quantize_cents exhibits reject_if or_reject ◌>>◌ ◌>>=◌ ◌+ℤ◌ ◌-ℤ◌ ◌*ℤ◌
    digit_text show_digits show_nat
twice_unversioned = refl

lossy_created :
    create_run true "run-1" ScenarioType.promotion SandboxVersion.fixed
      (some (DefectAxis.refund_ack_lost ∷ []))
    ≡ done lossy_run
unfolding create_run unreachable_axes reject_if ◌>>◌ ◌>>=◌
lossy_created = refl

pub paid_Reachable : Reachable digest paid.0
paid_Reachable = Reachable.executed (fresh "r3") ordered.0 pay (
    Reachable.executed (fresh "r2") joined.0 order_goods (
      Reachable.executed (fresh "r1") lossy_run join_shop (
        Reachable.created true "run-1" ScenarioType.promotion SandboxVersion.fixed
          (some (DefectAxis.refund_ack_lost ∷ [])) lossy_run lossy_created)))

reachable-RunIsValid_example : RunIsValid refunded.0
reachable-RunIsValid_example =
    reachable-RunIsValid digest refunded.0
      (Reachable.executed (fresh "r4") paid.0 refund paid_Reachable)

execute-repeat_example : execute digest (fresh "r9") refunded.0 refund ≡ refunded
execute-repeat_example = execute-repeat digest (fresh "r4") (fresh "r9") paid.0 refund refl

execute-unversioned_example :
    without_receipts (execute digest (fresh "r5") joined.0 join_twice).0 ≡ without_receipts joined.0
execute-unversioned_example =
    execute-unversioned digest (fresh "r5") joined.0 join_twice twice_unversioned

get_receipt-execute_example : get_receipt refunded.0 "k3" ≡ done payment_receipt
get_receipt-execute_example =
    get_receipt-execute digest (fresh "r4") paid.0 refund "k3" payment_receipt payment_found

execute-Recovered_example : Recovered refunded.0 refund "k4" "r4"
execute-Recovered_example =
    execute-Recovered digest (fresh "r4") paid.0 refund "k4" "r4" refl refl refund_unused
      refunded_lost

abbrev lossy : SandboxProfile
lossy = record { axes = DefectAxis.points_overredemption ∷ DefectAxis.refund_ack_lost ∷ [] }

abbrev exact : SandboxProfile
exact = record { axes = [] }

exact-Agree : Agree ScenarioType.promotion lossy exact
unfolding exhibits
exact-Agree DefectAxis.coupon_restored_on_refund r h = refl
exact-Agree DefectAxis.refund_against_original r h = refl
exact-Agree DefectAxis.refund_ack_lost r h = cc
exact-Agree DefectAxis.points_granted_again_on_refund r h = refl
exact-Agree DefectAxis.points_overredemption r h = cc
exact-Agree DefectAxis.full_refund_after_consumption r h = refl
exact-Agree DefectAxis.entitlement_left_after_refund r h = refl
exact-Agree DefectAxis.entitlement_overconsumption r h = refl

paid_scenario : paid.0.scenario_type ≡ ScenarioType.promotion
unfolding execute dispatch supports acknowledge receipt_from_record create_user create_order
    pay_order use_coupon refund_order max_refund refund_points reopen_coupon check_args target
    sandbox_money money_parts read_cents read_currency money_effect amount_text whole_points next_id
    emit get parse_decimal quantize_cents exhibits reject_if or_reject ◌>>◌ ◌>>=◌ ◌+ℤ◌ ◌-ℤ◌ ◌*ℤ◌
    digit_text show_digits show_nat
paid_scenario = refl

dispatch_by_axes_example :
    dispatch digest (fresh "r4") lossy paid.0 refund "k4"
    ≡ dispatch digest (fresh "r4") exact paid.0 refund "k4"
dispatch_by_axes_example =
    dispatch_by_axes digest (fresh "r4") lossy exact paid.0 refund "k4"
      (rw paid_scenario exact-Agree)

reset_run_forgets_example :
    (get_receipt (reset_run paid.0) "k3" ≡ reject Code.receipt_not_found)
    × (get_events (reset_run paid.0) ≡ [])
reset_run_forgets_example = reset_run_forgets digest paid.0 "k3" paid_Reachable
