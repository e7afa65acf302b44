-- ===== src/Sandbox/Axes.antt =====
-- What a command does depends on the defect axes that its scenario can reach, and on no other.
use rule_arena.Common.{◌≡◌, refl, Bool, true, false, ◌&&◌, Bool-cases, inl, inr, String}
use rule_arena.Common.Outcome.{reject_if, ◌>>◌, ◌>>=◌}
use rule_arena.Common.Json.{Fields}
use rule_arena.Policy.{ScenarioType}
use rule_arena.Sandbox.Profile.{DefectAxis, SandboxProfile, exhibits, reachable}
use rule_arena.Sandbox.Models.{ActionName, ActionCommand, RunSpace}
use rule_arena.Sandbox.Orders.{create_user, issue_coupon, create_order, apply_coupon, cancel_order}
use rule_arena.Sandbox.Payments.{pay_order, refund_order, max_refund, refund_points}
use rule_arena.Sandbox.Memberships.{
  redeem_points, activate_membership, consume_entitlement, cancel_membership, refund_membership,
}
use rule_arena.Sandbox.Snapshot.{inspect_state}
use rule_arena.Sandbox.Execute.{Fresh, handler, dispatch, supports}

abbrev pub is_ack_lost : DefectAxis → Bool
is_ack_lost DefectAxis.refund_ack_lost = true
is_ack_lost _ = false

-- Two profiles that differ at most in axes of other scenarios and in the transport's.
abbrev pub Agree : ScenarioType → SandboxProfile → SandboxProfile → Type 0
Agree scenario p q =
    (axis : DefectAxis)
    → reachable scenario axis ≡ true
    → is_ack_lost axis ≡ false
    → exhibits p axis ≡ exhibits q axis

and_false : (b : Bool) → (b && false) ≡ false
and_false true = refl
and_false false = refl

module _ (p q : SandboxProfile) (run : RunSpace) (command : ActionCommand) (key : String) where
  refund_order_by_axes :
      (scenario : ScenarioType)
      → run.scenario_type ≡ scenario
      → supports scenario ActionName.refund_order ≡ true
      → Agree scenario p q
      → refund_order p run command key ≡ refund_order q run command key
  unfolding refund_order max_refund refund_points supports
  refund_order_by_axes ScenarioType.promotion e _ agree = rw (
    e,
    agree DefectAxis.refund_against_original refl refl,
    agree DefectAxis.coupon_restored_on_refund refl refl,
  )
  refund_order_by_axes ScenarioType.refund_points e _ agree = rw (
    e,
    and_false (exhibits p DefectAxis.refund_against_original),
    and_false (exhibits q DefectAxis.refund_against_original),
    agree DefectAxis.points_granted_again_on_refund refl refl,
  )
  refund_order_by_axes ScenarioType.membership_entitlement e h agree = cc

  redeem_points_by_axes :
      (scenario : ScenarioType)
      → run.scenario_type ≡ scenario
      → supports scenario ActionName.redeem_points ≡ true
      → Agree scenario p q
      → redeem_points p run command key ≡ redeem_points q run command key
  unfolding redeem_points supports
  redeem_points_by_axes ScenarioType.promotion e h agree = cc
  redeem_points_by_axes ScenarioType.refund_points e h agree =
      rw (e, agree DefectAxis.points_overredemption refl refl)
  redeem_points_by_axes ScenarioType.membership_entitlement e h agree = cc

  consume_entitlement_by_axes :
      (scenario : ScenarioType)
      → supports scenario ActionName.consume_entitlement ≡ true
      → Agree scenario p q
      → consume_entitlement p run command key ≡ consume_entitlement q run command key
  unfolding consume_entitlement supports
  consume_entitlement_by_axes ScenarioType.promotion h agree = cc
  consume_entitlement_by_axes ScenarioType.refund_points h agree = cc
  consume_entitlement_by_axes ScenarioType.membership_entitlement h agree =
      rw (agree DefectAxis.entitlement_overconsumption refl refl)

  cancel_membership_by_axes :
      (scenario : ScenarioType)
      → supports scenario ActionName.cancel_membership ≡ true
      → Agree scenario p q
      → cancel_membership p run command key ≡ cancel_membership q run command key
  unfolding cancel_membership refund_membership supports
  cancel_membership_by_axes ScenarioType.promotion h agree = cc
  cancel_membership_by_axes ScenarioType.refund_points h agree = cc
  cancel_membership_by_axes ScenarioType.membership_entitlement h agree = rw (
    agree DefectAxis.full_refund_after_consumption refl refl,
    agree DefectAxis.entitlement_left_after_refund refl refl,
  )

  module _ (digest : Fields → String) (fresh : Fresh) (agree : Agree run.scenario_type p q) where
    handler_by_axes :
        (action : ActionName)
        → supports run.scenario_type action ≡ true
        → handler digest action fresh p run command key
          ≡ handler digest action fresh q run command key
    unfolding create_user issue_coupon create_order apply_coupon cancel_order pay_order
        activate_membership inspect_state
    handler_by_axes ActionName.create_user h = refl
    handler_by_axes ActionName.issue_coupon h = refl
    handler_by_axes ActionName.create_order h = refl
    handler_by_axes ActionName.apply_coupon h = refl
    handler_by_axes ActionName.pay_order h = refl
    handler_by_axes ActionName.cancel_order h = refl
    handler_by_axes ActionName.refund_order h = refund_order_by_axes run.scenario_type refl h agree
    handler_by_axes ActionName.redeem_points h =
        redeem_points_by_axes run.scenario_type refl h agree
    handler_by_axes ActionName.activate_membership h = refl
    handler_by_axes ActionName.consume_entitlement h =
        consume_entitlement_by_axes run.scenario_type h agree
    handler_by_axes ActionName.cancel_membership h =
        cancel_membership_by_axes run.scenario_type h agree
    handler_by_axes ActionName.inspect_state h = refl

-- What a command does to a run, and how it ends, depends only on the defect axes that the scenario of
-- the run can reach: profiles that agree on these, the lost acknowledgement of refunds aside, give
-- the same rows, result, effects, rejection or exception.
pub dispatch_by_axes :
    (digest : Fields → String) (fresh : Fresh) (p q : SandboxProfile) (run : RunSpace)
    (command : ActionCommand) (key : String)
    → Agree run.scenario_type p q
    → dispatch digest fresh p run command key ≡ dispatch digest fresh q run command key
unfolding dispatch reject_if ◌>>◌ ◌>>=◌
dispatch_by_axes digest fresh p q run command key agree =
    elim (Bool-cases (supports run.scenario_type command.action)) [
      | inl e ↦ rw (e, handler_by_axes p q run command key digest fresh agree command.action e)
      | inr e ↦ rw e
    ]
