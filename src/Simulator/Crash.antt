-- ===== src/Simulator/Crash.antt =====
-- The exceptions that `transition` lets through. `_do_refund_order` reads `target_revoke` whenever the
-- points rule revokes on refund, but assigns it only for an order that was granted points.
use rule_arena.Common.{ℕ, ◌≡◌, true, false, some, locate}
use rule_arena.Common.Int.{ℤ, pos, ◌+ℤ◌, leb_ℤ, ltb_ℤ}
use rule_arena.Common.Outcome.{Exc, done, raise, err, ◌>>=◌, ◌>>◌, reject_if, or_reject, or_raise}
use rule_arena.Common.Text.{is_text, str_eq}
use rule_arena.Simulator.Models.{
  SimulationState, SimAction, SimOrder, SimUser, ActionType, argument,
}
use rule_arena.Simulator.Rules.{ReferenceSimulator}
use rule_arena.Simulator.Argument.{money}
use rule_arena.Simulator.Payment.{
  do_refund_order, is_refundable, refused_by_policy, revokes, revoke_target, revoke_points,
  revoked_after,
}
use rule_arena.Simulator.Transition.{transition, supports, already_seen, handler_of, conclude}

-- A refund that passes every check of the handler, for an order that was granted no points.
pub record IsUngrantedRefund (sim : ReferenceSimulator) (s : SimulationState) (a : SimAction)
    (oi ui : ℕ) (order : SimOrder) (user : SimUser) (amount : ℤ) : Type 0 where
  pub kind : a.action_type ≡ ActionType.refund_order
  pub allowed : supports s.scenario_type ActionType.refund_order ≡ true
  pub fresh : already_seen s a ≡ false
  pub found : locate (λ item. is_text item.order_id a.target_id) s.orders ≡ some (oi, order)
  pub read : money (argument "amount" a.arguments) ≡ done amount
  pub status : is_refundable order.status ≡ true
  pub positive : leb_ℤ amount (pos 0) ≡ false
  pub covered : ltb_ℤ order.paid_amount (order.refunded_amount +ℤ amount) ≡ false
  pub policy : refused_by_policy sim.refund order amount ≡ false
  pub owner : locate (λ item. str_eq item.user_id order.user_id) s.users ≡ some (ui, user)
  pub revoking : revokes sim.points ≡ true
  pub ungranted : order.points_granted ≡ pos 0

module _ (sim : ReferenceSimulator) (s : SimulationState) (a : SimAction) {oi ui : ℕ}
    {order : SimOrder} {user : SimUser} {amount : ℤ} where
  do_refund_order_unbound :
      IsUngrantedRefund sim s a oi ui order user amount
      → do_refund_order sim s a ≡ raise Exc.unbound_local_error
  unfolding do_refund_order revoke_target revoke_points revoked_after ◌>>=◌ ◌>>◌ reject_if or_reject
      or_raise
  do_refund_order_unbound h =
      rw (
        h.found, h.read, h.status, h.positive, h.covered, h.policy, h.owner, h.revoking,
        h.ungranted,
      )

  -- Under a points rule that revokes on refund, a refund that passes every check lets an
  -- `UnboundLocalError` out of `transition` when its order was granted no points, whatever the amounts.
  pub transition_unbound :
      IsUngrantedRefund sim s a oi ui order user amount
      → transition sim s a ≡ err Exc.unbound_local_error
  unfolding transition handler_of conclude
  transition_unbound h = simp (h.kind, h.allowed, h.fresh, do_refund_order_unbound h)
