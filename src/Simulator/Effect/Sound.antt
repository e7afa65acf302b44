-- ===== src/Simulator/Effect/Sound.antt =====
-- Every action that a handler of simulator.py applies has one of the listed effects.
use rule_arena.Common.{
  ◌≡◌, refl, Bool, true, false, not, some, List, [], ◌∷◌, locate_found, get_elem?, arith,
}
use rule_arena.Common.Outcome.{
  Returns, Returns-done, Returns-bind, Returns-reject_if, Returns-or_reject, Returns-or_raise,
}
use rule_arena.Simulator.Models.{
  SimulationState, SimAction, CouponStatus, OrderStatus, MembershipStatus,
}
use rule_arena.Simulator.Rules.{ReferenceSimulator, Applied, is_empty}
use rule_arena.Simulator.Argument.Cents.{money_or-IsCents}
use rule_arena.Simulator.Ordering.{
  do_create_user, do_issue_coupon, do_create_order, do_apply_coupon, is_created, is_available,
}
use rule_arena.Simulator.Payment.{do_pay_order, do_refund_order}
use rule_arena.Simulator.Benefits.{
  do_redeem_points, do_activate_membership, do_consume_entitlement, do_cancel_membership, first,
  is_active,
}
use rule_arena.Simulator.Effect.{Effect}

is_empty→nil {ℓ} : {A : Type ℓ} (xs : List A) → not (is_empty xs) ≡ false → xs ≡ []
is_empty→nil [] h = refl
is_empty→nil (x ∷ xs) h = cc

not-eq-false : (b : Bool) → not b ≡ false → b ≡ true
not-eq-false b h = ground arith

created_of : (s : OrderStatus) → is_created s ≡ true → s ≡ OrderStatus.created
created_of s h = ground arith

available_of : (s : CouponStatus) → is_available s ≡ true → s ≡ CouponStatus.available
available_of s h = ground arith

active_of : (s : MembershipStatus) → is_active s ≡ true → s ≡ MembershipStatus.active
active_of s h = ground arith

first-get_elem? {ℓ} :
    {A : Type ℓ} (xs : List A) {x : A} → first xs ≡ some x → get_elem? xs 0 ≡ some x
first-get_elem? [] h = cc
first-get_elem? (y ∷ xs) h = h

module _ (sim : ReferenceSimulator) (s : SimulationState) (a : SimAction) where
  abbrev pub HasEffect : Applied → Type 0
  HasEffect r = Effect sim s r.state

  pub do_create_user-Effect : Returns HasEffect (do_create_user sim s a)
  unfolding do_create_user
  do_create_user-Effect = Returns-reject_if _ _ _ λ fresh. Returns-bind _ _ λ currency _.
      Returns-bind _ _ λ balance _.
        Returns-reject_if _ _ _
          λ enough. Returns-done _ (Effect.user_created _ _ _ (is_empty→nil _ fresh) (ground arith))

  pub do_issue_coupon-Effect : Returns HasEffect (do_issue_coupon sim s a)
  unfolding do_issue_coupon
  do_issue_coupon-Effect = Returns-reject_if _ _ _ λ _. Returns-or_reject _ _ _ λ rule _.
      Returns-reject_if _ _ _ λ _. Returns-bind _ _ λ face _. Returns-bind _ _ λ threshold _.
        Returns-bind _ _ λ currency _.
          Returns-reject_if _ _ _
            λ fine. Returns-done _ (Effect.coupon_issued _ _ _ _ _ (ground arith) (ground arith))

  pub do_create_order-Effect : Returns HasEffect (do_create_order sim s a)
  unfolding do_create_order
  do_create_order-Effect = Returns-reject_if _ _ _ λ _. Returns-reject_if _ _ _ λ known.
      Returns-bind _ _ λ amount _. Returns-bind _ _ λ currency _.
        Returns-reject_if _ _ _ λ positive.
          Returns-done _ (Effect.order_created _ _ _ _ (not-eq-false _ known) (ground arith))

  pub do_apply_coupon-Effect : Returns HasEffect (do_apply_coupon sim s a)
  unfolding do_apply_coupon
  do_apply_coupon-Effect = Returns-or_reject _ _ _ λ o at_o. Returns-or_reject _ _ _ λ c at_c.
      Returns-reject_if _ _ _ λ fine. Returns-done _ (
        Effect.coupon_applied _ _ _ _ _ _ (locate_found _ _ at_o).0 (locate_found _ _ at_c).0
          (ground arith) (ground arith) (ground arith))

  pub do_pay_order-Effect : Returns HasEffect (do_pay_order sim s a)
  unfolding do_pay_order
  do_pay_order-Effect = Returns-or_reject _ _ _ λ o at_o. Returns-reject_if _ _ _ λ payable.
      Returns-or_raise _ _ _ λ u at_u. Returns-reject_if _ _ _ λ enough.
        Returns-bind _ _ λ coupons used. Returns-done _ (
          Effect.order_paid _ _ _ _ _ _ (locate_found _ _ at_o).0 (locate_found _ _ at_u).0
            (created_of _ (not-eq-false _ payable)) (ground arith) used)

  pub do_refund_order-Effect : Returns HasEffect (do_refund_order sim s a)
  unfolding do_refund_order
  do_refund_order-Effect = Returns-or_reject _ _ _ λ o at_o. Returns-bind _ _ λ amount _.
      Returns-reject_if _ _ _ λ fine. Returns-reject_if _ _ _ λ policy.
        Returns-or_raise _ _ _ λ u at_u. Returns-bind _ _ λ target t.
          Returns-bind _ _ λ revocation r. Returns-bind _ _ λ revoked v.
            Returns-bind _ _ λ coupons c. Returns-done _ (
              Effect.order_refunded _ _ _ _ _ _ _ _ _ _ _ (locate_found _ _ at_o).0
                (locate_found _ _ at_u).0 (ground arith) (ground arith) (ground arith) policy t r v
                c)

  pub do_redeem_points-Effect : Returns HasEffect (do_redeem_points sim s a)
  unfolding do_redeem_points
  do_redeem_points-Effect = Returns-or_reject _ _ _ λ u at_u. Returns-bind _ _ λ amount _.
      Returns-reject_if _ _ _ λ fine.
        Returns-done _
          (Effect.points_redeemed _ _ (first-get_elem? _ at_u) (ground arith) (ground arith))

  pub do_activate_membership-Effect : Returns HasEffect (do_activate_membership sim s a)
  unfolding do_activate_membership
  do_activate_membership-Effect = Returns-reject_if _ _ _ λ _. Returns-or_reject _ _ _ λ rule r.
      Returns-reject_if _ _ _ λ fresh. Returns-or_reject _ _ _ λ u at_u.
        Returns-bind _ _ λ paid read. Returns-bind _ _ λ quantity _. Returns-reject_if _ _ _ λ fine.
          Returns-done _ (
            Effect.membership_activated _ _ _ _ _ (locate_found _ _ at_u).0 (is_empty→nil _ fresh) r
              (money_or-IsCents _ _ read) (ground arith) (ground arith) (ground arith))

  pub do_consume_entitlement-Effect : Returns HasEffect (do_consume_entitlement sim s a)
  unfolding do_consume_entitlement
  do_consume_entitlement-Effect = Returns-reject_if _ _ _ λ _. Returns-bind _ _ λ quantity _.
      Returns-or_reject _ _ _ λ e at_e. Returns-reject_if _ _ _ λ fine.
        Returns-done _ (
          Effect.entitlement_consumed _ _ _ (locate_found _ _ at_e).0 (ground arith) (ground arith))

  pub do_cancel_membership-Effect : Returns HasEffect (do_cancel_membership sim s a)
  unfolding do_cancel_membership
  do_cancel_membership-Effect = Returns-or_reject _ _ _ λ m at_m. Returns-or_reject _ _ _ λ rule r.
      Returns-reject_if _ _ _ λ running. Returns-or_raise _ _ _ λ e at_e.
        Returns-or_raise _ _ _ λ u at_u. Returns-reject_if _ _ _ λ _.
          Returns-bind _ _ λ refund paid_back. Returns-done _ (
            Effect.membership_cancelled _ _ _ _ _ _ (first-get_elem? _ at_m)
              (first-get_elem? _ at_e) (first-get_elem? _ at_u) r
              (active_of _ (not-eq-false _ running)) paid_back)
