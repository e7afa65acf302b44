-- ===== src/Sandbox/Kept/Payments.antt =====
-- The handlers of payments and refunds keep what every write keeps.
use rule_arena.Common.{
  ℕ, ◌+◌, ◌≡◌, Bool, true, false, not, Bool-cases, or-eq-false, inl, inr, Option, none, some,
  All-get_elem?, locate, locate_found, arith, String, if◌then◌else◌,
}
use rule_arena.Common.Int.{
  ℤ, pos, ◌+ℤ◌, ◌-ℤ◌, ◌<ℤ◌, leb_ℤ, eqb_ℤ, max_ℤ, int_laws, ltb_ℤ→le, leb_ℤ→lt,
}
use rule_arena.Common.Outcome.{
  done, Returns, Returns-done, Returns-then, Returns-bind, Returns-reject_if, Returns-or_reject,
}
use rule_arena.Policy.{ScenarioType, same_currency}
use rule_arena.Sandbox.Profile.{SandboxProfile, DefectAxis, exhibits}
use rule_arena.Sandbox.Models.{RunSpace, ActionCommand, TestUser, Order, Coupon}
use rule_arena.Sandbox.Payments.{
  pay_order, record_grant, use_coupon, revoked_sum, take_points, revoke_points, refund_points,
  reopen_coupon, refund_order, is_refund_points,
}
use rule_arena.Sandbox.Valid.{UserIsValid, CouponIsValid}
use rule_arena.Sandbox.Kept.{
  put_user-Kept, put_order-Kept, put_coupon-Kept, add_refund-Kept, add_entry-Kept, emit-Kept,
}
use rule_arena.Sandbox.Kept.Orders.{
  KeptRun, KeptBy, Valid, start, found_user, found_order, rewritten-CouponIsValid,
}
use rule_arena.Sandbox.Kept.Amounts.{
  whole_points_sign, charged-UserIsValid, credited-UserIsValid, rewarded-UserIsValid,
  granted-UserIsValid, granted-OrderIsValid, paid-OrderIsValid, refunded-OrderIsValid,
}

module _ (profile : SandboxProfile) (run : RunSpace) where
  -- The coupon that a payment or a refund finds on the way is valid.
  on_the_way :
      (after : RunSpace) (p : Coupon → Bool) {i : ℕ} {row : Coupon}
      → KeptRun profile run after
      → locate p after.coupons ≡ some (i, row)
      → Valid profile run
      → CouponIsValid row
  on_the_way after p {i} kept found valid =
      let (us, cs, os, rs, ms, es, ev) = kept.keeps valid in
      All-get_elem? CouponIsValid after.coupons i cs (locate_found p after.coupons found).0

  use_coupon-Kept :
      (order : Order) (name : Option String) (key : String) (after : RunSpace)
      → KeptRun profile run after
      → Returns (KeptRun profile run) (use_coupon order name key after)
  unfolding use_coupon
  use_coupon-Kept order none key after kept = Returns-done _ kept
  use_coupon-Kept order (some name) key after kept = Returns-or_reject _ _ _ λ (ci, coupon) at_c.
      Returns-reject_if _ _ _ λ _. Returns-done _ (
        emit-Kept _ _ _ _ _ (
          put_coupon-Kept _ _
            (λ valid. rewritten-CouponIsValid coupon _ _ _ _ _ (on_the_way after _ kept at_c valid))
            kept))

  reopen_coupon-Kept :
      (order : Order) (name : Option String) (key : String) (after : RunSpace)
      → KeptRun profile run after
      → Returns (KeptRun profile run) (reopen_coupon order name key after)
  unfolding reopen_coupon
  reopen_coupon-Kept order none key after kept = Returns-done _ kept
  reopen_coupon-Kept order (some name) key after kept = Returns-or_reject _ _ _ λ (ci, coupon) at_c.
      Returns-done _ (
        emit-Kept _ _ _ _ _ (
          put_coupon-Kept _ _
            (λ valid. rewritten-CouponIsValid coupon _ _ _ _ _ (on_the_way after _ kept at_c valid))
            kept))

  maybe_reopened-Kept :
      (reopens : Bool) (order : Order) (key : String) (after : RunSpace)
      → KeptRun profile run after
      → Returns
          (KeptRun profile run)
          (if reopens then reopen_coupon order order.coupon_id key after else done after)
  maybe_reopened-Kept true order key after kept =
      reopen_coupon-Kept order order.coupon_id key after kept
  maybe_reopened-Kept false order key after kept = Returns-done _ kept

  record_grant-Kept :
      (user_id order_id : String) (points : ℤ) (suffix key : String) (after : RunSpace)
      → KeptRun profile run after
      → KeptRun profile run (record_grant user_id order_id points suffix key after)
  record_grant-Kept user_id order_id points suffix key after kept =
      emit-Kept _ _ _ _ _ (add_entry-Kept _ _ _ _ _ kept)

  pub pay_order-Kept :
      (command : ActionCommand) (key : String)
      → Returns (KeptBy profile run) (pay_order profile run command key)
  unfolding pay_order
  pay_order-Kept command key = Returns-then _ _ (
      Returns-bind _ _ λ order_id _. Returns-or_reject _ _ _ λ (oi, order) at_o.
        Returns-reject_if _ _ _ λ pending. Returns-or_reject _ _ _ λ (ui, user) at_u.
          Returns-reject_if _ _ _ λ some_left. Returns-reject_if _ _ _ λ enough.
            Returns-bind _ _ λ after used. Returns-bind _ _ λ _ _.
              let positive =
                leb_ℤ→lt (order.original_amount -ℤ order.discount_amount) (pos 0) some_left in
              let points_sign =
                whole_points_sign (order.original_amount -ℤ order.discount_amount)
                  (omega (arith, positive)) in
              let charged =
                put_order-Kept oi _
                  (λ valid. granted-OrderIsValid profile _ run.scenario_type _ _ _ (
                    paid-OrderIsValid profile _ order pending some_left
                      (found_order profile run _ at_o valid)))
                  (put_user-Kept ui _
                    (λ valid. granted-UserIsValid profile run.scenario_type _ _ _ points_sign (
                      charged-UserIsValid profile user _ _ enough
                        (found_user profile run _ at_u valid)))
                    (start profile run)) in
              let captured =
                emit-Kept _ _ _ _ _
                  ((use_coupon-Kept order order.coupon_id key _ charged).at after used) in
              elim (Bool-cases (is_refund_points run.scenario_type)) [
                | inl e ↦ rw e (Returns-done _ (record_grant-Kept _ _ _ _ _ _ captured))
                | inr e ↦ rw e (Returns-done _ captured)
              ])

  module _ (ui : ℕ) (user : TestUser) (order : Order) (key : String) (after : RunSpace) where
    take_points-Kept :
        (delta : ℤ)
        → (Valid profile run → UserIsValid profile user)
        → KeptRun profile run after
        → Returns (KeptRun profile run) (take_points ui user order delta key after)
    unfolding take_points
    take_points-Kept delta fine kept = Returns-reject_if _ _ _ λ enough.
        let le = ltb_ℤ→le user.points_balance delta enough in
        Returns-done _ (
          emit-Kept _ _ _ _ _ (
            add_entry-Kept _ _ _ _ _ (
              put_user-Kept _ _
                (λ valid. record {
                  balance = (fine valid).balance;
                  points = λ _. omega (int_laws, le);
                })
                kept)))

    revoke_points-Kept :
        (full : Bool)
        → (Valid profile run → UserIsValid profile user)
        → KeptRun profile run after
        → Returns (KeptRun profile run) (revoke_points ui user order full key after)
    unfolding revoke_points
    revoke_points-Kept full fine kept = Returns-bind _ _ λ goal _.
        let delta = max_ℤ (goal +ℤ revoked_sum order.id after.points_ledger) (pos 0) in
        elim (Bool-cases (eqb_ℤ delta (pos 0))) [
          | inl e ↦ rw e (Returns-done _ kept)
          | inr e ↦ rw e (take_points-Kept delta fine kept)
        ]

    refund_points-Kept :
        (scenario : ScenarioType) (amount : ℤ)
        → pos 0 <ℤ amount
        → (Valid profile run → UserIsValid profile user)
        → KeptRun profile run after
        → Returns
            (KeptRun profile run)
            (refund_points profile scenario ui user order amount key after)
    unfolding refund_points
    refund_points-Kept ScenarioType.promotion amount positive fine kept = Returns-done _ kept
    refund_points-Kept ScenarioType.membership_entitlement amount positive fine kept =
        Returns-done _ kept
    refund_points-Kept ScenarioType.refund_points amount positive fine kept =
        elim (Bool-cases (exhibits profile DefectAxis.points_granted_again_on_refund)) [
          | inl e ↦ rw e (
              Returns-done _ (
                record_grant-Kept _ _ _ _ _ _ (
                  put_user-Kept _ _
                    (λ valid.
                      rewarded-UserIsValid profile user _
                        (whole_points_sign amount (omega (arith, positive))) (fine valid))
                    kept)))
          | inr e ↦
              rw e (revoke_points-Kept (leb_ℤ order.paid_amount order.refunded_amount) fine kept)
        ]

  pub refund_order-Kept :
      (command : ActionCommand) (key : String)
      → Returns (KeptBy profile run) (refund_order profile run command key)
  unfolding refund_order
  refund_order-Kept command key = Returns-then _ _ (
      Returns-bind _ _ λ order_id _. Returns-or_reject _ _ _ λ (oi, order) at_o.
        Returns-reject_if _ _ _ λ refundable. Returns-bind _ _ λ (amount, currency) _.
          Returns-reject_if _ _ _ λ fine. Returns-reject_if _ _ _ λ allowed.
            Returns-or_reject _ _ _ λ (ui, user) at_u.
              let (above_zero, _) =
                or-eq-false (leb_ℤ amount (pos 0)) (not (same_currency currency order.currency))
                  fine in
              let positive = leb_ℤ→lt amount (pos 0) above_zero in
              let credited : Valid profile run
                  → UserIsValid profile (record user {
                    balance = user.balance +ℤ amount;
                    version = user.version + 1;
                  }) =
                λ valid.
                  credited-UserIsValid profile user amount (user.version + 1) positive
                    (found_user profile run _ at_u valid) in
              let issued = emit-Kept _ _ _ _ _ (
                add_refund-Kept _ positive (
                  put_order-Kept oi _
                    (λ valid.
                      refunded-OrderIsValid profile _ order amount positive allowed
                        (found_order profile run _ at_o valid))
                    (put_user-Kept ui _ credited (start profile run)))) in
              Returns-bind _ _ λ pointed points.
                let before =
                  (refund_points-Kept ui _ _ key _ run.scenario_type amount positive credited
                      issued).at
                    pointed points in
                Returns-bind _ _ λ final reopened. Returns-bind _ _ λ _ _.
                  Returns-done _ ((maybe_reopened-Kept _ _ key pointed before).at final reopened))
