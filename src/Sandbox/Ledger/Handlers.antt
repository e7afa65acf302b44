-- ===== src/Sandbox/Ledger/Handlers.antt =====
-- The handlers keep the ledger of points balanced.
use rule_arena.Common.{refl, Bool-cases, inl, inr, locate_found, String}
use rule_arena.Common.Int.{pos, ◌+ℤ◌, ◌-ℤ◌, int_laws}
use rule_arena.Common.Outcome.{
  Returns, Returns-done, Returns-then, Returns-bind, Returns-reject_if, Returns-or_reject,
}
use rule_arena.Sandbox.Profile.{SandboxProfile}
use rule_arena.Sandbox.Models.{RunSpace, ActionCommand}
use rule_arena.Sandbox.Values.{whole_points}
use rule_arena.Sandbox.Orders.{create_user, issue_coupon, create_order, apply_coupon, cancel_order}
use rule_arena.Sandbox.Payments.{is_refund_points, pay_order, refund_order}
use rule_arena.Sandbox.Memberships.{
  activate_membership, cancel_membership, consume_entitlement, redeem_points, refund_membership,
}
use rule_arena.Sandbox.Ledger.{
  IsBalanced, IsOff, add_entry-IsOff, add_user-IsOff, emit-IsOff, get_elem?-set, other-IsOff,
  put_user-IsOff,
}
use rule_arena.Sandbox.Ledger.Steps.{
  BalancedBy, release_coupon-IsOff, use_coupon-IsOff, reopen_coupon-IsOff, revoke_rest-IsOff,
  granted, grant_points_gap, record_grant-IsOff, refund_points-IsOff, emit_users_lem,
}

module _ (profile : SandboxProfile) (run : RunSpace) (command : ActionCommand) (key : String)
    (h : IsBalanced run) where
  pub create_user-IsOff : Returns BalancedBy (create_user profile run command key)
  unfolding create_user
  create_user-IsOff = Returns-then _ _ (
      Returns-bind _ _ λ (amount, currency) _. Returns-reject_if _ _ _ λ _.
        Returns-reject_if _ _ _ λ _.
          Returns-bind _ _ λ _ _. Returns-done _ (emit-IsOff _ _ _ _ _ (add_user-IsOff _ refl h)))

  pub issue_coupon-IsOff : Returns BalancedBy (issue_coupon profile run command key)
  unfolding issue_coupon
  issue_coupon-IsOff = Returns-then _ _ (
      Returns-or_reject _ _ _ λ (ui, user) _. Returns-bind _ _ λ (value, currency) _.
        Returns-bind _ _ λ (threshold, other) _. Returns-reject_if _ _ _ λ _.
          Returns-reject_if _ _ _ λ _.
            Returns-bind _ _ λ _ _. Returns-done _ (emit-IsOff _ _ _ _ _ (other-IsOff refl refl h)))

  pub create_order-IsOff : Returns BalancedBy (create_order profile run command key)
  unfolding create_order
  create_order-IsOff = Returns-then _ _ (
      Returns-or_reject _ _ _ λ (ui, user) _. Returns-bind _ _ λ (amount, currency) _.
        Returns-reject_if _ _ _ λ _. Returns-reject_if _ _ _ λ _.
          Returns-bind _ _ λ _ _. Returns-done _ (emit-IsOff _ _ _ _ _ (other-IsOff refl refl h)))

  pub apply_coupon-IsOff : Returns BalancedBy (apply_coupon profile run command key)
  unfolding apply_coupon
  apply_coupon-IsOff = Returns-then _ _ (
      Returns-bind _ _ λ order_id _. Returns-or_reject _ _ _ λ (oi, order) _.
        Returns-reject_if _ _ _ λ _. Returns-bind _ _ λ coupon_id _.
          Returns-or_reject _ _ _ λ (ci, coupon) _. Returns-reject_if _ _ _ λ _.
            Returns-reject_if _ _ _ λ _. Returns-reject_if _ _ _ λ _. Returns-reject_if _ _ _ λ _.
              Returns-bind _ _
                λ _ _. Returns-done _ (emit-IsOff _ _ _ _ _ (other-IsOff refl refl h)))

  pub cancel_order-IsOff : Returns BalancedBy (cancel_order profile run command key)
  unfolding cancel_order
  cancel_order-IsOff = Returns-then _ _ (
      Returns-bind _ _ λ order_id _. Returns-or_reject _ _ _ λ (oi, order) _.
        Returns-reject_if _ _ _ λ _. Returns-bind _ _ λ after released. Returns-done _ (
          emit-IsOff _ _ _ _ _ (
            other-IsOff refl refl
              ((release_coupon-IsOff order order.coupon_id key run (pos 0) h).at after released))))

  pub pay_order-IsOff : Returns BalancedBy (pay_order profile run command key)
  unfolding pay_order
  pay_order-IsOff = Returns-then _ _ (
      Returns-bind _ _ λ order_id _. Returns-or_reject _ _ _ λ (oi, order) _.
        Returns-reject_if _ _ _ λ _. Returns-or_reject _ _ _ λ (ui, user) at_u.
          Returns-reject_if _ _ _ λ _. Returns-reject_if _ _ _ λ _. Returns-bind _ _ λ after used.
            Returns-bind _ _ λ _ _.
              let points = whole_points (order.original_amount -ℤ order.discount_amount) in
              let gap = granted (is_refund_points run.scenario_type) points in
              let charged : IsOff after gap =
                (use_coupon-IsOff order order.coupon_id key _ gap (
                    other-IsOff refl refl (
                      put_user-IsOff gap ui _ (locate_found _ _ at_u).0
                        (grant_points_gap run.scenario_type _ _ points) h))).at
                  after used in
              elim (Bool-cases (is_refund_points run.scenario_type)) [
                | inl e ↦ rw e (
                    Returns-done _ (
                      record_grant-IsOff _ _ points _ _ _ (emit-IsOff _ _ _ _ _ (rw e at charged))))
                | inr e ↦ rw e (Returns-done _ (emit-IsOff _ _ _ _ _ (rw e at charged)))
              ])

  pub refund_order-IsOff : Returns BalancedBy (refund_order profile run command key)
  unfolding refund_order
  refund_order-IsOff = Returns-then _ _ (
      Returns-bind _ _ λ order_id _. Returns-or_reject _ _ _ λ (oi, order) _.
        Returns-reject_if _ _ _ λ _. Returns-bind _ _ λ (amount, currency) _.
          Returns-reject_if _ _ _ λ _. Returns-reject_if _ _ _ λ _.
            Returns-or_reject _ _ _ λ (ui, user) at_u.
              let found = (locate_found _ _ at_u).0 in
              Returns-bind _ _ λ pointed points.
                let before : IsBalanced pointed =
                  (refund_points-IsOff profile run.scenario_type ui _ _ amount key _
                      (emit_users_lem _ _ _ _ _ _ ui (get_elem?-set run.users ui _ found))
                      (emit-IsOff _ _ _ _ _
                        (other-IsOff refl refl (put_user-IsOff (pos 0) ui _ found refl h)))).at
                    pointed points in
                Returns-bind _ _ λ final reopened. Returns-bind _ _ λ _ _.
                  Returns-done _ ((reopen_coupon-IsOff _ _ _ key pointed before).at final reopened))

  pub redeem_points-IsOff : Returns BalancedBy (redeem_points profile run command key)
  unfolding redeem_points
  redeem_points-IsOff = Returns-then _ _ (
      Returns-bind _ _ λ amount _. Returns-or_reject _ _ _ λ (ui, user) at_u.
        Returns-reject_if _ _ _ λ _. Returns-done _ (
          emit-IsOff _ _ _ _ _ (
            add_entry-IsOff (pos 0) _ _ _ _ _ refl (
              put_user-IsOff ((pos 0 -ℤ amount) +ℤ pos 0) _ _ (locate_found _ _ at_u).0
                (omega int_laws) h))))

  pub activate_membership-IsOff : Returns BalancedBy (activate_membership profile run command key)
  unfolding activate_membership
  activate_membership-IsOff = Returns-then _ _ (
      Returns-or_reject _ _ _ λ (ui, user) at_u. Returns-bind _ _ λ (paid, currency) _.
        Returns-bind _ _ λ quantity _. Returns-reject_if _ _ _ λ _. Returns-reject_if _ _ _ λ _.
          Returns-reject_if _ _ _ λ _. Returns-bind _ _ λ _ _. Returns-done _ (
            emit-IsOff _ _ _ _ _ (
              emit-IsOff _ _ _ _ _ (
                other-IsOff refl refl
                  (put_user-IsOff (pos 0) ui _ (locate_found _ _ at_u).0 refl h)))))

  pub consume_entitlement-IsOff : Returns BalancedBy (consume_entitlement profile run command key)
  unfolding consume_entitlement
  consume_entitlement-IsOff = Returns-then _ _ (
      Returns-bind _ _ λ quantity _. Returns-bind _ _ λ entitlement_id _.
        Returns-or_reject _ _ _ λ (ei, entitlement) _. Returns-reject_if _ _ _ λ _.
          Returns-reject_if _ _ _
            λ _. Returns-done _ (emit-IsOff _ _ _ _ _ (other-IsOff refl refl h)))

  pub cancel_membership-IsOff : Returns BalancedBy (cancel_membership profile run command key)
  unfolding cancel_membership refund_membership
  cancel_membership-IsOff = Returns-then _ _ (
      Returns-bind _ _ λ requested _. Returns-bind _ _ λ membership_id _.
        Returns-or_reject _ _ _ λ (mi, membership) _. Returns-reject_if _ _ _ λ _.
          Returns-or_reject _ _ _ λ (ui, user) at_u. Returns-or_reject _ _ _ λ (ei, entitlement) _.
            elim (Bool-cases requested) [
              | inl e ↦ rw e (
                  Returns-reject_if _ _ _ λ _. Returns-bind _ _ λ _ _. Returns-done _ (
                    emit-IsOff _ _ _ _ _ (
                      revoke_rest-IsOff _ ei entitlement key _ (
                        other-IsOff refl refl
                          (put_user-IsOff (pos 0) ui _ (locate_found _ _ at_u).0 refl h)))))
              | inr e ↦ rw e (
                  Returns-done _ (
                    emit-IsOff _ _ _ _ _ (
                      revoke_rest-IsOff _ ei entitlement key _ (
                        other-IsOff refl refl
                          (put_user-IsOff (pos 0) ui _ (locate_found _ _ at_u).0 refl h)))))
            ])
