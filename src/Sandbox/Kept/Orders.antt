-- ===== src/Sandbox/Kept/Orders.antt =====
-- The handlers of orders and coupons keep what every write keeps.
use rule_arena.Common.{
  ℕ, ◌+◌, ◌||◌, or-eq-false, ◌≡◌, refl, Bool, false, ◌&&◌, Bool-cases, inl, inr, Option, none, some,
  All-get_elem?, locate, locate_found, arith, String,
}
use rule_arena.Common.Int.{ℤ, pos, ltb_ℤ, leb_ℤ, min_ℤ, ◌<ℤ◌, min_ℤ_bounds, ltb_ℤ→le, leb_ℤ→lt}
use rule_arena.Common.Outcome.{
  Returns, Returns-done, Returns-then, Returns-bind, Returns-reject_if, Returns-or_reject,
}
use rule_arena.Common.Text.{is_text}
use rule_arena.Policy.{ScenarioType, Currency}
use rule_arena.Sandbox.Profile.{SandboxProfile}
use rule_arena.Sandbox.Models.{
  RunSpace, ActionCommand, TestUser, Order, OrderStatus, Coupon, CouponStatus, new_user, new_order,
  new_coupon,
}
use rule_arena.Sandbox.Rows.{Handled}
use rule_arena.Sandbox.Orders.{
  create_user, issue_coupon, create_order, apply_coupon, release_coupon, cancel_order, is_reserved,
}
use rule_arena.Sandbox.Valid.{UserIsValid, OrderIsValid, CouponIsValid, RowsAreValid}
use rule_arena.Sandbox.Kept.{
  Kept, Kept-refl, put_order-Kept, put_coupon-Kept, add_user-Kept, add_coupon-Kept, add_order-Kept,
  emit-Kept,
}

module _ (profile : SandboxProfile) where
  new_user-UserIsValid :
      (amount : ℤ) (currency : Currency)
      → ltb_ℤ amount (pos 0) ≡ false
      → UserIsValid profile (new_user amount currency)
  new_user-UserIsValid amount currency h = record {
    balance = ltb_ℤ→le amount (pos 0) h;
    points = λ _. omega arith;
  }

  new_order-OrderIsValid :
      (scenario : ScenarioType) (id user_id : String) (amount : ℤ) (currency : Currency)
      → leb_ℤ amount (pos 0) ≡ false
      → OrderIsValid profile scenario (new_order id user_id amount currency)
  new_order-OrderIsValid scenario id user_id amount currency h =
      let positive : pos 0 <ℤ amount = leb_ℤ→lt amount (pos 0) h in
      record {
        amount = positive;
        discount = omega arith;
        capped = omega (arith, positive);
        paid = omega arith;
        paid_once = omega (arith, positive);
        refunded = omega arith;
        unrefunded = λ _. refl;
        within = λ _. omega arith;
      }

  -- The coupon's discount, at most the order's amount.
  discounted-OrderIsValid :
      (scenario : ScenarioType) (order : Order) (coupon : Coupon)
      → OrderIsValid profile scenario order
      → CouponIsValid coupon
      → OrderIsValid profile scenario (record order {
        discount_amount = min_ℤ coupon.face_value order.original_amount;
        coupon_id = some coupon.id;
        version = order.version + 1;
      })
  discounted-OrderIsValid scenario order coupon valid worth = record {
    amount = valid.amount;
    discount = (min_ℤ_bounds coupon.face_value order.original_amount worth.value valid.amount).0;
    capped = (min_ℤ_bounds coupon.face_value order.original_amount worth.value valid.amount).1;
    paid = valid.paid;
    paid_once = valid.paid_once;
    refunded = valid.refunded;
    unrefunded = valid.unrefunded;
    within = valid.within;
  }

  cancelled-OrderIsValid :
      (scenario : ScenarioType) (order : Order)
      → OrderIsValid profile scenario order
      → OrderIsValid profile scenario
          (record order { status = OrderStatus.cancelled; version = order.version + 1 })
  cancelled-OrderIsValid scenario order valid = record {
    amount = valid.amount;
    discount = valid.discount;
    capped = valid.capped;
    paid = valid.paid;
    paid_once = valid.paid_once;
    refunded = valid.refunded;
    unrefunded = λ e. cc;
    within = valid.within;
  }

new_coupon-CouponIsValid :
    (id owner_id : String) (value threshold : ℤ) (currency : Currency)
    → (leb_ℤ value (pos 0) || ltb_ℤ threshold (pos 0)) ≡ false
    → CouponIsValid (new_coupon id owner_id value threshold currency)
new_coupon-CouponIsValid id owner_id value threshold currency h =
    let (a, b) = or-eq-false (leb_ℤ value (pos 0)) (ltb_ℤ threshold (pos 0)) h in
    record { value = leb_ℤ→lt value (pos 0) a; threshold = ltb_ℤ→le threshold (pos 0) b }

-- A coupon with other values of the fields that handlers write.
pub rewritten-CouponIsValid :
    (coupon : Coupon) (status : CouponStatus) (reserved used : Option String) (count version : ℕ)
    → CouponIsValid coupon
    → CouponIsValid (record coupon {
      status = status;
      reserved_order_id = reserved;
      used_order_id = used;
      usage_count = count;
      version = version;
    })
rewritten-CouponIsValid coupon status reserved used count version valid = record {
  value = valid.value;
  threshold = valid.threshold;
}

module _ (profile : SandboxProfile) (run : RunSpace) where
  -- A run that is kept, and a handler's.
  abbrev pub KeptRun : RunSpace → Type 0
  KeptRun after = Kept profile run.scenario_type run after

  abbrev pub KeptBy : Handled → Type 0
  KeptBy handled = KeptRun handled.run

  pub start : KeptRun run
  start = Kept-refl profile run.scenario_type run

  abbrev pub Valid : Type 0
  Valid = RowsAreValid profile run.scenario_type run

  -- The rows that a handler finds are valid.
  pub found_user :
      (p : TestUser → Bool) {i : ℕ} {row : TestUser}
      → locate p run.users ≡ some (i, row)
      → Valid
      → UserIsValid profile row
  found_user p {i} found (us, cs, os, rs, ms, es, ev) =
      All-get_elem? (UserIsValid profile) run.users i us (locate_found p run.users found).0

  pub found_coupon :
      (p : Coupon → Bool) {i : ℕ} {row : Coupon}
      → locate p run.coupons ≡ some (i, row)
      → Valid
      → CouponIsValid row
  found_coupon p {i} found (us, cs, os, rs, ms, es, ev) =
      All-get_elem? CouponIsValid run.coupons i cs (locate_found p run.coupons found).0

  pub found_order :
      (p : Order → Bool) {i : ℕ} {row : Order}
      → locate p run.orders ≡ some (i, row)
      → Valid
      → OrderIsValid profile run.scenario_type row
  found_order p {i} found (us, cs, os, rs, ms, es, ev) =
      All-get_elem? (OrderIsValid profile run.scenario_type) run.orders i os
        (locate_found p run.orders found).0

module _ (profile : SandboxProfile) (run : RunSpace) (command : ActionCommand) (key : String) where
  pub create_user-Kept : Returns (KeptBy profile run) (create_user profile run command key)
  unfolding create_user
  create_user-Kept = Returns-then _ _ (
      Returns-bind _ _ λ (amount, currency) _. Returns-reject_if _ _ _ λ fine.
        Returns-reject_if _ _ _ λ _. Returns-bind _ _ λ _ _. Returns-done _ (
          emit-Kept _ _ _ _ _ (
            add_user-Kept _ (new_user-UserIsValid profile amount currency fine)
              (start profile run))))

  pub issue_coupon-Kept : Returns (KeptBy profile run) (issue_coupon profile run command key)
  unfolding issue_coupon
  issue_coupon-Kept = Returns-then _ _ (
      Returns-or_reject _ _ _ λ (ui, user) _. Returns-bind _ _ λ (value, currency) _.
        Returns-bind _ _ λ (threshold, other) _. Returns-reject_if _ _ _ λ fine.
          Returns-reject_if _ _ _ λ _. Returns-bind _ _ λ _ _. Returns-done _ (
            emit-Kept _ _ _ _ _ (
              add_coupon-Kept _ (new_coupon-CouponIsValid _ _ value threshold currency fine)
                (start profile run))))

  pub create_order-Kept : Returns (KeptBy profile run) (create_order profile run command key)
  unfolding create_order
  create_order-Kept = Returns-then _ _ (
      Returns-or_reject _ _ _ λ (ui, user) _. Returns-bind _ _ λ (amount, currency) _.
        Returns-reject_if _ _ _ λ fine. Returns-reject_if _ _ _ λ _. Returns-bind _ _ λ _ _.
          Returns-done _ (
            emit-Kept _ _ _ _ _ (
              add_order-Kept _ (new_order-OrderIsValid profile _ _ _ amount currency fine)
                (start profile run))))

  pub apply_coupon-Kept : Returns (KeptBy profile run) (apply_coupon profile run command key)
  unfolding apply_coupon
  apply_coupon-Kept = Returns-then _ _ (
      Returns-bind _ _ λ order_id _. Returns-or_reject _ _ _ λ (oi, order) at_o.
        Returns-reject_if _ _ _ λ _. Returns-bind _ _ λ coupon_id _.
          Returns-or_reject _ _ _ λ (ci, coupon) at_c. Returns-reject_if _ _ _ λ _.
            Returns-reject_if _ _ _ λ _. Returns-reject_if _ _ _ λ _. Returns-reject_if _ _ _ λ _.
              Returns-bind _ _ λ _ _. Returns-done _ (
                emit-Kept _ _ _ _ _ (
                  put_coupon-Kept _ _
                    (λ valid.
                      rewritten-CouponIsValid coupon _ _ _ _ _
                        (found_coupon profile run _ at_c valid))
                    (put_order-Kept _ _
                      (λ valid.
                        discounted-OrderIsValid profile _ order coupon
                          (found_order profile run _ at_o valid)
                          (found_coupon profile run _ at_c valid))
                      (start profile run)))))

  release_coupon-Kept :
      (order : Order) (name : Option String)
      → Returns (KeptRun profile run) (release_coupon order name key run)
  unfolding release_coupon
  release_coupon-Kept order none = Returns-done _ (start profile run)
  release_coupon-Kept order (some name) = Returns-or_reject _ _ _ λ (ci, coupon) at_c.
      elim (Bool-cases (is_reserved coupon.status && is_text order.id coupon.reserved_order_id)) [
        | inl held ↦ rw held (
            Returns-done _ (
              emit-Kept _ _ _ _ _ (
                put_coupon-Kept _ _
                  (λ valid.
                    rewritten-CouponIsValid coupon _ _ _ _ _
                      (found_coupon profile run _ at_c valid))
                  (start profile run))))
        | inr free ↦ rw free (Returns-done _ (start profile run))
      ]

  pub cancel_order-Kept : Returns (KeptBy profile run) (cancel_order profile run command key)
  unfolding cancel_order
  cancel_order-Kept = Returns-then _ _ (
      Returns-bind _ _ λ order_id _. Returns-or_reject _ _ _ λ (oi, order) at_o.
        Returns-reject_if _ _ _ λ _. Returns-bind _ _ λ after released. Returns-done _ (
          emit-Kept _ _ _ _ _ (
            put_order-Kept _ _
              (λ valid.
                cancelled-OrderIsValid profile _ order (found_order profile run _ at_o valid))
              ((release_coupon-Kept order order.coupon_id).at after released))))
