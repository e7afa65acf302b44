-- ===== src/Simulator/Payment.antt =====
-- simulator.py: `_do_pay_order` and `_do_refund_order`, with the parts that they do under a
-- condition as functions of their own.
use rule_arena.Common.{
  ℕ, ◌+◌, Bool, true, false, not, ◌&&◌, ◌||◌, Option, none, some, List, [], ◌∷◌, ◌++◌, String, set,
  locate, leb, if◌then◌else◌,
}
use rule_arena.Common.Int.{ℤ, pos, ◌+ℤ◌, ◌-ℤ◌, ◌*ℤ◌, ltb_ℤ, leb_ℤ, eqb_ℤ, max_ℤ}
use rule_arena.Common.Outcome.{Outcome, Exc, done, reject_if, or_reject, or_raise, ◌>>=◌, ◌>>◌}
use rule_arena.Common.Text.{str_eq, is_text, truthy}
use rule_arena.Policy.{PromotionRule, RefundRule, PointsRule}
use rule_arena.Simulator.Models.{
  SimUser, SimCoupon, SimOrder, SimEvent, CouponStatus, OrderStatus, Payload, Code, EventType,
  AggregateType, event, argument,
}
use rule_arena.Simulator.Argument.{money}
use rule_arena.Simulator.Arithmetic.{points_for, floor_quotient}
use rule_arena.Simulator.Rules.{Handler}
use rule_arena.Simulator.Ordering.{is_created}

-- The coupon that an order names, or the `StopIteration` of `next`.
abbrev find_coupon : Option String → List SimCoupon → Option (ℕ × SimCoupon)
find_coupon name coupons = locate (λ item. is_text item.coupon_id name) coupons

-- What a payment does to the coupon of its order: it becomes USED.
unfoldable pub mark_used : SimOrder → List SimCoupon → Outcome Code (List SimCoupon × List SimEvent)
mark_used order coupons = do
  (ci, coupon) ← or_raise (find_coupon order.coupon_id coupons) Exc.stop_iteration
  let coupon' = record coupon {
    status = CouponStatus.used;
    used_order_id = some order.order_id;
    usage_count = coupon.usage_count + 1;
  }
  done (
    set coupons ci coupon',
    event EventType.coupon_used AggregateType.coupon coupon.coupon_id [] ∷ [],
  )

-- `if order.coupon_id:` of a payment
unfoldable pub use_coupon :
    SimOrder → List SimCoupon → Outcome Code (List SimCoupon × List SimEvent)
use_coupon order coupons =
    if truthy order.coupon_id then mark_used order coupons else done (coupons, [])

abbrev points_event : EventType → String → ℤ → String → SimEvent
points_event kind user_id amount order_id =
    event kind AggregateType.user user_id
      (("amount", Payload.count amount) ∷ ("order_id", Payload.named order_id) ∷ [])

-- `if granted:` and the like: an event for a number other than zero.
abbrev event_unless_zero : ℤ → SimEvent → List SimEvent
event_unless_zero n e = if eqb_ℤ n (pos 0) then [] else e ∷ []

unfoldable pub do_pay_order : Handler
do_pay_order sim state action = do
  (oi, order) ←
      or_reject (locate (λ item. is_text item.order_id action.target_id) state.orders)
        Code.order_not_payable
  reject_if (not (is_created order.status)) Code.order_not_payable
  let amount = order.original_amount -ℤ order.discount_amount
  (ui, user) ←
      or_raise (locate (λ item. str_eq item.user_id order.user_id) state.users) Exc.stop_iteration
  reject_if (ltb_ℤ user.balance amount) Code.insufficient_balance
  let granted = points_for sim.points amount
  let user' = record user {
    balance = user.balance -ℤ amount;
    points_balance = user.points_balance +ℤ granted;
    is_new_user = false;
  }
  let order' = record order {
    paid_amount = amount;
    points_granted = granted;
    status = OrderStatus.paid;
  }
  (coupons, used) ← use_coupon order state.coupons
  done (record {
    state = record state {
      users = set state.users ui user';
      orders = set state.orders oi order';
      coupons = coupons;
    };
    events =
        event EventType.payment_captured AggregateType.order order.order_id []
        ∷ (used
            ++ event_unless_zero granted
                (points_event EventType.points_granted user.user_id granted order.order_id));
  })

abbrev pub is_refundable : OrderStatus → Bool
is_refundable OrderStatus.paid = true
is_refundable OrderStatus.partially_refunded = true
is_refundable _ = false

-- The test of `if self.refund and (…)`.
unfoldable pub refused_by_policy : Option RefundRule → SimOrder → ℤ → Bool
refused_by_policy none order amount = false
refused_by_policy (some rule) order amount =
    not rule.allow_partial_refund && not (eqb_ℤ amount (order.paid_amount -ℤ order.refunded_amount))
    || leb rule.maximum_refunds_per_order order.refund_count

-- `self.points and self.points.revoke_on_refund`
abbrev pub revokes : Option PointsRule → Bool
revokes none = false
revokes (some rule) = rule.revoke_on_refund

-- `target_revoke` where the source assigns it; `none` is the variable that stays unbound.
unfoldable pub revoke_target : Option PointsRule → SimOrder → ℤ → Bool → Outcome Code (Option ℤ)
revoke_target points order total full =
    if revokes points && not (eqb_ℤ order.points_granted (pos 0))
    then (if full then done (some order.points_granted) else do
      target ←
          or_raise (floor_quotient (order.points_granted *ℤ total) order.paid_amount)
            Exc.arithmetic_error
      done (some target))
    else done none

-- The points that a refund takes back from the user, and its event.
unfoldable pub revoke_points :
    Option ℤ → SimOrder → SimUser → Outcome Code (SimUser × List SimEvent)
revoke_points none order user = done (user, [])
revoke_points (some target) order user = do
  let delta = max_ℤ (target -ℤ order.points_revoked) (pos 0)
  reject_if (ltb_ℤ user.points_balance delta) Code.points_already_redeemed
  done (
    record user { points_balance = user.points_balance -ℤ delta },
    event_unless_zero delta
        (points_event EventType.points_revoked user.user_id delta order.order_id),
  )

-- The new `points_revoked`: it reads `target_revoke` whenever the rule revokes.
unfoldable pub revoked_after : Option PointsRule → Option ℤ → SimOrder → Outcome Code ℤ
revoked_after points target order =
    if revokes points then or_raise target Exc.unbound_local_error else done order.points_revoked

abbrev pub restores : Option PromotionRule → Bool
restores none = false
restores (some rule) = rule.restore_on_full_refund

-- What a full refund does to the coupon of its order: it becomes AVAILABLE again.
unfoldable pub mark_available :
    SimOrder → List SimCoupon → Outcome Code (List SimCoupon × List SimEvent)
mark_available order coupons = do
  (ci, coupon) ← or_raise (find_coupon order.coupon_id coupons) Exc.stop_iteration
  let coupon' = record coupon {
    status = CouponStatus.available;
    reserved_order_id = none;
    used_order_id = none;
  }
  done (
    set coupons ci coupon',
    event EventType.coupon_restored AggregateType.coupon coupon.coupon_id [] ∷ [],
  )

-- `if full and order.coupon_id and self.promotion and …`
unfoldable pub restore_coupon :
    Option PromotionRule
    → Bool
    → SimOrder
    → List SimCoupon
    → Outcome Code (List SimCoupon × List SimEvent)
restore_coupon promotion full order coupons =
    if full && truthy order.coupon_id && restores promotion
    then mark_available order coupons
    else done (coupons, [])

unfoldable pub do_refund_order : Handler
do_refund_order sim state action = do
  (oi, order) ←
      or_reject (locate (λ item. is_text item.order_id action.target_id) state.orders)
        Code.order_not_found
  amount ← money (argument "amount" action.arguments)
  reject_if
      (not (is_refundable order.status)
        || leb_ℤ amount (pos 0)
        || ltb_ℤ order.paid_amount (order.refunded_amount +ℤ amount))
      Code.invalid_refund
  reject_if (refused_by_policy sim.refund order amount) Code.refund_policy_rejected
  (ui, user) ←
      or_raise (locate (λ item. str_eq item.user_id order.user_id) state.users) Exc.stop_iteration
  let paid_back = record user { balance = user.balance +ℤ amount }
  let total = order.refunded_amount +ℤ amount
  let full = eqb_ℤ total order.paid_amount
  target ← revoke_target sim.points order total full
  (user', revocation) ← revoke_points target order paid_back
  points_revoked ← revoked_after sim.points target order
  let order' = record order {
    refunded_amount = total;
    points_revoked = points_revoked;
    refund_count = order.refund_count + 1;
    status = if full then OrderStatus.refunded else OrderStatus.partially_refunded;
  }
  (coupons, restored) ← restore_coupon sim.promotion full order state.coupons
  done (record {
    state = record state {
      users = set state.users ui user';
      orders = set state.orders oi order';
      coupons = coupons;
    };
    events =
        event EventType.refund_issued AggregateType.order order.order_id
          (("amount", Payload.money amount) ∷ [])
        ∷ (revocation ++ restored);
  })
