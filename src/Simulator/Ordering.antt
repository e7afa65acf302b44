-- ===== src/Simulator/Ordering.antt =====
-- simulator.py: `_do_create_user`, `_do_issue_coupon`, `_do_create_order` and `_do_apply_coupon`.
use rule_arena.Common.{◌+◌, Bool, true, false, not, ◌||◌, some, [], ◌∷◌, ◌++◌, length, set, locate}
use rule_arena.Common.Int.{pos, ltb_ℤ, leb_ℤ, min_ℤ}
use rule_arena.Common.Outcome.{done, reject_if, or_reject, ◌>>=◌, ◌>>◌}
use rule_arena.Common.Text.{str_eq, is_text, truthy, or_else, show_nat, join}
use rule_arena.Policy.{same_currency}
use rule_arena.Simulator.Models.{
  new_user, new_coupon, new_order, CouponStatus, OrderStatus, Code, EventType, AggregateType, event,
  argument,
}
use rule_arena.Simulator.Argument.{money, money_or, text_or, currency_of}
use rule_arena.Simulator.Rules.{Handler, is_empty, has_user}

unfoldable pub do_create_user : Handler
do_create_user sim state action = do
  reject_if (not (is_empty state.users)) Code.user_exists
  currency ← currency_of (text_or "CNY" (argument "currency" action.arguments))
  balance ← money_or 0 (argument "initial_balance" action.arguments)
  reject_if (ltb_ℤ balance (pos 0)) Code.invalid_amount
  let user = new_user action.actor_id balance currency
  done (record {
    state = record state { users = user ∷ [] };
    events = event EventType.user_created AggregateType.user user.user_id [] ∷ [];
  })

unfoldable pub do_issue_coupon : Handler
do_issue_coupon sim state action = do
  reject_if (is_empty state.users) Code.precondition_failed
  promotion ← or_reject sim.promotion Code.precondition_failed
  let owner = or_else action.target_id action.actor_id
  reject_if (not (has_user owner state.users)) Code.user_not_found
  face_value ← money_or promotion.discount_amount.amount (argument "value" action.arguments)
  threshold ← money_or promotion.minimum_order_amount.amount (argument "threshold" action.arguments)
  currency ← currency_of (text_or "CNY" (argument "currency" action.arguments))
  reject_if
      (leb_ℤ face_value (pos 0)
        || ltb_ℤ threshold (pos 0)
        || not (same_currency currency promotion.discount_amount.currency))
      Code.invalid_coupon
  let coupon =
      new_coupon (join "coupon-" (show_nat (length state.coupons + 1))) owner face_value threshold
        currency
  done (record {
    state = record state { coupons = state.coupons ++ coupon ∷ [] };
    events = event EventType.coupon_issued AggregateType.coupon coupon.coupon_id [] ∷ [];
  })

unfoldable pub do_create_order : Handler
do_create_order sim state action = do
  reject_if (is_empty state.users) Code.user_not_found
  let owner = or_else action.target_id action.actor_id
  reject_if (not (has_user owner state.users)) Code.user_not_found
  amount ← money (argument "amount" action.arguments)
  currency ← currency_of (text_or "CNY" (argument "currency" action.arguments))
  reject_if (leb_ℤ amount (pos 0)) Code.invalid_amount
  let order = new_order (join "order-" (show_nat (length state.orders + 1))) owner amount currency
  done (record {
    state = record state { orders = state.orders ++ order ∷ [] };
    events = event EventType.order_created AggregateType.order order.order_id [] ∷ [];
  })

abbrev pub is_created : OrderStatus → Bool
is_created OrderStatus.created = true
is_created _ = false

abbrev pub is_available : CouponStatus → Bool
is_available CouponStatus.available = true
is_available _ = false

unfoldable pub do_apply_coupon : Handler
do_apply_coupon sim state action = do
  let coupon_id = text_or "" (argument "coupon_id" action.arguments)
  (oi, order) ←
      or_reject (locate (λ item. is_text item.order_id action.target_id) state.orders)
        Code.asset_not_found
  (ci, coupon) ←
      or_reject (locate (λ item. str_eq item.coupon_id coupon_id) state.coupons)
        Code.asset_not_found
  reject_if
      (not (is_created order.status)
        || truthy order.coupon_id
        || not (is_available coupon.status)
        || not (str_eq coupon.owner_id order.user_id)
        || not (same_currency coupon.currency order.currency)
        || ltb_ℤ order.original_amount coupon.threshold)
      Code.coupon_not_applicable
  let order' = record order {
    coupon_id = some coupon_id;
    discount_amount = min_ℤ coupon.face_value order.original_amount;
  }
  let coupon' = record coupon {
    status = CouponStatus.reserved;
    reserved_order_id = action.target_id;
  }
  done (record {
    state = record state {
      orders = set state.orders oi order';
      coupons = set state.coupons ci coupon';
    };
    events = event EventType.coupon_reserved AggregateType.coupon coupon_id [] ∷ [];
  })
