-- ===== src/Sandbox/Orders.antt =====
-- service.py of services/commerce_sandbox: `_create_user`, `_issue_coupon`, `_create_order`,
-- `_apply_coupon` and `_cancel_order`.
use rule_arena.Common.{
  ◌+◌, Bool, true, false, not, ◌&&◌, ◌||◌, Option, none, some, [], ◌∷◌, if◌then◌else◌, String,
}
use rule_arena.Common.Int.{pos, ltb_ℤ, leb_ℤ, min_ℤ}
use rule_arena.Common.Outcome.{Outcome, done, reject_if, ◌>>=◌, ◌>>◌}
use rule_arena.Common.Text.{is_text, or_else}
use rule_arena.Common.Json.{Json, Fields, get}
use rule_arena.Policy.{same_currency}
use rule_arena.Simulator.Rules.{is_empty}
use rule_arena.Sandbox.Models.{
  CouponStatus, Order, new_user, new_coupon, new_order, OrderStatus, AggregateType,
  BusinessEventType, Code, RunSpace,
}
use rule_arena.Sandbox.Values.{
  check_args, target, text_argument, sandbox_money, amount_text, money_effect,
}
use rule_arena.Sandbox.Rows.{
  Handler, find_user, find_order, find_coupon, next_id, put_order, put_coupon, add_user, add_order,
  add_coupon, emit,
}

-- Objects with a few text fields.
abbrev pub one_text : String → String → Fields
one_text a x = Fields.field a (Json.text x) Fields.no_field

abbrev pub two_texts : String → String → String → String → Fields
two_texts a x b y = Fields.field a (Json.text x) (one_text b y)

abbrev pub three_texts : String → String → String → String → String → String → Fields
three_texts a x b y c z = Fields.field a (Json.text x) (two_texts b y c z)

unfoldable pub create_user : Handler
create_user profile run command key = do
  check_args ("initial_balance" ∷ []) ("initial_balance" ∷ []) command.arguments
  (amount, currency) ← sandbox_money (get "initial_balance" command.arguments)
  reject_if (ltb_ℤ amount (pos 0)) Code.invalid_amount
  reject_if (not (is_empty run.users)) Code.user_already_exists
  effect ← money_effect currency amount
  done (record {
    run =
        emit AggregateType.user "user-1" BusinessEventType.user_created
          (one_text "user_id" "user-1") key (add_user (new_user amount currency) run);
    result = two_texts "user_id" "user-1" "balance" (amount_text amount);
    effects = effect ∷ [];
  })

unfoldable pub issue_coupon : Handler
issue_coupon profile run command key = do
  check_args ("value" ∷ "threshold" ∷ []) ("value" ∷ "threshold" ∷ []) command.arguments
  (ui, user) ← find_user (or_else command.target_id command.actor_id) run
  (value, currency) ← sandbox_money (get "value" command.arguments)
  (threshold, other) ← sandbox_money (get "threshold" command.arguments)
  reject_if (leb_ℤ value (pos 0) || ltb_ℤ threshold (pos 0)) Code.invalid_amount
  reject_if (not (same_currency currency other) || not (same_currency currency user.currency))
      Code.currency_mismatch
  let name = next_id "coupon" run.coupons
  effect ← money_effect currency value
  done (record {
    run =
        emit AggregateType.coupon name BusinessEventType.coupon_issued
          (two_texts "coupon_id" name "owner_id" user.id) key
          (add_coupon (new_coupon name user.id value threshold currency) run);
    result =
        three_texts "coupon_id" name "value" (amount_text value) "threshold"
          (amount_text threshold);
    effects = effect ∷ [];
  })

unfoldable pub create_order : Handler
create_order profile run command key = do
  check_args ("amount" ∷ []) ("amount" ∷ []) command.arguments
  (ui, user) ← find_user (or_else command.target_id command.actor_id) run
  (amount, currency) ← sandbox_money (get "amount" command.arguments)
  reject_if (leb_ℤ amount (pos 0)) Code.invalid_amount
  reject_if (not (same_currency currency user.currency)) Code.currency_mismatch
  let name = next_id "order" run.orders
  effect ← money_effect currency amount
  done (record {
    run =
        emit AggregateType.order name BusinessEventType.order_created
          (two_texts "order_id" name "user_id" user.id) key
          (add_order (new_order name user.id amount currency) run);
    result = two_texts "order_id" name "amount" (amount_text amount);
    effects = effect ∷ [];
  })

abbrev pub is_none {ℓ} : {A : Type ℓ} → Option A → Bool
is_none none = true
is_none (some x) = false

abbrev pub is_pending : OrderStatus → Bool
is_pending OrderStatus.pending_payment = true
is_pending _ = false

-- `coupon.status in {"AVAILABLE", "RESTORED"}`
abbrev pub is_applicable : CouponStatus → Bool
is_applicable CouponStatus.available = true
is_applicable CouponStatus.restored = true
is_applicable _ = false

unfoldable pub apply_coupon : Handler
apply_coupon profile run command key = do
  check_args ("coupon_id" ∷ []) ("coupon_id" ∷ []) command.arguments
  order_id ← target command.target_id
  (oi, order) ← find_order order_id run
  reject_if (not (is_none order.coupon_id)) Code.coupon_already_applied
  coupon_id ← text_argument (get "coupon_id" command.arguments)
  (ci, coupon) ← find_coupon coupon_id run
  reject_if (not (is_pending order.status)) Code.order_not_pending
  reject_if (not (is_applicable coupon.status)) Code.coupon_not_available
  reject_if (not (is_text coupon.owner_id (some order.user_id))) Code.coupon_owner_mismatch
  reject_if
      (not (same_currency coupon.currency order.currency)
        || ltb_ℤ order.original_amount coupon.threshold)
      Code.coupon_condition_failed
  let discount = min_ℤ coupon.face_value order.original_amount
  let order' = record order {
    discount_amount = discount;
    coupon_id = some coupon.id;
    version = order.version + 1;
  }
  let coupon' = record coupon {
    status = CouponStatus.reserved;
    reserved_order_id = some order.id;
    version = coupon.version + 1;
  }
  effect ← money_effect order.currency discount
  done (record {
    run =
        emit AggregateType.coupon coupon.id BusinessEventType.coupon_reserved
          (two_texts "coupon_id" coupon.id "order_id" order.id) key
          (put_coupon ci coupon' (put_order oi order' run));
    result =
        three_texts "order_id" order.id "coupon_id" coupon.id "discount" (amount_text discount);
    effects = effect ∷ [];
  })

-- `order.status in {"DRAFT", "PENDING_PAYMENT"}`
abbrev pub is_cancellable : OrderStatus → Bool
is_cancellable OrderStatus.draft = true
is_cancellable OrderStatus.pending_payment = true
is_cancellable _ = false

abbrev pub is_reserved : CouponStatus → Bool
is_reserved CouponStatus.reserved = true
is_reserved _ = false

-- `if order.coupon_id is not None:` of a cancellation
unfoldable pub release_coupon : Order → Option String → String → RunSpace → Outcome Code RunSpace
release_coupon order none key run = done run
release_coupon order (some name) key run = do
  (ci, coupon) ← find_coupon name run
  let coupon' = record coupon {
    status = CouponStatus.restored;
    reserved_order_id = none;
    version = coupon.version + 1;
  }
  done (
      if is_reserved coupon.status && is_text order.id coupon.reserved_order_id
      then emit AggregateType.coupon coupon.id BusinessEventType.coupon_restored
          (two_texts "coupon_id" coupon.id "order_id" order.id) key (put_coupon ci coupon' run)
      else run)

unfoldable pub cancel_order : Handler
cancel_order profile run command key = do
  check_args [] [] command.arguments
  order_id ← target command.target_id
  (oi, order) ← find_order order_id run
  reject_if (not (is_cancellable order.status)) Code.order_not_cancellable
  run' ← release_coupon order order.coupon_id key run
  let order' = record order { status = OrderStatus.cancelled; version = order.version + 1 }
  done (record {
    run =
        emit AggregateType.order order.id BusinessEventType.order_cancelled
          (one_text "order_id" order.id) key (put_order oi order' run');
    result = two_texts "order_id" order.id "status" "CANCELLED";
    effects = [];
  })
