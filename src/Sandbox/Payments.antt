-- ===== src/Sandbox/Payments.antt =====
-- service.py of services/commerce_sandbox: `_pay_order`, `_refund_order` and `_revoke_points`.
use rule_arena.Common.{
  ℕ, ◌+◌, Bool, true, false, not, ◌&&◌, ◌||◌, Option, none, some, List, [], ◌∷◌, if◌then◌else◌,
  String,
}
use rule_arena.Common.Int.{ℤ, pos, ◌+ℤ◌, ◌-ℤ◌, ◌*ℤ◌, ltb_ℤ, leb_ℤ, eqb_ℤ, max_ℤ}
use rule_arena.Common.Outcome.{Outcome, Exc, done, reject_if, or_raise, ◌>>=◌, ◌>>◌}
use rule_arena.Common.Text.{is_text, join}
use rule_arena.Common.Json.{Json, Fields, get}
use rule_arena.Policy.{ScenarioType, same_currency}
use rule_arena.Simulator.Arithmetic.{floor_quotient}
use rule_arena.Sandbox.Profile.{SandboxProfile, DefectAxis, exhibits}
use rule_arena.Sandbox.Models.{
  TestUser, CouponStatus, Order, OrderStatus, EntryType, PointsLedgerEntry, AggregateType,
  BusinessEventType, Code, RunSpace,
}
use rule_arena.Sandbox.Values.{
  check_args, target, sandbox_money, amount_text, money_effect, whole_points,
}
use rule_arena.Sandbox.Rows.{
  Handler, find_user, find_order, find_coupon, next_id, put_user, put_order, put_coupon, add_refund,
  add_entry, emit,
}
use rule_arena.Sandbox.Orders.{two_texts, is_pending, is_reserved}

abbrev pub is_promotion : ScenarioType → Bool
is_promotion ScenarioType.promotion = true
is_promotion _ = false

abbrev pub is_refund_points : ScenarioType → Bool
is_refund_points ScenarioType.refund_points = true
is_refund_points _ = false

-- The refusal of an order that is not pending.
abbrev pub unpayable_code : OrderStatus → Code
unpayable_code OrderStatus.cancelled = Code.order_cancelled
unpayable_code _ = Code.order_not_pending

abbrev pub points_fields : String → String → ℤ → Fields
points_fields user_id order_id amount = Fields.field "user_id" (Json.text user_id) (
    Fields.field "order_id" (Json.text order_id)
      (Fields.field "amount" (Json.integer amount) Fields.no_field))

-- `if order.coupon_id is not None:` of a payment
unfoldable pub use_coupon : Order → Option String → String → RunSpace → Outcome Code RunSpace
use_coupon order none key run = done run
use_coupon order (some name) key run = do
  (ci, coupon) ← find_coupon name run
  reject_if (not (is_reserved coupon.status) || not (is_text order.id coupon.reserved_order_id))
      Code.coupon_state_invalid
  let coupon' = record coupon {
    status = CouponStatus.used;
    reserved_order_id = none;
    used_order_id = some order.id;
    usage_count = coupon.usage_count + 1;
    version = coupon.version + 1;
  }
  done (
      emit AggregateType.coupon coupon.id BusinessEventType.coupon_used
        (two_texts "coupon_id" coupon.id "order_id" order.id) key (put_coupon ci coupon' run))

-- The points of a payment: the rows of the user and the order, the ledger and the event.
abbrev pub grant_points : ScenarioType → TestUser → Order → ℤ → TestUser × Order
grant_points ScenarioType.refund_points user order points = (
  record user { points_balance = user.points_balance +ℤ points },
  record order { points_granted = points },
)
grant_points _ user order points = (user, order)

-- The ledger entry and the event of points that are granted.
abbrev pub record_grant : String → String → ℤ → String → String → RunSpace → RunSpace
record_grant user_id order_id points suffix key run =
    emit AggregateType.user user_id BusinessEventType.points_granted
      (points_fields user_id order_id points) key
      (add_entry user_id (some order_id) EntryType.grant points (join key suffix) run)

abbrev pub granted_fields : Bool → ℤ → Fields
granted_fields true points = Fields.field "points_granted" (Json.integer points) Fields.no_field
granted_fields false points = Fields.no_field

unfoldable pub pay_order : Handler
pay_order profile run command key = do
  check_args [] [] command.arguments
  order_id ← target command.target_id
  (oi, order) ← find_order order_id run
  reject_if (not (is_pending order.status)) (unpayable_code order.status)
  (ui, user) ← find_user order.user_id run
  let paid = order.original_amount -ℤ order.discount_amount
  reject_if (leb_ℤ paid (pos 0)) Code.invalid_payment
  reject_if (ltb_ℤ user.balance paid) Code.insufficient_balance
  let user' = record user { balance = user.balance -ℤ paid; version = user.version + 1 }
  let order' = record order {
    paid_amount = paid;
    status = OrderStatus.paid;
    version = order.version + 1;
  }
  let points = whole_points paid
  let (user'', order'') = grant_points run.scenario_type user' order' points
  run' ← use_coupon order order.coupon_id key (put_order oi order'' (put_user ui user'' run))
  effect ← money_effect order.currency paid
  let captured =
      emit AggregateType.order order.id BusinessEventType.payment_captured
        (two_texts "order_id" order.id "paid_amount" (amount_text paid)) key run'
  done (record {
    run =
        if is_refund_points run.scenario_type
        then record_grant user.id order.id points ":points-grant" key captured
        else captured;
    result = Fields.field "order_id" (Json.text order.id) (
        Fields.field "paid_amount" (Json.text (amount_text paid))
          (granted_fields (is_refund_points run.scenario_type) points));
    effects = effect ∷ [];
  })

-- `order.status in {"PAID", "PARTIALLY_REFUNDED"}`
abbrev pub is_refundable : OrderStatus → Bool
is_refundable OrderStatus.paid = true
is_refundable OrderStatus.partially_refunded = true
is_refundable _ = false

abbrev pub is_revoke : EntryType → Bool
is_revoke EntryType.revoke = true
is_revoke _ = false

-- The sum of the order's REVOKE entries, which are negative.
abbrev pub revoked_sum : String → List PointsLedgerEntry → ℤ
revoked_sum order_id [] = pos 0
revoked_sum order_id (entry ∷ entries) =
    let rest = revoked_sum order_id entries in
    if is_text order_id entry.order_id && is_revoke entry.entry_type
    then entry.amount +ℤ rest
    else rest

-- `target_revoke`
unfoldable pub target_revoke : Order → Bool → Outcome Code ℤ
target_revoke order true = done order.points_granted
target_revoke order false =
    or_raise (floor_quotient (order.points_granted *ℤ order.refunded_amount) order.paid_amount)
      Exc.arithmetic_error

-- What `_revoke_points` does once the number of points is known to be other than zero.
unfoldable pub take_points : ℕ → TestUser → Order → ℤ → String → RunSpace → Outcome Code RunSpace
take_points ui user order delta key run = do
  reject_if (ltb_ℤ user.points_balance delta) Code.points_already_redeemed
  let user' = record user {
    points_balance = user.points_balance -ℤ delta;
    version = user.version + 1;
  }
  done (
      emit AggregateType.user user.id BusinessEventType.points_revoked
        (points_fields user.id order.id delta) key
        (add_entry user.id (some order.id) EntryType.revoke (pos 0 -ℤ delta)
          (join key ":points-revoke") (put_user ui user' run)))

-- `_revoke_points`, for the row of the user and of the order as they are by then.
unfoldable pub revoke_points :
    ℕ → TestUser → Order → Bool → String → RunSpace → Outcome Code RunSpace
revoke_points ui user order full key run = do
  goal ← target_revoke order full
  let delta = max_ℤ (goal +ℤ revoked_sum order.id run.points_ledger) (pos 0)
  if eqb_ℤ delta (pos 0) then done run else take_points ui user order delta key run

-- What a refund does about points: with the defect it grants them again.
unfoldable pub refund_points :
    SandboxProfile
    → ScenarioType
    → ℕ
    → TestUser
    → Order
    → ℤ
    → String
    → RunSpace
    → Outcome Code RunSpace
refund_points profile ScenarioType.refund_points ui user order amount key run =
    if exhibits profile DefectAxis.points_granted_again_on_refund
    then done (
        record_grant user.id order.id (whole_points amount) ":refund-points-grant" key (
          put_user ui (record user { points_balance = user.points_balance +ℤ whole_points amount })
            run))
    else revoke_points ui user order (leb_ℤ order.paid_amount order.refunded_amount) key run
refund_points profile _ ui user order amount key run = done run

-- The coupon of a full refund, which only the defect makes available again.
unfoldable pub reopen_coupon : Order → Option String → String → RunSpace → Outcome Code RunSpace
reopen_coupon order none key run = done run
reopen_coupon order (some name) key run = do
  (ci, coupon) ← find_coupon name run
  let coupon' = record coupon {
    status = CouponStatus.available;
    used_order_id = none;
    version = coupon.version + 1;
  }
  done (
      emit AggregateType.coupon coupon.id BusinessEventType.coupon_restored
        (two_texts "coupon_id" coupon.id "order_id" order.id) key (put_coupon ci coupon' run))

-- `max_amount`
unfoldable pub max_refund : SandboxProfile → ScenarioType → Order → ℤ
max_refund profile scenario order =
    if exhibits profile DefectAxis.refund_against_original && is_promotion scenario
    then order.paid_amount
    else order.paid_amount -ℤ order.refunded_amount

-- The order as a refund leaves it.
abbrev pub refunded_order : Order → ℤ → Order
refunded_order order amount =
    let total = order.refunded_amount +ℤ amount in
    record order {
      refunded_amount = total;
      status =
          if leb_ℤ order.paid_amount total
          then OrderStatus.refunded
          else OrderStatus.partially_refunded;
      version = order.version + 1;
    }

abbrev pub is_refunded : OrderStatus → Bool
is_refunded OrderStatus.refunded = true
is_refunded _ = false

-- `_refund_order`
unfoldable pub refund_order : Handler
refund_order profile run command key = do
  check_args ("amount" ∷ []) ("amount" ∷ []) command.arguments
  order_id ← target command.target_id
  (oi, order) ← find_order order_id run
  reject_if (not (is_refundable order.status)) Code.order_not_refundable
  (amount, currency) ← sandbox_money (get "amount" command.arguments)
  reject_if (leb_ℤ amount (pos 0) || not (same_currency currency order.currency))
      Code.invalid_refund
  reject_if (ltb_ℤ (max_refund profile run.scenario_type order) amount) Code.refund_exceeds_paid
  (ui, user) ← find_user order.user_id run
  let user' = record user { balance = user.balance +ℤ amount; version = user.version + 1 }
  let order' = refunded_order order amount
  let refund_id = next_id "refund" run.refunds
  let issued =
      emit AggregateType.order order.id BusinessEventType.refund_issued
        (two_texts "order_id" order.id "amount" (amount_text amount)) key
        (add_refund
          (record { id = refund_id; order_id = order.id; amount = amount; idempotency_key = key })
          (put_order oi order' (put_user ui user' run)))
  pointed ← refund_points profile run.scenario_type ui user' order' amount key issued
  final ←
      if is_promotion run.scenario_type
        && is_refunded order'.status
        && exhibits profile DefectAxis.coupon_restored_on_refund
      then reopen_coupon order' order'.coupon_id key pointed
      else done pointed
  effect ← money_effect currency amount
  done (record {
    run = final;
    result = Fields.field "refund_id" (Json.text refund_id) (
        Fields.field "order_id" (Json.text order.id) (
          two_texts "refunded_amount" (amount_text amount) "order_refunded_total"
            (amount_text order'.refunded_amount)));
    effects = effect ∷ [];
  })
