-- ===== src/Sandbox/Models.antt =====
-- models.py and schemas.py of services/commerce_sandbox: the rows of one run, kept together, since
-- every statement of the service selects by the run. A status that the source keeps as a text is an
-- enumeration of the texts that it writes or tests. An amount counts cents: every amount that the
-- service stores was quantized.
use rule_arena.Common.{ℕ, Bool, true, Option, none, List, [], String}
use rule_arena.Common.Int.{ℤ, pos}
use rule_arena.Common.Json.{Fields}
use rule_arena.Policy.{Currency, ScenarioType}
use rule_arena.Sandbox.Profile.{DefectAxis, SandboxVersion}

pub data ActionName : Type 0 where
  create_user issue_coupon create_order apply_coupon pay_order cancel_order : ActionName
  refund_order redeem_points activate_membership consume_entitlement : ActionName
  cancel_membership inspect_state : ActionName

pub record ActionCommand : Type 0 where
  pub action : ActionName
  pub actor_id : String
  pub target_id : Option String
  pub arguments : Fields
  pub idempotency_key : Option String

pub data UserMembership : Type 0 where
  inactive active : UserMembership

pub record TestUser : Type 0 where
  pub id : String
  pub balance : ℤ
  pub currency : Currency
  pub points_balance : ℤ
  pub is_new_user : Bool
  pub membership_status : UserMembership
  pub version : ℕ

abbrev pub new_user : ℤ → Currency → TestUser
new_user balance currency = record {
  id = "user-1";
  balance = balance;
  currency = currency;
  points_balance = pos 0;
  is_new_user = true;
  membership_status = UserMembership.inactive;
  version = 0;
}

pub data CouponStatus : Type 0 where
  available reserved used restored : CouponStatus

pub record Coupon : Type 0 where
  pub id : String
  pub owner_id : String
  pub face_value : ℤ
  pub threshold : ℤ
  pub currency : Currency
  pub status : CouponStatus
  pub reserved_order_id : Option String
  pub used_order_id : Option String
  pub usage_count : ℕ
  pub version : ℕ

abbrev pub new_coupon : String → String → ℤ → ℤ → Currency → Coupon
new_coupon id owner_id face_value threshold currency = record {
  id = id;
  owner_id = owner_id;
  face_value = face_value;
  threshold = threshold;
  currency = currency;
  status = CouponStatus.available;
  reserved_order_id = none;
  used_order_id = none;
  usage_count = 0;
  version = 0;
}

pub data OrderStatus : Type 0 where
  draft pending_payment paid cancelled partially_refunded refunded : OrderStatus

pub record Order : Type 0 where
  pub id : String
  pub user_id : String
  pub original_amount : ℤ
  pub discount_amount : ℤ
  pub paid_amount : ℤ
  pub refunded_amount : ℤ
  pub points_granted : ℤ
  pub currency : Currency
  pub status : OrderStatus
  pub coupon_id : Option String
  pub version : ℕ

abbrev pub new_order : String → String → ℤ → Currency → Order
new_order id user_id amount currency = record {
  id = id;
  user_id = user_id;
  original_amount = amount;
  discount_amount = pos 0;
  paid_amount = pos 0;
  refunded_amount = pos 0;
  points_granted = pos 0;
  currency = currency;
  status = OrderStatus.pending_payment;
  coupon_id = none;
  version = 0;
}

pub record Refund : Type 0 where
  pub id : String
  pub order_id : String
  pub amount : ℤ
  pub idempotency_key : String

pub data EntryType : Type 0 where
  grant revoke redeem : EntryType

pub record PointsLedgerEntry : Type 0 where
  pub user_id : String
  pub order_id : Option String
  pub entry_type : EntryType
  pub amount : ℤ
  pub idempotency_key : String

pub data MembershipStatus : Type 0 where
  active cancelled refunded : MembershipStatus

pub record Membership : Type 0 where
  pub id : String
  pub user_id : String
  pub paid_amount : ℤ
  pub currency : Currency
  pub status : MembershipStatus
  pub version : ℕ

abbrev pub new_membership : String → String → ℤ → Currency → Membership
new_membership id user_id paid_amount currency = record {
  id = id;
  user_id = user_id;
  paid_amount = paid_amount;
  currency = currency;
  status = MembershipStatus.active;
  version = 0;
}

pub data EntitlementStatus : Type 0 where
  granted partially_consumed consumed revoked : EntitlementStatus

pub record Entitlement : Type 0 where
  pub id : String
  pub membership_id : String
  pub granted_quantity : ℤ
  pub consumed_quantity : ℤ
  pub revoked_quantity : ℤ
  pub status : EntitlementStatus
  pub version : ℕ

abbrev pub new_entitlement : String → String → ℤ → Entitlement
new_entitlement id membership_id quantity = record {
  id = id;
  membership_id = membership_id;
  granted_quantity = quantity;
  consumed_quantity = pos 0;
  revoked_quantity = pos 0;
  status = EntitlementStatus.granted;
  version = 0;
}

pub data AggregateType : Type 0 where
  user coupon order membership entitlement : AggregateType

pub data BusinessEventType : Type 0 where
  user_created coupon_issued coupon_reserved coupon_used coupon_restored : BusinessEventType
  order_created payment_captured order_cancelled refund_issued : BusinessEventType
  points_granted points_revoked points_redeemed membership_activated : BusinessEventType
  entitlement_granted entitlement_consumed entitlement_revoked : BusinessEventType
  membership_cancelled membership_refunded : BusinessEventType

pub record BusinessEvent : Type 0 where
  pub epoch : ℕ
  pub sequence : ℕ
  pub aggregate_type : AggregateType
  pub aggregate_id : String
  pub event_type : BusinessEventType
  pub payload : Fields
  pub idempotency_key : String

-- A monetary effect.
pub record Effect : Type 0 where
  pub currency : Currency
  pub amount : ℤ

-- The code of a `DomainError`.
pub data Code : Type 0 where
  run_not_found scenario_not_found idempotency_key_required receipt_not_found : Code
  action_not_supported unknown_argument missing_argument invalid_argument : Code
  invalid_money invalid_amount target_required user_already_exists : Code
  user_not_found order_not_found coupon_not_found membership_not_found : Code
  entitlement_not_found currency_mismatch coupon_already_applied : Code
  order_not_pending coupon_not_available coupon_owner_mismatch : Code
  coupon_condition_failed order_cancelled invalid_payment insufficient_balance : Code
  coupon_state_invalid order_not_cancellable order_not_refundable invalid_refund : Code
  refund_exceeds_paid points_already_redeemed insufficient_points : Code
  invalid_membership membership_already_active entitlement_not_available : Code
  insufficient_entitlement membership_not_active entitlement_consumed invalid_scope : Code

pub data ActionStatus : Type 0 where
  succeeded rejected : ActionStatus

-- A row of `action_receipts`.
pub record ActionReceiptRecord : Type 0 where
  pub receipt_id : String
  pub epoch : ℕ
  pub idempotency_key : String
  pub action_type : ActionName
  pub status : ActionStatus
  pub monetary_effects : List Effect
  pub result : Fields
  pub error : Option Code

-- The rows of a run, those of a table in the order in which they were written.
pub record RunSpace : Type 0 where
  pub id : String
  pub scenario_type : ScenarioType
  pub sandbox_version : SandboxVersion
  pub defect_axes : Option (List DefectAxis)
  pub epoch : ℕ
  pub snapshot_version : ℕ
  pub users : List TestUser
  pub coupons : List Coupon
  pub orders : List Order
  pub refunds : List Refund
  pub points_ledger : List PointsLedgerEntry
  pub memberships : List Membership
  pub entitlements : List Entitlement
  pub events : List BusinessEvent
  pub receipts : List ActionReceiptRecord

-- What `create_run` writes.
abbrev pub new_run : String → ScenarioType → SandboxVersion → Option (List DefectAxis) → RunSpace
new_run id scenario version axes = record {
  id = id;
  scenario_type = scenario;
  sandbox_version = version;
  defect_axes = axes;
  epoch = 0;
  snapshot_version = 0;
  users = [];
  coupons = [];
  orders = [];
  refunds = [];
  points_ledger = [];
  memberships = [];
  entitlements = [];
  events = [];
  receipts = [];
}
