-- ===== src/Simulator/Models.antt =====
-- models.py of packages/reference_simulator, and the action types of packages/domain_contracts.
-- A status that the source keeps as a text is an enumeration of the texts that it writes. Amounts
-- of money count ten-thousandths (module Decimal).
use rule_arena.Common.{ℕ, Bool, true, Option, none, some, List, [], ◌∷◌, String, if◌then◌else◌}
use rule_arena.Common.Int.{ℤ, pos, ◌-ℤ◌}
use rule_arena.Common.Text.{str_eq}
use rule_arena.Policy.{Currency, ScenarioType}

pub data ActionType : Type 0 where
  create_user issue_coupon create_order apply_coupon pay_order cancel_order : ActionType
  refund_order redeem_points activate_membership consume_entitlement : ActionType
  cancel_membership inspect_state : ActionType

-- `ActionType.value`
unfoldable pub action_value : ActionType → String
action_value create_user = "CREATE_USER"
action_value issue_coupon = "ISSUE_COUPON"
action_value create_order = "CREATE_ORDER"
action_value apply_coupon = "APPLY_COUPON"
action_value pay_order = "PAY_ORDER"
action_value cancel_order = "CANCEL_ORDER"
action_value refund_order = "REFUND_ORDER"
action_value redeem_points = "REDEEM_POINTS"
action_value activate_membership = "ACTIVATE_MEMBERSHIP"
action_value consume_entitlement = "CONSUME_ENTITLEMENT"
action_value cancel_membership = "CANCEL_MEMBERSHIP"
action_value inspect_state = "INSPECT_STATE"

pub data TransitionStatus : Type 0 where
  applied rejected unsupported : TransitionStatus

-- `str | int | bool`
pub data Value : Type 0 where
  text : String → Value
  int : ℤ → Value
  bool : Bool → Value

pub record SimAction : Type 0 where
  pub action_type : ActionType
  pub actor_id : String
  pub target_id : Option String
  pub arguments : List (String × Value)
  pub idempotency_key : Option String

pub data MembershipFlag : Type 0 where
  none_yet active inactive : MembershipFlag

pub record SimUser : Type 0 where
  pub user_id : String
  pub balance : ℤ
  pub currency : Currency
  pub points_balance : ℤ
  pub membership_status : MembershipFlag
  pub is_new_user : Bool

-- `SimUser(…)` with the defaults of the class; the others below likewise.
abbrev pub new_user : String → ℤ → Currency → SimUser
new_user user_id balance currency = record {
  user_id = user_id;
  balance = balance;
  currency = currency;
  points_balance = pos 0;
  membership_status = none_yet;
  is_new_user = true;
}

pub data CouponStatus : Type 0 where
  available reserved used : CouponStatus

pub record SimCoupon : Type 0 where
  pub coupon_id : String
  pub owner_id : String
  pub face_value : ℤ
  pub threshold : ℤ
  pub currency : Currency
  pub status : CouponStatus
  pub reserved_order_id : Option String
  pub used_order_id : Option String
  pub usage_count : ℕ

abbrev pub new_coupon : String → String → ℤ → ℤ → Currency → SimCoupon
new_coupon coupon_id owner_id face_value threshold currency = record {
  coupon_id = coupon_id;
  owner_id = owner_id;
  face_value = face_value;
  threshold = threshold;
  currency = currency;
  status = CouponStatus.available;
  reserved_order_id = none;
  used_order_id = none;
  usage_count = 0;
}

pub data OrderStatus : Type 0 where
  created paid partially_refunded refunded : OrderStatus

pub record SimOrder : Type 0 where
  pub order_id : String
  pub user_id : String
  pub original_amount : ℤ
  pub currency : Currency
  pub discount_amount : ℤ
  pub paid_amount : ℤ
  pub refunded_amount : ℤ
  pub points_granted : ℤ
  pub points_revoked : ℤ
  pub refund_count : ℕ
  pub status : OrderStatus
  pub coupon_id : Option String

abbrev pub new_order : String → String → ℤ → Currency → SimOrder
new_order order_id user_id amount currency = record {
  order_id = order_id;
  user_id = user_id;
  original_amount = amount;
  currency = currency;
  discount_amount = pos 0;
  paid_amount = pos 0;
  refunded_amount = pos 0;
  points_granted = pos 0;
  points_revoked = pos 0;
  refund_count = 0;
  status = created;
  coupon_id = none;
}

pub data MembershipStatus : Type 0 where
  active cancelled refunded : MembershipStatus

pub record SimMembership : Type 0 where
  pub membership_id : String
  pub user_id : String
  pub paid_amount : ℤ
  pub currency : Currency
  pub status : MembershipStatus
  pub refunded_amount : ℤ

abbrev pub new_membership : String → String → ℤ → Currency → SimMembership
new_membership membership_id user_id paid_amount currency = record {
  membership_id = membership_id;
  user_id = user_id;
  paid_amount = paid_amount;
  currency = currency;
  status = MembershipStatus.active;
  refunded_amount = pos 0;
}

pub record SimEntitlement : Type 0 where
  pub entitlement_id : String
  pub membership_id : String
  pub granted : ℤ
  pub consumed : ℤ
  pub revoked : ℤ

abbrev pub new_entitlement : String → String → ℤ → SimEntitlement
new_entitlement entitlement_id membership_id granted = record {
  entitlement_id = entitlement_id;
  membership_id = membership_id;
  granted = granted;
  consumed = pos 0;
  revoked = pos 0;
}

-- `SimEntitlement.available`
unfoldable pub entitlement_available : SimEntitlement → ℤ
entitlement_available e = e.granted -ℤ e.consumed -ℤ e.revoked

pub data EventType : Type 0 where
  user_created coupon_issued order_created coupon_reserved payment_captured coupon_used : EventType
  points_granted refund_issued points_revoked coupon_restored points_redeemed : EventType
  membership_activated entitlement_granted entitlement_consumed : EventType
  membership_cancelled entitlement_revoked : EventType

pub data AggregateType : Type 0 where
  user coupon order membership entitlement : AggregateType

-- What a payload holds: an amount of money, a count, or an order's name.
pub data Payload : Type 0 where
  money : ℤ → Payload
  count : ℤ → Payload
  named : String → Payload

pub record SimEvent : Type 0 where
  pub event_type : EventType
  pub aggregate_type : AggregateType
  pub aggregate_id : String
  pub payload : List (String × Payload)

pub record SimulationState : Type 0 where
  pub scenario_type : ScenarioType
  pub users : List SimUser
  pub coupons : List SimCoupon
  pub orders : List SimOrder
  pub memberships : List SimMembership
  pub entitlements : List SimEntitlement
  pub seen_idempotency_keys : List (String × String)

-- The `code` of a result that is not applied.
pub data Code : Type 0 where
  action_not_supported unsupported_action invalid_argument user_exists invalid_amount : Code
  precondition_failed user_not_found invalid_coupon asset_not_found : Code
  coupon_not_applicable order_not_payable insufficient_balance order_not_found : Code
  invalid_refund refund_policy_rejected points_already_redeemed insufficient_points : Code
  membership_rule_mismatch entitlement_not_found insufficient_entitlement : Code
  membership_not_active entitlement_consumed : Code

pub record TransitionResult : Type 0 where
  pub status : TransitionStatus
  pub state : SimulationState
  pub events : List SimEvent
  pub code : Option Code

-- `dict(self.arguments).get(name)`: the last of several values under one name.
unfoldable pub argument : String → List (String × Value) → Option Value
argument name [] = none
argument name ((key, v) ∷ rest) = elim (argument name rest) [
  | some later ↦ some later
  | none ↦ if str_eq key name then some v else none
]

abbrev pub event : EventType → AggregateType → String → List (String × Payload) → SimEvent
event kind aggregate name payload = record {
  event_type = kind;
  aggregate_type = aggregate;
  aggregate_id = name;
  payload = payload;
}
