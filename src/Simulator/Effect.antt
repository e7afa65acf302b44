-- ===== src/Simulator/Effect.antt =====
-- What each handler of simulator.py does to the state when it applies an action: one constructor for
-- each handler, with the tests that it passed. The proofs about reachable states go by cases on it.
pub mod Sound
use rule_arena.Common.{
  ℕ, zero, ◌+◌, ◌≡◌, Bool, true, false, not, ◌||◌, Option, none, some, List, [], ◌∷◌, ◌++◌, String,
  get_elem?, set, if◌then◌else◌,
}
use rule_arena.Common.Int.{ℤ, pos, ◌+ℤ◌, ◌-ℤ◌, ◌≤ℤ◌, ◌<ℤ◌, eqb_ℤ, min_ℤ}
use rule_arena.Common.Outcome.{Outcome, done}
use rule_arena.Policy.{Currency, MembershipRule}
use rule_arena.Simulator.Models.{
  SimulationState, SimUser, SimCoupon, SimOrder, SimMembership, SimEntitlement, SimEvent,
  CouponStatus, OrderStatus, MembershipFlag, MembershipStatus, Code, new_user, new_coupon,
  new_order, new_membership, new_entitlement, entitlement_available,
}
use rule_arena.Decimal.Quantize.{IsCents}
use rule_arena.Simulator.Arithmetic.{points_for}
use rule_arena.Simulator.Rules.{ReferenceSimulator, has_user}
use rule_arena.Simulator.Payment.{
  is_refundable, refused_by_policy, use_coupon, revoke_target, revoke_points, revoked_after,
  restore_coupon,
}
use rule_arena.Simulator.Benefits.{cancellation_refund}

abbrev pub status_after : Bool → OrderStatus
status_after full = if full then OrderStatus.refunded else OrderStatus.partially_refunded

module _ (sim : ReferenceSimulator) (s : SimulationState) where
  pub data Effect : SimulationState → Type 0 where
    user_created :
        (name : String) (balance : ℤ) (currency : Currency)
        → s.users ≡ []
        → pos 0 ≤ℤ balance
        → Effect (record s { users = new_user name balance currency ∷ [] })
    coupon_issued :
        (name owner : String) (face threshold : ℤ) (currency : Currency)
        → pos 0 <ℤ face
        → pos 0 ≤ℤ threshold
        → Effect
            (record s { coupons = s.coupons ++ new_coupon name owner face threshold currency ∷ [] })
    order_created :
        (name owner : String) (amount : ℤ) (currency : Currency)
        → has_user owner s.users ≡ true
        → pos 0 <ℤ amount
        → Effect (record s { orders = s.orders ++ new_order name owner amount currency ∷ [] })
    coupon_applied :
        (oi ci : ℕ) (order : SimOrder) (coupon : SimCoupon) (name : String) (holder : Option String)
        → get_elem? s.orders oi ≡ some order
        → get_elem? s.coupons ci ≡ some coupon
        → order.status ≡ OrderStatus.created
        → coupon.status ≡ CouponStatus.available
        → coupon.threshold ≤ℤ order.original_amount
        → Effect (record s {
          orders = set s.orders oi (record order {
            coupon_id = some name;
            discount_amount = min_ℤ coupon.face_value order.original_amount;
          });
          coupons =
              set s.coupons ci
                (record coupon { status = CouponStatus.reserved; reserved_order_id = holder });
        })
    order_paid :
        (oi ui : ℕ) (order : SimOrder) (user : SimUser) (coupons : List SimCoupon)
        (events : List SimEvent)
        → get_elem? s.orders oi ≡ some order
        → get_elem? s.users ui ≡ some user
        → order.status ≡ OrderStatus.created
        → order.original_amount -ℤ order.discount_amount ≤ℤ user.balance
        → use_coupon order s.coupons ≡ done (coupons, events)
        → Effect (record s {
          users = set s.users ui (record user {
            balance = user.balance -ℤ (order.original_amount -ℤ order.discount_amount);
            points_balance =
                user.points_balance
                +ℤ points_for sim.points (order.original_amount -ℤ order.discount_amount);
            is_new_user = false;
          });
          orders = set s.orders oi (record order {
            paid_amount = order.original_amount -ℤ order.discount_amount;
            points_granted = points_for sim.points (order.original_amount -ℤ order.discount_amount);
            status = OrderStatus.paid;
          });
          coupons = coupons;
        })
    order_refunded :
        (oi ui : ℕ) (order : SimOrder) (user user' : SimUser) (amount revoked : ℤ)
        (target : Option ℤ) (coupons : List SimCoupon) (revocation restored : List SimEvent)
        → get_elem? s.orders oi ≡ some order
        → get_elem? s.users ui ≡ some user
        → is_refundable order.status ≡ true
        → pos 0 <ℤ amount
        → order.refunded_amount +ℤ amount ≤ℤ order.paid_amount
        → refused_by_policy sim.refund order amount ≡ false
        → revoke_target sim.points order
            (order.refunded_amount +ℤ amount)
            (eqb_ℤ (order.refunded_amount +ℤ amount) order.paid_amount)
          ≡ done target
        → revoke_points target order (record user { balance = user.balance +ℤ amount })
          ≡ done (user', revocation)
        → revoked_after sim.points target order ≡ done revoked
        → restore_coupon sim.promotion
            (eqb_ℤ (order.refunded_amount +ℤ amount) order.paid_amount)
            order
            s.coupons
          ≡ done (coupons, restored)
        → Effect (record s {
          users = set s.users ui user';
          orders = set s.orders oi (record order {
            refunded_amount = order.refunded_amount +ℤ amount;
            points_revoked = revoked;
            refund_count = order.refund_count + 1;
            status = status_after (eqb_ℤ (order.refunded_amount +ℤ amount) order.paid_amount);
          });
          coupons = coupons;
        })
    points_redeemed :
        (user : SimUser) (amount : ℤ)
        → get_elem? s.users zero ≡ some user
        → pos 0 <ℤ amount
        → amount ≤ℤ user.points_balance
        → Effect (record s {
          users = set s.users zero (record user { points_balance = user.points_balance -ℤ amount });
        })
    membership_activated :
        (ui : ℕ) (user : SimUser) (rule : MembershipRule) (paid quantity : ℤ)
        → get_elem? s.users ui ≡ some user
        → s.memberships ≡ []
        → sim.membership ≡ some rule
        → IsCents paid
        → paid ≡ pos rule.price.amount
        → quantity ≡ pos rule.entitlement_quantity
        → paid ≤ℤ user.balance
        → Effect (record s {
          users = set s.users ui (record user {
            balance = user.balance -ℤ paid;
            membership_status = MembershipFlag.active;
          });
          memberships = new_membership "membership-1" user.user_id paid rule.price.currency ∷ [];
          entitlements = new_entitlement "entitlement-1" "membership-1" quantity ∷ [];
        })
    entitlement_consumed :
        (ei : ℕ) (entitlement : SimEntitlement) (quantity : ℤ)
        → get_elem? s.entitlements ei ≡ some entitlement
        → pos 0 <ℤ quantity
        → quantity ≤ℤ entitlement_available entitlement
        → Effect (record s {
          entitlements =
              set s.entitlements ei
                (record entitlement { consumed = entitlement.consumed +ℤ quantity });
        })
    membership_cancelled :
        (membership : SimMembership) (entitlement : SimEntitlement) (user : SimUser)
        (rule : MembershipRule) (refundable : Bool) (refund : ℤ)
        → get_elem? s.memberships zero ≡ some membership
        → get_elem? s.entitlements zero ≡ some entitlement
        → get_elem? s.users zero ≡ some user
        → sim.membership ≡ some rule
        → membership.status ≡ MembershipStatus.active
        → cancellation_refund rule.refund_policy refundable membership entitlement ≡ done refund
        → Effect (record s {
          users = set s.users zero (record user {
            balance = user.balance +ℤ refund;
            membership_status = MembershipFlag.inactive;
          });
          memberships = set s.memberships zero (record membership {
            status =
                if eqb_ℤ refund (pos 0)
                then MembershipStatus.cancelled
                else MembershipStatus.refunded;
            refunded_amount = refund;
          });
          entitlements = set s.entitlements zero (record entitlement {
            revoked = entitlement.revoked +ℤ entitlement_available entitlement;
          });
        })
