-- ===== src/Sandbox/Valid.antt =====
-- What holds of the rows of a run of the commerce sandbox, each law with the defect that lifts it.
use rule_arena.Common.{ℕ, ◌+◌, ◌≤◌, ◌≡◌, true, false, ◌&&◌, List, [], ◌∷◌, All, length}
use rule_arena.Common.Int.{pos, ◌+ℤ◌, ◌≤ℤ◌, ◌<ℤ◌}
use rule_arena.Policy.{ScenarioType}
use rule_arena.Sandbox.Profile.{SandboxProfile, DefectAxis, exhibits}
use rule_arena.Sandbox.Models.{
  TestUser, Coupon, Order, Refund, Membership, Entitlement, BusinessEvent, RunSpace,
}
use rule_arena.Sandbox.Rows.{last_sequence}
use rule_arena.Sandbox.Orders.{is_pending}
use rule_arena.Sandbox.Payments.{is_promotion}
use rule_arena.Sandbox.Execute.{profile_of}
use rule_arena.Sandbox.Runs.{events_of}

module _ (profile : SandboxProfile) where
  -- Redeemed points were there, unless points can be redeemed twice.
  pub record UserIsValid (user : TestUser) : Type 0 where
    pub balance : pos 0 ≤ℤ user.balance
    pub points :
        exhibits profile DefectAxis.points_overredemption ≡ false → pos 0 ≤ℤ user.points_balance

  -- No more is refunded than was paid, unless a promotion measures a refund by the payment alone.
  pub record OrderIsValid (scenario : ScenarioType) (order : Order) : Type 0 where
    pub amount : pos 0 <ℤ order.original_amount
    pub discount : pos 0 ≤ℤ order.discount_amount
    pub capped : order.discount_amount ≤ℤ order.original_amount
    pub paid : pos 0 ≤ℤ order.paid_amount
    pub paid_once : order.paid_amount ≤ℤ order.original_amount
    pub refunded : pos 0 ≤ℤ order.refunded_amount
    pub unrefunded : is_pending order.status ≡ true → order.refunded_amount ≡ pos 0
    pub within :
        (exhibits profile DefectAxis.refund_against_original && is_promotion scenario) ≡ false
        → order.refunded_amount ≤ℤ order.paid_amount

  -- No more is consumed and revoked than was granted, unless an entitlement can be consumed twice.
  pub record EntitlementIsValid (entitlement : Entitlement) : Type 0 where
    pub granted : pos 0 <ℤ entitlement.granted_quantity
    pub consumed : pos 0 ≤ℤ entitlement.consumed_quantity
    pub revoked : pos 0 ≤ℤ entitlement.revoked_quantity
    pub within :
        exhibits profile DefectAxis.entitlement_overconsumption ≡ false
        → entitlement.consumed_quantity +ℤ entitlement.revoked_quantity
          ≤ℤ entitlement.granted_quantity

pub record CouponIsValid (coupon : Coupon) : Type 0 where
  pub value : pos 0 <ℤ coupon.face_value
  pub threshold : pos 0 ≤ℤ coupon.threshold

abbrev pub RefundIsValid : Refund → Type 0
RefundIsValid refund = pos 0 <ℤ refund.amount

abbrev pub MembershipIsValid : Membership → Type 0
MembershipIsValid membership = pos 0 <ℤ membership.paid_amount

-- The numbers from a number on.
abbrev pub IsCounting : ℕ → List BusinessEvent → Type 0
IsCounting n [] = Unit
IsCounting n (event ∷ events) = (event.sequence ≡ n) × IsCounting (n + 1) events

-- The events of the epoch are numbered from 1 on, and no event is of a later epoch.
pub record EventsAreNumbered (epoch : ℕ) (events : List BusinessEvent) : Type 0 where
  pub counted : IsCounting 1 (events_of epoch events)
  pub last : last_sequence epoch events ≡ length (events_of epoch events)
  pub past : All (λ event. event.epoch ≤ epoch) events

abbrev pub RowsAreValid : SandboxProfile → ScenarioType → RunSpace → Type 0
RowsAreValid profile scenario run =
    All (UserIsValid profile) run.users
    × All CouponIsValid run.coupons
    × All (OrderIsValid profile scenario) run.orders
    × All RefundIsValid run.refunds
    × All MembershipIsValid run.memberships
    × All (EntitlementIsValid profile) run.entitlements
    × EventsAreNumbered run.epoch run.events

-- The run is well formed for the defects that it exhibits.
abbrev pub RunIsValid : RunSpace → Type 0
RunIsValid run = RowsAreValid (profile_of run) run.scenario_type run
