-- ===== src/Simulator/Valid.antt =====
-- The well-formedness of a simulated state: what holds of every record in it.
pub mod Items
pub mod Steps
use rule_arena.Common.{ℕ, ◌≡◌, All}
use rule_arena.Common.Int.{ℤ, pos, ◌≤ℤ◌, ◌<ℤ◌}
use rule_arena.Decimal.Quantize.{IsCents}
use rule_arena.Simulator.Models.{
  SimulationState, SimUser, SimCoupon, SimOrder, SimMembership, SimEntitlement, OrderStatus,
  MembershipStatus, entitlement_available,
}

-- No user owes money or points.
pub record UserIsValid (u : SimUser) : Type 0 where
  pub solvent : pos 0 ≤ℤ u.balance
  pub points : pos 0 ≤ℤ u.points_balance

pub record CouponIsValid (c : SimCoupon) : Type 0 where
  pub face : pos 0 <ℤ c.face_value
  pub floor : pos 0 ≤ℤ c.threshold

-- What an order's status says of its amounts.
abbrev pub StatusFits : OrderStatus → SimOrder → Type 0
StatusFits OrderStatus.created o =
    (o.paid_amount ≡ pos 0) × (o.refunded_amount ≡ pos 0) × (o.refund_count ≡ 0)
StatusFits OrderStatus.paid o = (o.refunded_amount ≡ pos 0) × (o.refund_count ≡ 0)
StatusFits OrderStatus.partially_refunded o =
    (pos 0 <ℤ o.refunded_amount) × (o.refunded_amount <ℤ o.paid_amount)
StatusFits OrderStatus.refunded o =
    (pos 0 <ℤ o.refunded_amount) × (o.refunded_amount ≡ o.paid_amount)

pub record OrderIsValid (o : SimOrder) : Type 0 where
  pub discounted : pos 0 ≤ℤ o.discount_amount
  pub discount_fits : o.discount_amount ≤ℤ o.original_amount
  pub refund_nonneg : pos 0 ≤ℤ o.refunded_amount
  pub refund_fits : o.refunded_amount ≤ℤ o.paid_amount
  pub paid_fits : o.paid_amount ≤ℤ o.original_amount
  pub status_fits : StatusFits o.status o

-- An entitlement's parts are quantities, and what is left of it is not negative.
pub record EntitlementIsValid (e : SimEntitlement) : Type 0 where
  pub consumed : pos 0 ≤ℤ e.consumed
  pub revoked : pos 0 ≤ℤ e.revoked
  pub left : pos 0 ≤ℤ entitlement_available e

abbrev pub MembershipFits : MembershipStatus → SimMembership → Type 0
MembershipFits MembershipStatus.active m = m.refunded_amount ≡ pos 0
MembershipFits MembershipStatus.cancelled m = m.refunded_amount ≡ pos 0
MembershipFits MembershipStatus.refunded m = Unit

pub record MembershipIsValid (m : SimMembership) : Type 0 where
  pub paid : pos 0 ≤ℤ m.paid_amount
  pub cents : IsCents m.paid_amount
  pub refund_nonneg : pos 0 ≤ℤ m.refunded_amount
  pub refund_fits : m.refunded_amount ≤ℤ m.paid_amount
  pub status_fits : MembershipFits m.status m

pub record IsValid (s : SimulationState) : Type 0 where
  pub users : All UserIsValid s.users
  pub coupons : All CouponIsValid s.coupons
  pub orders : All OrderIsValid s.orders
  pub memberships : All MembershipIsValid s.memberships
  pub entitlements : All EntitlementIsValid s.entitlements
