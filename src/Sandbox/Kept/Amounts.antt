-- ===== src/Sandbox/Kept/Amounts.antt =====
-- The rows that payments and refunds write are valid.
use rule_arena.Common.{ℕ, ◌+◌, ◌≡◌, refl, false, not, Bool-cases, inl, inr, arith}
use rule_arena.Common.Int.{
  ℤ, pos, negsuc, ◌+ℤ◌, ◌-ℤ◌, ◌≤ℤ◌, ◌<ℤ◌, ltb_ℤ, leb_ℤ, int_laws, ltb_ℤ→le, leb_ℤ→lt, parts_of_eq,
}
use rule_arena.Policy.{ScenarioType}
use rule_arena.Sandbox.Profile.{SandboxProfile}
use rule_arena.Sandbox.Models.{TestUser, Order, OrderStatus}
use rule_arena.Sandbox.Values.{whole_points}
use rule_arena.Sandbox.Orders.{is_pending}
use rule_arena.Sandbox.Payments.{grant_points, max_refund, refunded_order, is_refundable}
use rule_arena.Sandbox.Valid.{UserIsValid, OrderIsValid}

pub whole_points_sign : (a : ℤ) → pos 0 ≤ℤ a → pos 0 ≤ℤ whole_points a
unfolding whole_points
whole_points_sign (pos n) h = omega arith
whole_points_sign (negsuc n) h = absurd (omega (arith, h))

pub refundable_status_lem :
    (status : OrderStatus) → not (is_refundable status) ≡ false → is_pending status ≡ false
refundable_status_lem OrderStatus.draft h = refl
refundable_status_lem OrderStatus.pending_payment h = cc
refundable_status_lem OrderStatus.paid h = refl
refundable_status_lem OrderStatus.cancelled h = refl
refundable_status_lem OrderStatus.partially_refunded h = refl
refundable_status_lem OrderStatus.refunded h = refl

module _ (profile : SandboxProfile) where
  pub charged-UserIsValid :
      (user : TestUser) (paid : ℤ) (version : ℕ)
      → ltb_ℤ user.balance paid ≡ false
      → UserIsValid profile user
      → UserIsValid profile (record user { balance = user.balance -ℤ paid; version = version })
  charged-UserIsValid user paid version enough valid =
      let le = ltb_ℤ→le user.balance paid enough in
      record { balance = omega (int_laws, le); points = valid.points }

  pub credited-UserIsValid :
      (user : TestUser) (amount : ℤ) (version : ℕ)
      → pos 0 <ℤ amount
      → UserIsValid profile user
      → UserIsValid profile (record user { balance = user.balance +ℤ amount; version = version })
  credited-UserIsValid user amount version positive valid = record {
    balance = omega (int_laws, positive, valid.balance);
    points = valid.points;
  }

  pub rewarded-UserIsValid :
      (user : TestUser) (points : ℤ)
      → pos 0 ≤ℤ points
      → UserIsValid profile user
      → UserIsValid profile (record user { points_balance = user.points_balance +ℤ points })
  rewarded-UserIsValid user points positive valid = record {
    balance = valid.balance;
    points = λ axis. let le = valid.points axis in omega (int_laws, positive, le);
  }

  pub granted-UserIsValid :
      (scenario : ScenarioType) (user : TestUser) (order : Order) (points : ℤ)
      → pos 0 ≤ℤ points
      → UserIsValid profile user
      → UserIsValid profile (grant_points scenario user order points).0
  granted-UserIsValid ScenarioType.promotion user order points positive valid = valid
  granted-UserIsValid ScenarioType.refund_points user order points positive valid =
      rewarded-UserIsValid user points positive valid
  granted-UserIsValid ScenarioType.membership_entitlement user order points positive valid = valid

  module _ (scenario : ScenarioType) where
    pub granted-OrderIsValid :
        (by : ScenarioType) (user : TestUser) (order : Order) (points : ℤ)
        → OrderIsValid profile scenario order
        → OrderIsValid profile scenario (grant_points by user order points).1
    granted-OrderIsValid ScenarioType.promotion user order points valid = valid
    granted-OrderIsValid ScenarioType.refund_points user order points valid = record {
      amount = valid.amount;
      discount = valid.discount;
      capped = valid.capped;
      paid = valid.paid;
      paid_once = valid.paid_once;
      refunded = valid.refunded;
      unrefunded = valid.unrefunded;
      within = valid.within;
    }
    granted-OrderIsValid ScenarioType.membership_entitlement user order points valid = valid

    pub paid-OrderIsValid :
        (order : Order)
        → not (is_pending order.status) ≡ false
        → leb_ℤ (order.original_amount -ℤ order.discount_amount) (pos 0) ≡ false
        → OrderIsValid profile scenario order
        → OrderIsValid profile scenario (record order {
          paid_amount = order.original_amount -ℤ order.discount_amount;
          status = OrderStatus.paid;
          version = order.version + 1;
        })
    paid-OrderIsValid order pending some_left valid =
        let positive =
          leb_ℤ→lt (order.original_amount -ℤ order.discount_amount) (pos 0) some_left in
        let nothing = valid.unrefunded (ground (arith, pending)) in
        record {
          amount = valid.amount;
          discount = valid.discount;
          capped = valid.capped;
          paid = omega (int_laws, positive);
          paid_once = omega (int_laws, valid.discount);
          refunded = valid.refunded;
          unrefunded = λ e. cc;
          within = λ _. omega (int_laws, positive, parts_of_eq nothing);
        }

    pub refunded-OrderIsValid :
        (order : Order) (amount : ℤ)
        → pos 0 <ℤ amount
        → ltb_ℤ (max_refund profile scenario order) amount ≡ false
        → OrderIsValid profile scenario order
        → OrderIsValid profile scenario (refunded_order order amount)
    unfolding max_refund
    refunded-OrderIsValid order amount positive allowed valid = record {
      amount = valid.amount;
      discount = valid.discount;
      capped = valid.capped;
      paid = valid.paid;
      paid_once = valid.paid_once;
      refunded = omega (int_laws, positive, valid.refunded);
      unrefunded = elim (Bool-cases (leb_ℤ order.paid_amount (order.refunded_amount +ℤ amount))) [
        | inl e ↦ rw e (λ p. cc)
        | inr e ↦ rw e (λ p. cc)
      ];
      within = λ strict.
          let capped : ltb_ℤ (order.paid_amount -ℤ order.refunded_amount) amount ≡ false =
            rw strict at allowed in
          let le = ltb_ℤ→le (order.paid_amount -ℤ order.refunded_amount) amount capped in
          omega (int_laws, le);
    }
