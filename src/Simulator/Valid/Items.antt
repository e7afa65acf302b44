-- ===== src/Simulator/Valid/Items.antt =====
-- What the handlers' changes do to one order, user, coupon, membership or entitlement.
use rule_arena.Common.{
  ℕ, ◌+◌, ◌*◌, ◌/◌, ◌≤◌, ◌<◌, ◌≡◌, refl, sym, Bool, Option, none, some, List, String, All, All-set,
  All-get_elem?, locate_found, ◌&&◌, Bool-cases, inl, inr, arith,
}
use mathlib.Core.Path.{subst}
use rule_arena.Common.Int.{
  ℤ, pos, negsuc, ◌+ℤ◌, ◌-ℤ◌, ◌*ℤ◌, ◌≤ℤ◌, ◌<ℤ◌, eqb_ℤ, min_ℤ, int_laws, ltb_ℤ→le, max_ℤ, eqb_ℤ→eq,
  lt_of_eqb,
}
use rule_arena.Common.Outcome.{Returns, Returns-or_raise, Returns-done, Returns-reject_if}
use rule_arena.Simulator.Models.{SimUser, SimCoupon, SimOrder, OrderStatus, new_order}
use rule_arena.Simulator.Payment.{
  use_coupon, revoke_points, restore_coupon, mark_used, mark_available, restores,
}
use rule_arena.Common.Text.{truthy}
use rule_arena.Simulator.Valid.{CouponIsValid, OrderIsValid, StatusFits}
use rule_arena.Simulator.Effect.{status_after}
use rule_arena.Policy.{Currency, PromotionRule}
use rule_arena.Decimal.{cent}
use rule_arena.Simulator.Arithmetic.{rounded_quotient}

pub new_order-IsValid :
    (name owner : String) (amount : ℤ) (currency : Currency)
    → pos 0 <ℤ amount
    → OrderIsValid (new_order name owner amount currency)
new_order-IsValid name owner amount currency h = record {
  discounted = omega arith;
  discount_fits = omega arith;
  refund_nonneg = omega arith;
  refund_fits = omega arith;
  paid_fits = omega arith;
  status_fits = (refl, refl, refl);
}

-- An order that is not paid has no amounts.
pub created_amounts :
    (o : SimOrder)
    → OrderIsValid o
    → o.status ≡ OrderStatus.created
    → (o.paid_amount ≡ pos 0) × (o.refunded_amount ≡ pos 0) × (o.refund_count ≡ 0)
created_amounts o v created = subst (λ st. StatusFits st o) created v.status_fits

pub discounted-IsValid :
    (o : SimOrder) (name : Option String) (face : ℤ)
    → OrderIsValid o
    → o.status ≡ OrderStatus.created
    → pos 0 <ℤ face
    → OrderIsValid (record o { coupon_id = name; discount_amount = min_ℤ face o.original_amount })
discounted-IsValid o name face v created positive =
    let o' = record o { coupon_id = name; discount_amount = min_ℤ face o.original_amount } in
    let (unpaid, whole, fresh) = created_amounts o v created in
    record {
      discounted = ground arith;
      discount_fits = ground arith;
      refund_nonneg = v.refund_nonneg;
      refund_fits = v.refund_fits;
      paid_fits = v.paid_fits;
      status_fits = subst (λ st. StatusFits st o') (sym created) (unpaid, whole, fresh);
    }

pub paid-IsValid :
    (o : SimOrder) (granted : ℤ)
    → OrderIsValid o
    → o.status ≡ OrderStatus.created
    → OrderIsValid (record o {
      paid_amount = o.original_amount -ℤ o.discount_amount;
      points_granted = granted;
      status = OrderStatus.paid;
    })
paid-IsValid o granted v created =
    let (unpaid, whole, fresh) = created_amounts o v created in
    record {
      discounted = v.discounted;
      discount_fits = v.discount_fits;
      refund_nonneg = v.refund_nonneg;
      refund_fits = rw whole (omega (int_laws, v.discount_fits));
      paid_fits = omega (int_laws, v.discounted);
      status_fits = (whole, fresh);
    }

pub refunded-IsValid :
    (o : SimOrder) (amount revoked : ℤ)
    → OrderIsValid o
    → pos 0 <ℤ amount
    → o.refunded_amount +ℤ amount ≤ℤ o.paid_amount
    → OrderIsValid (record o {
      refunded_amount = o.refunded_amount +ℤ amount;
      points_revoked = revoked;
      refund_count = o.refund_count + 1;
      status = status_after (eqb_ℤ (o.refunded_amount +ℤ amount) o.paid_amount);
    })
refunded-IsValid o amount revoked v positive fits =
    let total = o.refunded_amount +ℤ amount in
    record {
      discounted = v.discounted;
      discount_fits = v.discount_fits;
      refund_nonneg = omega (int_laws, v.refund_nonneg);
      refund_fits = fits;
      paid_fits = v.paid_fits;
      status_fits = elim (Bool-cases (eqb_ℤ total o.paid_amount)) [
        | inl full ↦ rw full (omega (int_laws, v.refund_nonneg), eqb_ℤ→eq total o.paid_amount full)
        | inr part ↦
            rw part (omega (int_laws, v.refund_nonneg), lt_of_eqb total o.paid_amount part fits)
      ];
    }

pub All-use_coupon :
    (o : SimOrder) (cs : List SimCoupon)
    → All CouponIsValid cs
    → Returns (λ r. All CouponIsValid r.0) (use_coupon o cs)
unfolding use_coupon
All-use_coupon o cs valid = elim (Bool-cases (truthy o.coupon_id)) [
  | inl named ↦ rw named (
      unfold mark_used in
      Returns-or_raise _ _ _ λ c at_c.
        let v = All-get_elem? CouponIsValid cs c.0 valid (locate_found _ _ at_c).0 in
        Returns-done _
          (All-set CouponIsValid cs c.0 _ valid (record { face = v.face; floor = v.floor })))
  | inr bare ↦ rw bare (Returns-done _ valid)
]

pub All-restore_coupon :
    (promotion : Option PromotionRule) (full : Bool) (o : SimOrder) (cs : List SimCoupon)
    → All CouponIsValid cs
    → Returns (λ r. All CouponIsValid r.0) (restore_coupon promotion full o cs)
unfolding restore_coupon
All-restore_coupon promotion full o cs valid =
    elim (Bool-cases (full && truthy o.coupon_id && restores promotion)) [
      | inl back ↦ rw back (
          unfold mark_available in
          Returns-or_raise _ _ _ λ c at_c.
            let v = All-get_elem? CouponIsValid cs c.0 valid (locate_found _ _ at_c).0 in
            Returns-done _
              (All-set CouponIsValid cs c.0 _ valid (record { face = v.face; floor = v.floor })))
      | inr kept ↦ rw kept (Returns-done _ valid)
    ]

-- Taking points back leaves the balance alone and the points at or above zero.
pub record Revocation (u u' : SimUser) : Type 0 where
  pub balance : u'.balance ≡ u.balance
  pub name : u'.user_id ≡ u.user_id
  pub points : pos 0 ≤ℤ u.points_balance → pos 0 ≤ℤ u'.points_balance

pub revoke_points-Revocation :
    (target : Option ℤ) (o : SimOrder) (u : SimUser)
    → Returns (λ r. Revocation u r.0) (revoke_points target o u)
unfolding revoke_points
revoke_points-Revocation none o u =
    Returns-done _ (record { balance = refl; name = refl; points = λ h. h })
revoke_points-Revocation (some t) o u = Returns-reject_if _ _ _ λ enough.
    let left = ltb_ℤ→le u.points_balance (max_ℤ (t -ℤ o.points_revoked) (pos 0)) enough in
    Returns-done _ (record { balance = refl; name = refl; points = λ h. omega (int_laws, left) })

nearest_bound : (k a g : ℕ) → a ≤ g → 0 < g → (2 * (k * 100 * a) + g * 100) / (2 * (g * 100)) ≤ k
nearest_bound k a g h p = grind arith

-- The cents nearest to k cents times a/g are no more than k.
pub prorated_bound :
    (k : ℕ) (a g refund : ℤ)
    → pos 0 ≤ℤ a
    → a ≤ℤ g
    → rounded_quotient (pos (k * cent) *ℤ a) g ≡ some refund
    → (pos 0 ≤ℤ refund) × (refund ≤ℤ pos (k * cent))
unfolding rounded_quotient ◌*ℤ◌
prorated_bound k a (negsuc g) refund ha hg h = absurd (omega arith)
prorated_bound k (negsuc a) (pos g) refund ha hg h = absurd (omega arith)
prorated_bound k (pos a) (pos g) refund ha hg h = ground (arith, nearest_bound k a g)
