-- ===== src/Simulator/Valid/Steps.antt =====
-- Every effect keeps a state well formed.
use rule_arena.Common.{
  ℕ, zero, ◌*◌, ◌≡◌, refl, Bool, true, false, Bool-cases, inl, inr, some, All-set, All-append,
  All-get_elem?, String, arith, if◌then◌else◌,
}
use mathlib.Core.Path.{subst}
use rule_arena.Common.Int.{ℤ, pos, ◌+ℤ◌, ◌-ℤ◌, ◌*ℤ◌, ◌≤ℤ◌, ◌<ℤ◌, eqb_ℤ, eqb_ℤ→eq, int_laws}
use rule_arena.Common.Outcome.{done, or_raise-eq-done}
use rule_arena.Decimal.{cent}
use rule_arena.Decimal.Quantize.{cents_nonneg}
use rule_arena.Policy.{RefundPolicy}
use rule_arena.Simulator.Models.{
  SimulationState, SimMembership, SimEntitlement, MembershipStatus, entitlement_available,
  new_entitlement,
}
use rule_arena.Simulator.Rules.{ReferenceSimulator}
use rule_arena.Simulator.Arithmetic.{points_for, whole_quotient, rounded_quotient}
use rule_arena.Simulator.Benefits.{cancellation_refund}
use rule_arena.Simulator.Effect.{Effect}
use rule_arena.Simulator.Valid.{
  UserIsValid, CouponIsValid, OrderIsValid, EntitlementIsValid, MembershipIsValid, IsValid,
}
use rule_arena.Simulator.Valid.Items.{
  new_order-IsValid, discounted-IsValid, paid-IsValid, refunded-IsValid, All-use_coupon,
  All-restore_coupon, revoke_points-Revocation, prorated_bound,
}

available-le : (e : SimEntitlement) → EntitlementIsValid e → entitlement_available e ≤ℤ e.granted
unfolding entitlement_available
available-le e v = omega (int_laws, v.consumed, v.revoked)

-- An entitlement that was just granted is whole, one that is consumed within what is left of it
-- keeps the rest, and one that is revoked has nothing left.
new_entitlement-IsValid :
    (name owner : String) (n : ℕ) → EntitlementIsValid (new_entitlement name owner (pos n))
unfolding entitlement_available
new_entitlement-IsValid name owner n = record {
  consumed = omega arith;
  revoked = omega arith;
  left = omega int_laws;
}

consumed-IsValid :
    (e : SimEntitlement) (quantity : ℤ)
    → EntitlementIsValid e
    → pos 0 <ℤ quantity
    → quantity ≤ℤ entitlement_available e
    → EntitlementIsValid (record e { consumed = e.consumed +ℤ quantity })
unfolding entitlement_available
consumed-IsValid e quantity v positive enough = record {
  consumed = omega (int_laws, v.consumed);
  revoked = v.revoked;
  left = omega int_laws;
}

revoked-IsValid :
    (e : SimEntitlement)
    → EntitlementIsValid e
    → EntitlementIsValid (record e { revoked = e.revoked +ℤ entitlement_available e })
unfolding entitlement_available
revoked-IsValid e v = record {
  consumed = v.consumed;
  revoked = omega (int_laws, v.revoked, v.left);
  left = omega int_laws;
}

cancelled-IsValid :
    (m : SimMembership) (refund : ℤ)
    → MembershipIsValid m
    → pos 0 ≤ℤ refund
    → refund ≤ℤ m.paid_amount
    → MembershipIsValid (record m {
      status =
          if eqb_ℤ refund (pos 0) then MembershipStatus.cancelled else MembershipStatus.refunded;
      refunded_amount = refund;
    })
cancelled-IsValid m refund v low high = record {
  paid = v.paid;
  cents = v.cents;
  refund_nonneg = low;
  refund_fits = high;
  status_fits = elim (Bool-cases (eqb_ℤ refund (pos 0))) [
    | inl nothing ↦ rw nothing (eqb_ℤ→eq refund (pos 0) nothing)
    | inr something ↦ rw something tt
  ];
}

-- A cancellation pays back something between nothing and what was paid.
pub cancellation_bounds :
    (policy : RefundPolicy) (refundable : Bool) (m : SimMembership) (e : SimEntitlement)
    (refund : ℤ)
    → MembershipIsValid m
    → EntitlementIsValid e
    → cancellation_refund policy refundable m e ≡ done refund
    → (pos 0 ≤ℤ refund) × (refund ≤ℤ m.paid_amount)
unfolding cancellation_refund
cancellation_bounds RefundPolicy.prorated true m e refund vm ve h =
    let (k, whole) = cents_nonneg vm.cents vm.paid in
    let paid_back : rounded_quotient (pos (k * cent) *ℤ entitlement_available e) e.granted
        ≡ some refund =
      subst (λ p. rounded_quotient (p *ℤ entitlement_available e) e.granted ≡ some refund) whole
        (or_raise-eq-done _ _ h) in
    rw whole (
      prorated_bound k (entitlement_available e) e.granted refund ve.left (available-le e ve)
        paid_back)
cancellation_bounds RefundPolicy.prorated false m e refund vm ve h = ground (arith, vm.paid)
cancellation_bounds RefundPolicy.non_refundable b m e refund vm ve h = ground (arith, vm.paid)
cancellation_bounds RefundPolicy.unused_only b m e refund vm ve h = ground (arith, vm.paid)

points_for_nonneg :
    (sim : ReferenceSimulator) (amount : ℤ)
    → pos 0 ≤ℤ amount
    → pos 0 ≤ℤ points_for sim.points amount
unfolding points_for whole_quotient ◌*ℤ◌
points_for_nonneg sim amount h = ground arith

module _ (sim : ReferenceSimulator) (s : SimulationState) where
  pub Effect-IsValid : {t : SimulationState} → IsValid s → Effect sim s t → IsValid t
  Effect-IsValid v (Effect.user_created name balance currency fresh enough) = record {
    users = (record { solvent = enough; points = omega arith }, tt);
    coupons = v.coupons;
    orders = v.orders;
    memberships = v.memberships;
    entitlements = v.entitlements;
  }
  Effect-IsValid v (Effect.coupon_issued name owner face threshold currency positive floor) =
      record {
        users = v.users;
        coupons =
            All-append CouponIsValid _ _ v.coupons (record { face = positive; floor = floor }, tt);
        orders = v.orders;
        memberships = v.memberships;
        entitlements = v.entitlements;
      }
  Effect-IsValid v (Effect.order_created name owner amount currency known positive) = record {
    users = v.users;
    coupons = v.coupons;
    orders =
        All-append OrderIsValid _ _ v.orders
          (new_order-IsValid name owner amount currency positive, tt);
    memberships = v.memberships;
    entitlements = v.entitlements;
  }
  Effect-IsValid v (Effect.coupon_applied oi ci o c name holder at_o at_c created available fits) =
      let vo = All-get_elem? OrderIsValid _ oi v.orders at_o in
      let vc = All-get_elem? CouponIsValid _ ci v.coupons at_c in
      record {
        users = v.users;
        coupons =
            All-set CouponIsValid _ ci _ v.coupons (record { face = vc.face; floor = vc.floor });
        orders =
            All-set OrderIsValid _ oi _ v.orders
              (discounted-IsValid o (some name) c.face_value vo created vc.face);
        memberships = v.memberships;
        entitlements = v.entitlements;
      }
  Effect-IsValid v (Effect.order_paid oi ui o u coupons events at_o at_u created enough used) =
      let vo = All-get_elem? OrderIsValid _ oi v.orders at_o in
      let vu = All-get_elem? UserIsValid _ ui v.users at_u in
      let due = o.original_amount -ℤ o.discount_amount in
      let gain = points_for_nonneg sim due (omega (int_laws, vo.discount_fits)) in
      record {
        users = All-set UserIsValid _ ui _ v.users (record {
          solvent = omega (int_laws, enough);
          points = omega (int_laws, vu.points, gain);
        });
        coupons = (All-use_coupon o s.coupons v.coupons).at _ used;
        orders =
            All-set OrderIsValid _ oi _ v.orders
              (paid-IsValid o (points_for sim.points due) vo created);
        memberships = v.memberships;
        entitlements = v.entitlements;
      }
  Effect-IsValid v
        (Effect.order_refunded oi ui o u u' amount revoked target coupons revocation restored at_o
          at_u open_status positive fits policy t r rv c) =
      let vo = All-get_elem? OrderIsValid _ oi v.orders at_o in
      let vu = All-get_elem? UserIsValid _ ui v.users at_u in
      let moved =
        (revoke_points-Revocation target o (record u { balance = u.balance +ℤ amount })).at _ r in
      record {
        users = All-set UserIsValid _ ui _ v.users (record {
          solvent = rw moved.balance (omega (int_laws, vu.solvent));
          points = moved.points vu.points;
        });
        coupons = (All-restore_coupon sim.promotion _ o s.coupons v.coupons).at _ c;
        orders =
            All-set OrderIsValid _ oi _ v.orders
              (refunded-IsValid o amount revoked vo positive fits);
        memberships = v.memberships;
        entitlements = v.entitlements;
      }
  Effect-IsValid v (Effect.points_redeemed u amount at_u positive enough) =
      let vu = All-get_elem? UserIsValid _ zero v.users at_u in
      record {
        users =
            All-set UserIsValid _ zero _ v.users
              (record { solvent = vu.solvent; points = omega (int_laws, enough) });
        coupons = v.coupons;
        orders = v.orders;
        memberships = v.memberships;
        entitlements = v.entitlements;
      }
  Effect-IsValid v
        (Effect.membership_activated ui u rule paid quantity at_u fresh member whole price granted
          enough) =
      let vu = All-get_elem? UserIsValid _ ui v.users at_u in
      record {
        users =
            All-set UserIsValid _ ui _ v.users
              (record { solvent = omega (int_laws, enough); points = vu.points });
        coupons = v.coupons;
        orders = v.orders;
        memberships = (
          record {
            paid = rw price (omega arith);
            cents = whole;
            refund_nonneg = omega arith;
            refund_fits = rw price (omega arith);
            status_fits = refl;
          },
          tt,
        );
        entitlements = (rw granted (new_entitlement-IsValid _ _ _), tt);
      }
  Effect-IsValid v (Effect.entitlement_consumed ei e quantity at_e positive enough) =
      let ve = All-get_elem? EntitlementIsValid _ ei v.entitlements at_e in
      record {
        users = v.users;
        coupons = v.coupons;
        orders = v.orders;
        memberships = v.memberships;
        entitlements =
            All-set EntitlementIsValid _ ei _ v.entitlements
              (consumed-IsValid e quantity ve positive enough);
      }
  Effect-IsValid v
        (Effect.membership_cancelled m e u rule refundable refund at_m at_e at_u member active
          paid_back) =
      let vm = All-get_elem? MembershipIsValid _ zero v.memberships at_m in
      let ve = All-get_elem? EntitlementIsValid _ zero v.entitlements at_e in
      let vu = All-get_elem? UserIsValid _ zero v.users at_u in
      let (low, high) =
        cancellation_bounds rule.refund_policy refundable m e refund vm ve paid_back in
      record {
        users =
            All-set UserIsValid _ zero _ v.users
              (record { solvent = omega (int_laws, vu.solvent, low); points = vu.points });
        coupons = v.coupons;
        orders = v.orders;
        memberships =
            All-set MembershipIsValid _ zero _ v.memberships
              (cancelled-IsValid m refund vm low high);
        entitlements = All-set EntitlementIsValid _ zero _ v.entitlements (revoked-IsValid e ve);
      }
