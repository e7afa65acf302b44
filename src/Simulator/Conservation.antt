-- ===== src/Simulator/Conservation.antt =====
-- Money is moved and never made: what the users hold, together with what their orders and
-- memberships have taken net of refunds, changes only when a user is created.
use rule_arena.Common.{zero, ◌≡◌, refl, ap, ◌≢◌, Bool-cases, inl, inr, [], All-get_elem?, ◌∙◌}
use mathlib.Core.Path.{subst}
use rule_arena.Common.Int.{ℤ, pos, ◌+ℤ◌, ◌-ℤ◌, int_laws, parts_of_eq}
use rule_arena.Common.Sums.{sum_by, sum_by-set_eq, sum_by-append_one}
use rule_arena.Common.Outcome.{ok}
use rule_arena.Common.Text.{truthy}
use rule_arena.Simulator.Models.{
  SimulationState, SimUser, SimOrder, SimMembership, SimAction, TransitionResult,
}
use rule_arena.Simulator.Rules.{ReferenceSimulator}
use rule_arena.Simulator.Transition.{transition, record_marker}
use rule_arena.Simulator.Effect.{Effect}
use rule_arena.Simulator.Valid.{IsValid, OrderIsValid, MembershipIsValid, MembershipFits}
use rule_arena.Simulator.Valid.Items.{created_amounts, revoke_points-Revocation}
use rule_arena.Simulator.Reach.{transition-Answer, unchanged, changed}

abbrev balance_of : SimUser → ℤ
balance_of u = u.balance

-- What an order or a membership has taken and kept.
abbrev order_net : SimOrder → ℤ
order_net o = o.paid_amount -ℤ o.refunded_amount

abbrev membership_net : SimMembership → ℤ
membership_net m = m.paid_amount -ℤ m.refunded_amount

pub funds : SimulationState → ℤ
funds s =
    sum_by balance_of s.users +ℤ sum_by order_net s.orders +ℤ sum_by membership_net s.memberships

module _ (sim : ReferenceSimulator) (s : SimulationState) where
  Effect-funds :
      {t : SimulationState} → IsValid s → s.users ≢ [] → Effect sim s t → funds t ≡ funds s
  unfolding funds
  Effect-funds v some_user (Effect.user_created name balance currency fresh enough) =
      absurd (some_user fresh)
  Effect-funds v some_user
        (Effect.coupon_issued name owner face threshold currency positive floor) =
      refl
  Effect-funds v some_user (Effect.order_created name owner amount currency known positive) =
      rw sum_by-append_one (omega int_laws)
  Effect-funds v some_user
        (Effect.coupon_applied oi ci o c name holder at_o at_c created available fits) =
      rw (sum_by-set_eq, at_o) (omega int_laws)
  Effect-funds v some_user
        (Effect.order_paid oi ui o u coupons events at_o at_u created enough used) =
      let vo = All-get_elem? OrderIsValid _ oi v.orders at_o in
      let (unpaid, whole, fresh) = created_amounts o vo created in
      rw (sum_by-set_eq, at_u, sum_by-set_eq, at_o)
        (omega (int_laws, parts_of_eq unpaid, parts_of_eq whole))
  Effect-funds v some_user
        (Effect.order_refunded oi ui o u u' amount revoked target coupons revocation restored at_o
          at_u open_status positive fits policy t r rv c) =
      let moved =
        (revoke_points-Revocation target o (record u { balance = u.balance +ℤ amount })).at _ r in
      rw (sum_by-set_eq, at_u, sum_by-set_eq, at_o, moved.balance) (omega int_laws)
  Effect-funds v some_user (Effect.points_redeemed u amount at_u positive enough) =
      rw (sum_by-set_eq, at_u) (omega int_laws)
  Effect-funds v some_user
        (Effect.membership_activated ui u rule paid quantity at_u fresh member whole price granted
          enough) =
      rw (fresh, sum_by-set_eq, at_u) (omega int_laws)
  Effect-funds v some_user (Effect.entitlement_consumed ei e quantity at_e positive enough) = refl
  Effect-funds v some_user
        (Effect.membership_cancelled m e u rule refundable refund at_m at_e at_u member active
          paid_back) =
      let vm = All-get_elem? MembershipIsValid _ zero v.memberships at_m in
      let kept : m.refunded_amount ≡ pos 0 =
        subst (λ st. MembershipFits st m) active vm.status_fits in
      rw (sum_by-set_eq, at_u, sum_by-set_eq, at_m) (omega (int_laws, parts_of_eq kept))

record_marker-funds : (a : SimAction) (u : SimulationState) → funds (record_marker a u) ≡ funds u
unfolding record_marker funds
record_marker-funds a u = elim (Bool-cases (truthy a.idempotency_key)) [
  | inl keyed ↦ rw keyed
  | inr plain ↦ rw plain
]

-- On a well-formed state that has a user, a call of `transition` keeps the funds: a payment, a
-- refund, a membership or a cancellation takes from the one exactly what it gives the other.
pub transition-funds :
    (sim : ReferenceSimulator) (s : SimulationState) (a : SimAction) {t : TransitionResult}
    → IsValid s
    → s.users ≢ []
    → transition sim s a ≡ ok t
    → funds t.state ≡ funds s
transition-funds sim s a v some_user h = elim (transition-Answer sim s a h) [
  | unchanged same _ _ ↦ ap funds same
  | changed u effect e _ ↦
      ap funds e ∙ record_marker-funds a u ∙ Effect-funds sim s v some_user effect
]
