-- ===== src/Simulator/Reach.antt =====
-- What one call of `transition` does, and the states that calls can reach.
use rule_arena.Common.{◌≡◌, refl, sym, ap, ◌∙◌, inl, inr, true, not, Bool-cases, Option, []}
use rule_arena.Common.Outcome.{Outcome, Exc, done, reject, raise, ok, err, Returns}
use rule_arena.Common.Text.{truthy}
use rule_arena.Simulator.Models.{
  SimulationState, SimAction, ActionType, TransitionResult, TransitionStatus, Code,
}
use rule_arena.Simulator.Rules.{ReferenceSimulator, Applied, initial_state}
use rule_arena.Simulator.Transition.{
  transition, conclude, run_handler, handler_of, already_seen, record_marker, supports, is_caught,
  without_effect,
}
use rule_arena.Simulator.Effect.{Effect}
use rule_arena.Simulator.Effect.Sound.{
  do_create_user-Effect, do_issue_coupon-Effect, do_create_order-Effect, do_apply_coupon-Effect,
  do_pay_order-Effect, do_refund_order-Effect, do_redeem_points-Effect,
  do_activate_membership-Effect, do_consume_entitlement-Effect, do_cancel_membership-Effect,
}
use rule_arena.Simulator.Valid.{IsValid}
use rule_arena.Simulator.Valid.Steps.{Effect-IsValid}

-- A call changes nothing and reports no event (and says "applied" only of a key that was seen), or it applies one effect and records the marker.
pub data Answer (sim : ReferenceSimulator) (s : SimulationState) (a : SimAction)
    (t : TransitionResult) : Type 0 where
  unchanged :
      t.state ≡ s
      → t.events ≡ []
      → (t.status ≡ TransitionStatus.applied → already_seen s a ≡ true)
      → Answer sim s a t
  changed :
      (u : SimulationState)
      → Effect sim s u
      → t.state ≡ record_marker a u
      → t.status ≡ TransitionStatus.applied
      → Answer sim s a t

module _ (sim : ReferenceSimulator) (s : SimulationState) (a : SimAction)
    {t : TransitionResult} where
  ok-injective : (r : TransitionResult) → ok r ≡ ok t → r ≡ t
  ok-injective r h = cc

  err≢ok : (e : Exc) → err e ≡ ok t → ⊥
  err≢ok e h = cc

  untouched :
      (status : TransitionStatus) (code : Option Code)
      → (status ≡ TransitionStatus.applied → already_seen s a ≡ true)
      → ok (without_effect status s code) ≡ ok t
      → Answer sim s a t
  untouched status code seen h =
      let e = ok-injective (without_effect status s code) h in
      unchanged (ap (λ r. r.state) (sym e)) (ap (λ r. r.events) (sym e))
        (λ applied. seen (ap (λ r. r.status) e ∙ applied))

  concluded :
      (m : Outcome Code Applied)
      → Returns (λ r. Effect sim s r.state) m
      → conclude s a m ≡ ok t
      → Answer sim s a t
  unfolding conclude
  concluded (done r) effect h =
      let e = ok-injective _ h in
      changed r.state (effect.at r refl) (ap (λ x. x.state) (sym e)) (ap (λ x. x.status) (sym e))
  concluded (reject c) effect h = untouched _ _ (λ e. cc) h
  concluded (raise e) effect h = elim (Bool-cases (is_caught e)) [
    | inl caught ↦ untouched _ _ (λ e. cc) (rw caught at h)
    | inr passed ↦ absurd (err≢ok e (rw passed at h))
  ]

  answered : (k : ActionType) → run_handler sim s a (handler_of k) ≡ ok t → Answer sim s a t
  unfolding handler_of
  answered ActionType.create_user h = concluded _ (do_create_user-Effect sim s a) h
  answered ActionType.issue_coupon h = concluded _ (do_issue_coupon-Effect sim s a) h
  answered ActionType.create_order h = concluded _ (do_create_order-Effect sim s a) h
  answered ActionType.apply_coupon h = concluded _ (do_apply_coupon-Effect sim s a) h
  answered ActionType.pay_order h = concluded _ (do_pay_order-Effect sim s a) h
  answered ActionType.refund_order h = concluded _ (do_refund_order-Effect sim s a) h
  answered ActionType.redeem_points h = concluded _ (do_redeem_points-Effect sim s a) h
  answered ActionType.activate_membership h = concluded _ (do_activate_membership-Effect sim s a) h
  answered ActionType.consume_entitlement h = concluded _ (do_consume_entitlement-Effect sim s a) h
  answered ActionType.cancel_membership h = concluded _ (do_cancel_membership-Effect sim s a) h
  answered ActionType.cancel_order h = untouched _ _ (λ e. cc) h
  answered ActionType.inspect_state h = untouched _ _ (λ e. cc) h

  pub transition-Answer : transition sim s a ≡ ok t → Answer sim s a t
  unfolding transition
  transition-Answer h = elim (Bool-cases (not (supports s.scenario_type a.action_type))) [
    | inl foreign ↦ untouched _ _ (λ e. cc) (rw foreign at h)
    | inr supported ↦ elim (Bool-cases (already_seen s a)) [
      | inl seen ↦ untouched _ _ (λ _. seen) (rw (supported, seen) at h)
      | inr fresh ↦ answered a.action_type (rw (supported, fresh) at h)
    ]
  ]

-- The states that a run of applied actions can come to, from the initial state on.
pub data Reach (sim : ReferenceSimulator) : SimulationState → Type 0 where
  start : Reach sim (initial_state sim)
  step :
      {s : SimulationState} (a : SimAction) (t : TransitionResult)
      → Reach sim s
      → transition sim s a ≡ ok t
      → Reach sim t.state

record_marker-IsValid :
    (a : SimAction) (u : SimulationState) → IsValid u → IsValid (record_marker a u)
unfolding record_marker
record_marker-IsValid a u v = elim (Bool-cases (truthy a.idempotency_key)) [
  | inl keyed ↦ rw keyed (record {
    users = v.users;
    coupons = v.coupons;
    orders = v.orders;
    memberships = v.memberships;
    entitlements = v.entitlements;
  })
  | inr plain ↦ rw plain v
]

-- A call of `transition` on a well-formed state, whatever the action and whether it is applied,
-- rejected or unsupported, gives back a well-formed state.
pub transition-IsValid :
    (sim : ReferenceSimulator) (s : SimulationState) (a : SimAction) {t : TransitionResult}
    → IsValid s
    → transition sim s a ≡ ok t
    → IsValid t.state
transition-IsValid sim s a v h = elim (transition-Answer sim s a h) [
  | unchanged same _ _ ↦ rw same v
  | changed u effect e _ ↦ rw e (record_marker-IsValid a u (Effect-IsValid sim s v effect))
]

-- Every state that the simulator reaches is well formed: no balance, points balance or entitlement
-- is negative, no order is refunded beyond what was paid or paid beyond its amount, and each status
-- agrees with the amounts.
pub Reach-IsValid : (sim : ReferenceSimulator) {s : SimulationState} → Reach sim s → IsValid s
Reach-IsValid sim start = record {
  users = tt;
  coupons = tt;
  orders = tt;
  memberships = tt;
  entitlements = tt;
}
Reach-IsValid sim (step {s} a t r h) = transition-IsValid sim s a (Reach-IsValid sim r) h
