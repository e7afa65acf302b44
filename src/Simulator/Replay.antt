-- ===== src/Simulator/Replay.antt =====
-- Idempotency keys: an action that was applied under a key is not applied a second time.
use rule_arena.Common.{◌≡◌, refl, ap, ◌∙◌, true, Bool-cases, inl, inr, Option, none, arith}
use text.Mathlib.TextPositions.{eq_refl}
use rule_arena.Common.Outcome.{ok}
use rule_arena.Common.Text.{truthy}
use rule_arena.Simulator.Models.{
  SimulationState, SimAction, TransitionResult, TransitionStatus, Code,
}
use rule_arena.Simulator.Rules.{ReferenceSimulator}
use rule_arena.Simulator.Transition.{
  transition, already_seen, record_marker, supports, without_effect,
}
use rule_arena.Simulator.Effect.{Effect}
use rule_arena.Simulator.Reach.{Answer, transition-Answer, unchanged, changed}

module _ (sim : ReferenceSimulator) (s : SimulationState) where
  scenario_type-Effect : {t : SimulationState} → Effect sim s t → t.scenario_type ≡ s.scenario_type
  scenario_type-Effect (Effect.user_created _ _ _ _ _) = refl
  scenario_type-Effect _ = refl

record_marker_seen :
    (a : SimAction) (u : SimulationState)
    → truthy a.idempotency_key ≡ true
    → already_seen (record_marker a u) a ≡ true
unfolding already_seen record_marker
record_marker_seen a u keyed = rw keyed (simp eq_refl)

scenario_type-record_marker :
    (a : SimAction) (u : SimulationState) → (record_marker a u).scenario_type ≡ u.scenario_type
unfolding record_marker
scenario_type-record_marker a u = elim (Bool-cases (truthy a.idempotency_key)) [
  | inl keyed ↦ rw keyed
  | inr plain ↦ rw plain
]

module _ (sim : ReferenceSimulator) (s : SimulationState) (a : SimAction)
    {t : TransitionResult} where
  unsupported≢applied :
      (c : Option Code)
      → ok (without_effect TransitionStatus.unsupported s c) ≡ ok t
      → ¬ (t.status ≡ TransitionStatus.applied)
  unsupported≢applied c h e = ground arith

  applied_supported :
      transition sim s a ≡ ok t
      → t.status ≡ TransitionStatus.applied
      → supports s.scenario_type a.action_type ≡ true
  unfolding transition
  applied_supported h applied = elim (Bool-cases (supports s.scenario_type a.action_type)) [
    | inl e ↦ e
    | inr e ↦ absurd (unsupported≢applied _ (rw e at h) applied)
  ]

  answer_kept :
      Answer sim s a t
      → truthy a.idempotency_key ≡ true
      → t.status ≡ TransitionStatus.applied
      → (t.state.scenario_type ≡ s.scenario_type) × (already_seen t.state a ≡ true)
  answer_kept (unchanged same _ seen) keyed applied =
      (ap (λ u. u.scenario_type) same, rw same (seen applied))
  answer_kept (changed u effect e _) keyed applied = (
    ap (λ v. v.scenario_type) e
        ∙ scenario_type-record_marker a u
        ∙ scenario_type-Effect sim s effect,
    rw e (record_marker_seen a u keyed),
  )

  -- Once a keyed action has been applied, the same action on the state that it led to is answered
  -- "applied" again, with no event, and the state stays as it is.
  pub transition_replay :
      transition sim s a ≡ ok t
      → t.status ≡ TransitionStatus.applied
      → truthy a.idempotency_key ≡ true
      → transition sim t.state a ≡ ok (without_effect TransitionStatus.applied t.state none)
  unfolding transition
  transition_replay h applied keyed =
      let (same_scenario, seen) = answer_kept (transition-Answer sim s a h) keyed applied in
      simp (same_scenario, applied_supported h applied, seen)
