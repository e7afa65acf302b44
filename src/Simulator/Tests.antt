-- ===== src/Simulator/Tests.antt =====
-- Runs of the simulator on concrete actions, and the theorems at concrete states.
use rule_arena.Common.{◌≡◌, refl, none, some, [], ◌∷◌}
use rule_arena.Common.Int.{pos}
use rule_arena.Common.Outcome.{Exc, ok, err}
use rule_arena.Simulator.Models.{
  SimulationState, SimAction, TransitionResult, TransitionStatus, Code, EventType, AggregateType,
  Payload, event,
}
use rule_arena.Simulator.Rules.{ReferenceSimulator, initial_state, reference_simulator}
use rule_arena.Simulator.Transition.{transition, without_effect}
use rule_arena.Simulator.Valid.{IsValid}
use rule_arena.Simulator.Reach.{Reach, start, step, Reach-IsValid}
use rule_arena.Simulator.Conservation.{funds, transition-funds}
use rule_arena.Simulator.Replay.{transition_replay}
use rule_arena.Simulator.Crash.{transition_unbound}
use rule_arena.Simulator.Fixtures.{
  points_spec, opened, applied_state, new_user, order_of, pay, refund_of, keyed,
}

abbrev sim : ReferenceSimulator
sim = reference_simulator points_spec

-- A user with 500.00, one order of 250.00 paid, with 20 points granted.
abbrev s0 : SimulationState
s0 = initial_state sim

abbrev s1 : SimulationState
s1 = applied_state sim s0 new_user

abbrev s2 : SimulationState
s2 = applied_state sim s1 (order_of "250.00")

abbrev s3 : SimulationState
s3 = applied_state sim s2 (pay "order-1")

-- The same with an order of 50.00, which grants no points.
abbrev small : SimulationState
small = applied_state sim (applied_state sim s1 (order_of "50.00")) (pay "order-1")

reached : Reach sim s3
unfolding opened applied_state
reached = step (pay "order-1") _ (step (order_of "250.00") _ (step new_user _ start refl) refl) refl

Reach-IsValid_example : IsValid s3
Reach-IsValid_example = Reach-IsValid sim reached

partial_refund :
    transition sim s3 (refund_of "order-1" "100.00")
    ≡ ok (record {
      status = TransitionStatus.applied;
      state = applied_state sim s3 (refund_of "order-1" "100.00");
      events =
          event EventType.refund_issued AggregateType.order "order-1"
            (("amount", Payload.money (pos 1000000)) ∷ [])
          ∷ event EventType.points_revoked AggregateType.user "user-1"
              (("amount", Payload.count (pos 8)) ∷ ("order_id", Payload.named "order-1") ∷ [])
          ∷ [];
      code = none;
    })
unfolding opened applied_state
partial_refund = refl

transition-funds_example : funds (applied_state sim s3 (refund_of "order-1" "100.00")) ≡ funds s3
unfolding opened applied_state
transition-funds_example =
    transition-funds sim s3 (refund_of "order-1" "100.00") (Reach-IsValid sim reached) (cc)
      partial_refund

-- A refund of more than was paid.
excess : TransitionResult
excess = without_effect TransitionStatus.rejected s3 (some Code.invalid_refund)

excessive_refund : transition sim s3 (refund_of "order-1" "250.01") ≡ ok excess
unfolding opened applied_state excess
excessive_refund = refl

abbrev once : SimAction
once = keyed "k-1" (refund_of "order-1" "100.00")

keyed_refund :
    transition sim s3 once
    ≡ ok (record {
      status = TransitionStatus.applied;
      state = applied_state sim s3 once;
      events =
          event EventType.refund_issued AggregateType.order "order-1"
            (("amount", Payload.money (pos 1000000)) ∷ [])
          ∷ event EventType.points_revoked AggregateType.user "user-1"
              (("amount", Payload.count (pos 8)) ∷ ("order_id", Payload.named "order-1") ∷ [])
          ∷ [];
      code = none;
    })
unfolding opened applied_state
keyed_refund = refl

transition_replay_example :
    transition sim (applied_state sim s3 once) once
    ≡ ok (without_effect TransitionStatus.applied (applied_state sim s3 once) none)
unfolding opened applied_state
transition_replay_example = transition_replay sim s3 once keyed_refund refl refl

transition_unbound_example :
    transition sim small (refund_of "order-1" "50.00") ≡ err Exc.unbound_local_error
unfolding opened applied_state
transition_unbound_example =
    transition_unbound sim small (refund_of "order-1" "50.00") {amount = pos 500000} (record {
      kind = refl;
      allowed = refl;
      fresh = refl;
      found = refl;
      read = refl;
      status = refl;
      positive = refl;
      covered = refl;
      policy = refl;
      owner = refl;
      revoking = refl;
      ungranted = refl;
    })
