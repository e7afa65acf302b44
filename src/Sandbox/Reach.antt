-- ===== src/Sandbox/Reach.antt =====
-- The runs that the commerce sandbox can reach: one is created, commands run on it, it starts again.
use rule_arena.Common.{
  ℕ, ◌+◌, ◌≤◌, ◌≡◌, refl, Bool, false, Bool-cases, inl, inr, Option, List, [], ◌∷◌, All, arith,
  String, ◌==◌,
}
use rule_arena.Common.Outcome.{
  done, Returns, Returns-done, Returns-then, Returns-bind, Returns-raise, Returns-reject_if,
}
use rule_arena.Common.Json.{Fields}
use rule_arena.Policy.{ScenarioType}
use rule_arena.Simulator.Rules.{is_empty}
use rule_arena.Sandbox.Profile.{DefectAxis, SandboxVersion, SandboxProfile, unreachable_axes}
use rule_arena.Sandbox.Models.{ActionName, ActionCommand, BusinessEvent, RunSpace}
use rule_arena.Sandbox.Rows.{last_sequence}
use rule_arena.Sandbox.Snapshot.{inspect_state}
use rule_arena.Sandbox.Execute.{
  Fresh, Response, is_inspect, bump, profile_of, handler, dispatch, execute,
}
use rule_arena.Sandbox.Runs.{reset_run, create_run, events_of, requested_axes}
use rule_arena.Sandbox.Valid.{RowsAreValid, RunIsValid}
use rule_arena.Sandbox.Kept.{Frame}
use rule_arena.Sandbox.Kept.Orders.{
  KeptBy, start, create_user-Kept, issue_coupon-Kept, create_order-Kept, apply_coupon-Kept,
  cancel_order-Kept,
}
use rule_arena.Sandbox.Kept.Payments.{pay_order-Kept, refund_order-Kept}
use rule_arena.Sandbox.Kept.Memberships.{
  redeem_points-Kept, activate_membership-Kept, consume_entitlement-Kept, cancel_membership-Kept,
}
use rule_arena.Sandbox.Step.{Executed, execute-Executed}

module _ (digest : Fields → String) (fresh : Fresh) (profile : SandboxProfile) (run : RunSpace)
    (command : ActionCommand) (key : String) where
  -- A look at the run changes nothing.
  pub inspect_state_same :
      Returns
        (λ handled. handled.run ≡ run)
        (inspect_state digest fresh.now profile run command key)
  unfolding inspect_state
  inspect_state_same =
      Returns-then _ _
        (Returns-bind _ _ λ known _. Returns-reject_if _ _ _ λ _. Returns-done _ refl)

  inspect_state-Kept :
      Returns (KeptBy profile run) (inspect_state digest fresh.now profile run command key)
  unfolding inspect_state
  inspect_state-Kept =
      Returns-then _ _ (
        Returns-bind _ _ λ known _. Returns-reject_if _ _ _ λ _. Returns-done _ (start profile run))

  handler-Kept :
      (action : ActionName)
      → Returns (KeptBy profile run) (handler digest action fresh profile run command key)
  handler-Kept ActionName.create_user = create_user-Kept profile run command key
  handler-Kept ActionName.issue_coupon = issue_coupon-Kept profile run command key
  handler-Kept ActionName.create_order = create_order-Kept profile run command key
  handler-Kept ActionName.apply_coupon = apply_coupon-Kept profile run command key
  handler-Kept ActionName.pay_order = pay_order-Kept profile run command key
  handler-Kept ActionName.cancel_order = cancel_order-Kept profile run command key
  handler-Kept ActionName.refund_order = refund_order-Kept profile run command key
  handler-Kept ActionName.redeem_points = redeem_points-Kept profile run command key
  handler-Kept ActionName.activate_membership = activate_membership-Kept profile run command key
  handler-Kept ActionName.consume_entitlement = consume_entitlement-Kept profile run command key
  handler-Kept ActionName.cancel_membership = cancel_membership-Kept profile run command key
  handler-Kept ActionName.inspect_state = inspect_state-Kept

  pub dispatch-Kept : Returns (KeptBy profile run) (dispatch digest fresh profile run command key)
  unfolding dispatch
  dispatch-Kept = Returns-reject_if _ _ _ λ _. handler-Kept command.action

-- The rows that were valid for the fields of the run are valid for those that it has now.
moved-RunIsValid :
    (run after : RunSpace)
    → Frame run after
    → RowsAreValid (profile_of run) run.scenario_type after
    → RunIsValid after
moved-RunIsValid run after (id, scenario, version, axes, epoch, snapshot, receipts) valid =
    rw (scenario, version, axes) valid

bumped-RunIsValid :
    (action : ActionName) (run : RunSpace) → RunIsValid run → RunIsValid (bump action run)
bumped-RunIsValid action run valid = elim (Bool-cases (is_inspect action)) [
  | inl e ↦ rw e valid
  | inr e ↦ rw e valid
]

module _ (digest : Fields → String) (fresh : Fresh) (run : RunSpace) (command : ActionCommand) where
  Executed-RunIsValid :
      (r : RunSpace × Response)
      → Executed digest fresh run command r
      → RunIsValid run
      → RunIsValid r.0
  Executed-RunIsValid r (Executed.keyless h) valid = valid
  Executed-RunIsValid r (Executed.replayed row h found) valid = valid
  Executed-RunIsValid r (Executed.succeeded handled h missing q) valid =
      let kept = (dispatch-Kept digest fresh (profile_of run) run command _).at handled q in
      bumped-RunIsValid command.action handled.run
        (moved-RunIsValid run handled.run kept.frame (kept.keeps valid))
  Executed-RunIsValid r (Executed.rejected code h missing q) valid = valid
  Executed-RunIsValid r (Executed.crashed e h missing q) valid = valid

pub none_later :
    (epoch : ℕ) (es : List BusinessEvent)
    → All (λ event. event.epoch ≤ epoch) es
    → (events_of (epoch + 1) es ≡ [])
      × (last_sequence (epoch + 1) es ≡ 0)
      × All (λ event. event.epoch ≤ epoch + 1) es
none_later epoch [] past = (refl, refl, tt)
none_later epoch (e ∷ es) past =
    let (none_listed, none_last, later) = none_later epoch es past.1 in
    let other : (e.epoch == (epoch + 1)) ≡ false = ground (arith, past.0) in
    (rw (other, none_listed), rw (other, none_last), (omega (arith, past.0), later))

reset_run-RunIsValid : (run : RunSpace) → RunIsValid run → RunIsValid (reset_run run)
unfolding reset_run
reset_run-RunIsValid run (us, cs, os, rs, ms, es, ev) =
    let (none_listed, none_last, later) = none_later run.epoch run.events ev.past in
    (
      tt,
      tt,
      tt,
      tt,
      tt,
      tt,
      record { counted = rw none_listed tt; last = rw (none_listed, none_last); past = later },
    )

-- What the service does to a run.
pub data Reachable (digest : Fields → String) : RunSpace → Type 0 where
  created :
      (registered : Bool) (id : String) (scenario : ScenarioType) (version : SandboxVersion)
      (axes : Option (List DefectAxis)) (run : RunSpace)
      → create_run registered id scenario version axes ≡ done run
      → Reachable digest run
  executed :
      (fresh : Fresh) (run : RunSpace) (command : ActionCommand)
      → Reachable digest run
      → Reachable digest (execute digest fresh run command).0
  restarted : (run : RunSpace) → Reachable digest run → Reachable digest (reset_run run)

create_run-RunIsValid :
    (registered : Bool) (id : String) (scenario : ScenarioType) (version : SandboxVersion)
    (axes : Option (List DefectAxis))
    → Returns RunIsValid (create_run registered id scenario version axes)
unfolding create_run
create_run-RunIsValid registered id scenario version axes =
    elim (Bool-cases (is_empty (unreachable_axes scenario (requested_axes axes)))) [
      | inr e ↦ rw e (Returns-raise _)
      | inl e ↦ rw e (
          Returns-reject_if _ _ _ λ _.
            Returns-done _
              (tt, tt, tt, tt, tt, tt, record { counted = tt; last = refl; past = tt }))
    ]

-- Every run that the service reaches is well formed: no balance is below zero; an order's discount
-- and payment stay within its amount, and its refunds within its payment unless the run is a
-- promotion with the defect REFUND_AGAINST_ORIGINAL; the points of a user are not below zero unless
-- the run has POINTS_OVERREDEMPTION; what is consumed and revoked of an entitlement stays within the
-- grant unless it has ENTITLEMENT_OVERCONSUMPTION; refunds and payments of memberships are above
-- zero; and the events of the current epoch are numbered from 1 on without a gap.
pub reachable-RunIsValid :
    (digest : Fields → String) (run : RunSpace) → Reachable digest run → RunIsValid run
reachable-RunIsValid digest run (Reachable.created registered id scenario version axes new h) =
    (create_run-RunIsValid registered id scenario version axes).at new h
reachable-RunIsValid digest run (Reachable.executed fresh before command reached) =
    Executed-RunIsValid digest fresh before command (execute digest fresh before command)
      (execute-Executed digest fresh before command) (reachable-RunIsValid digest before reached)
reachable-RunIsValid digest run (Reachable.restarted before reached) =
    reset_run-RunIsValid before (reachable-RunIsValid digest before reached)
