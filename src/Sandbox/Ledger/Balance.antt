-- ===== src/Sandbox/Ledger/Balance.antt =====
-- The ledger of points is balanced in every run that the service reaches.
use rule_arena.Common.{refl, Bool, Bool-cases, inl, inr, Option, List, String}
use rule_arena.Common.Int.{◌+ℤ◌}
use rule_arena.Common.Outcome.{
  Returns, Returns-bind, Returns-done, Returns-raise, Returns-reject_if, Returns-then,
}
use rule_arena.Common.Json.{Fields}
use rule_arena.Policy.{ScenarioType}
use rule_arena.Simulator.Rules.{is_empty}
use rule_arena.Sandbox.Profile.{DefectAxis, SandboxProfile, SandboxVersion, unreachable_axes}
use rule_arena.Sandbox.Models.{ActionCommand, ActionName, RunSpace}
use rule_arena.Sandbox.Snapshot.{inspect_state}
use rule_arena.Sandbox.Execute.{Fresh, Response, dispatch, execute, handler, is_inspect, profile_of}
use rule_arena.Sandbox.Runs.{create_run, requested_axes, reset_run}
use rule_arena.Sandbox.Ledger.{IsBalanced}
use rule_arena.Sandbox.Ledger.Steps.{BalancedBy}
use rule_arena.Sandbox.Ledger.Handlers.{
  activate_membership-IsOff, apply_coupon-IsOff, cancel_membership-IsOff, cancel_order-IsOff,
  consume_entitlement-IsOff, create_order-IsOff, create_user-IsOff, issue_coupon-IsOff,
  pay_order-IsOff, redeem_points-IsOff, refund_order-IsOff,
}
use rule_arena.Sandbox.Reach.{Reachable}
use rule_arena.Sandbox.Step.{Executed, execute-Executed}

module _ (digest : Fields → String) (fresh : Fresh) (profile : SandboxProfile) (run : RunSpace)
    (command : ActionCommand) (key : String) (h : IsBalanced run) where
  inspect_state-IsOff : Returns BalancedBy (inspect_state digest fresh.now profile run command key)
  unfolding inspect_state
  inspect_state-IsOff =
      Returns-then _ _ (Returns-bind _ _ λ known _. Returns-reject_if _ _ _ λ _. Returns-done _ h)

  handler-IsOff :
      (action : ActionName)
      → Returns BalancedBy (handler digest action fresh profile run command key)
  handler-IsOff ActionName.create_user = create_user-IsOff profile run command key h
  handler-IsOff ActionName.issue_coupon = issue_coupon-IsOff profile run command key h
  handler-IsOff ActionName.create_order = create_order-IsOff profile run command key h
  handler-IsOff ActionName.apply_coupon = apply_coupon-IsOff profile run command key h
  handler-IsOff ActionName.pay_order = pay_order-IsOff profile run command key h
  handler-IsOff ActionName.cancel_order = cancel_order-IsOff profile run command key h
  handler-IsOff ActionName.refund_order = refund_order-IsOff profile run command key h
  handler-IsOff ActionName.redeem_points = redeem_points-IsOff profile run command key h
  handler-IsOff ActionName.activate_membership = activate_membership-IsOff profile run command key h
  handler-IsOff ActionName.consume_entitlement = consume_entitlement-IsOff profile run command key h
  handler-IsOff ActionName.cancel_membership = cancel_membership-IsOff profile run command key h
  handler-IsOff ActionName.inspect_state = inspect_state-IsOff

  dispatch-IsOff : Returns BalancedBy (dispatch digest fresh profile run command key)
  unfolding dispatch
  dispatch-IsOff = Returns-reject_if _ _ _ λ _. handler-IsOff command.action

module _ (digest : Fields → String) where
  Executed-IsBalanced :
      (fresh : Fresh) (run : RunSpace) (command : ActionCommand) (r : RunSpace × Response)
      → Executed digest fresh run command r
      → IsBalanced run
      → IsBalanced r.0
  Executed-IsBalanced fresh run command r (Executed.keyless h) b = b
  Executed-IsBalanced fresh run command r (Executed.replayed row keyed found) b = b
  Executed-IsBalanced fresh run command r (Executed.succeeded handled keyed missing q) b =
      let after = (dispatch-IsOff digest fresh (profile_of run) run command _ b).at handled q in
      elim (Bool-cases (is_inspect command.action)) [
        | inl e ↦ rw e (record { off = after.off })
        | inr e ↦ rw e (record { off = after.off })
      ]
  Executed-IsBalanced fresh run command r (Executed.rejected code keyed missing q) b = record {
    off = b.off;
  }
  Executed-IsBalanced fresh run command r (Executed.crashed e keyed missing q) b = b

created-IsBalanced :
    (registered : Bool) (id : String) (scenario : ScenarioType) (version : SandboxVersion)
    (axes : Option (List DefectAxis))
    → Returns IsBalanced (create_run registered id scenario version axes)
unfolding create_run ◌+ℤ◌
created-IsBalanced registered id scenario version axes =
    elim (Bool-cases (is_empty (unreachable_axes scenario (requested_axes axes)))) [
      | inr e ↦ rw e (Returns-raise _)
      | inl e ↦ rw e (Returns-reject_if _ _ _ λ _. Returns-done _ (record { off = refl }))
    ]

restarted-IsBalanced : (run : RunSpace) → IsBalanced (reset_run run)
unfolding reset_run ◌+ℤ◌
restarted-IsBalanced run = record { off = refl }

-- The ledger accounts for every point: in every run that the service reaches, with whatever defects,
-- the points of its users are the sum of the entries of its ledger of points.
pub reachable-IsBalanced :
    (digest : Fields → String) (run : RunSpace) → Reachable digest run → IsBalanced run
reachable-IsBalanced digest run (Reachable.created registered id scenario version axes new h) =
    (created-IsBalanced registered id scenario version axes).at new h
reachable-IsBalanced digest run (Reachable.executed fresh before command reached) =
    Executed-IsBalanced digest fresh before command (execute digest fresh before command)
      (execute-Executed digest fresh before command) (reachable-IsBalanced digest before reached)
reachable-IsBalanced digest run (Reachable.restarted before reached) = restarted-IsBalanced before
