-- ===== src/Sandbox/Restart.antt =====
-- A run that starts again has forgotten what was done before.
use rule_arena.Common.{
  ℕ, ◌+◌, ◌≤◌, ◌≡◌, refl, Bool, false, ◌&&◌, Bool-cases, inl, inr, Option, none, List, [], ◌∷◌,
  ◌++◌, All, All-append, All-map, String, arith, ◌==◌,
}
use rule_arena.Common.Outcome.{
  reject, or_reject, ◌>>=◌, Returns, Returns-raise, Returns-reject_if, Returns-done,
}
use rule_arena.Common.Text.{str_eq}
use rule_arena.Common.Json.{Fields}
use rule_arena.Policy.{ScenarioType}
use rule_arena.Simulator.Rules.{is_empty}
use rule_arena.Sandbox.Profile.{DefectAxis, SandboxVersion, unreachable_axes}
use rule_arena.Sandbox.Models.{ActionCommand, ActionReceiptRecord, Code, RunSpace}
use rule_arena.Sandbox.Execute.{Fresh, Response, execute, first, is_inspect, profile_of}
use rule_arena.Sandbox.Runs.{create_run, get_events, get_receipt, requested_axes, reset_run}
use rule_arena.Sandbox.Reach.{Reachable, dispatch-Kept, none_later, reachable-RunIsValid}
use rule_arena.Sandbox.Step.{Executed, execute-Executed, success, rejection}

-- No receipt is of a later epoch.
abbrev ArePast : RunSpace → Type 0
ArePast run = All (λ row. row.epoch ≤ run.epoch) run.receipts

one_more :
    (epoch : ℕ) (rows : List ActionReceiptRecord) (row : ActionReceiptRecord)
    → row.epoch ≡ epoch
    → All (λ row. row.epoch ≤ epoch) rows
    → All (λ row. row.epoch ≤ epoch) (rows ++ row ∷ [])
one_more epoch rows row here past =
    All-append (λ row. row.epoch ≤ epoch) rows (row ∷ []) past (omega (arith, here), tt)

created-ArePast :
    (registered : Bool) (id : String) (scenario : ScenarioType) (version : SandboxVersion)
    (axes : Option (List DefectAxis))
    → Returns ArePast (create_run registered id scenario version axes)
unfolding create_run
created-ArePast registered id scenario version axes =
    elim (Bool-cases (is_empty (unreachable_axes scenario (requested_axes axes)))) [
      | inr e ↦ rw e (Returns-raise _)
      | inl e ↦ rw e (Returns-reject_if _ _ _ λ _. Returns-done _ tt)
    ]

restarted-ArePast : (run : RunSpace) → ArePast run → ArePast (reset_run run)
unfolding reset_run
restarted-ArePast run past =
    All-map (λ row. row.epoch ≤ run.epoch) (λ row. row.epoch ≤ run.epoch + 1)
      (λ row le. omega (arith, le)) run.receipts past

module _ (digest : Fields → String) where
  Executed-ArePast :
      (fresh : Fresh) (run : RunSpace) (command : ActionCommand) (r : RunSpace × Response)
      → Executed digest fresh run command r
      → ArePast run
      → ArePast r.0
  Executed-ArePast fresh run command r (Executed.keyless h) past = past
  Executed-ArePast fresh run command r (Executed.replayed row keyed found) past = past
  Executed-ArePast fresh run command r (Executed.succeeded handled keyed missing q) past =
      let kept = (dispatch-Kept digest fresh (profile_of run) run command _).at handled q in
      let (id, scenario, version, axes, epoch, snapshot, receipts) = kept.frame in
      let more =
        one_more run.epoch run.receipts (success digest fresh run command handled) refl past in
      elim (Bool-cases (is_inspect command.action)) [
        | inl e ↦ rw (e, epoch, receipts) more
        | inr e ↦ rw (e, epoch, receipts) more
      ]
  Executed-ArePast fresh run command r (Executed.rejected code keyed missing q) past =
      one_more run.epoch run.receipts (rejection digest fresh run command code) refl past
  Executed-ArePast fresh run command r (Executed.crashed e keyed missing q) past = past

  reachable-ArePast : (run : RunSpace) → Reachable digest run → ArePast run
  reachable-ArePast run (Reachable.created registered id scenario version axes new h) =
      (created-ArePast registered id scenario version axes).at new h
  reachable-ArePast run (Reachable.executed fresh before command reached) =
      Executed-ArePast fresh before command (execute digest fresh before command)
        (execute-Executed digest fresh before command) (reachable-ArePast before reached)
  reachable-ArePast run (Reachable.restarted before reached) =
      restarted-ArePast before (reachable-ArePast before reached)

none_found :
    (epoch : ℕ) (key : String) (rows : List ActionReceiptRecord)
    → All (λ row. row.epoch ≤ epoch) rows
    → first (λ row. row.epoch == epoch + 1 && str_eq row.idempotency_key key) rows ≡ none
none_found epoch key [] past = refl
none_found epoch key (row ∷ rows) past =
    let other : (row.epoch == (epoch + 1)) ≡ false = ground (arith, past.0) in
    rw (other, none_found epoch key rows past.1)

-- A restart forgets: after a run that the service reached starts again, no key answers with a
-- receipt, and no event is listed.
pub reset_run_forgets :
    (digest : Fields → String) (run : RunSpace) (key : String)
    → Reachable digest run
    → (get_receipt (reset_run run) key ≡ reject Code.receipt_not_found)
      × (get_events (reset_run run) ≡ [])
unfolding reset_run get_receipt get_events or_reject ◌>>=◌
reset_run_forgets digest run key reached =
    let (us, cs, os, rs, ms, es, ev) = reachable-RunIsValid digest run reached in
    (
      rw (none_found run.epoch key run.receipts (reachable-ArePast digest run reached)),
      (none_later run.epoch run.events ev.past).0,
    )
