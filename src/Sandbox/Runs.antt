-- ===== src/Sandbox/Runs.antt =====
-- service.py of services/commerce_sandbox: the calls that create a run, start it again, or read its
-- receipts and events.
use rule_arena.Common.{
  ℕ, ◌+◌, ◌==◌, Bool, not, ◌&&◌, Option, none, some, List, [], ◌∷◌, if◌then◌else◌, String,
}
use rule_arena.Common.Outcome.{Outcome, Exc, done, raise, reject_if, or_reject, ◌>>=◌, ◌>>◌}
use rule_arena.Common.Text.{str_eq}
use rule_arena.Policy.{ScenarioType}
use rule_arena.Simulator.Rules.{is_empty}
use rule_arena.Sandbox.Profile.{DefectAxis, SandboxVersion, unreachable_axes}
use rule_arena.Sandbox.Models.{BusinessEvent, Code, RunSpace, new_run}
use rule_arena.Sandbox.Execute.{ActionReceipt, first, receipt_from_record}

-- `_delete_state`
abbrev pub delete_state : RunSpace → RunSpace
delete_state run = record run {
  users = [];
  coupons = [];
  orders = [];
  refunds = [];
  points_ledger = [];
  memberships = [];
  entitlements = [];
}

-- `reset_run`, but for the snapshot that it returns
unfoldable pub reset_run : RunSpace → RunSpace
reset_run run = record (delete_state run) { epoch = run.epoch + 1; snapshot_version = 0 }

-- `get_receipt`, which takes the earliest row; the rows of a run stand in the order in which they were
-- written, which is that of their times if the clock does not go back.
unfoldable pub get_receipt : RunSpace → String → Outcome Code ActionReceipt
get_receipt run key = do
  row ←
      or_reject
        (first (λ row. row.epoch == run.epoch && str_eq row.idempotency_key key) run.receipts)
        Code.receipt_not_found
  done (receipt_from_record run.id row row.action_type)

abbrev pub events_of : ℕ → List BusinessEvent → List BusinessEvent
events_of epoch [] = []
events_of epoch (event ∷ events) =
    let rest = events_of epoch events in if event.epoch == epoch then event ∷ rest else rest

-- `get_events`; the events of a run stand in the order of their sequence.
unfoldable pub get_events : RunSpace → List BusinessEvent
get_events run = events_of run.epoch run.events

abbrev pub requested_axes : Option (List DefectAxis) → List DefectAxis
requested_axes none = []
requested_axes (some axes) = axes

-- `CreateRunRequest.validate_defect_axes`, and the row that `create_run` adds when the version of the
-- scenario is registered
unfoldable pub create_run :
    Bool → String → ScenarioType → SandboxVersion → Option (List DefectAxis) → Outcome Code RunSpace
create_run registered id scenario version axes =
    if is_empty (unreachable_axes scenario (requested_axes axes))
    then reject_if (not registered) Code.scenario_not_found
      >> done (new_run id scenario version axes)
    else raise Exc.value_error
