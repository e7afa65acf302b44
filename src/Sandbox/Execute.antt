-- ===== src/Sandbox/Execute.antt =====
-- service.py of services/commerce_sandbox: `_dispatch`, `execute` and the calls that read a run or
-- start it again. What a transaction writes is the run that a call returns; a call that raises
-- leaves the run as it was.
use rule_arena.Common.{
  ℕ, ◌+◌, ◌==◌, Bool, true, false, not, ◌&&◌, Option, none, some, List, [], ◌∷◌, ◌++◌,
  if◌then◌else◌, String,
}
use rule_arena.Common.Outcome.{Outcome, Exc, done, reject, raise, reject_if, ◌>>◌}
use rule_arena.Common.Text.{codes, str_eq, truthy, or_else, join, starts_with}
use rule_arena.Common.Json.{Fields}
use rule_arena.Policy.{ScenarioType}
use rule_arena.Sandbox.Profile.{SandboxProfile, DefectAxis, exhibits, for_run}
use rule_arena.Sandbox.Models.{
  ActionName, ActionCommand, ActionStatus, ActionReceiptRecord, Effect, Code, RunSpace,
}
use rule_arena.Sandbox.Rows.{Handled, Handler}
use rule_arena.Sandbox.Orders.{create_user, issue_coupon, create_order, apply_coupon, cancel_order}
use rule_arena.Sandbox.Payments.{pay_order, refund_order}
use rule_arena.Sandbox.Memberships.{
  redeem_points, activate_membership, consume_entitlement, cancel_membership,
}
use rule_arena.Sandbox.Snapshot.{inspect_state}

abbrev pub is_inspect : ActionName → Bool
is_inspect ActionName.inspect_state = true
is_inspect _ = false

abbrev pub is_refund_order : ActionName → Bool
is_refund_order ActionName.refund_order = true
is_refund_order _ = false

abbrev pub action_code : ActionName → ℕ
action_code ActionName.create_user = 0
action_code ActionName.issue_coupon = 1
action_code ActionName.create_order = 2
action_code ActionName.apply_coupon = 3
action_code ActionName.pay_order = 4
action_code ActionName.cancel_order = 5
action_code ActionName.refund_order = 6
action_code ActionName.redeem_points = 7
action_code ActionName.activate_membership = 8
action_code ActionName.consume_entitlement = 9
action_code ActionName.cancel_membership = 10
action_code ActionName.inspect_state = 11

abbrev pub same_action : ActionName → ActionName → Bool
same_action a b = action_code a == action_code b

-- `command.action in common | scenario_actions[run.scenario_type]`
unfoldable pub supports : ScenarioType → ActionName → Bool
supports scenario ActionName.create_user = true
supports scenario ActionName.inspect_state = true
supports ScenarioType.promotion ActionName.issue_coupon = true
supports ScenarioType.promotion ActionName.create_order = true
supports ScenarioType.promotion ActionName.apply_coupon = true
supports ScenarioType.promotion ActionName.pay_order = true
supports ScenarioType.promotion ActionName.cancel_order = true
supports ScenarioType.promotion ActionName.refund_order = true
supports ScenarioType.refund_points ActionName.create_order = true
supports ScenarioType.refund_points ActionName.pay_order = true
supports ScenarioType.refund_points ActionName.cancel_order = true
supports ScenarioType.refund_points ActionName.refund_order = true
supports ScenarioType.refund_points ActionName.redeem_points = true
supports ScenarioType.membership_entitlement ActionName.activate_membership = true
supports ScenarioType.membership_entitlement ActionName.consume_entitlement = true
supports ScenarioType.membership_entitlement ActionName.cancel_membership = true
supports _ _ = false

-- The row of the receipt that a call with this action and key finds.
abbrev pub is_receipt_of : ℕ → ActionName → String → ActionReceiptRecord → Bool
is_receipt_of epoch action key row =
    row.epoch == epoch && same_action row.action_type action && str_eq row.idempotency_key key

abbrev pub first {ℓ} : {A : Type ℓ} → (A → Bool) → List A → Option A
first p [] = none
first p (x ∷ xs) = if p x then some x else first p xs

-- What the service answers.
pub record ActionReceipt : Type 0 where
  pub receipt_id : String
  pub run_id : String
  pub idempotency_key : Option String
  pub action_type : ActionName
  pub status : ActionStatus
  pub monetary_effects : List Effect
  pub result : Fields
  pub error : Option Code

pub data Response : Type 0 where
  answered : ActionReceipt → Response
  refused : Code → Response
  ack_lost : String → Response
  crashed : Exc → Response

-- `_receipt_from_record`
unfoldable pub receipt_from_record : String → ActionReceiptRecord → ActionName → ActionReceipt
receipt_from_record run_id row action = record {
  receipt_id = row.receipt_id;
  run_id = run_id;
  idempotency_key =
      if starts_with (codes row.idempotency_key) (codes "inspect:")
      then none
      else some row.idempotency_key;
  action_type = action;
  status = row.status;
  monetary_effects = row.monetary_effects;
  result = row.result;
  error = row.error;
}

-- What a call takes from outside: two random identifiers and the clock.
pub record Fresh : Type 0 where
  pub inspect_id : String
  pub receipt_id : String
  pub now : String

abbrev pub key_of : ActionCommand → Fresh → String
key_of command fresh = or_else command.idempotency_key (join "inspect:" fresh.inspect_id)

-- The row of a command that ran or was rejected.
abbrev pub new_receipt :
    Fresh
    → RunSpace
    → ActionCommand
    → String
    → ActionStatus
    → List Effect
    → Fields
    → Option Code
    → ActionReceiptRecord
new_receipt fresh run command key status effects result error = record {
  receipt_id = fresh.receipt_id;
  epoch = run.epoch;
  idempotency_key = key;
  action_type = command.action;
  status = status;
  monetary_effects = effects;
  result = result;
  error = error;
}

abbrev pub add_receipt : ActionReceiptRecord → RunSpace → RunSpace
add_receipt row run = record run { receipts = run.receipts ++ row ∷ [] }

-- `if command.action is not ActionName.INSPECT_STATE: run.snapshot_version += 1`
abbrev pub bump : ActionName → RunSpace → RunSpace
bump action run =
    if is_inspect action then run else record run { snapshot_version = run.snapshot_version + 1 }

-- The answer, unless the run's defect loses it.
unfoldable pub acknowledge : SandboxProfile → ActionName → ActionReceipt → Response
acknowledge profile action receipt =
    if is_refund_order action && exhibits profile DefectAxis.refund_ack_lost
    then Response.ack_lost receipt.receipt_id
    else Response.answered receipt

abbrev pub profile_of : RunSpace → SandboxProfile
profile_of run = for_run run.sandbox_version run.defect_axes

module _ (digest : Fields → String) where
  abbrev pub handler : ActionName → Fresh → Handler
  handler ActionName.create_user fresh = create_user
  handler ActionName.issue_coupon fresh = issue_coupon
  handler ActionName.create_order fresh = create_order
  handler ActionName.apply_coupon fresh = apply_coupon
  handler ActionName.pay_order fresh = pay_order
  handler ActionName.cancel_order fresh = cancel_order
  handler ActionName.refund_order fresh = refund_order
  handler ActionName.redeem_points fresh = redeem_points
  handler ActionName.activate_membership fresh = activate_membership
  handler ActionName.consume_entitlement fresh = consume_entitlement
  handler ActionName.cancel_membership fresh = cancel_membership
  handler ActionName.inspect_state fresh = inspect_state digest fresh.now

  -- `_dispatch`
  unfoldable pub dispatch : Fresh → Handler
  dispatch fresh profile run command key = do
    reject_if (not (supports run.scenario_type command.action)) Code.action_not_supported
    handler command.action fresh profile run command key

  -- The run and the row of the receipt after a command that was not seen before.
  abbrev settle :
      Fresh
      → RunSpace
      → ActionCommand
      → String
      → Outcome Code Handled
      → Outcome Code (RunSpace × ActionReceiptRecord)
  settle fresh run command key (done handled) = done (
    bump command.action handled.run,
    new_receipt fresh run command key ActionStatus.succeeded handled.effects handled.result none,
  )
  settle fresh run command key (reject code) =
      done (
        run,
        new_receipt fresh run command key ActionStatus.rejected [] Fields.no_field (some code),
      )
  settle fresh run command key (raise e) = raise e

  abbrev recorded :
      RunSpace → ActionCommand → Outcome Code (RunSpace × ActionReceiptRecord) → RunSpace × Response
  recorded run command (done (after, row)) = (
    add_receipt row after,
    acknowledge (profile_of run) command.action (receipt_from_record run.id row command.action),
  )
  recorded run command (reject code) = (run, Response.refused code)
  recorded run command (raise e) = (run, Response.crashed e)

  -- `execute` on the run that was found
  unfoldable pub execute : Fresh → RunSpace → ActionCommand → RunSpace × Response
  execute fresh run command =
      let key = key_of command fresh in
      if not (is_inspect command.action) && not (truthy command.idempotency_key)
      then (run, Response.refused Code.idempotency_key_required)
      else elim (first (is_receipt_of run.epoch command.action key) run.receipts) [
        | some row ↦ (
          run,
          acknowledge (profile_of run) command.action
              (receipt_from_record run.id row command.action),
        )
        | none ↦
            recorded run command
              (settle fresh run command key (dispatch fresh (profile_of run) run command key))
      ]
