-- ===== src/Sandbox/Step.antt =====
-- The ways in which `execute` of services/commerce_sandbox can end, as a relation.
use rule_arena.Common.{
  [], ◌≡◌, Bool, true, false, not, ◌&&◌, Bool-cases, Option-cases, inl, inr, Option, none, some,
  String,
}
use rule_arena.Common.Outcome.{Outcome, Exc, done, reject, raise, Outcome-cases}
use rule_arena.Common.Text.{truthy}
use rule_arena.Common.Json.{Fields}
use rule_arena.Sandbox.Models.{ActionCommand, ActionStatus, ActionReceiptRecord, Code, RunSpace}
use rule_arena.Sandbox.Rows.{Handled}
use rule_arena.Sandbox.Execute.{
  Fresh, Response, is_inspect, is_receipt_of, first, key_of, new_receipt, add_receipt, bump,
  acknowledge, profile_of, receipt_from_record, dispatch, execute,
}

module _ (digest : Fields → String) (fresh : Fresh) (run : RunSpace) (command : ActionCommand) where
  abbrev pub is_keyless : Bool
  is_keyless = not (is_inspect command.action) && not (truthy command.idempotency_key)

  -- The receipt that the run holds for the action and the key.
  abbrev pub existing : Option ActionReceiptRecord
  existing = first (is_receipt_of run.epoch command.action (key_of command fresh)) run.receipts

  abbrev pub ran : Outcome Code Handled
  ran = dispatch digest fresh (profile_of run) run command (key_of command fresh)

  abbrev pub answer : ActionReceiptRecord → Response
  answer row =
      acknowledge (profile_of run) command.action (receipt_from_record run.id row command.action)

  abbrev pub success : Handled → ActionReceiptRecord
  success handled =
      new_receipt fresh run command (key_of command fresh) ActionStatus.succeeded handled.effects
        handled.result none

  abbrev pub rejection : Code → ActionReceiptRecord
  rejection code =
      new_receipt fresh run command (key_of command fresh) ActionStatus.rejected [] Fields.no_field
        (some code)

  pub data Executed : RunSpace × Response → Type 0 where
    keyless : is_keyless ≡ true → Executed (run, Response.refused Code.idempotency_key_required)
    replayed :
        (row : ActionReceiptRecord)
        → is_keyless ≡ false
        → existing ≡ some row
        → Executed (run, answer row)
    succeeded :
        (handled : Handled)
        → is_keyless ≡ false
        → existing ≡ none
        → ran ≡ done handled
        → Executed (
          add_receipt (success handled) (bump command.action handled.run),
          answer (success handled),
        )
    rejected :
        (code : Code)
        → is_keyless ≡ false
        → existing ≡ none
        → ran ≡ reject code
        → Executed (add_receipt (rejection code) run, answer (rejection code))
    crashed :
        (e : Exc)
        → is_keyless ≡ false
        → existing ≡ none
        → ran ≡ raise e
        → Executed (run, Response.crashed e)

  pub execute-Executed : Executed (execute digest fresh run command)
  unfolding execute
  execute-Executed = elim (Bool-cases is_keyless) [
    | inl e ↦ rw e (Executed.keyless e)
    | inr e ↦ elim (Option-cases existing) [
      | inr (row, found) ↦ rw (e, found) (Executed.replayed row e found)
      | inl missing ↦ elim (Outcome-cases ran) [
        | inl (handled, q) ↦ rw (e, missing, q) (Executed.succeeded handled e missing q)
        | inr (inl (code, q)) ↦ rw (e, missing, q) (Executed.rejected code e missing q)
        | inr (inr (x, q)) ↦ rw (e, missing, q) (Executed.crashed x e missing q)
      ]
    ]
  ]
