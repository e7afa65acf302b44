-- ===== src/Sandbox/Commit.antt =====
-- What a command under an unused key leaves for `get_receipt`: nothing, or the receipt it answers.
use rule_arena.Common.{
  ◌≡◌, refl, true, false, ◌&&◌, Bool-cases, inl, inr, none, some, [], ◌∷◌, ◌++◌, String, arith,
  ◌==◌,
}
use rule_arena.Common.Outcome.{Exc, done, reject, or_reject, ◌>>=◌}
use rule_arena.Common.Text.{str_eq}
use rule_arena.Common.Json.{Fields}
use rule_arena.Sandbox.Models.{ActionCommand, ActionReceiptRecord, Code, RunSpace}
use rule_arena.Sandbox.Execute.{
  Fresh, Response, ActionReceipt, is_inspect, is_receipt_of, same_action, first, key_of, execute,
  acknowledge, profile_of, receipt_from_record,
}
use rule_arena.Sandbox.Runs.{get_receipt}
use rule_arena.Sandbox.Reach.{dispatch-Kept}
use rule_arena.Sandbox.Retry.{first-append_none, str_eq_refl}
use rule_arena.Sandbox.Receipts.{row_of, outer_tests, first-none, get_receipt_unused}
use rule_arena.Sandbox.Step.{Executed, execute-Executed, success, rejection}

-- How a command with this key ended: the run is as it was, or holds the receipt of the answer.
pub data Commit (run : RunSpace) (command : ActionCommand) (key : String)
    : RunSpace × Response → Type 0 where
  refused : (code : Code) → Commit run command key (run, Response.refused code)
  crashed : (e : Exc) → Commit run command key (run, Response.crashed e)
  stored :
      (after : RunSpace) (receipt : ActionReceipt)
      → get_receipt after key ≡ done receipt
      → Commit run command key (after, acknowledge (profile_of run) command.action receipt)

module _ (digest : Fields → String) (fresh : Fresh) (run : RunSpace) (command : ActionCommand)
    (key : String) (keyed : key_of command fresh ≡ key) (unused : row_of run key ≡ none) where
  -- The row that is added at the end is the one that `get_receipt` reads.
  appended :
      (after : RunSpace) (row : ActionReceiptRecord)
      → after.id ≡ run.id
      → after.epoch ≡ run.epoch
      → after.receipts ≡ run.receipts ++ row ∷ []
      → row.epoch ≡ run.epoch
      → row.idempotency_key ≡ key
      → row.action_type ≡ command.action
      → get_receipt after key ≡ done (receipt_from_record run.id row command.action)
  unfolding get_receipt or_reject ◌>>=◌
  appended after row id epoch receipts here named acts =
      let same_epoch : (run.epoch == run.epoch) ≡ true = ground arith in
      let stands : (row.epoch == run.epoch && str_eq row.idempotency_key key) ≡ true =
        rw (here, named, same_epoch, str_eq_refl key) in
      let found : row_of after key ≡ some row =
        rw (epoch, receipts) (first-append_none _ run.receipts row unused stands) in
      rw (found, id, acts)

  none_before :
      first (is_receipt_of run.epoch command.action (key_of command fresh)) run.receipts ≡ none
  none_before =
      first-none _ _ run.receipts
        (λ row p.
          outer_tests (row.epoch == run.epoch) (same_action row.action_type command.action)
            (str_eq row.idempotency_key key) (rw keyed at p))
        unused

  Executed-Commit :
      (r : RunSpace × Response) → Executed digest fresh run command r → Commit run command key r
  Executed-Commit r (Executed.keyless h) = Commit.refused Code.idempotency_key_required
  Executed-Commit r (Executed.replayed row h found) = cc (found, none_before)
  Executed-Commit r (Executed.succeeded handled h missing q) =
      let kept = (dispatch-Kept digest fresh (profile_of run) run command _).at handled q in
      let (id, scenario, version, axes, epoch, snapshot, receipts) = kept.frame in
      Commit.stored _ _ (elim (Bool-cases (is_inspect command.action)) [
        | inl e ↦ rw e (
            appended _ (success digest fresh run command handled) id epoch (rw receipts) refl keyed
              refl)
        | inr e ↦ rw e (
            appended _ (success digest fresh run command handled) id epoch (rw receipts) refl keyed
              refl)
      ])
  Executed-Commit r (Executed.rejected code h missing q) =
      Commit.stored _ _
        (appended _ (rejection digest fresh run command code) refl refl refl refl keyed refl)
  Executed-Commit r (Executed.crashed e h missing q) = Commit.crashed e

pub execute-Commit :
    (digest : Fields → String) (fresh : Fresh) (run : RunSpace) (command : ActionCommand)
    (key : String)
    → command.idempotency_key ≡ some key
    → str_eq key "" ≡ false
    → get_receipt run key ≡ reject Code.receipt_not_found
    → Commit run command key (execute digest fresh run command)
execute-Commit digest fresh run command key given some_text unused =
    Executed-Commit digest fresh run command key (rw (given, some_text))
      (get_receipt_unused run key unused) (execute digest fresh run command)
      (execute-Executed digest fresh run command)
