-- ===== src/Replay/Recovery.antt =====
-- A write of a replay against the sandbox: whether its answer arrives makes no difference.
use rule_arena.Common.{◌≡◌, refl, false, Bool-cases, ◌⊎◌, inl, inr, some, String, ◌&&◌, ltb, leb}
use rule_arena.Common.Outcome.{Exc, done, reject}
use rule_arena.Common.Text.{str_eq}
use rule_arena.Common.Json.{Fields}
use rule_arena.RuntimeGate.{Reply}
use rule_arena.Sandbox.Models.{ActionCommand, ActionName, Code, RunSpace}
use rule_arena.Sandbox.Execute.{
  Fresh, Response, ActionReceipt, execute, acknowledge, is_refund_order, profile_of,
}
use rule_arena.Sandbox.Profile.{SandboxProfile, DefectAxis, exhibits}
use rule_arena.Sandbox.Runs.{get_receipt}
use rule_arena.Sandbox.App.{status_code, action_reply, receipt_reply}
use rule_arena.Sandbox.Commit.{Commit, execute-Commit}
use rule_arena.Replay.{
  Receipt, WriteResult, written, authoritative_receipt, replied, timeout, is_unanswered, receipt,
}

-- The codes of the errors of the service are neither successes nor those of a gateway.
status_code_error :
    (code : Code)
    → (is_unanswered (status_code code) ≡ false)
      × ((leb 200 (status_code code) && ltb (status_code code) 300) ≡ false)
unfolding status_code
status_code_error Code.run_not_found = (refl, refl)
status_code_error Code.receipt_not_found = (refl, refl)
status_code_error Code.scenario_not_found = (refl, refl)
status_code_error Code.idempotency_key_required = (refl, refl)
status_code_error _ = (refl, refl)

module _ (model_dump : ActionReceipt → Fields) (error_body : Code → Fields)
    (path_key : String → String) where
  -- The reply to the request for the receipt under the key that the path of its URL carries.
  abbrev pub lookup_reply : RunSpace → String → Reply
  lookup_reply run key = receipt_reply model_dump error_body (get_receipt run (path_key key))

  -- The write when its answer arrives, and when the client times out.
  abbrev pub answered_write : RunSpace × Response → String → WriteResult
  answered_write r key =
      written (replied (action_reply model_dump error_body r.1)) (lookup_reply r.0 key)

  abbrev pub unanswered_write : RunSpace → String → WriteResult
  unanswered_write run key = written timeout (lookup_reply run key)

  refused_write :
      (code : Code) (lookup : Reply)
      → written (replied (action_reply model_dump error_body (Response.refused code))) lookup
        ≡ WriteResult.failed
  unfolding written action_reply
  refused_write code lookup =
      let (open_code, no_success) = status_code_error code in rw (open_code, no_success) refl

  crashed_write :
      (e : Exc) (lookup : Reply)
      → written (replied (action_reply model_dump error_body (Response.crashed e))) lookup
        ≡ WriteResult.failed
  unfolding written action_reply
  crashed_write e lookup = refl

  never_committed :
      (run : RunSpace) (key : String)
      → path_key key ≡ key
      → get_receipt run key ≡ reject Code.receipt_not_found
      → unanswered_write run key ≡ WriteResult.action_unknown
  unfolding written authoritative_receipt receipt_reply status_code
  never_committed run key carried unused = rw (carried, unused) refl

  found_again :
      (after : RunSpace) (key : String) (found : ActionReceipt)
      → path_key key ≡ key
      → get_receipt after key ≡ done found
      → unanswered_write after key ≡ receipt (Receipt.of_mapping (model_dump found))
  unfolding written authoritative_receipt receipt_reply
  found_again after key found carried e = rw (carried, e) refl

  -- A stored receipt reaches the replay, whether it is answered or its answer is lost.
  acknowledged_write :
      (profile : SandboxProfile) (action : ActionName) (found : ActionReceipt) (after : RunSpace)
      (key : String)
      → path_key key ≡ key
      → get_receipt after key ≡ done found
      → answered_write (after, acknowledge profile action found) key
        ≡ receipt (Receipt.of_mapping (model_dump found))
  unfolding acknowledge written action_reply authoritative_receipt receipt_reply
  acknowledged_write profile action found after key carried e =
      elim (Bool-cases (is_refund_order action && exhibits profile DefectAxis.refund_ack_lost)) [
        | inl lost ↦ rw (lost, carried, e) refl
        | inr arrives ↦ rw arrives refl
      ]

  -- Either both writes have the receipt that the service now returns under the key, or the command
  -- left the run as it was and neither write has one.
  abbrev pub AnswerIsNoMatter : RunSpace → RunSpace × Response → String → Type 0
  AnswerIsNoMatter run r key =
      ((found : ActionReceipt) × (get_receipt r.0 key ≡ done found)
        × (answered_write r key ≡ receipt (Receipt.of_mapping (model_dump found)))
        × (unanswered_write r.0 key ≡ receipt (Receipt.of_mapping (model_dump found))))
      ⊎ ((r.0 ≡ run)
          × (answered_write r key ≡ WriteResult.failed)
          × (unanswered_write r.0 key ≡ WriteResult.action_unknown))

  Commit-AnswerIsNoMatter :
      (run : RunSpace) (command : ActionCommand) (key : String) (r : RunSpace × Response)
      → path_key key ≡ key
      → get_receipt run key ≡ reject Code.receipt_not_found
      → Commit run command key r
      → AnswerIsNoMatter run r key
  Commit-AnswerIsNoMatter run command key r carried unused (Commit.refused code) =
      inr (refl, refused_write code _, never_committed run key carried unused)
  Commit-AnswerIsNoMatter run command key r carried unused (Commit.crashed e) =
      inr (refl, crashed_write e _, never_committed run key carried unused)
  Commit-AnswerIsNoMatter run command key r carried unused (Commit.stored after found e) = inl (
    found,
    e,
    acknowledged_write (profile_of run) command.action found after key carried e,
    found_again after key found carried e,
  )

-- It makes no difference to the receipts of a replay whether the answer to a command arrives: for a
-- key that is not empty, that the path of a URL carries unchanged and that was not used before in the
-- epoch, once the command has ended, either the write has the receipt that the service returns under
-- the key, both when its answer arrives or is a 504 and when the client times out, or the command
-- left the run as it was, the answer is an error, and after a timeout the write is ACTION_UNKNOWN.
pub written-execute :
    (model_dump : ActionReceipt → Fields) (error_body : Code → Fields) (path_key : String → String)
    (digest : Fields → String) (fresh : Fresh) (run : RunSpace) (command : ActionCommand)
    (key : String)
    → path_key key ≡ key
    → command.idempotency_key ≡ some key
    → str_eq key "" ≡ false
    → get_receipt run key ≡ reject Code.receipt_not_found
    → AnswerIsNoMatter model_dump error_body path_key run (execute digest fresh run command) key
written-execute model_dump error_body path_key digest fresh run command key carried given some_text
      unused =
    Commit-AnswerIsNoMatter model_dump error_body path_key run command key
      (execute digest fresh run command) carried unused
      (execute-Commit digest fresh run command key given some_text unused)
