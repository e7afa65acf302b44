-- ===== src/Sandbox/Receipts.antt =====
-- What `get_receipt` finds under a key, before and after further commands.
use rule_arena.Common.{
  ◌≡◌, refl, sym, Bool, true, false, ◌&&◌, Bool-cases, Option-cases, inl, inr, Option, none, some,
  List, [], ◌∷◌, ◌++◌, String, arith, ◌==◌,
}
use mathlib.Core.List.{append-nil}
use rule_arena.Common.Outcome.{done, reject, or_reject, ◌>>=◌}
use rule_arena.Common.Text.{str_eq}
use rule_arena.Common.Json.{Fields}
use rule_arena.Sandbox.Models.{ActionName, ActionCommand, ActionReceiptRecord, Code, RunSpace}
use rule_arena.Sandbox.Profile.{SandboxProfile, DefectAxis, exhibits}
use rule_arena.Sandbox.Execute.{
  Fresh, Response, ActionReceipt, is_inspect, is_receipt_of, is_refund_order, same_action, first,
  key_of, execute, acknowledge, profile_of, receipt_from_record,
}
use rule_arena.Sandbox.Runs.{get_receipt}
use rule_arena.Sandbox.Reach.{dispatch-Kept}
use rule_arena.Sandbox.Retry.{first-append_none, first-append_some, str_eq_refl}
use rule_arena.Sandbox.Step.{Executed, execute-Executed, success, rejection}

-- The row that `get_receipt` reads.
abbrev pub row_of : RunSpace → String → Option ActionReceiptRecord
row_of run key =
    first (λ row. row.epoch == run.epoch && str_eq row.idempotency_key key) run.receipts

get_receipt_row :
    (run : RunSpace) (key : String) {r : ActionReceipt}
    → get_receipt run key ≡ done r
    → (row : ActionReceiptRecord) × (row_of run key ≡ some row)
      × (receipt_from_record run.id row row.action_type ≡ r)
unfolding get_receipt or_reject ◌>>=◌
get_receipt_row run key h = elim (Option-cases (row_of run key)) [
  | inl e ↦ cc (rw e at h)
  | inr (row, e) ↦ (row, e, cc (rw e at h))
]

-- The run still has its name and its epoch, and its receipts come first.
abbrev Extends : RunSpace → RunSpace → Type 0
Extends run after =
    (after.id ≡ run.id)
    × (after.epoch ≡ run.epoch)
    × ((more : List ActionReceiptRecord) × (after.receipts ≡ run.receipts ++ more))

module _ (digest : Fields → String) (fresh : Fresh) (run : RunSpace) (command : ActionCommand) where
  no_more : run.receipts ≡ run.receipts ++ []
  no_more = sym (append-nil run.receipts)

  Executed-Extends :
      (r : RunSpace × Response) → Executed digest fresh run command r → Extends run r.0
  Executed-Extends r (Executed.keyless h) = (refl, refl, ([], no_more))
  Executed-Extends r (Executed.replayed row keyed found) = (refl, refl, ([], no_more))
  Executed-Extends r (Executed.succeeded handled keyed missing q) =
      let kept = (dispatch-Kept digest fresh (profile_of run) run command _).at handled q in
      let (id, scenario, version, axes, epoch, snapshot, receipts) = kept.frame in
      elim (Bool-cases (is_inspect command.action)) [
        | inl e ↦ rw e (id, epoch, (success digest fresh run command handled ∷ [], rw receipts))
        | inr e ↦ rw e (id, epoch, (success digest fresh run command handled ∷ [], rw receipts))
      ]
  Executed-Extends r (Executed.rejected code keyed missing q) =
      (refl, refl, (rejection digest fresh run command code ∷ [], refl))
  Executed-Extends r (Executed.crashed e keyed missing q) = (refl, refl, ([], no_more))

get_receipt-Extends :
    (run after : RunSpace) (key : String) {r : ActionReceipt}
    → Extends run after
    → get_receipt run key ≡ done r
    → get_receipt after key ≡ done r
unfolding get_receipt or_reject ◌>>=◌
get_receipt-Extends run after key (id, epoch, (more, receipts)) h =
    let (row, found, read) = get_receipt_row run key h in
    let still : row_of after key ≡ some row =
      rw (epoch, receipts) (first-append_some _ run.receipts more found) in
    rw (still, id, read)

-- The receipt that a key answers with never changes within an epoch: no command that runs later, with
-- whatever action and key, alters what `get_receipt` returns once it returns a receipt.
pub get_receipt-execute :
    (digest : Fields → String) (fresh : Fresh) (run : RunSpace) (command : ActionCommand)
    (key : String) (receipt : ActionReceipt)
    → get_receipt run key ≡ done receipt
    → get_receipt (execute digest fresh run command).0 key ≡ done receipt
get_receipt-execute digest fresh run command key receipt h =
    get_receipt-Extends run (execute digest fresh run command).0 key
      (Executed-Extends digest fresh run command (execute digest fresh run command)
        (execute-Executed digest fresh run command))
      h

pub outer_tests : (a b c : Bool) → (a && b && c) ≡ true → (a && c) ≡ true
outer_tests a b c h = ground arith

-- No row passes a test that is stronger than one that none passes.
pub first-none :
    (p q : ActionReceiptRecord → Bool) (rows : List ActionReceiptRecord)
    → ((row : ActionReceiptRecord) → p row ≡ true → q row ≡ true)
    → first q rows ≡ none
    → first p rows ≡ none
first-none p q [] stronger h = refl
first-none p q (row ∷ rows) stronger h = elim (Bool-cases (q row)) [
  | inl e ↦ cc (rw e at h)
  | inr e ↦ elim (Bool-cases (p row)) [
    | inl f ↦ cc (stronger row f, e)
    | inr f ↦ rw f (first-none p q rows stronger (rw e at h))
  ]
]

acknowledge_lost :
    (profile : SandboxProfile) (action : ActionName) (receipt : ActionReceipt) (id : String)
    → acknowledge profile action receipt ≡ Response.ack_lost id
    → receipt.receipt_id ≡ id
unfolding acknowledge
acknowledge_lost profile action receipt id h =
    elim (Bool-cases (is_refund_order action && exhibits profile DefectAxis.refund_ack_lost)) [
      | inl e ↦ cc (rw e at h)
      | inr e ↦ cc (rw e at h)
    ]

-- The receipt that `get_receipt` returns after an answer was lost.
pub record Recovered (run : RunSpace) (command : ActionCommand) (key id : String) : Type 0 where
  pub receipt : ActionReceipt
  pub found : get_receipt run key ≡ done receipt
  pub same : receipt.receipt_id ≡ id
  pub action : receipt.action_type ≡ command.action

module _ (digest : Fields → String) (fresh : Fresh) (run : RunSpace) (command : ActionCommand)
    (key : String) (keyed : key_of command fresh ≡ key) (unused : row_of run key ≡ none) where
  written :
      (after : RunSpace) (row : ActionReceiptRecord) (id : String)
      → after.epoch ≡ run.epoch
      → after.receipts ≡ run.receipts ++ row ∷ []
      → row.epoch ≡ run.epoch
      → row.idempotency_key ≡ key
      → row.action_type ≡ command.action
      → row.receipt_id ≡ id
      → Recovered after command key id
  unfolding get_receipt or_reject ◌>>=◌ receipt_from_record
  written after row id epoch receipts here named acts same =
      let same_epoch : (run.epoch == run.epoch) ≡ true = ground arith in
      let stands : (row.epoch == run.epoch && str_eq row.idempotency_key key) ≡ true =
        rw (here, named, same_epoch, str_eq_refl key) in
      let found : row_of after key ≡ some row =
        rw (epoch, receipts) (first-append_none _ run.receipts row unused stands) in
      record {
        receipt = receipt_from_record after.id row row.action_type;
        found = rw found;
        same = same;
        action = acts;
      }

  recovered :
      (r : RunSpace × Response) (id : String)
      → Executed digest fresh run command r
      → r.1 ≡ Response.ack_lost id
      → Recovered r.0 command key id
  unfolding receipt_from_record
  recovered r id (Executed.keyless h) lost = cc
  recovered r id (Executed.replayed row h found) lost =
      let none_here : first (is_receipt_of run.epoch command.action (key_of command fresh))
            run.receipts
          ≡ none =
        first-none _ _ run.receipts
          (λ row' p.
            outer_tests (row'.epoch == run.epoch) (same_action row'.action_type command.action)
              (str_eq row'.idempotency_key key) (rw keyed at p))
          unused in
      cc (found, none_here)
  recovered r id (Executed.succeeded handled h missing q) lost =
      let kept = (dispatch-Kept digest fresh (profile_of run) run command _).at handled q in
      let (_, scenario, version, axes, epoch, snapshot, receipts) = kept.frame in
      let same = acknowledge_lost (profile_of run) command.action _ id lost in
      elim (Bool-cases (is_inspect command.action)) [
        | inl e ↦ rw e (
            written _ (success digest fresh run command handled) id epoch (rw receipts) refl keyed
              refl same)
        | inr e ↦ rw e (
            written _ (success digest fresh run command handled) id epoch (rw receipts) refl keyed
              refl same)
      ]
  recovered r id (Executed.rejected code h missing q) lost =
      written _ (rejection digest fresh run command code) id refl refl refl keyed refl
        (acknowledge_lost (profile_of run) command.action _ id lost)
  recovered r id (Executed.crashed e h missing q) lost = cc

pub get_receipt_unused :
    (run : RunSpace) (key : String)
    → get_receipt run key ≡ reject Code.receipt_not_found
    → row_of run key ≡ none
unfolding get_receipt or_reject ◌>>=◌
get_receipt_unused run key h = elim (Option-cases (row_of run key)) [
  | inl e ↦ e
  | inr (row, e) ↦ cc (rw e at h)
]

-- A lost acknowledgement can be recovered: when the answer to a command is lost, and its key was not
-- used before in the epoch, `get_receipt` returns under that key the receipt of this command, with
-- the identifier that the lost answer had.
pub execute-Recovered :
    (digest : Fields → String) (fresh : Fresh) (run : RunSpace) (command : ActionCommand)
    (key id : String)
    → command.idempotency_key ≡ some key
    → str_eq key "" ≡ false
    → get_receipt run key ≡ reject Code.receipt_not_found
    → (execute digest fresh run command).1 ≡ Response.ack_lost id
    → Recovered (execute digest fresh run command).0 command key id
execute-Recovered digest fresh run command key id given some_text unused lost =
    recovered digest fresh run command key (rw (given, some_text))
      (get_receipt_unused run key unused) (execute digest fresh run command) id
      (execute-Executed digest fresh run command) lost
