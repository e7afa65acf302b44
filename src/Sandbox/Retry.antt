-- ===== src/Sandbox/Retry.antt =====
-- A command that is sent again, and the receipt that a caller reads when the answer was lost.
use rule_arena.Common.{
  ℕ, ◌+◌, ◌≡◌, refl, ◌∙◌, Bool, true, false, not, Bool-cases, inl, inr, Option, none, some, List,
  [], ◌∷◌, ◌++◌, arith, String, ◌==◌,
}
use rule_arena.Common.Outcome.{raise, Returns, Returns-reject_if}
use rule_arena.Common.Text.{str_eq, truthy, or_else, eq_iff}
use rule_arena.Common.Json.{Fields}
use rule_arena.Sandbox.Models.{ActionName, ActionCommand, ActionReceiptRecord, RunSpace}
use rule_arena.Sandbox.Profile.{SandboxProfile}
use rule_arena.Sandbox.Snapshot.{inspect_state}
use rule_arena.Sandbox.Execute.{
  Fresh, Response, is_inspect, is_receipt_of, action_code, first, key_of, add_receipt, bump,
  handler, dispatch, execute, profile_of,
}
use rule_arena.Sandbox.Reach.{dispatch-Kept, inspect_state_same}
use rule_arena.Sandbox.Step.{
  Executed, execute-Executed, is_keyless, existing, ran, answer, success, rejection,
}

module _ {ℓ} {A : Type ℓ} (p : A → Bool) where
  pub first-append_none :
      (xs : List A) (y : A) → first p xs ≡ none → p y ≡ true → first p (xs ++ y ∷ []) ≡ some y
  first-append_none [] y h q = rw q
  first-append_none (x ∷ xs) y h q = elim (Bool-cases (p x)) [
    | inl e ↦ cc (rw e at h)
    | inr e ↦ rw e (first-append_none xs y (rw e at h) q)
  ]

  pub first-append_some :
      (xs ys : List A) {x : A} → first p xs ≡ some x → first p (xs ++ ys) ≡ some x
  first-append_some [] ys h = cc
  first-append_some (x ∷ xs) ys h = elim (Bool-cases (p x)) [
    | inl e ↦ rw e (rw e at h)
    | inr e ↦ rw e (first-append_some xs ys (rw e at h))
  ]

pub str_eq_refl : (s : String) → str_eq s s ≡ true
str_eq_refl s = (eq_iff s s).1 refl

is_receipt_of_new :
    (epoch : ℕ) (action : ActionName) (key : String) (row : ActionReceiptRecord)
    → row.epoch ≡ epoch
    → row.action_type ≡ action
    → row.idempotency_key ≡ key
    → is_receipt_of epoch action key row ≡ true
is_receipt_of_new epoch action key row e a k =
    let same : (epoch == epoch) ≡ true = ground arith in
    let acts : (action_code action == action_code action) ≡ true = ground arith in
    rw (e, a, k, same, acts, str_eq_refl key)

or_else-truthy : (o : Option String) (d d' : String) → truthy o ≡ true → or_else o d' ≡ or_else o d
or_else-truthy none d d' h = cc
or_else-truthy (some s) d d' h = let other : str_eq s "" ≡ false = ground (arith, h) in rw other

-- A call takes the caller's key when there is one.
key_of-truthy :
    (command : ActionCommand) (fresh fresh' : Fresh)
    → truthy command.idempotency_key ≡ true
    → key_of command fresh' ≡ key_of command fresh
key_of-truthy command fresh fresh' h = or_else-truthy command.idempotency_key _ _ h

-- Only a look at the run depends on what a call takes from outside.
handler_fresh :
    (digest : Fields → String) (action : ActionName) (fresh fresh' : Fresh)
    → is_inspect action ≡ false
    → handler digest action fresh' ≡ handler digest action fresh
handler_fresh digest ActionName.create_user fresh fresh' h = refl
handler_fresh digest ActionName.issue_coupon fresh fresh' h = refl
handler_fresh digest ActionName.create_order fresh fresh' h = refl
handler_fresh digest ActionName.apply_coupon fresh fresh' h = refl
handler_fresh digest ActionName.pay_order fresh fresh' h = refl
handler_fresh digest ActionName.cancel_order fresh fresh' h = refl
handler_fresh digest ActionName.refund_order fresh fresh' h = refl
handler_fresh digest ActionName.redeem_points fresh fresh' h = refl
handler_fresh digest ActionName.activate_membership fresh fresh' h = refl
handler_fresh digest ActionName.consume_entitlement fresh fresh' h = refl
handler_fresh digest ActionName.cancel_membership fresh fresh' h = refl
handler_fresh digest ActionName.inspect_state fresh fresh' h = cc

module _ (digest : Fields → String) (fresh fresh' : Fresh) (run : RunSpace)
    (command : ActionCommand) (writes : is_inspect command.action ≡ false) where
  same_key :
      is_keyless digest fresh run command ≡ false → key_of command fresh' ≡ key_of command fresh
  same_key keyed =
      let has_key : not (truthy command.idempotency_key) ≡ false = rw writes at keyed in
      key_of-truthy command fresh fresh' (ground (arith, has_key))

  dispatch_fresh :
      (key : String)
      → dispatch digest fresh' (profile_of run) run command key
        ≡ dispatch digest fresh (profile_of run) run command key
  unfolding dispatch
  dispatch_fresh key = rw (handler_fresh digest command.action fresh fresh' writes)

  -- A run that differs in nothing that the search for the receipt or the answer reads.
  found_again :
      (after : RunSpace) (row : ActionReceiptRecord)
      → is_keyless digest fresh run command ≡ false
      → after.id ≡ run.id
      → after.sandbox_version ≡ run.sandbox_version
      → after.defect_axes ≡ run.defect_axes
      → existing digest fresh' after command ≡ some row
      → execute digest fresh' after command ≡ (after, answer digest fresh run command row)
  unfolding execute
  found_again after row keyed id version axes found = rw (keyed, found, id, version, axes)

  repeated :
      (r : RunSpace × Response)
      → Executed digest fresh run command r
      → execute digest fresh' r.0 command ≡ r
  unfolding execute
  repeated r (Executed.keyless h) = rw h
  repeated r (Executed.replayed row keyed found) =
      found_again run row keyed refl refl refl (rw (same_key keyed) found)
  repeated r (Executed.succeeded handled keyed missing q) =
      let kept = (dispatch-Kept digest fresh (profile_of run) run command _).at handled q in
      let (id, scenario, version, axes, epoch, snapshot, receipts) = kept.frame in
      found_again
        (add_receipt (success digest fresh run command handled) (bump command.action handled.run))
        (success digest fresh run command handled) keyed (rw writes id) (rw writes version)
        (rw writes axes)
        (rw (writes, epoch, receipts, same_key keyed)
          (first-append_none _ run.receipts _ missing (
            is_receipt_of_new run.epoch command.action (key_of command fresh)
              (success digest fresh run command handled) refl refl refl)))
  repeated r (Executed.rejected code keyed missing q) =
      found_again (add_receipt (rejection digest fresh run command code) run)
        (rejection digest fresh run command code) keyed refl refl refl
        (rw (same_key keyed) (
          first-append_none _ run.receipts _ missing (
            is_receipt_of_new run.epoch command.action (key_of command fresh)
              (rejection digest fresh run command code) refl refl refl)))
  repeated r (Executed.crashed e keyed missing q) =
      let missing' : existing digest fresh' run command ≡ none = rw (same_key keyed) missing in
      let crash : ran digest fresh' run command ≡ raise e =
        rw (same_key keyed) (dispatch_fresh (key_of command fresh) ∙ q) in
      rw (keyed, missing', crash)

-- A command that writes can be sent again: whatever its first call did, the second one leaves the
-- run as it is and gives the same answer, an acknowledgement that is lost included.
pub execute-repeat :
    (digest : Fields → String) (fresh fresh' : Fresh) (run : RunSpace) (command : ActionCommand)
    → is_inspect command.action ≡ false
    → execute digest fresh' (execute digest fresh run command).0 command
      ≡ execute digest fresh run command
execute-repeat digest fresh fresh' run command writes =
    repeated digest fresh fresh' run command writes (execute digest fresh run command)
      (execute-Executed digest fresh run command)

-- The rows of a run without its receipts.
abbrev pub without_receipts : RunSpace → RunSpace
without_receipts run = record run { receipts = [] }

inspect_lem : (action : ActionName) → is_inspect action ≡ true → action ≡ ActionName.inspect_state
inspect_lem ActionName.create_user h = cc
inspect_lem ActionName.issue_coupon h = cc
inspect_lem ActionName.create_order h = cc
inspect_lem ActionName.apply_coupon h = cc
inspect_lem ActionName.pay_order h = cc
inspect_lem ActionName.cancel_order h = cc
inspect_lem ActionName.refund_order h = cc
inspect_lem ActionName.redeem_points h = cc
inspect_lem ActionName.activate_membership h = cc
inspect_lem ActionName.consume_entitlement h = cc
inspect_lem ActionName.cancel_membership h = cc
inspect_lem ActionName.inspect_state h = refl

module _ (digest : Fields → String) (fresh : Fresh) (run : RunSpace) (command : ActionCommand) where
  looked :
      (profile : SandboxProfile) (key : String)
      → command.action ≡ ActionName.inspect_state
      → Returns (λ handled. handled.run ≡ run) (dispatch digest fresh profile run command key)
  unfolding dispatch inspect_state
  looked profile key inspects =
      Returns-reject_if _ _ _
        λ _. rw inspects (inspect_state_same digest fresh profile run command key)

  unversioned :
      (r : RunSpace × Response)
      → Executed digest fresh run command r
      → r.0.snapshot_version ≡ run.snapshot_version
      → without_receipts r.0 ≡ without_receipts run
  unversioned r (Executed.keyless h) same = refl
  unversioned r (Executed.replayed row keyed found) same = refl
  unversioned r (Executed.succeeded handled keyed missing q) same =
      elim (Bool-cases (is_inspect command.action)) [
        | inl e ↦
            let unmoved = (looked (profile_of run) _ (inspect_lem command.action e)).at handled q in
            rw (e, unmoved)
        | inr e ↦
            let kept = (dispatch-Kept digest fresh (profile_of run) run command _).at handled q in
            let (id, scenario, version, axes, epoch, snapshot, receipts) = kept.frame in
            let higher : handled.run.snapshot_version + 1 ≡ run.snapshot_version = rw e at same in
            absurd (omega (arith, higher, snapshot))
      ]
  unversioned r (Executed.rejected code keyed missing q) same = refl
  unversioned r (Executed.crashed e keyed missing q) same = refl

-- The version of the snapshot counts every change: when a command leaves it as it was, because it was
-- refused, rejected, repeated, a look at the run, or ended in an exception, no row but the receipts
-- has changed.
pub execute-unversioned :
    (digest : Fields → String) (fresh : Fresh) (run : RunSpace) (command : ActionCommand)
    → (execute digest fresh run command).0.snapshot_version ≡ run.snapshot_version
    → without_receipts (execute digest fresh run command).0 ≡ without_receipts run
execute-unversioned digest fresh run command same =
    unversioned digest fresh run command (execute digest fresh run command)
      (execute-Executed digest fresh run command) same
