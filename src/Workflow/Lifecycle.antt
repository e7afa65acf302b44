-- ===== src/Workflow/Lifecycle.antt =====
-- How a call of the store may change the status of a run.
use rule_arena.Common.{
  ◌≡◌, refl, ap, ◌∙◌, Bool, true, false, Bool-cases, ◌⊎◌, inl, inr, Option, none, some, String,
  arith,
}
use rule_arena.Common.Text.{str_eq, eq_iff}
use rule_arena.Common.Table.{
  Table, lookup, insert, text_key, lookup-insert_self, lookup-insert_other,
}
use rule_arena.Workflow.Models.{AttackStatus, AttackOutcome, AttackRun, transition_allowed}
use rule_arena.Workflow.Store.{RuntimeStore, arguments_refused}
use rule_arena.Workflow.Call.{Call, perform, Fresh}
use rule_arena.Workflow.Change.{
  Change, perform-Change, unchanged, run_created, status_set, event_added, others_changed,
}

-- What may become of a run: it stays, or it moves along an edge of the table.
abbrev pub Follows : AttackRun → AttackRun → Type 0
Follows run run' = (run' ≡ run) ⊎ (transition_allowed run.status run'.status ≡ true)

accepted_allowed :
    (expected target : AttackStatus) (outcome : Option AttackOutcome)
    → arguments_refused expected target outcome ≡ false
    → transition_allowed expected target ≡ true
accepted_allowed expected target outcome h =
    elim (Bool-cases (transition_allowed expected target)) [ inl e ↦ e | inr e ↦ ground (arith, e) ]

-- A run in a table into which the run `new` is put under `k`.
inserted-Follows :
    (id k : String) (runs : Table String AttackRun) (run new : AttackRun)
    → lookup id runs ≡ some run
    → (id ≡ k → Follows run new)
    → (run' : AttackRun) × (lookup id (insert k new runs) ≡ some run') × Follows run run'
inserted-Follows id k runs run new found moves = elim (Bool-cases (str_eq id k)) [
  | inl e ↦
      let same : id ≡ k = (eq_iff id k).0 e in
      (new, rw same (lookup-insert_self k new runs), moves same)
  | inr e ↦
      let apart : ¬ (id ≡ k) = λ q. cc ((eq_iff id k).1 q, e) in
      (run, lookup-insert_other id k new runs apart ∙ found, inl refl)
]

missing_found : {A : Type 0} {o : Option A} {a : A} → o ≡ none → ¬ (o ≡ some a)
missing_found h e = cc

one_value : {A : Type 0} {o : Option A} {a b : A} → o ≡ some a → o ≡ some b → a ≡ b
one_value h e = cc

module _ {s : RuntimeStore} (id : String) {run : AttackRun}
    (found : lookup id s.runs ≡ some run) where
  Change-Follows :
      {t : RuntimeStore}
      → Change s t
      → (run' : AttackRun) × (lookup id t.runs ≡ some run') × Follows run run'
  Change-Follows unchanged = (run, found, inl refl)
  Change-Follows (run_created new k now job_new fresh) =
      inserted-Follows id k s.runs run _ found
        (λ same. absurd (missing_found fresh (rw same at found)))
  Change-Follows (status_set current expected target outcome now k accepted there at_expected) =
      inserted-Follows id k s.runs run _ found (λ same. inr (
        rw (one_value (rw same at found) there, at_expected)
          (accepted_allowed expected target outcome accepted)))
  Change-Follows (event_added k kind fields now) = (run, found, inl refl)
  Change-Follows (others_changed t same_runs same_events) = (run, rw same_runs found, inl refl)

-- Whatever state-changing call is made, with a fresh identifier for a new run, a run of the store is
-- there afterwards, and either it is as it was or its status has moved along an edge of the table.
pub perform-Follows :
    (c : Call) (s : RuntimeStore) (id : String) {run : AttackRun}
    → Fresh c s
    → lookup id s.runs ≡ some run
    → (run' : AttackRun) × (lookup id (perform c s).runs ≡ some run') × Follows run run'
perform-Follows c s id fresh found = Change-Follows id found (perform-Change c s fresh)

-- `COMPLETED` and `CANCELLED`, from which no edge leads.
abbrev pub is_settled : AttackStatus → Bool
is_settled AttackStatus.completed = true
is_settled AttackStatus.cancelled = true
is_settled _ = false

settled_stays :
    (status target : AttackStatus)
    → is_settled status ≡ true
    → ¬ (transition_allowed status target ≡ true)
unfolding transition_allowed
settled_stays AttackStatus.completed target h e = cc
settled_stays AttackStatus.cancelled target h e = cc
settled_stays _ target h e = cc

-- No state-changing call, with a fresh identifier for a new run, changes a run that is completed or
-- cancelled.
pub perform_settled :
    (c : Call) (s : RuntimeStore) (id : String) {run : AttackRun}
    → Fresh c s
    → lookup id s.runs ≡ some run
    → is_settled run.status ≡ true
    → lookup id (perform c s).runs ≡ some run
perform_settled c s id {run} fresh found settled =
    let (run', there, follows) = perform-Follows c s id fresh found in
    elim follows [
      | inl same ↦ there ∙ ap some same
      | inr moved ↦ absurd (settled_stays run.status run'.status settled moved)
    ]
