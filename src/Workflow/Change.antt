-- ===== src/Workflow/Change.antt =====
-- What the calls of the store do to its runs and its events.
use rule_arena.Common.{
  ℕ, ◌≡◌, refl, false, Bool-cases, Option-cases, inl, inr, Option, none, some, String, ◌==◌,
}
use rule_arena.Common.Text.{truthy, or_else}
use rule_arena.Common.Table.{lookup, text_key, pair_key}
use rule_arena.Common.Json.{Fields}
use rule_arena.Workflow.Models.{
  AttackStatus, AttackOutcome, AttackRun, same_status, same_status-eq, strategy_key, StrategyType,
  Budget, StrategyRun, CounterexampleRecord,
}
use rule_arena.Workflow.Store.{
  RuntimeStore, NewRun, append_event, create_run, compare_and_set_status, get_run, request_cancel,
  arguments_refused, is_cancellable, with_event, set_status, created_store,
}
use rule_arena.Workflow.Records.{
  ensure_strategy, update_strategy, save_checkpoint, save_counterexample, found_strategy,
  version_of,
}
use rule_arena.Workflow.Call.{Call, perform, Fresh, store_after}

pub data Change (s : RuntimeStore) : RuntimeStore → Type 0 where
  unchanged : Change s s
  run_created :
      (new : NewRun) (id : String) (now : ℕ)
      → lookup new.job_key s.jobs ≡ none
      → lookup id s.runs ≡ none
      → Change s (created_store new id now s)
  status_set :
      (current : AttackRun) (expected target : AttackStatus) (outcome : Option AttackOutcome)
      (now : ℕ) (id : String)
      → arguments_refused expected target outcome ≡ false
      → lookup id s.runs ≡ some current
      → current.status ≡ expected
      → Change s (set_status current expected target outcome now id s)
  event_added :
      (id kind : String) (fields : Fields) (now : ℕ) → Change s (with_event id kind fields now s)
  others_changed : (t : RuntimeStore) → t.runs ≡ s.runs → t.events ≡ s.events → Change s t

module _ (s : RuntimeStore) where
  create-Change :
      (new : NewRun) (id : String) (now : ℕ)
      → lookup id s.runs ≡ none
      → Change s (perform (Call.create new id now) s)
  unfolding perform create_run get_run
  create-Change new id now fresh = elim (Option-cases (lookup new.job_key s.jobs)) [
    | inl new_job ↦ rw (create_run, new_job) (run_created new id now new_job fresh)
    | inr (run, found) ↦ elim (Option-cases (lookup run s.runs)) [
      | inl missing ↦ rw (create_run, found, get_run, missing) unchanged
      | inr (item, there) ↦ rw (create_run, found, get_run, there) unchanged
    ]
  ]

  compare_and_set-Change :
      (id : String) (expected target : AttackStatus) (outcome : Option AttackOutcome) (now : ℕ)
      → Change s (perform (Call.compare_and_set id expected target outcome now) s)
  unfolding perform compare_and_set_status
  compare_and_set-Change id expected target outcome now =
      elim (Bool-cases (arguments_refused expected target outcome)) [
        | inl refused ↦ rw refused unchanged
        | inr accepted ↦ elim (Option-cases (lookup id s.runs)) [
          | inl missing ↦ rw (accepted, missing) unchanged
          | inr (current, found) ↦ elim (Bool-cases (same_status current.status expected)) [
            | inl same ↦
                rw (accepted, found, same)
                  (status_set current expected target outcome now id accepted found
                    (same_status-eq _ _ same))
            | inr other ↦ rw (accepted, found, other) unchanged
          ]
        ]
      ]

  cancel-Change : (id : String) (now : ℕ) → Change s (perform (Call.cancel id now) s)
  unfolding perform request_cancel
  cancel-Change id now = elim (Option-cases (lookup id s.runs)) [
    | inl missing ↦ rw (request_cancel, missing) unchanged
    | inr (run, found) ↦ elim (Bool-cases (is_cancellable run.status)) [
      | inl e ↦
          rw (request_cancel, found, e)
            (compare_and_set-Change id run.status AttackStatus.cancel_requested none now)
      | inr e ↦ rw (request_cancel, found, e) unchanged
    ]
  ]

  found_strategy-Change : (existing : String) → Change s (store_after s (found_strategy existing s))
  found_strategy-Change existing = elim (Option-cases (lookup existing s.strategies)) [
    | inl missing ↦ rw (found_strategy, missing) unchanged
    | inr (item, there) ↦ rw (found_strategy, there) unchanged
  ]

  ensure-Change :
      (run : String) (kind : StrategyType) (budget : Budget) (id : String)
      → Change s (perform (Call.ensure run kind budget id) s)
  unfolding perform ensure_strategy
  ensure-Change run kind budget id =
      elim (Bool-cases (truthy (lookup (run, kind) s.strategy_keys))) [
        | inl e ↦ rw e (found_strategy-Change (or_else (lookup (run, kind) s.strategy_keys) ""))
        | inr e ↦ rw e (others_changed _ refl refl)
      ]

  update-Change : (strategy : StrategyRun) → Change s (perform (Call.update strategy) s)
  unfolding perform update_strategy
  update-Change strategy = elim (Option-cases (lookup strategy.strategy_run_id s.strategies)) [
    | inl missing ↦ rw (update_strategy, missing) unchanged
    | inr (old, found) ↦ rw (update_strategy, found) (others_changed _ refl refl)
  ]

  checkpoint-Change :
      (id : String) (state : Fields) (version now : ℕ)
      → Change s (perform (Call.checkpoint id state version now) s)
  unfolding perform save_checkpoint
  checkpoint-Change id state version now =
      elim (Bool-cases (version_of (lookup id s.checkpoints) == version)) [
        | inl e ↦ rw e (others_changed _ refl refl)
        | inr e ↦ rw e unchanged
      ]

  counterexample-Change :
      (item : CounterexampleRecord) → Change s (perform (Call.counterexample item) s)
  unfolding perform save_counterexample
  counterexample-Change item =
      elim (Option-cases
        (lookup (item.attack_run_id, item.candidate_key) s.counterexample_records)) [
          | inl missing ↦ rw (save_counterexample, missing) (others_changed _ refl refl)
          | inr (old, found) ↦ rw (save_counterexample, found) unchanged
        ]

pub perform-Change : (c : Call) (s : RuntimeStore) → Fresh c s → Change s (perform c s)
unfolding perform append_event
perform-Change (Call.create new id now) s fresh = create-Change s new id now fresh
perform-Change (Call.compare_and_set id expected target outcome now) s fresh =
    compare_and_set-Change s id expected target outcome now
perform-Change (Call.cancel id now) s fresh = cancel-Change s id now
perform-Change (Call.ensure run kind budget id) s fresh = ensure-Change s run kind budget id
perform-Change (Call.update strategy) s fresh = update-Change s strategy
perform-Change (Call.checkpoint id state version now) s fresh =
    checkpoint-Change s id state version now
perform-Change (Call.append id kind fields now) s fresh = event_added id kind fields now
perform-Change (Call.counterexample item) s fresh = counterexample-Change s item
