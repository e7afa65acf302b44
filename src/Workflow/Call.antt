-- ===== src/Workflow/Call.antt =====
-- Calls of the store as data, and the stores that sequences of calls reach.
use rule_arena.Common.{ℕ, ◌≡◌, Option, none, String}
use rule_arena.Common.Outcome.{Result, ok, err}
use rule_arena.Common.Table.{lookup, text_key}
use rule_arena.Common.Json.{Fields}
use rule_arena.Workflow.Models.{
  AttackStatus, AttackOutcome, Budget, StrategyType, StrategyRun, CounterexampleRecord,
}
use rule_arena.Workflow.Store.{
  RuntimeStore, NewRun, empty_store, append_event, create_run, compare_and_set_status,
  request_cancel,
}
use rule_arena.Workflow.Records.{
  ensure_strategy, update_strategy, save_checkpoint, save_counterexample,
}

-- The operations that can change the store, each with its arguments; a time is the clock's, the last
-- text of `create_run` and of `ensure_strategy` the fresh `uuid4`.
pub data Call : Type 0 where
  create : NewRun → String → ℕ → Call
  compare_and_set : String → AttackStatus → AttackStatus → Option AttackOutcome → ℕ → Call
  cancel : String → ℕ → Call
  ensure : String → StrategyType → Budget → String → Call
  update : StrategyRun → Call
  checkpoint : String → Fields → ℕ → ℕ → Call
  append : String → String → Fields → ℕ → Call
  counterexample : CounterexampleRecord → Call

-- The store that a result leaves; an exception leaves the one before.
abbrev pub store_after : {A : Type 0} → RuntimeStore → Result (A × RuntimeStore) → RuntimeStore
store_after before (ok (value, after)) = after
store_after before (err e) = before

unfoldable pub perform : Call → RuntimeStore → RuntimeStore
perform (Call.create new id now) s = store_after s (create_run new id now s)
perform (Call.compare_and_set id expected target outcome now) s =
    store_after s (compare_and_set_status id expected target outcome now s)
perform (Call.cancel id now) s = store_after s (request_cancel id now s)
perform (Call.ensure run kind budget id) s = store_after s (ensure_strategy run kind budget id s)
perform (Call.update strategy) s = store_after s (update_strategy strategy s)
perform (Call.checkpoint id state version now) s =
    store_after s (save_checkpoint id state version now s)
perform (Call.append id kind fields now) s = store_after s (append_event id kind fields now s)
perform (Call.counterexample item) s = store_after s (save_counterexample item s)

-- `uuid4` does not give the identifier of a run that is there.
abbrev pub Fresh : Call → RuntimeStore → Type 0
Fresh (Call.create new id now) s = lookup id s.runs ≡ none
Fresh _ s = Unit

-- The stores that calls reach from the empty one.
pub data Reach : RuntimeStore → Type 0 where
  start : Reach empty_store
  next : {s : RuntimeStore} (c : Call) → Reach s → Fresh c s → Reach (perform c s)
