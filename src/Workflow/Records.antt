-- ===== src/Workflow/Records.antt =====
-- packages/attack_runtime/src/rulearena_attack_runtime/workflow.py: the strategies, checkpoints and
-- counterexamples of `InMemoryRuntimeStore`.
use rule_arena.Common.{ℕ, ◌+◌, not, Option, none, some, List, [], ◌∷◌, ◌==◌, if◌then◌else◌, String}
use rule_arena.Common.Outcome.{ok, err, Exc}
use rule_arena.Common.Text.{str_eq, truthy, or_else}
use rule_arena.Common.Table.{Table, lookup, insert, text_key, pair_key}
use rule_arena.Common.Json.{Fields}
use rule_arena.Workflow.Models.{
  Budget, StrategyType, StrategyStatus, StrategyRun, Checkpoint, CounterexampleRecord, no_usage,
  strategy_key,
}
use rule_arena.Workflow.Store.{RuntimeStore, Operation}

-- The strategy that `ensure_strategy` makes.
abbrev pub pending_strategy : String → StrategyType → Budget → String → StrategyRun
pending_strategy attack_run_id strategy_type budget strategy_run_id = record {
  strategy_run_id = strategy_run_id;
  attack_run_id = attack_run_id;
  strategy_type = strategy_type;
  status = StrategyStatus.pending;
  budget = budget;
  usage = no_usage;
}

abbrev pub found_strategy : String → Operation StrategyRun
found_strategy existing store = elim (lookup existing store.strategies) [
  | none ↦ err Exc.key_error
  | some strategy ↦ ok (strategy, store)
]

unfoldable pub ensure_strategy : String → StrategyType → Budget → String → Operation StrategyRun
ensure_strategy attack_run_id strategy_type budget strategy_run_id store =
    let existing = lookup (attack_run_id, strategy_type) store.strategy_keys in
    let item = pending_strategy attack_run_id strategy_type budget strategy_run_id in
    if truthy existing
    then found_strategy (or_else existing "") store
    else ok (
      item,
      record store {
        strategies = insert strategy_run_id item store.strategies;
        strategy_keys = insert (attack_run_id, strategy_type) strategy_run_id store.strategy_keys;
      },
    )

unfoldable pub update_strategy : StrategyRun → Operation (Unit {0})
update_strategy strategy store = elim (lookup strategy.strategy_run_id store.strategies) [
  | none ↦ err Exc.key_error
  | some old ↦
      ok (
        tt,
        record store { strategies = insert strategy.strategy_run_id strategy store.strategies },
      )
]

-- `current.version if current else 0`
abbrev pub version_of : Option Checkpoint → ℕ
version_of none = 0
version_of (some checkpoint) = checkpoint.version

abbrev pub next_checkpoint : String → Fields → ℕ → RuntimeStore → Checkpoint
next_checkpoint strategy_run_id state now store = record {
  strategy_run_id = strategy_run_id;
  version = version_of (lookup strategy_run_id store.checkpoints) + 1;
  state = state;
  created_at = now;
}

unfoldable pub save_checkpoint : String → Fields → ℕ → ℕ → Operation Checkpoint
save_checkpoint strategy_run_id state expected_version now store =
    let checkpoint = next_checkpoint strategy_run_id state now store in
    if not (version_of (lookup strategy_run_id store.checkpoints) == expected_version)
    then err Exc.value_error
    else ok (
      checkpoint,
      record store { checkpoints = insert strategy_run_id checkpoint store.checkpoints },
    )

unfoldable pub load_checkpoint : String → Operation (Option Checkpoint)
load_checkpoint strategy_run_id store = ok (lookup strategy_run_id store.checkpoints, store)

unfoldable pub save_counterexample : CounterexampleRecord → Operation CounterexampleRecord
save_counterexample item store =
    elim (lookup (item.attack_run_id, item.candidate_key) store.counterexample_records) [
      | some existing ↦ ok (existing, store)
      | none ↦ ok (
        item,
        record store {
          counterexample_records =
              insert (item.attack_run_id, item.candidate_key) item store.counterexample_records;
        },
      )
    ]

abbrev pub of_run :
    String → Table (String × String) CounterexampleRecord → List CounterexampleRecord
of_run run_id [] = []
of_run run_id ((key, value) ∷ rest) =
    let others = of_run run_id rest in if str_eq key.0 run_id then value ∷ others else others

unfoldable pub counterexamples : String → Operation (List CounterexampleRecord)
counterexamples run_id store = ok (of_run run_id store.counterexample_records, store)
