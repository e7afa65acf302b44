-- ===== src/Workflow/Models.antt =====
-- packages/attack_runtime/src/rulearena_attack_runtime/workflow.py: statuses, runs, strategies,
-- checkpoints, events, and which status may follow which.
use rule_arena.Common.{ℕ, ◌≡◌, refl, Bool, true, false, ◌&&◌, Option, List, leb, String}
use rule_arena.Common.Int.{ℤ}
use rule_arena.Common.Table.{Key}
use rule_arena.Common.Json.{Fields}

pub data AttackStatus : Type 0 where
  draft needs_confirmation ready searching replaying recovering : AttackStatus
  cancel_requested cancelled failed completed : AttackStatus

pub data AttackOutcome : Type 0 where
  confirmed_violation unconfirmed_candidate no_violation_within_budget : AttackOutcome
  ambiguous_policy unsupported_rule infra_failed cancelled : AttackOutcome

pub data StrategyType : Type 0 where
  value_flow lifecycle boundary : StrategyType

pub data StrategyStatus : Type 0 where
  pending searching stopped failed completed : StrategyStatus

-- Cost and time count millionths.
pub record Budget : Type 0 where
  pub max_steps : ℕ
  pub max_tokens : ℕ
  pub max_cost : ℕ
  pub max_time_seconds : ℕ

pub record BudgetUsage : Type 0 where
  pub steps : ℕ
  pub tokens : ℕ
  pub cost : ℕ
  pub elapsed_seconds : ℕ

abbrev pub no_usage : BudgetUsage
no_usage = record { steps = 0; tokens = 0; cost = 0; elapsed_seconds = 0 }

unfoldable pub within : BudgetUsage → Budget → Bool
within usage budget =
    leb usage.steps budget.max_steps
    && leb usage.tokens budget.max_tokens
    && leb usage.cost budget.max_cost
    && leb usage.elapsed_seconds budget.max_time_seconds

-- A time counts microseconds.
pub record AttackRun : Type 0 where
  pub run_id : String
  pub job_key : String
  pub rule_version_id : String
  pub scenario_version_id : String
  pub sandbox_version : String
  pub defect_axes : List String
  pub oracle_version : String
  pub status : AttackStatus
  pub outcome : Option AttackOutcome
  pub budget : Budget
  pub random_seed : ℤ
  pub created_at : ℕ

pub record StrategyRun : Type 0 where
  pub strategy_run_id : String
  pub attack_run_id : String
  pub strategy_type : StrategyType
  pub status : StrategyStatus
  pub budget : Budget
  pub usage : BudgetUsage

pub record Checkpoint : Type 0 where
  pub strategy_run_id : String
  pub version : ℕ
  pub state : Fields
  pub created_at : ℕ

pub record RuntimeEvent : Type 0 where
  pub cursor : ℕ
  pub run_id : String
  pub event_type : String
  pub data_fields : Fields
  pub created_at : ℕ

pub record CounterexampleRecord : Type 0 where
  pub counterexample_id : String
  pub attack_run_id : String
  pub candidate_key : String
  pub invariant_id : String
  pub original_actions : List Fields
  pub minimized_actions : List Fields
  pub replay_run_id : String
  pub created_at : ℕ

abbrev pub status_value : AttackStatus → String
status_value AttackStatus.draft = "DRAFT"
status_value AttackStatus.needs_confirmation = "NEEDS_CONFIRMATION"
status_value AttackStatus.ready = "READY"
status_value AttackStatus.searching = "SEARCHING"
status_value AttackStatus.replaying = "REPLAYING"
status_value AttackStatus.recovering = "RECOVERING"
status_value AttackStatus.cancel_requested = "CANCEL_REQUESTED"
status_value AttackStatus.cancelled = "CANCELLED"
status_value AttackStatus.failed = "FAILED"
status_value AttackStatus.completed = "COMPLETED"

abbrev pub outcome_value : AttackOutcome → String
outcome_value AttackOutcome.confirmed_violation = "CONFIRMED_VIOLATION"
outcome_value AttackOutcome.unconfirmed_candidate = "UNCONFIRMED_CANDIDATE"
outcome_value AttackOutcome.no_violation_within_budget = "NO_VIOLATION_WITHIN_BUDGET"
outcome_value AttackOutcome.ambiguous_policy = "AMBIGUOUS_POLICY"
outcome_value AttackOutcome.unsupported_rule = "UNSUPPORTED_RULE"
outcome_value AttackOutcome.infra_failed = "INFRA_FAILED"
outcome_value AttackOutcome.cancelled = "CANCELLED"

abbrev pub same_status : AttackStatus → AttackStatus → Bool
same_status AttackStatus.draft AttackStatus.draft = true
same_status AttackStatus.needs_confirmation AttackStatus.needs_confirmation = true
same_status AttackStatus.ready AttackStatus.ready = true
same_status AttackStatus.searching AttackStatus.searching = true
same_status AttackStatus.replaying AttackStatus.replaying = true
same_status AttackStatus.recovering AttackStatus.recovering = true
same_status AttackStatus.cancel_requested AttackStatus.cancel_requested = true
same_status AttackStatus.cancelled AttackStatus.cancelled = true
same_status AttackStatus.failed AttackStatus.failed = true
same_status AttackStatus.completed AttackStatus.completed = true
same_status _ _ = false

pub same_status-eq : (a b : AttackStatus) → same_status a b ≡ true → a ≡ b
same_status-eq AttackStatus.draft AttackStatus.draft h = refl
same_status-eq AttackStatus.needs_confirmation AttackStatus.needs_confirmation h = refl
same_status-eq AttackStatus.ready AttackStatus.ready h = refl
same_status-eq AttackStatus.searching AttackStatus.searching h = refl
same_status-eq AttackStatus.replaying AttackStatus.replaying h = refl
same_status-eq AttackStatus.recovering AttackStatus.recovering h = refl
same_status-eq AttackStatus.cancel_requested AttackStatus.cancel_requested h = refl
same_status-eq AttackStatus.cancelled AttackStatus.cancelled h = refl
same_status-eq AttackStatus.failed AttackStatus.failed h = refl
same_status-eq AttackStatus.completed AttackStatus.completed h = refl
same_status-eq _ _ h = cc

-- `transition_allowed(current, target)`, by the table `_ALLOWED_TRANSITIONS`.
unfoldable pub transition_allowed : AttackStatus → AttackStatus → Bool
transition_allowed AttackStatus.draft AttackStatus.needs_confirmation = true
transition_allowed AttackStatus.draft AttackStatus.ready = true
transition_allowed AttackStatus.needs_confirmation AttackStatus.ready = true
transition_allowed AttackStatus.ready AttackStatus.searching = true
transition_allowed AttackStatus.ready AttackStatus.cancel_requested = true
transition_allowed AttackStatus.ready AttackStatus.failed = true
transition_allowed AttackStatus.searching AttackStatus.replaying = true
transition_allowed AttackStatus.searching AttackStatus.completed = true
transition_allowed AttackStatus.searching AttackStatus.recovering = true
transition_allowed AttackStatus.searching AttackStatus.cancel_requested = true
transition_allowed AttackStatus.searching AttackStatus.failed = true
transition_allowed AttackStatus.replaying AttackStatus.searching = true
transition_allowed AttackStatus.replaying AttackStatus.completed = true
transition_allowed AttackStatus.replaying AttackStatus.recovering = true
transition_allowed AttackStatus.replaying AttackStatus.cancel_requested = true
transition_allowed AttackStatus.replaying AttackStatus.failed = true
transition_allowed AttackStatus.recovering AttackStatus.searching = true
transition_allowed AttackStatus.recovering AttackStatus.replaying = true
transition_allowed AttackStatus.recovering AttackStatus.cancel_requested = true
transition_allowed AttackStatus.recovering AttackStatus.failed = true
transition_allowed AttackStatus.cancel_requested AttackStatus.cancelled = true
transition_allowed AttackStatus.failed AttackStatus.recovering = true
transition_allowed _ _ = false

-- `target in {COMPLETED, CANCELLED, FAILED}`
abbrev pub is_terminal : AttackStatus → Bool
is_terminal AttackStatus.completed = true
is_terminal AttackStatus.cancelled = true
is_terminal AttackStatus.failed = true
is_terminal _ = false

abbrev pub same_strategy : StrategyType → StrategyType → Bool
same_strategy StrategyType.value_flow StrategyType.value_flow = true
same_strategy StrategyType.lifecycle StrategyType.lifecycle = true
same_strategy StrategyType.boundary StrategyType.boundary = true
same_strategy _ _ = false

pub same_strategy_refl : (a : StrategyType) → same_strategy a a ≡ true
same_strategy_refl StrategyType.value_flow = refl
same_strategy_refl StrategyType.lifecycle = refl
same_strategy_refl StrategyType.boundary = refl

pub same_strategy-eq : (a b : StrategyType) → same_strategy a b ≡ true → a ≡ b
same_strategy-eq StrategyType.value_flow StrategyType.value_flow h = refl
same_strategy-eq StrategyType.lifecycle StrategyType.lifecycle h = refl
same_strategy-eq StrategyType.boundary StrategyType.boundary h = refl
same_strategy-eq _ _ h = cc

instance abbrev pub strategy_key : Key StrategyType
strategy_key = record {
  same = same_strategy;
  same_refl = same_strategy_refl;
  same_eq = same_strategy-eq;
}
