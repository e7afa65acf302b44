-- ===== src/Workflow/Store.antt =====
-- packages/attack_runtime/src/rulearena_attack_runtime/workflow.py: `InMemoryRuntimeStore`. An
-- operation takes the store and gives what it returns with the store afterwards, or the exception
-- it raises. Its lock makes a call one step; `request_cancel` takes it twice, here with no
-- call in between. A fresh `uuid4` and the clock's time are arguments.
use rule_arena.Common.{
  ℕ, ◌+◌, Bool, true, false, not, Option, none, some, List, [], ◌∷◌, ◌++◌, ltb, length,
  if◌then◌else◌, String,
}
use rule_arena.Common.Int.{ℤ}
use rule_arena.Common.Outcome.{Result, ok, err, Exc}
use rule_arena.Common.Table.{Table, lookup, insert, text_key, pair_key}
use rule_arena.Common.Json.{Json, Fields}
use rule_arena.Workflow.Models.{
  AttackStatus, AttackOutcome, AttackRun, Budget, StrategyType, StrategyRun, Checkpoint,
  RuntimeEvent, CounterexampleRecord, status_value, outcome_value, same_status, transition_allowed,
  is_terminal,
}

-- The store's dictionaries. A strategy's key is its run with its type, a counterexample's its run
-- with its candidate.
pub record RuntimeStore : Type 0 where
  pub runs : Table String AttackRun
  pub jobs : Table String String
  pub strategies : Table String StrategyRun
  pub strategy_keys : Table (String × StrategyType) String
  pub checkpoints : Table String Checkpoint
  pub events : Table String (List RuntimeEvent)
  pub counterexample_records : Table (String × String) CounterexampleRecord

abbrev pub empty_store : RuntimeStore
empty_store = record {
  runs = [];
  jobs = [];
  strategies = [];
  strategy_keys = [];
  checkpoints = [];
  events = [];
  counterexample_records = [];
}

-- The arguments of `create_run`.
pub record NewRun : Type 0 where
  pub job_key : String
  pub rule_version_id : String
  pub scenario_version_id : String
  pub sandbox_version : String
  pub oracle_version : String
  pub budget : Budget
  pub random_seed : ℤ
  pub defect_axes : List String

-- What an operation on the store gives.
abbrev pub Operation : Type 0 → Type 0
Operation A = RuntimeStore → Result (A × RuntimeStore)

abbrev pub events_of : String → RuntimeStore → List RuntimeEvent
events_of run_id store = elim (lookup run_id store.events) [ none ↦ [] | some values ↦ values ]

abbrev pub new_event : String → String → Fields → ℕ → List RuntimeEvent → RuntimeEvent
new_event run_id event_type data_fields now values = record {
  cursor = length values + 1;
  run_id = run_id;
  event_type = event_type;
  data_fields = data_fields;
  created_at = now;
}

-- The store with the new event at the end of the run's events.
abbrev pub with_event : String → String → Fields → ℕ → RuntimeStore → RuntimeStore
with_event run_id event_type data_fields now store =
    let values = events_of run_id store in
    record store {
      events =
          insert run_id (values ++ (new_event run_id event_type data_fields now values ∷ []))
            store.events;
    }

unfoldable pub append_event : String → String → Fields → ℕ → Operation RuntimeEvent
append_event run_id event_type data_fields now store = ok (
  new_event run_id event_type data_fields now (events_of run_id store),
  with_event run_id event_type data_fields now store,
)

-- The run that `create_run` makes.
abbrev pub ready_run : NewRun → String → ℕ → AttackRun
ready_run new run_id now = record {
  run_id = run_id;
  job_key = new.job_key;
  rule_version_id = new.rule_version_id;
  scenario_version_id = new.scenario_version_id;
  sandbox_version = new.sandbox_version;
  defect_axes = new.defect_axes;
  oracle_version = new.oracle_version;
  status = AttackStatus.ready;
  outcome = none;
  budget = new.budget;
  random_seed = new.random_seed;
  created_at = now;
}

abbrev pub created_fields : Fields
created_fields = Fields.field "status" (Json.text (status_value AttackStatus.ready)) Fields.no_field

abbrev pub created_store : NewRun → String → ℕ → RuntimeStore → RuntimeStore
created_store new run_id now store =
    with_event run_id "RUN_CREATED" created_fields now (record store {
      runs = insert run_id (ready_run new run_id now) store.runs;
      jobs = insert new.job_key run_id store.jobs;
      events = insert run_id [] store.events;
    })

-- `self._runs[run_id]`, which also is `get_run`.
unfoldable pub get_run : String → Operation AttackRun
get_run run_id store = elim (lookup run_id store.runs) [
  | none ↦ err Exc.key_error
  | some run ↦ ok (run, store)
]

unfoldable pub create_run : NewRun → String → ℕ → Operation AttackRun
create_run new run_id now store = elim (lookup new.job_key store.jobs) [
  | some existing ↦ get_run existing store
  | none ↦ ok (ready_run new run_id now, created_store new run_id now store)
]

abbrev outcome_json : Option AttackOutcome → Json
outcome_json none = Json.null
outcome_json (some outcome) = Json.text (outcome_value outcome)

abbrev pub changed_fields : AttackStatus → AttackStatus → Option AttackOutcome → Fields
changed_fields expected target outcome = Fields.field "from" (Json.text (status_value expected)) (
    Fields.field "to" (Json.text (status_value target))
      (Fields.field "outcome" (outcome_json outcome) Fields.no_field))

abbrev pub is_none {ℓ} : {A : Type ℓ} → Option A → Bool
is_none none = true
is_none (some a) = false

-- `raise ValueError` on a pair of statuses or an outcome that does not fit.
abbrev pub arguments_refused : AttackStatus → AttackStatus → Option AttackOutcome → Bool
arguments_refused expected target outcome =
    if not (transition_allowed expected target)
    then true
    else if is_terminal target
    then is_none outcome
    else not (is_none outcome)

-- What a run with the expected status becomes.
abbrev pub set_status :
    AttackRun
    → AttackStatus
    → AttackStatus
    → Option AttackOutcome
    → ℕ
    → String
    → RuntimeStore
    → RuntimeStore
set_status current expected target outcome now run_id store =
    with_event run_id "STATUS_CHANGED" (changed_fields expected target outcome) now (record store {
      runs = insert run_id (record current { status = target; outcome = outcome }) store.runs;
    })

unfoldable pub compare_and_set_status :
    String → AttackStatus → AttackStatus → Option AttackOutcome → ℕ → Operation Bool
compare_and_set_status run_id expected target outcome now store =
    if arguments_refused expected target outcome
    then err Exc.value_error
    else elim (lookup run_id store.runs) [
      | none ↦ err Exc.key_error
      | some current ↦
          if not (same_status current.status expected)
          then ok (false, store)
          else ok (true, set_status current expected target outcome now run_id store)
    ]

-- `status in {READY, SEARCHING, REPLAYING}`
abbrev pub is_cancellable : AttackStatus → Bool
is_cancellable AttackStatus.ready = true
is_cancellable AttackStatus.searching = true
is_cancellable AttackStatus.replaying = true
is_cancellable _ = false

unfoldable pub request_cancel : String → ℕ → Operation Bool
request_cancel run_id now store = elim (lookup run_id store.runs) [
  | none ↦ err Exc.key_error
  | some run ↦
      if not (is_cancellable run.status)
      then ok (false, store)
      else compare_and_set_status run_id run.status AttackStatus.cancel_requested none now store
]

unfoldable pub is_cancel_requested : String → Operation Bool
is_cancel_requested run_id store = elim (lookup run_id store.runs) [
  | none ↦ err Exc.key_error
  | some run ↦ ok (same_status run.status AttackStatus.cancel_requested, store)
]

abbrev pub after_cursor : ℕ → List RuntimeEvent → List RuntimeEvent
after_cursor cursor [] = []
after_cursor cursor (event ∷ events) =
    let rest = after_cursor cursor events in if ltb cursor event.cursor then event ∷ rest else rest

unfoldable pub events_after : String → ℕ → Operation (List RuntimeEvent)
events_after run_id cursor store = elim (lookup run_id store.events) [
  | none ↦ err Exc.key_error
  | some values ↦ ok (after_cursor cursor values, store)
]
