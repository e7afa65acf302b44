-- ===== src/Workflow/Tests.antt =====
-- A store with one run that is searched, completed, and asked for again.
use rule_arena.Common.{◌≡◌, refl, none, some, [], ◌∷◌, String}
use rule_arena.Common.Int.{pos}
use rule_arena.Common.Outcome.{ok}
use rule_arena.Common.Table.{lookup, text_key}
use rule_arena.Common.Json.{Json, Fields}
use rule_arena.Workflow.Models.{
  AttackStatus, AttackOutcome, AttackRun, Budget, Checkpoint, RuntimeEvent, transition_allowed,
}
use rule_arena.Workflow.Store.{
  RuntimeStore, NewRun, empty_store, create_run, get_run, compare_and_set_status, ready_run,
  created_store, created_fields, changed_fields, events_after, new_event,
}
use rule_arena.Workflow.Records.{save_checkpoint}
use rule_arena.Workflow.Call.{Call, perform, Reach, start, next}
use rule_arena.Workflow.Invariant.{IsConsistent, Reach-IsConsistent, events_after-drop}
use rule_arena.Workflow.Lifecycle.{Follows, perform-Follows, perform_settled}
use rule_arena.Workflow.Idempotence.{Saved, save_checkpoint_once, create_run_again}

abbrev small_budget : Budget
small_budget = record {
  max_steps = 8;
  max_tokens = 4000;
  max_cost = 500000;
  max_time_seconds = 60000000;
}

abbrev order : String → NewRun
order sandbox = record {
  job_key = "job-1";
  rule_version_id = "rules-1";
  scenario_version_id = "scenario-1";
  sandbox_version = sandbox;
  oracle_version = "oracle-1";
  budget = small_budget;
  random_seed = pos 7;
  defect_axes = [];
}

abbrev create_call : Call
create_call = Call.create (order "faithful") "run-1" 100

abbrev search_call : Call
search_call = Call.compare_and_set "run-1" AttackStatus.ready AttackStatus.searching none 200

abbrev complete_call : Call
complete_call =
    Call.compare_and_set "run-1" AttackStatus.searching AttackStatus.completed
      (some AttackOutcome.no_violation_within_budget) 300

abbrev created : RuntimeStore
created = perform create_call empty_store

abbrev searching : RuntimeStore
searching = perform search_call created

abbrev completed : RuntimeStore
completed = perform complete_call searching

abbrev completed_run : AttackRun
completed_run = record (ready_run (order "faithful") "run-1" 100) {
  status = AttackStatus.completed;
  outcome = some AttackOutcome.no_violation_within_budget;
}

completed-Reach : Reach completed
completed-Reach = next complete_call (next search_call (next create_call start refl) tt) tt

completed_status : lookup "run-1" completed.runs ≡ some completed_run
unfolding perform create_run get_run compare_and_set_status transition_allowed
completed_status = refl

Reach-IsConsistent_example : IsConsistent completed
Reach-IsConsistent_example = Reach-IsConsistent completed-Reach

abbrev first_event : RuntimeEvent
first_event = new_event "run-1" "RUN_CREATED" created_fields 100 []

abbrev second_event : RuntimeEvent
second_event =
    new_event "run-1" "STATUS_CHANGED"
      (changed_fields AttackStatus.ready AttackStatus.searching none) 200 (first_event ∷ [])

abbrev third_event : RuntimeEvent
third_event =
    new_event "run-1" "STATUS_CHANGED"
      (changed_fields AttackStatus.searching AttackStatus.completed
        (some AttackOutcome.no_violation_within_budget))
      300 (first_event ∷ second_event ∷ [])

completed_events :
    lookup "run-1" completed.events ≡ some (first_event ∷ second_event ∷ third_event ∷ [])
unfolding perform create_run get_run compare_and_set_status transition_allowed
completed_events = refl

events_after-drop_example :
    events_after "run-1" 1 completed ≡ ok (second_event ∷ third_event ∷ [], completed)
events_after-drop_example = events_after-drop completed-Reach "run-1" 1 completed_events

perform-Follows_example :
    (run : AttackRun) × (lookup "run-1" (perform (Call.cancel "run-1" 400) completed).runs
      ≡ some run)
    × Follows completed_run run
perform-Follows_example =
    perform-Follows (Call.cancel "run-1" 400) completed "run-1" tt completed_status

perform_settled_example : lookup "run-1" (perform search_call completed).runs ≡ some completed_run
perform_settled_example = perform_settled search_call completed "run-1" tt completed_status refl

created_once :
    create_run (order "faithful") "run-1" 100 empty_store
    ≡ ok (
      ready_run (order "faithful") "run-1" 100,
      created_store (order "faithful") "run-1" 100 empty_store,
    )
unfolding create_run
created_once = refl

create_run_again_example :
    create_run
      (order "patched")
      "run-2"
      500
      (created_store (order "faithful") "run-1" 100 empty_store)
    ≡ ok (
      ready_run (order "faithful") "run-1" 100,
      created_store (order "faithful") "run-1" 100 empty_store,
    )
create_run_again_example =
    create_run_again (order "faithful") (order "patched") "run-1" "run-2" 100 500 empty_store
      created_once refl

abbrev notes : Fields
notes = Fields.field "depth" (Json.integer (pos 3)) Fields.no_field

abbrev first_checkpoint : Checkpoint
first_checkpoint = record {
  strategy_run_id = "strategy-1";
  version = 1;
  state = notes;
  created_at = 100;
}

abbrev checkpointed : RuntimeStore
checkpointed = record empty_store { checkpoints = ("strategy-1", first_checkpoint) ∷ [] }

saved_first :
    save_checkpoint "strategy-1" notes 0 100 empty_store ≡ ok (first_checkpoint, checkpointed)
unfolding save_checkpoint
saved_first = refl

save_checkpoint_once_example : Saved "strategy-1" notes 0 first_checkpoint checkpointed
save_checkpoint_once_example = save_checkpoint_once empty_store "strategy-1" notes 0 100 saved_first
