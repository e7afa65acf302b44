-- ===== src/Workflow/Invariant.antt =====
-- What every reachable store satisfies: a run has an outcome exactly when its status is terminal,
-- and the events of a run are numbered from 1 without a gap.
use rule_arena.Common.{
  ℕ, zero, suc, ◌+◌, ◌≤◌, ◌≡◌, refl, true, false, not, Option-cases, inl, inr, Option, some, List,
  [], ◌∷◌, ◌++◌, length, drop, All, arith, String, ltb, lt→ltb,
}
use rule_arena.Common.Outcome.{ok}
use rule_arena.Common.Table.{lookup, text_key, pair_key, All-insert, All-lookup}
use rule_arena.Common.Json.{Fields}
use rule_arena.Workflow.Models.{
  AttackStatus, AttackOutcome, AttackRun, RuntimeEvent, is_terminal, strategy_key,
}
use rule_arena.Workflow.Store.{
  RuntimeStore, arguments_refused, is_none, events_of, new_event, with_event, set_status, ready_run,
  empty_store, after_cursor, events_after,
}
use rule_arena.Workflow.Call.{Reach, start, next}
use rule_arena.Workflow.Change.{
  Change, perform-Change, unchanged, run_created, status_set, event_added, others_changed,
}

-- A run has an outcome if and only if its status is terminal.
abbrev pub Concluded : AttackRun → Type 0
Concluded run = is_none run.outcome ≡ not (is_terminal run.status)

-- Events with the cursors n + 1, n + 2 and so on.
abbrev pub Numbered : ℕ → List RuntimeEvent → Type 0
Numbered n [] = Unit
Numbered n (event ∷ events) = (event.cursor ≡ suc n) × Numbered (suc n) events

pub record IsConsistent (s : RuntimeStore) : Type 0 where
  pub runs : All (λ entry. Concluded entry.1) s.runs
  pub events : All (λ entry. Numbered 0 entry.1) s.events

Numbered-append :
    (n : ℕ) (events : List RuntimeEvent) (event : RuntimeEvent)
    → Numbered n events
    → event.cursor ≡ n + length events + 1
    → Numbered n (events ++ (event ∷ []))
Numbered-append n [] event h e = (omega (arith, e), tt)
Numbered-append n (first ∷ events) event h e =
    (h.0, Numbered-append (suc n) events event h.1 (omega (arith, e)))

-- All numbered events come after a cursor that is not beyond the first.
after_cursor_all :
    (n cursor : ℕ) (events : List RuntimeEvent)
    → Numbered n events
    → cursor ≤ n
    → after_cursor cursor events ≡ events
after_cursor_all n cursor [] h le = refl
after_cursor_all n cursor (event ∷ events) h le =
    let later : ltb cursor event.cursor ≡ true = lt→ltb _ _ (omega (arith, h.0, le)) in
    rw (later, after_cursor_all (suc n) cursor events h.1 (omega (arith, le))) refl

-- A reader that has seen the first k of numbered events is given the others.
pub after_cursor-drop :
    (n k cursor : ℕ) (events : List RuntimeEvent)
    → Numbered n events
    → cursor ≡ n + k
    → after_cursor cursor events ≡ drop k events
after_cursor-drop n zero cursor events h e = after_cursor_all n cursor events h (omega (arith, e))
after_cursor-drop n (suc k) cursor [] h e = refl
after_cursor-drop n (suc k) cursor (event ∷ events) h e =
    let seen : ltb cursor event.cursor ≡ false = ground (arith, h.0, e) in
    rw seen (after_cursor-drop (suc n) k cursor events h.1 (omega (arith, e)))

accepted-Concluded :
    (expected target : AttackStatus) (outcome : Option AttackOutcome)
    → arguments_refused expected target outcome ≡ false
    → is_none outcome ≡ not (is_terminal target)
accepted-Concluded expected target outcome h = ground arith

events_of-Numbered : {s : RuntimeStore} (id : String) → IsConsistent s → Numbered 0 (events_of id s)
events_of-Numbered {s} id h = elim (Option-cases (lookup id s.events)) [
  | inl none_there ↦ rw (Numbered, none_there) tt
  | inr (values, found) ↦ rw (Numbered, found) (All-lookup (Numbered 0) id s.events h.events found)
]

with_event-IsConsistent :
    {s : RuntimeStore} (id kind : String) (fields : Fields) (now : ℕ)
    → IsConsistent s
    → IsConsistent (with_event id kind fields now s)
with_event-IsConsistent {s} id kind fields now h = record {
  runs = h.runs;
  events = All-insert (Numbered 0) id _ s.events h.events (
      Numbered-append 0 (events_of id s) (new_event id kind fields now (events_of id s))
        (events_of-Numbered id h) (omega arith));
}

module _ {s : RuntimeStore} where
  set_status-IsConsistent :
      (current : AttackRun) (expected target : AttackStatus) (outcome : Option AttackOutcome)
      (now : ℕ) (id : String)
      → arguments_refused expected target outcome ≡ false
      → IsConsistent s
      → IsConsistent (set_status current expected target outcome now id s)
  set_status-IsConsistent current expected target outcome now id accepted h =
      with_event-IsConsistent id _ _ now (record {
        runs =
            All-insert Concluded id _ s.runs h.runs
              (accepted-Concluded expected target outcome accepted);
        events = h.events;
      })

  Change-IsConsistent : {t : RuntimeStore} → IsConsistent s → Change s t → IsConsistent t
  Change-IsConsistent h unchanged = h
  Change-IsConsistent h (run_created new id now job_new fresh) =
      with_event-IsConsistent id _ _ now (record {
        runs = All-insert Concluded id (ready_run new id now) s.runs h.runs refl;
        events = All-insert (Numbered 0) id [] s.events h.events tt;
      })
  Change-IsConsistent h (status_set current expected target outcome now id accepted _ _) =
      set_status-IsConsistent current expected target outcome now id accepted h
  Change-IsConsistent h (event_added id kind fields now) =
      with_event-IsConsistent id kind fields now h
  Change-IsConsistent h (others_changed t same_runs same_events) = record {
    runs = rw same_runs h.runs;
    events = rw same_events h.events;
  }

empty-IsConsistent : IsConsistent empty_store
empty-IsConsistent = record { runs = tt; events = tt }

-- In every store that calls reach from the empty one, with a fresh identifier for each new run, a
-- run has an outcome exactly when its status is terminal, and the events of each run have the cursors
-- 1, 2 and so on.
pub Reach-IsConsistent : {s : RuntimeStore} → Reach s → IsConsistent s
Reach-IsConsistent start = empty-IsConsistent
Reach-IsConsistent (next c before fresh) =
    Change-IsConsistent (Reach-IsConsistent before) (perform-Change c _ fresh)

-- In a reachable store, `events_after` gives the events of a known run that follow its first `cursor`
-- ones, none left out and none repeated.
pub events_after-drop :
    {s : RuntimeStore}
    → Reach s
    → (run_id : String) (cursor : ℕ) {values : List RuntimeEvent}
    → lookup run_id s.events ≡ some values
    → events_after run_id cursor s ≡ ok (drop cursor values, s)
unfolding events_after
events_after-drop {s} reached run_id cursor {values} found =
    let consistent = Reach-IsConsistent reached in
    let numbered = All-lookup (Numbered 0) run_id s.events consistent.events found in
    rw (events_after, found, after_cursor-drop 0 cursor cursor values numbered (omega arith)) refl
