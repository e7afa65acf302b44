-- ===== src/Workflow/Idempotence.antt =====
-- Operations of the store that can be asked again: the creation of a run and of a counterexample,
-- and the checkpoints, of which each version is written once.
use rule_arena.Common.{
  ℕ, ◌+◌, ◌≡◌, refl, sym, Bool-cases, Option-cases, inl, inr, some, String, arith, ◌==◌, ==_iff,
}
use rule_arena.Common.Outcome.{Result, ok, err, Exc}
use rule_arena.Common.Table.{lookup, insert, text_key, pair_key, lookup-insert_self}
use rule_arena.Common.Json.{Fields}
use rule_arena.Workflow.Models.{AttackRun, Checkpoint}
use rule_arena.Workflow.Store.{RuntimeStore, NewRun, create_run, get_run, ready_run, created_store}
use rule_arena.Workflow.Records.{save_checkpoint, load_checkpoint, version_of, next_checkpoint}

-- What a saved checkpoint means for the store after it.
abbrev pub Saved : String → Fields → ℕ → Checkpoint → RuntimeStore → Type 0
Saved id state version saved t =
    (load_checkpoint id t ≡ ok (some saved, t))
    × (saved.version ≡ version + 1)
    × (saved.state ≡ state)
    × ((later : Fields) (now : ℕ) → save_checkpoint id later version now t ≡ err Exc.value_error)

ok_parts :
    {A : Type 0} {a b : A} {s t : RuntimeStore}
    → ◌≡◌ {A = Result (A × RuntimeStore)} (ok (a, s)) (ok (b, t))
    → (a ≡ b) × (s ≡ t)
ok_parts h = (cc, cc)

err≢ok : {A : Type 0} {e : Exc} {a : A} → ¬ (err e ≡ ok a)
err≢ok h = cc

abbrev with_checkpoint : String → Fields → ℕ → RuntimeStore → RuntimeStore
with_checkpoint id state now s = record s {
  checkpoints = insert id (next_checkpoint id state now s) s.checkpoints;
}

module _ (s : RuntimeStore) (id : String) (state : Fields) (version now : ℕ) where
  with_checkpoint-Saved :
      version_of (lookup id s.checkpoints) ≡ version
      → Saved id state version (next_checkpoint id state now s) (with_checkpoint id state now s)
  unfolding save_checkpoint load_checkpoint
  with_checkpoint-Saved e =
      let found = lookup-insert_self id (next_checkpoint id state now s) s.checkpoints in
      (rw found refl, omega (arith, e), refl, λ later now. rw found (ground (arith, e)))

  -- After a checkpoint was saved under the version that its writer expected, it is what is loaded,
  -- its version is the next one, and a further save that expects the old version raises ValueError.
  pub save_checkpoint_once :
      {saved : Checkpoint} {t : RuntimeStore}
      → save_checkpoint id state version now s ≡ ok (saved, t)
      → Saved id state version saved t
  unfolding save_checkpoint
  save_checkpoint_once {saved} {t} h =
      elim (Bool-cases (version_of (lookup id s.checkpoints) == version)) [
        | inl e ↦
            let both : (next_checkpoint id state now s ≡ saved)
                × (with_checkpoint id state now s ≡ t) =
              ok_parts (rw e at h) in
            rw (sym both.0, sym both.1) (with_checkpoint-Saved ((==_iff _ _).0 e))
        | inr e ↦ absurd (err≢ok (rw e at h))
      ]

create_run_found :
    (new : NewRun) (id : String) (now : ℕ) (s : RuntimeStore) {old : String} {item : AttackRun}
    → lookup new.job_key s.jobs ≡ some old
    → lookup old s.runs ≡ some item
    → create_run new id now s ≡ ok (item, s)
unfolding create_run get_run
create_run_found new id now s found there = rw (create_run, found, get_run, there) refl

-- A second `create_run` with the job key of a run that was created returns that run and changes
-- nothing, whatever its other arguments.
pub create_run_again :
    (new again : NewRun) (id other : String) (now later : ℕ) (s : RuntimeStore) {run : AttackRun}
    {t : RuntimeStore}
    → create_run new id now s ≡ ok (run, t)
    → again.job_key ≡ new.job_key
    → create_run again other later t ≡ ok (run, t)
unfolding create_run get_run
create_run_again new again id other now later s {run} {t} h same =
    elim (Option-cases (lookup new.job_key s.jobs)) [
      | inl missing ↦
          let both = ok_parts (rw (create_run, missing) at h) in
          rw (sym both.0, sym both.1)
            (create_run_found again other later (created_store new id now s)
              (rw same (lookup-insert_self new.job_key id s.jobs))
              (lookup-insert_self id (ready_run new id now) s.runs))
      | inr (old, found) ↦ elim (Option-cases (lookup old s.runs)) [
        | inl gone ↦ absurd (err≢ok (rw (create_run, found, get_run, gone) at h))
        | inr (item, there) ↦
            let both = ok_parts (rw (create_run, found, get_run, there) at h) in
            rw (sym both.0, sym both.1) (create_run_found again other later s (rw same found) there)
      ]
    ]
