-- ===== src/Minimizer/Total.antt =====
-- `minimize_trace` as a whole.
use rule_arena.Common.{
  ℕ, zero, suc, ◌+◌, ◌≤◌, ◌<◌, ◌≡◌, refl, ◌↔◌, inl, inr, Bool, true, false, some, List, length,
  Bool-cases, arith,
}
use mathlib.Core.Bool.{false≢true}
use native.Mathlib.Decide.{dec_lt}
use rule_arena.Common.Outcome.{ok}
use rule_arena.Minimizer.{
  MinimizationResult, without, check_minimal, reduce_fuel, concluded, swept, minimize_trace,
}
use rule_arena.Minimizer.Loops.{Within, Within-trans}
use rule_arena.Minimizer.Reduce.{reduce_total, sweep_total}

module _ {A : Type 0} (confirms : List A → Bool) where
  -- No single deletion from the trace confirms.
  abbrev pub OneMinimal : List A → Type 0
  OneMinimal xs = (i : ℕ) → i < length xs → confirms (without i 1 xs) ≡ false

  check_minimal_sound :
      (rounds index : ℕ) (xs : List A) (trials : ℕ)
      → (check_minimal confirms rounds index xs trials).0 ≡ true
      → (i : ℕ) → index ≤ i
      → i < index + rounds
      → confirms (without i 1 xs) ≡ false
  unfolding check_minimal
  check_minimal_sound zero index xs trials h i low high = absurd (omega arith)
  check_minimal_sound (suc rounds) index xs trials h i low high =
      elim (Bool-cases (confirms (without index 1 xs))) [
        | inl drops ↦ absurd (false≢true (rw drops at h))
        | inr stays ↦ elim (dec_lt index i) [
          | yes later ↦
              check_minimal_sound rounds (index + 1) xs (trials + 1) (rw stays at h) i (omega arith)
                (omega arith)
          | no here ↦ let e : index ≡ i = omega arith in rw e at stays
        ]
      ]

  check_minimal_complete :
      (rounds index : ℕ) (xs : List A) (trials : ℕ)
      → ((i : ℕ) → index ≤ i → i < index + rounds → confirms (without i 1 xs) ≡ false)
      → (check_minimal confirms rounds index xs trials).0 ≡ true
  unfolding check_minimal
  check_minimal_complete zero index xs trials h = refl
  check_minimal_complete (suc rounds) index xs trials h = rw (h index (omega arith) (omega arith)) (
      check_minimal_complete rounds (index + 1) xs (trials + 1)
        (λ i low high. h i (omega arith) (omega arith)))

  -- What a run on a confirming trace promises.
  pub record Minimized (actions : List A) (r : MinimizationResult A) : Type 0 where
    pub confirmed : confirms r.minimized_actions ≡ true
    pub part : Within r.minimized_actions actions
    pub original : r.original_length ≡ length actions
    pub minimal : (r.one_minimal ≡ true) ↔ OneMinimal r.minimized_actions

  -- On a trace that confirms, `minimize_trace` ends: it returns a part of the trace, in order, that
  -- still confirms, and `one_minimal` says exactly whether no single deletion from it confirms.
  pub minimize_trace_total :
      (actions : List A)
      → confirms actions ≡ true
      → (r : MinimizationResult A) × (minimize_trace confirms actions ≡ some (ok r))
        × Minimized actions r
  unfolding minimize_trace swept concluded
  minimize_trace_total actions holds =
      let n = length actions in
      let (r, reduced, held, part) =
        reduce_total confirms (reduce_fuel n) n actions 2 1 holds (omega arith) (omega arith)
          (omega arith) (omega arith) in
      let (q, swept_to, kept, piece) =
        sweep_total confirms (suc (length r.0)) 0 r.0 r.1 held (omega arith) in
      let checked = check_minimal confirms (length q.0) 0 q.0 q.1 in
      (
        record {
          original_length = n;
          minimized_actions = q.0;
          trials = checked.1;
          one_minimal = checked.0;
        },
        rw (holds, reduced, swept_to),
        record {
          confirmed = kept;
          part = Within-trans part piece;
          original = refl;
          minimal = (
            λ h i inside.
                check_minimal_sound (length q.0) 0 q.0 q.1 h i (omega arith) (omega arith),
            λ h. check_minimal_complete (length q.0) 0 q.0 q.1 (λ i _ high. h i (omega arith)),
          );
        },
      )
