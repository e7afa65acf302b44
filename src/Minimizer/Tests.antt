-- ===== src/Minimizer/Tests.antt =====
-- The minimizer on traces of numbers, with predicates that can be followed by hand.
use rule_arena.Common.{ℕ, ◌≡◌, refl, Bool, true, some, List, [], ◌∷◌, any, ◌==◌, ◌&&◌}
use rule_arena.Common.Outcome.{ok, err, Exc}
use rule_arena.Minimizer.{
  MinimizationResult, minimize_trace, reduce, sweep, check_minimal, try_chunks,
}
use rule_arena.Minimizer.Total.{Minimized, minimize_trace_total}

-- A trace confirms if a 3 and a 7 are in it.
abbrev both : List ℕ → Bool
both xs = any (λ x. x == 3) xs && any (λ x. x == 7) xs

abbrev trace : List ℕ
trace = 1 ∷ 3 ∷ 5 ∷ 7 ∷ 9 ∷ []

minimized_trace :
    minimize_trace both trace
    ≡ some (
        ok (record {
          original_length = 5;
          minimized_actions = 3 ∷ 7 ∷ [];
          trials = 17;
          one_minimal = true;
        }))
unfolding minimize_trace reduce sweep check_minimal try_chunks
minimized_trace = refl

minimize_trace_total_example :
    (r : MinimizationResult ℕ) × (minimize_trace both trace ≡ some (ok r)) × Minimized both trace r
minimize_trace_total_example = minimize_trace_total both trace refl

unconfirmed_trace : minimize_trace both (1 ∷ 7 ∷ []) ≡ some (err Exc.value_error)
unfolding minimize_trace
unconfirmed_trace = refl
