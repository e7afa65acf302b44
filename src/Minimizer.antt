-- ===== src/Minimizer.antt =====
-- packages/attack_runtime minimization.py: `minimize_trace`, deletion-based delta debugging. The
-- predicate `confirms` replays a candidate in a fresh run; here it is a function of the trace, so
-- the same trace is always answered alike.
pub mod Loops
pub mod Reduce
pub mod Total
mod Tests
use rule_arena.Common.{
  ℕ, zero, suc, ◌+◌, ◌-◌, ◌*◌, ◌/◌, Bool, true, false, not, Option, none, some, List, [], ◌∷◌, ◌++◌,
  length, take, drop, ltb, leb, if◌then◌else◌,
}
use rule_arena.Common.Outcome.{Result, Exc, ok, err}
use Prim.Native.Nat.{min, max}

-- `MinimizationResult`, without the invariant's name.
pub record MinimizationResult (A : Type 0) : Type 0 where
  pub original_length : ℕ
  pub minimized_actions : List A
  pub trials : ℕ
  pub one_minimal : Bool

-- `current[:start] + current[start + size:]`
abbrev pub without {ℓ} : {A : Type ℓ} → ℕ → ℕ → List A → List A
without start size current = take start current ++ drop (start + size) current

-- `max(1, (len(current) + granularity - 1) // granularity)`
abbrev pub chunk_size : ℕ → ℕ → ℕ
chunk_size size granularity = max 1 ((size + granularity - 1) / granularity)

-- The fuel of the first loop: more than its measure, the length times three more than the length
-- and the room that the granularity has left.
abbrev pub reduce_fuel : ℕ → ℕ
reduce_fuel n = n * (n + 3) + (n + 3)

module _ {A : Type 0} (confirms : List A → Bool) where
  -- `for start in range(start, len(current), size)`: the first candidate that confirms, and the
  -- number of trials so far. `fuel` bounds the rounds.
  unfoldable pub try_chunks : ℕ → ℕ → List A → ℕ → ℕ → Option (List A) × ℕ
  try_chunks zero size current start trials = (none, trials)
  try_chunks (suc fuel) size current start trials =
      let candidate = without start size current in
      let rest = try_chunks fuel size current (start + size) (trials + 1) in
      if leb (length current) start
      then (none, trials)
      else if confirms candidate
      then (some candidate, trials + 1)
      else rest

  -- `while len(current) >= 2`; `none` means that the fuel ran out.
  unfoldable pub reduce : ℕ → List A → ℕ → ℕ → Option (List A × ℕ)
  reduce zero current granularity trials = none
  reduce (suc fuel) current granularity trials =
      let size = length current in
      let (found, trials') = try_chunks size (chunk_size size granularity) current 0 trials in
      let again = reduce fuel current (min size (granularity * 2)) trials' in
      if ltb size 2 then some (current, trials) else elim found [
        | some candidate ↦ reduce fuel candidate (max 2 (granularity - 1)) trials'
        | none ↦ if leb size granularity then some (current, trials') else again
      ]

  -- `while index < len(current)`: drop single actions, front to back.
  unfoldable pub sweep : ℕ → ℕ → List A → ℕ → Option (List A × ℕ)
  sweep zero index current trials = none
  sweep (suc fuel) index current trials =
      let candidate = without index 1 current in
      let shorter = sweep fuel index candidate (trials + 1) in
      let onward = sweep fuel (index + 1) current (trials + 1) in
      if leb (length current) index
      then some (current, trials)
      else if confirms candidate
      then shorter
      else onward

  -- `for index in range(len(current))`: whether no single deletion confirms.
  unfoldable pub check_minimal : ℕ → ℕ → List A → ℕ → Bool × ℕ
  check_minimal zero index current trials = (true, trials)
  check_minimal (suc rounds) index current trials =
      let rest = check_minimal rounds (index + 1) current (trials + 1) in
      if confirms (without index 1 current) then (false, trials + 1) else rest

  concluded : List A → Option (List A × ℕ) → Option (Result (MinimizationResult A))
  concluded actions none = none
  concluded actions (some (current, trials)) =
      let (minimal, trials') = check_minimal (length current) 0 current trials in
      some (
        ok (record {
          original_length = length actions;
          minimized_actions = current;
          trials = trials';
          one_minimal = minimal;
        }))

  swept : List A → Option (List A × ℕ) → Option (Result (MinimizationResult A))
  unfolding concluded
  swept actions none = none
  swept actions (some (current, trials)) =
      concluded actions (sweep (suc (length current)) 0 current trials)

  -- `minimize_trace`; `none` means that a loop ran out of fuel.
  unfoldable pub minimize_trace : List A → Option (Result (MinimizationResult A))
  unfolding swept
  minimize_trace actions =
      if not (confirms actions)
      then some (err Exc.value_error)
      else swept actions (reduce (reduce_fuel (length actions)) actions 2 1)
