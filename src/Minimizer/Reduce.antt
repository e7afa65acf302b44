-- ===== src/Minimizer/Reduce.antt =====
-- The two shrinking loops of `minimize_trace` end within their fuel, and hand on a trace that
-- confirms and is a part of what they were given.
use rule_arena.Common.{
  ℕ, zero, suc, ◌+◌, ◌-◌, ◌*◌, ◌≤◌, ◌<◌, ◌≡◌, inl, inr, Bool, true, Option, some, List, length, ltb,
  leb, Bool-cases, Option-cases, arith,
}
use Prim.Native.Nat.{min, max}
use rule_arena.Minimizer.{without, try_chunks, chunk_size, reduce, sweep}
use rule_arena.Minimizer.Loops.{
  Within, Within-refl, Within-trans, without-Within, length-without-lt, try_chunks_found,
}

-- The granularity falls by one at most when the trace gets shorter.
shorter_measure :
    (n m l g fuel : ℕ)
    → l < m
    → g ≤ n + 2
    → m * (n + 3) + (n + 2 - g) < suc fuel
    → l * (n + 3) + (n + 2 - max 2 (g - 1)) < fuel
shorter_measure n m l g fuel less bound enough =
    let h : suc l * (n + 3) ≤ m * (n + 3) = grind arith in omega (arith, h)

-- It grows when no chunk can go, while it is below the length.
finer_measure :
    (n m g fuel : ℕ)
    → m ≤ n
    → 2 ≤ g
    → g < m
    → m * (n + 3) + (n + 2 - g) < suc fuel
    → m * (n + 3) + (n + 2 - min m (g * 2)) < fuel
finer_measure n m g fuel small two below enough = omega arith

module _ {A : Type 0} (confirms : List A → Bool) where
  -- What a shrinking loop promises of its result.
  abbrev pub Shrinks : List A → Option (List A × ℕ) → Type 0
  Shrinks xs result = (r : List A × ℕ) × (result ≡ some r) × (confirms r.0 ≡ true) × Within r.0 xs

  through :
      {xs ys : List A} (result : Option (List A × ℕ))
      → Within ys xs
      → Shrinks ys result
      → Shrinks xs result
  through result part (r, e, holds, within) = (r, e, holds, Within-trans part within)

  pub reduce_total :
      (fuel n : ℕ) (xs : List A) (g trials : ℕ)
      → confirms xs ≡ true
      → length xs ≤ n
      → 2 ≤ g
      → g ≤ n + 2
      → length xs * (n + 3) + (n + 2 - g) < fuel
      → Shrinks xs (reduce confirms fuel xs g trials)
  unfolding reduce
  reduce_total zero n xs g trials holds small two bound enough = absurd (omega arith)
  reduce_total (suc fuel) n xs g trials holds small two bound enough =
      let attempt = try_chunks confirms (length xs) (chunk_size (length xs) g) xs 0 trials in
      elim (Bool-cases (ltb (length xs) 2)) [
        | inl short ↦ ((xs, trials), rw short, holds, Within-refl xs)
        | inr long ↦ elim (Option-cases attempt.0) [
          | inl stuck ↦ elim (Bool-cases (leb (length xs) g)) [
            | inl fine ↦ ((xs, attempt.1), rw (long, stuck, fine), holds, Within-refl xs)
            | inr coarse ↦
                rw (long, stuck, coarse)
                  (reduce_total fuel n xs (min (length xs) (g * 2)) attempt.1 holds small
                    (ground (arith, long)) (omega arith)
                    (finer_measure n (length xs) g fuel small two (ground (arith, coarse)) enough))
          ]
          | inr (ys, found) ↦
              let (held, less, part) =
                try_chunks_found confirms (length xs) (chunk_size (length xs) g) xs 0 trials
                  (omega arith) found in
              rw (long, found)
                (through _ part (
                  reduce_total fuel n ys (max 2 (g - 1)) attempt.1 held (omega arith) (omega arith)
                    (omega arith)
                    (shorter_measure n (length xs) (length ys) g fuel less bound enough)))
        ]
      ]

  pub sweep_total :
      (fuel index : ℕ) (xs : List A) (trials : ℕ)
      → confirms xs ≡ true
      → length xs - index < fuel
      → Shrinks xs (sweep confirms fuel index xs trials)
  unfolding sweep
  sweep_total zero index xs trials holds enough = absurd (omega arith)
  sweep_total (suc fuel) index xs trials holds enough = elim (Bool-cases (leb (length xs) index)) [
    | inl over ↦ ((xs, trials), rw over, holds, Within-refl xs)
    | inr inside ↦
        let within : index < length xs = ground (arith, inside) in
        elim (Bool-cases (confirms (without index 1 xs))) [
          | inl drops ↦
              rw (inside, drops)
                (through _ (without-Within index 1 xs) (
                  sweep_total fuel index (without index 1 xs) (trials + 1) drops
                    (omega (arith, length-without-lt index 1 xs within (omega arith)))))
          | inr stays ↦
              rw (inside, stays) (sweep_total fuel (index + 1) xs (trials + 1) holds (omega arith))
        ]
  ]
