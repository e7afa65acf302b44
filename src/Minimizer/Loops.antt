-- ===== src/Minimizer/Loops.antt =====
-- The loops of `minimize_trace`: each ends within its fuel, and what it hands on still confirms and
-- is a part of what it was given.
use rule_arena.Common.{
  ℕ, zero, suc, ◌+◌, ◌<◌, ◌≡◌, refl, inl, inr, Bool, true, none, some, List, [], ◌∷◌, length, drop,
  length-append, length-take, length-drop, leb, Bool-cases, arith,
}
use mathlib.Core.Path.{subst}
use rule_arena.Minimizer.{without, try_chunks}

-- `xs` is `ys` with some items left out, the order kept.
pub data Within {ℓ} {A : Type ℓ} : List A → List A → Type ℓ where
  none_left : Within [] []
  keep : (x : A) {xs ys : List A} → Within xs ys → Within (x ∷ xs) (x ∷ ys)
  skip : (y : A) {xs ys : List A} → Within xs ys → Within xs (y ∷ ys)

module _ {ℓ} {A : Type ℓ} where
  pub Within-refl : (xs : List A) → Within xs xs
  Within-refl [] = none_left
  Within-refl (x ∷ xs) = keep x (Within-refl xs)

  pub Within-trans : {ys zs : List A} → Within ys zs → {xs : List A} → Within xs ys → Within xs zs
  Within-trans none_left h = h
  Within-trans (skip z k) h = skip z (Within-trans k h)
  Within-trans (keep y k) (keep _ h) = keep y (Within-trans k h)
  Within-trans (keep y k) (skip _ h) = skip y (Within-trans k h)

  drop-nil : (n : ℕ) → drop {A = A} n [] ≡ []
  drop-nil zero = refl
  drop-nil (suc n) = refl

  drop-Within : (n : ℕ) (xs : List A) → Within (drop n xs) xs
  drop-Within zero xs = Within-refl xs
  drop-Within (suc n) [] = none_left
  drop-Within (suc n) (x ∷ xs) = skip x (drop-Within n xs)

  without-suc :
      (start size : ℕ) (x : A) (xs : List A)
      → without (suc start) size (x ∷ xs) ≡ x ∷ without start size xs
  without-suc start size x xs = let e : suc start + size ≡ suc (start + size) = omega arith in rw e

  pub without-Within : (start size : ℕ) (xs : List A) → Within (without start size xs) xs
  without-Within zero size xs = drop-Within (0 + size) xs
  without-Within (suc start) size [] = rw drop-nil none_left
  without-Within (suc start) size (x ∷ xs) = rw without-suc (keep x (without-Within start size xs))

  -- A deletion of at least one action that starts inside the trace makes it shorter.
  pub length-without-lt :
      (start size : ℕ) (xs : List A)
      → start < length xs
      → 0 < size
      → length (without start size xs) < length xs
  length-without-lt start size xs inside positive =
      rw length-append (omega (arith, length-take start xs, length-drop (start + size) xs))

module _ {A : Type 0} (confirms : List A → Bool) where
  none≢some : {ys : List A} → none ≡ some ys → ⊥
  none≢some h = cc

  -- A candidate that the chunk loop finds confirms, is a part of the trace and is shorter.
  pub try_chunks_found :
      (fuel size : ℕ) (xs : List A) (start trials : ℕ) {ys : List A}
      → 0 < size
      → (try_chunks confirms fuel size xs start trials).0 ≡ some ys
      → (confirms ys ≡ true) × (length ys < length xs) × Within ys xs
  unfolding try_chunks
  try_chunks_found zero size xs start trials positive h = cc
  try_chunks_found (suc f) size xs start trials {ys} positive h =
      elim (Bool-cases (leb (length xs) start)) [
        | inl over ↦ absurd (none≢some (rw over at h))
        | inr inside ↦ elim (Bool-cases (confirms (without start size xs))) [
          | inl found ↦
              let e : without start size xs ≡ ys = cc (rw (inside, found) at h) in
              subst (λ zs. (confirms zs ≡ true) × (length zs < length xs) × Within zs xs) e
                (
                  found,
                  length-without-lt start size xs (ground (arith, inside)) positive,
                  without-Within start size xs,
                )
          | inr missed ↦
              try_chunks_found f size xs (start + size) (trials + 1) positive
                (rw (inside, missed) at h)
        ]
      ]
