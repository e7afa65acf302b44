-- ===== src/Common/Sums.antt =====
-- Sums of an integer attribute over a list, under an update and an append.
use Prim.Native.Nat.{ℕ, zero, suc}
use mathlib.Core.Path.{◌≡◌}
use mathlib.Core.List.{List, [], ◌∷◌, ◌++◌}
use mathlib.Core.Option.{some}
use rule_arena.Common.Int.{ℤ, pos, ◌+ℤ◌, ◌-ℤ◌, int_laws, parts_of_eq}
use rule_arena.Common.Lists.{get_elem?, set}

module _ {ℓ} {A : Type ℓ} where
  abbrev pub sum_by : (A → ℤ) → List A → ℤ
  sum_by f [] = pos 0
  sum_by f (x ∷ xs) = f x +ℤ sum_by f xs

  -- Replacing an item moves the sum by the difference.
  pub sum_by-set :
      (f : A → ℤ) (xs : List A) (i : ℕ) (v : A) {x : A}
      → get_elem? xs i ≡ some x
      → sum_by f (set xs i v) +ℤ f x ≡ sum_by f xs +ℤ f v
  sum_by-set f [] i v h = cc
  sum_by-set f (y ∷ xs) zero v {x} h = let q : f y ≡ f x = cc in rw q (omega int_laws)
  sum_by-set f (y ∷ xs) (suc i) v h = omega (int_laws, parts_of_eq (sum_by-set f xs i v h))

  pub sum_by-append_one :
      (f : A → ℤ) (xs : List A) (v : A) → sum_by f (xs ++ v ∷ []) ≡ sum_by f xs +ℤ f v
  sum_by-append_one f [] v = omega int_laws
  sum_by-append_one f (x ∷ xs) v = omega (int_laws, parts_of_eq (sum_by-append_one f xs v))

  -- The same as an equation that rewrites the sum of the updated list.
  pub sum_by-set_eq :
      (f : A → ℤ) (xs : List A) (i : ℕ) (v : A) {x : A}
      → get_elem? xs i ≡ some x
      → sum_by f (set xs i v) ≡ sum_by f xs -ℤ f x +ℤ f v
  sum_by-set_eq f xs i v h = omega (int_laws, parts_of_eq (sum_by-set f xs i v h))
