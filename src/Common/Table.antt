-- ===== src/Common/Table.antt =====
-- A Python `dict` as an association list in the order of insertion: its lookup, its insertion, and
-- the laws of both.
use mathlib.Core.Path.{◌≡◌, sym, subst, ◌∙◌}
use mathlib.Core.Bool.{Bool, true, false, ◌&&◌}
use mathlib.Core.Logic.{◌≢◌, inl, inr}
use mathlib.Core.List.{List, [], ◌∷◌}
use mathlib.Core.Option.{Option, none, some}
use native.Mathlib.Omega.{arith}
use Prim.Native.String.{String}
use text.Mathlib.TextPositions.{eq_refl}
use rule_arena.Common.Tests.{if◌then◌else◌, Bool-cases, and-eq-true}
use rule_arena.Common.Text.{str_eq, eq_iff}
use rule_arena.Common.Lists.{All}

-- Keys that can be compared.
pub record Key {ℓ} (K : Type ℓ) : Type ℓ where
  pub same : K → K → Bool
  pub same_refl : (k : K) → same k k ≡ true
  pub same_eq : (j k : K) → same j k ≡ true → j ≡ k

instance abbrev pub text_key : Key String
text_key = record { same = str_eq; same_refl = eq_refl; same_eq = λ j k. (eq_iff j k).0 }

abbrev pub Table {ℓ} : Type ℓ → Type ℓ → Type ℓ
Table K V = List (K × V)

module _ {ℓ} {K : Type ℓ} ⦃key : Key K⦄ where
  different : (j k : K) → j ≢ k → key.same j k ≡ false
  different j k apart = elim (Bool-cases (key.same j k)) [
    | inl e ↦ absurd (apart (key.same_eq j k e))
    | inr e ↦ e
  ]

module _ {ℓ} {K V : Type ℓ} ⦃key : Key K⦄ where
  -- `table.get(k)`
  abbrev pub lookup : K → Table K V → Option V
  lookup k [] = none
  lookup k ((j, v) ∷ rest) = let found = lookup k rest in if key.same k j then some v else found

  -- `table[k] = v`
  abbrev pub insert : K → V → Table K V → Table K V
  insert k v [] = (k, v) ∷ []
  insert k v ((j, w) ∷ rest) =
      let inserted = insert k v rest in if key.same k j then (j, v) ∷ rest else (j, w) ∷ inserted

  pub lookup-insert_self : (k : K) (v : V) (t : Table K V) → lookup k (insert k v t) ≡ some v
  lookup-insert_self k v [] = rw (key.same_refl k)
  lookup-insert_self k v ((j, w) ∷ rest) = elim (Bool-cases (key.same k j)) [
    | inl e ↦ rw (e, e)
    | inr e ↦ rw (e, e, lookup-insert_self k v rest)
  ]

  pub lookup-insert_other :
      (j k : K) (v : V) (t : Table K V) → j ≢ k → lookup j (insert k v t) ≡ lookup j t
  lookup-insert_other j k v [] apart = rw (different j k apart)
  lookup-insert_other j k v ((i, w) ∷ rest) apart = elim (Bool-cases (key.same k i)) [
    | inl e ↦
        let k≡i = key.same_eq k i e in
        let j≢i : key.same j i ≡ false = different j i (λ q. apart (q ∙ sym k≡i)) in rw (e, j≢i)
    | inr e ↦ elim (Bool-cases (key.same j i)) [
      | inl f ↦ rw (e, f)
      | inr f ↦ rw (e, f, lookup-insert_other j k v rest apart)
    ]
  ]

  -- What holds of every value holds after an insertion, and of what a lookup finds.
  pub All-insert :
      (P : V → Type ℓ) (k : K) (v : V) (t : Table K V)
      → All (λ entry. P entry.1) t
      → P v
      → All (λ entry. P entry.1) (insert k v t)
  All-insert P k v [] h p = (p, tt)
  All-insert P k v ((j, w) ∷ rest) h p = elim (Bool-cases (key.same k j)) [
    | inl e ↦ rw e (p, h.1)
    | inr e ↦ rw e (h.0, All-insert P k v rest h.1 p)
  ]

  pub All-lookup :
      (P : V → Type ℓ) (k : K) (t : Table K V) {v : V}
      → All (λ entry. P entry.1) t
      → lookup k t ≡ some v
      → P v
  All-lookup P k [] h e = cc
  All-lookup P k ((j, w) ∷ rest) {v} h e = elim (Bool-cases (key.same k j)) [
    | inl f ↦ let q : w ≡ v = ground (arith, f) in subst P q h.0
    | inr f ↦ All-lookup P k rest h.1 (ground (arith, f))
  ]

-- Pairs are compared side by side.
instance abbrev pub pair_key {ℓ} : {J K : Type ℓ} → ⦃first : Key J⦄ → ⦃second : Key K⦄ → Key (J × K)
pair_key ⦃first⦄ ⦃second⦄ = record {
  same = λ p q. first.same p.0 q.0 && second.same p.1 q.1;
  same_refl = λ p. rw (first.same_refl p.0, second.same_refl p.1);
  same_eq = λ p q h.
      let both = and-eq-true _ _ h in
      let e = first.same_eq p.0 q.0 both.0 in let f = second.same_eq p.1 q.1 both.1 in rw (e, f);
}
