-- ===== src/Decimal/Quantize.antt =====
-- What quantizing to cents gives: whole cents, within half a cent of the value.
use rule_arena.Common.{
  ℕ, zero, suc, ◌+◌, ◌*◌, ◌/◌, ◌^◌, ◌≤◌, ◌<◌, ◌≡◌, refl, sym, ◌⊎◌, inl, inr, Bool, true, false,
  Bool-cases, some, ltb, arith,
}
use mathlib.Core.Path.{subst}
use native.Mathlib.Nat.{pow-suc, pow-succ'}
use rule_arena.Common.Int.{ℤ, pos, negsuc, ◌-ℤ◌, ◌≤ℤ◌, int_laws, parts_of_eq}
use rule_arena.Decimal.{Decimal, quantize, cent, signed, context_limit, cents_of}

-- A whole number of cents, in ten-thousandths.
abbrev pub IsCents : ℤ → Type 0
IsCents a = (k : ℕ) × ((a ≡ pos (k * cent)) ⊎ (a ≡ pos 0 -ℤ pos (k * cent)))

signed-IsCents : (negative : Bool) (k : ℕ) → IsCents (signed negative (k * cent))
signed-IsCents true k = (k, inr refl)
signed-IsCents false k = (k, inl refl)

pub quantize-IsCents : (d : Decimal) {a : ℤ} → quantize d ≡ some a → IsCents a
unfolding quantize
quantize-IsCents d {a} h =
    let k = cents_of d.coefficient d.exponent in
    elim (Bool-cases (ltb k context_limit)) [
      | inl fits ↦
          let e : signed d.negative (k * cent) ≡ a = cc (rw fits at h) in
          subst IsCents e (signed-IsCents d.negative k)
      | inr over ↦ cc (rw over at h)
    ]

pub cents_nonneg : {a : ℤ} → IsCents a → pos 0 ≤ℤ a → (k : ℕ) × (a ≡ pos (k * cent))
cents_nonneg (k, inl e) h = (k, e)
cents_nonneg {a} (k, inr e) h = (zero, omega (int_laws, parts_of_eq e))

-- A value of ten-thousandths is a whole number of cents with the decimal's sign, no further than
-- half a cent from it, and at just half a cent away from zero. The decimal has k + 3 places.
abbrev pub Nearest : Decimal → ℕ → ℤ → Type 0
Nearest d k v =
    (q : ℕ) × (v ≡ signed d.negative (q * cent))
    × (2 * q * 10 ^ suc k ≤ 2 * d.coefficient + 10 ^ suc k)
    × (2 * d.coefficient < (2 * q + 1) * 10 ^ suc k)

-- The quotient's defining bounds, with its products as one unknown.
half_up_quotient :
    (c p : ℕ)
    → 0 < p
    → ((c + 5 * p) / (10 * p) * (10 * p) ≤ c + 5 * p)
      × (c + 5 * p < (c + 5 * p) / (10 * p) * (10 * p) + 10 * p)
half_up_quotient c p h = grind arith

pow10_pos : (k : ℕ) → 0 < 10 ^ k
pow10_pos zero = omega arith
pow10_pos (suc k) = rw pow-suc (omega (arith, pow10_pos k))

half_up_bounds :
    (c p : ℕ)
    → 0 < p
    → (2 * ((c + 10 * p / 2) / (10 * p)) * (10 * p) ≤ 2 * c + 10 * p)
      × (2 * c < (2 * ((c + 10 * p / 2) / (10 * p)) + 1) * (10 * p))
half_up_bounds c p h =
    let e : 10 * p / 2 ≡ 5 * p = omega arith in
    rw e (omega (arith, half_up_quotient c p h), omega (arith, half_up_quotient c p h))

-- A decimal with three places or more that `quantize` accepts is rounded to the nearest cent, half a
-- cent away from zero.
pub quantize-Nearest :
    (d : Decimal) (k : ℕ) {v : ℤ}
    → d.exponent ≡ negsuc (suc (suc k))
    → quantize d ≡ some v
    → Nearest d k v
unfolding quantize
quantize-Nearest d k {v} places h =
    let q = (d.coefficient + 10 ^ suc k / 2) / 10 ^ suc k in
    let bounds = half_up_bounds d.coefficient (10 ^ k) (pow10_pos k) in
    elim (Bool-cases (ltb (cents_of d.coefficient d.exponent) context_limit)) [
      | inl fits ↦
          let e : signed d.negative (cents_of d.coefficient d.exponent * cent) ≡ v =
            cc (rw fits at h) in
          (
            q,
            subst (λ x. v ≡ signed d.negative (cents_of d.coefficient x * cent)) places (sym e),
            rw pow-succ' bounds.0,
            rw pow-succ' bounds.1,
          )
      | inr over ↦ cc (rw over at h)
    ]
