-- ===== src/Common/Outcome.antt =====
-- What Python code that can raise or reject does: it returns, it rejects with a code, or it raises.
use mathlib.Core.Path.{◌≡◌, refl, subst}
use mathlib.Core.Logic.{◌⊎◌, inl, inr}
use mathlib.Core.Bool.{Bool, true, false}
use mathlib.Core.Option.{Option, none, some}

-- The exception classes that the modelled code meets.
pub data Exc : Type 0 where
  arithmetic_error value_error type_error stop_iteration index_error key_error : Exc
  unbound_local_error : Exc

pub data Outcome {ℓ} (C : Type ℓ) (A : Type ℓ) : Type ℓ where
  done : A → Outcome C A
  reject : C → Outcome C A
  raise : Exc → Outcome C A

pub Outcome-cases {ℓ} :
    {C A : Type ℓ} (m : Outcome C A)
    → ((a : A) × (m ≡ done a)) ⊎ ((c : C) × (m ≡ reject c)) ⊎ ((e : Exc) × (m ≡ raise e))
Outcome-cases (done a) = inl (a, refl)
Outcome-cases (reject c) = inr (inl (c, refl))
Outcome-cases (raise e) = inr (inr (e, refl))

-- A call that returns or raises, with no rejection.
pub data Result {ℓ} (A : Type ℓ) : Type ℓ where
  ok : A → Result A
  err : Exc → Result A

infixl 5 ◌>>=◌ ◌>>◌
unfoldable pub ◌>>=◌ {ℓ} : {C A B : Type ℓ} → Outcome C A → (A → Outcome C B) → Outcome C B
done a >>= f = f a
reject c >>= f = reject c
raise e >>= f = raise e

unfoldable pub ◌>>◌ {ℓ} : {C B : Type ℓ} → Outcome C (Unit {ℓ}) → Outcome C B → Outcome C B
unfolding ◌>>=◌
m >> k = m >>= λ _. k

-- `if test: return reject(code)`
unfoldable pub reject_if {ℓ} : {C : Type ℓ} → Bool → C → Outcome C (Unit {ℓ})
reject_if true c = reject c
reject_if false c = done tt

-- A value that a search did not find, rejected or raised on.
unfoldable pub or_reject {ℓ} : {C A : Type ℓ} → Option A → C → Outcome C A
or_reject none c = reject c
or_reject (some a) c = done a

unfoldable pub or_raise {ℓ} : {C A : Type ℓ} → Option A → Exc → Outcome C A
or_raise none e = raise e
or_raise (some a) e = done a

-- Whatever the code returns satisfies `P`.
pub record Returns {ℓ κ} {C A : Type ℓ} (P : A → Type κ) (m : Outcome C A) : Type (ℓ ⊔ κ) where
  pub at : (a : A) → m ≡ done a → P a

module _ {ℓ κ} {C A : Type ℓ} {P : A → Type κ} where
  pub Returns-done : (a : A) → P a → Returns {C = C} P (done a)
  Returns-done a h = record { at = λ b e. let q : a ≡ b = cc in subst P q h }

  pub Returns-reject : (c : C) → Returns {A = A} P (reject c)
  Returns-reject c = record { at = λ a e. cc }

  pub Returns-raise : (e : Exc) → Returns {C = C} {A = A} P (raise e)
  Returns-raise x = record { at = λ a e. cc }

  pub Returns-reject_if :
      (test : Bool) (c : C) (k : Outcome C A)
      → (test ≡ false → Returns P k)
      → Returns P (reject_if test c >> k)
  unfolding reject_if ◌>>◌
  Returns-reject_if true c k h = Returns-reject c
  Returns-reject_if false c k h = h refl

  pub Returns-then : (m : Outcome C (Unit {ℓ})) (k : Outcome C A) → Returns P k → Returns P (m >> k)
  unfolding ◌>>◌ ◌>>=◌
  Returns-then (done x) k h = h
  Returns-then (reject c) k h = Returns-reject c
  Returns-then (raise e) k h = Returns-raise e

module _ {ℓ κ} {C A B : Type ℓ} {P : B → Type κ} where
  pub Returns-bind :
      (m : Outcome C A) (f : A → Outcome C B)
      → ((a : A) → m ≡ done a → Returns P (f a))
      → Returns P (m >>= f)
  unfolding ◌>>=◌
  Returns-bind (done a) f h = h a refl
  Returns-bind (reject c) f h = Returns-reject c
  Returns-bind (raise e) f h = Returns-raise e

  pub Returns-or_reject :
      (o : Option A) (c : C) (f : A → Outcome C B)
      → ((a : A) → o ≡ some a → Returns P (f a))
      → Returns P (or_reject o c >>= f)
  unfolding or_reject ◌>>=◌
  Returns-or_reject none c f h = Returns-reject c
  Returns-or_reject (some a) c f h = h a refl

  pub Returns-or_raise :
      (o : Option A) (e : Exc) (f : A → Outcome C B)
      → ((a : A) → o ≡ some a → Returns P (f a))
      → Returns P (or_raise o e >>= f)
  unfolding or_raise ◌>>=◌
  Returns-or_raise none e f h = Returns-raise e
  Returns-or_raise (some a) e f h = h a refl

module _ {ℓ} {C A : Type ℓ} where
  pub or_raise-eq-done :
      (o : Option A) (e : Exc) {a : A} → or_raise {C = C} o e ≡ done a → o ≡ some a
  unfolding or_raise
  or_raise-eq-done none e h = cc
  or_raise-eq-done (some b) e h = cc
