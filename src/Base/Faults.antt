-- ===== src/Base/Faults.antt =====
-- Results of C++ code. A fault is what the language leaves undefined (a read out of range, a use of
-- an iterator past the end, signed overflow), an exception, or a failed TDF_BASE_CHECK, which aborts.
use mathlib.Core.Path.{◌≡◌, refl}
use mathlib.Core.Logic.{◌⊎◌, inl, inr}
use mathlib.Core.Bool.{Bool, true, false}
use mathlib.Core.Option.{Option, none, some}

pub data Fault : Type 0 where
  out_of_range bad_iterator null_pointer signed_overflow failed_check dead_object no_return : Fault

pub data Outcome {ℓ} (A : Type ℓ) : Type ℓ where
  ok : A → Outcome A
  fault : Fault → Outcome A

module _ {ℓ κ} {A : Type ℓ} {B : Type κ} where
  infixl 5 ◌>>=◌
  abbrev pub ◌>>=◌ : Outcome A → (A → Outcome B) → Outcome B
  fault e >>= k = fault e
  ok a >>= k = k a

  -- What a chain that returns has gone through.
  pub stages :
      (k : A → Outcome B) (m : Outcome A) {b : B}
      → m >>= k ≡ ok b
      → (a : A) × (k a ≡ ok b) × (m ≡ ok a)
  stages k (fault e) returned = cc
  stages k (ok a) returned = (a, returned, refl)

infixl 5 ◌>>◌
abbrev pub ◌>>◌ {ℓ} : {B : Type ℓ} → Outcome (Unit {0}) → Outcome B → Outcome B
m >> k = m >>= λ _. k

-- Goes on only if the test holds.
abbrev pub require : Bool → Fault → Outcome (Unit {0})
require true e = ok tt
require false e = fault e

-- A pointer or a position that may be null.
abbrev pub or_fault {ℓ} : {A : Type ℓ} → Fault → Option A → Outcome A
or_fault e none = fault e
or_fault e (some a) = ok a

Outcome-cases {ℓ} :
    {A : Type ℓ} (m : Outcome A) → ((a : A) × (m ≡ ok a)) ⊎ ((e : Fault) × (m ≡ fault e))
Outcome-cases (ok a) = inl (a, refl)
Outcome-cases (fault e) = inr (e, refl)
