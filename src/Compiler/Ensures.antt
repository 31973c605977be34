-- ===== src/Compiler/Ensures.antt =====
-- What holds of a value, where an error may only be one of the resources or of the arithmetic.
use joan.Base.{◌≡◌, Bool, true, false, Result, ok, err, ◌>>=◌}
use joan.Compiler.Model.{
  LanguageError, runtime, canonical, RuntimeFault, negation_overflow, integer_failed,
  call_depth_exceeded, budget_exhausted,
}

abbrev pub is_resource_fault : RuntimeFault → Bool
is_resource_fault negation_overflow = true
is_resource_fault integer_failed = true
is_resource_fault call_depth_exceeded = true
is_resource_fault budget_exhausted = true
is_resource_fault _ = false

-- An overflow, a division by zero, a limit of the machine, or a failing digest.
abbrev pub is_resource : LanguageError → Bool
is_resource (runtime fault) = is_resource_fault fault
is_resource (canonical why) = true
is_resource _ = false

-- `R` is the type of the result's values.
abbrev pub Ensures {ℓ} : {R : Type ℓ} → (R → Type 0) → Result R LanguageError → Type 0
Ensures P (ok a) = P a
Ensures P (err e) = is_resource e ≡ true

module _ {ℓ κ} {A : Type ℓ} {B : Type κ} where
  pub Ensures-bind :
      (P : A → Type 0) (Q : B → Type 0) (r : Result A LanguageError)
      (f : A → Result B LanguageError)
      → Ensures P r
      → ((a : A) → P a → Ensures Q (f a))
      → Ensures Q (r >>= f)
  Ensures-bind P Q (ok a) f h k = k a h
  Ensures-bind P Q (err e) f h k = h
