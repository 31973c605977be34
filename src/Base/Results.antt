-- ===== src/Base/Results.antt =====
-- Rust's `Result<A, E>` and its `?`, as a monad; and what follows when a chain of steps succeeds.
use mathlib.Core.Path.{◌≡◌, refl}
use mathlib.Core.Logic.{◌⊎◌, inl, inr}
use mathlib.Core.Bool.{Bool, true, false}
use mathlib.Core.Option.{Option, none, some}

pub data Result {ℓ κ} (A : Type ℓ) (E : Type κ) : Type (ℓ ⊔ κ) where
  err : E → Result A E
  ok : A → Result A E

infixl 5 ◌>>=◌ ◌>>◌
-- `?` in the middle of a function: an error ends it.
abbrev pub ◌>>=◌ {μ ℓ κ} :
    {E : Type μ} {A : Type ℓ} {B : Type κ} → Result A E → (A → Result B E) → Result B E
err why >>= next = err why
ok value >>= next = next value

-- `?` as a statement.
abbrev pub ◌>>◌ {μ κ} : {E : Type μ} {B : Type κ} → Result (Unit {0}) E → Result B E → Result B E
check >> rest = check >>= (λ done. rest)

-- `if bad { return Err(e); }`
abbrev pub reject_if {κ} : {E : Type κ} → Bool → E → Result (Unit {0}) E
reject_if true e = err e
reject_if false e = ok tt

-- `Option::ok_or`
abbrev pub ok_or {ℓ κ} : {A : Type ℓ} {E : Type κ} → Option A → E → Result A E
ok_or none e = err e
ok_or (some a) e = ok a

-- `Result::map_err`, which a `?` inserts to convert an error.
abbrev pub map_err {ℓ κ μ} :
    {A : Type ℓ} {E : Type κ} {F : Type μ} → (E → F) → Result A E → Result A F
map_err f (ok a) = ok a
map_err f (err e) = err (f e)

module _ {ℓ κ} {A : Type ℓ} {E : Type κ} where
  pub Result-cases : (r : Result A E) → ((a : A) × (r ≡ ok a)) ⊎ ((e : E) × (r ≡ err e))
  Result-cases (ok a) = inl (a, refl)
  Result-cases (err e) = inr (e, refl)

  pub ok_inj : {a b : A} → ◌≡◌ {A = Result A E} (ok a) (ok b) → a ≡ b
  ok_inj h = cc

  pub ok_or-eq-ok : (o : Option A) (e : E) {a : A} → ok_or o e ≡ ok a → o ≡ some a
  ok_or-eq-ok none e h = cc
  ok_or-eq-ok (some a) e h = cc

module _ {ℓ κ μ} {A : Type ℓ} {B : Type κ} {E : Type μ} where
  -- A chain that returns has a first step that returns.
  pub >>=-eq-ok :
      (step : Result A E) (next : A → Result B E) {b : B}
      → (step >>= next) ≡ ok b
      → (value : A) × (step ≡ ok value) × (next value ≡ ok b)
  >>=-eq-ok (err why) next h = cc
  >>=-eq-ok (ok value) next h = (value, refl, h)

  pub map_err-eq-ok : (f : E → B) (r : Result A E) {a : A} → map_err f r ≡ ok a → r ≡ ok a
  map_err-eq-ok f (ok a) h = cc
  map_err-eq-ok f (err e) h = cc

module _ {κ μ} {B : Type κ} {E : Type μ} where
  pub reject_if-eq-ok :
      (bad : Bool) (e : E) (k : Result B E) {b : B}
      → (reject_if bad e >> k) ≡ ok b
      → (bad ≡ false) × (k ≡ ok b)
  reject_if-eq-ok true e k h = cc
  reject_if-eq-ok false e k h = (refl, h)

  pub >>-eq-ok :
      (m : Result (Unit {0}) E) (k : Result B E) {b : B}
      → (m >> k) ≡ ok b
      → (m ≡ ok tt) × (k ≡ ok b)
  >>-eq-ok (ok tt) k h = (refl, h)
  >>-eq-ok (err e) k h = cc
