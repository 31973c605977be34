-- ===== src/Base/Classes.antt =====
-- `PartialEq` and `Eq`: a Boolean test with its law.
use mathlib.Core.Path.{◌≡◌, refl}
use mathlib.Core.Logic.{◌↔◌, ◌≢◌, ◌⊎◌, inl, inr}
use mathlib.Core.Bool.{Bool, true, false, not}
use Prim.Native.Nat.{ℕ}
use Prim.Native.String.{String}
use native.Mathlib.Omega.{arith}
use text.Mathlib.Text.{◌==◌ as str_eq}
use text.Mathlib.TextEquality.{eq_iff}
use joan.Base.Tests.{nat_beq, Bool-cases}

-- `beq` is the derived `eq`; the law is what deriving it gives.
pub record Eq {ℓ} (T : Type ℓ) : Type ℓ where
  pub beq : (left right : T) → Bool
  pub beq_iff : (left right : T) → (beq left right ≡ true) ↔ (left ≡ right)

instance abbrev pub string_eq : Eq String
string_eq = record { beq_iff = eq_iff; beq = str_eq }

infix 50 ◌!=◌ ◌==◌
abbrev pub ◌!=◌ {ℓ} : {T : Type ℓ} ⦃equality : Eq T⦄ → T → T → Bool
◌!=◌ ⦃equality⦄ left right = not (equality.beq left right)

abbrev pub ◌==◌ {ℓ} : {T : Type ℓ} ⦃equality : Eq T⦄ → T → T → Bool
◌==◌ ⦃equality⦄ left right = equality.beq left right

pub nat_beq_iff : (m n : ℕ) → (nat_beq m n ≡ true) ↔ (m ≡ n)
nat_beq_iff m n = ground arith

abbrev pub decided {ℓ} : {P : Type ℓ} → Dec P → Bool
decided (no _) = false
decided (yes _) = true

pub decided_iff {ℓ} : {P : Type ℓ} (d : Dec P) → (decided d ≡ true) ↔ P
decided_iff (no refuted) = (λ h. cc, λ p. absurd (refuted p))
decided_iff (yes p) = (λ h. p, λ q. refl)

instance abbrev pub nat_eq : Eq ℕ
nat_eq = record { beq_iff = nat_beq_iff; beq = nat_beq }

-- A type whose equality is decided has the derived test.
abbrev pub derive_eq {ℓ} : {A : Type ℓ} → Discrete A → Eq A
derive_eq d = record { beq = λ a b. decided (d a b); beq_iff = λ a b. decided_iff (d a b) }

module _ {ℓ} {A : Type ℓ} ⦃e : Eq A⦄ where
  pub ==_self : (a : A) → (a == a) ≡ true
  ==_self a = (e.beq_iff a a).1 refl

  pub eq_of_!= : {a b : A} → (a != b) ≡ false → a ≡ b
  eq_of_!= {a} {b} h = (e.beq_iff a b).0 (ground arith)

  pub !=_of_ne : {a b : A} → a ≢ b → (a != b) ≡ true
  !=_of_ne {a} {b} h = ground (arith, (e.beq_iff a b).0)

  pub ne_of_!= : {a b : A} → (a != b) ≡ true → a ≢ b
  ne_of_!= {a} {b} h p = ground (arith, (e.beq_iff a b).1 p)

pub string_cases : (a b : String) → (a ≡ b) ⊎ (a ≢ b)
string_cases a b = elim (Bool-cases (str_eq a b)) [
  | inl same ↦ inl ((eq_iff a b).0 same)
  | inr other ↦ inr (λ e. cc ((eq_iff a b).1 e, other))
]
