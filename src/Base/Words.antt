-- ===== src/Base/Words.antt =====
-- Rust's `u64`: checked operations on numbers below 2 ^ 64.
use joan.Base.Tests.{ltb, leb, if◌then◌else◌}
use Prim.Native.Nat.{ℕ, ◌+◌, ◌-◌, ◌^◌, ◌≤◌, ◌<◌}
use mathlib.Core.Path.{◌≡◌}
use mathlib.Core.Option.{Option, none, some}
use native.Mathlib.Omega.{arith}

abbrev pub u64_end : ℕ
u64_end = 2 ^ 64

-- `u64::checked_add`
unfoldable pub checked_add : ℕ → ℕ → Option ℕ
checked_add a b = if ltb (a + b) u64_end then some (a + b) else none

-- `u64::checked_sub`
unfoldable pub checked_sub : ℕ → ℕ → Option ℕ
checked_sub a b = if leb b a then some (a - b) else none

pub checked_add-eq-some :
    (a b : ℕ) {c : ℕ} → checked_add a b ≡ some c → (c ≡ a + b) × (a + b < u64_end)
unfolding checked_add
checked_add-eq-some a b h = ground arith

pub checked_add_fits : (a b : ℕ) → a + b < u64_end → checked_add a b ≡ some (a + b)
unfolding checked_add
checked_add_fits a b h = ground arith

pub checked_add_overflows : (a b : ℕ) → u64_end ≤ a + b → checked_add a b ≡ none
unfolding checked_add
checked_add_overflows a b h = ground arith

pub checked_sub-eq-some : (a b : ℕ) {c : ℕ} → checked_sub a b ≡ some c → (c + b ≡ a)
unfolding checked_sub
checked_sub-eq-some a b h = ground arith

pub checked_sub_fits : (a b : ℕ) → b ≤ a → checked_sub a b ≡ some (a - b)
unfolding checked_sub
checked_sub_fits a b h = ground arith
