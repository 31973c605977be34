-- ===== src/Base/Order.antt =====
-- `Ord`: a comparison with the laws of a total order, for the keys of maps and sets.
use Prim.Native.Nat.{ℕ, compare, Ordering}
use Prim.Native.String.{String, compare as compare_str}
use mathlib.Core.Path.{◌≡◌}
use native.Mathlib.Omega.{arith}
use text.Mathlib.TextPositions.{compare_refl}
use joan.Base.Texts.{compare-eq, IsLess-of_gt, IsLess-trans}

pub record Ord {ℓ} (K : Type ℓ) : Type ℓ where
  pub cmp : K → K → Ordering
  pub cmp_refl : (a : K) → cmp a a ≡ Ordering.eq
  pub eq_of_cmp : (a b : K) → cmp a b ≡ Ordering.eq → a ≡ b
  pub lt_of_gt : (a b : K) → cmp a b ≡ Ordering.gt → cmp b a ≡ Ordering.lt
  pub lt_trans : (a b c : K) → cmp a b ≡ Ordering.lt → cmp b c ≡ Ordering.lt → cmp a c ≡ Ordering.lt

instance abbrev pub string_ord : Ord String
string_ord = record {
  cmp = compare_str;
  cmp_refl = compare_refl;
  eq_of_cmp = compare-eq;
  lt_of_gt = IsLess-of_gt;
  lt_trans = IsLess-trans;
}

pub nat_cmp_refl : (a : ℕ) → compare a a ≡ Ordering.eq
nat_cmp_refl a = ground arith

pub nat_eq_of_cmp : (a b : ℕ) → compare a b ≡ Ordering.eq → a ≡ b
nat_eq_of_cmp a b h = ground arith

pub nat_lt_of_gt : (a b : ℕ) → compare a b ≡ Ordering.gt → compare b a ≡ Ordering.lt
nat_lt_of_gt a b h = ground arith

pub nat_lt_trans :
    (a b c : ℕ) → compare a b ≡ Ordering.lt → compare b c ≡ Ordering.lt → compare a c ≡ Ordering.lt
nat_lt_trans a b c h k = ground arith

-- `derive(Ord)` on an enum compares the positions of the variants.
abbrev pub derive_ord {ℓ} :
    {A : Type ℓ} (position : A → ℕ) → ((a b : A) → position a ≡ position b → a ≡ b) → Ord A
derive_ord position inj = record {
  cmp = λ a b. compare (position a) (position b);
  cmp_refl = λ a. nat_cmp_refl (position a);
  eq_of_cmp = λ a b h. inj a b (nat_eq_of_cmp (position a) (position b) h);
  lt_of_gt = λ a b. nat_lt_of_gt (position a) (position b);
  lt_trans = λ a b c. nat_lt_trans (position a) (position b) (position c);
}
