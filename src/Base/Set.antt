-- ===== src/Base/Set.antt =====
-- `BTreeSet<K>`: the elements in rising order.
use Prim.Native.Nat.{Ordering, suc}
use joan.Base.Order.{Ord}
use joan.Base.Lists.{length, All}
use joan.Base.Tests.{if◌then◌else◌}
use mathlib.Core.Path.{◌≡◌, refl, subst}
use mathlib.Core.Bool.{Bool, true, false, not, ◌&&◌}
use mathlib.Core.Logic.{◌≢◌, ◌⊎◌, inl, inr}
use mathlib.Core.List.{List, [], ◌∷◌}
use native.Mathlib.Omega.{arith}

abbrev pub BTreeSet {ℓ} : Type ℓ → Type ℓ
BTreeSet K = List K

module _ {ℓ} {K : Type ℓ} ⦃o : Ord K⦄ where
  unfoldable pub contains : K → BTreeSet K → Bool
  contains k [] = false
  contains k (j ∷ s) = elim (o.cmp k j) [ Ordering.eq ↦ true | _ ↦ contains k s ]

  unfoldable pub insert : K → BTreeSet K → BTreeSet K
  insert k [] = k ∷ []
  insert k (j ∷ s) = elim (o.cmp k j) [
    | Ordering.lt ↦ k ∷ j ∷ s
    | Ordering.eq ↦ j ∷ s
    | Ordering.gt ↦ j ∷ insert k s
  ]

  -- `is_disjoint`
  unfoldable pub is_disjoint : BTreeSet K → BTreeSet K → Bool
  unfolding contains
  is_disjoint [] t = true
  is_disjoint (k ∷ s) t = not (contains k t) && is_disjoint s t

  -- `difference(..).cloned().collect()`
  unfoldable pub difference : BTreeSet K → BTreeSet K → BTreeSet K
  unfolding contains
  difference [] t = []
  difference (k ∷ s) t = let rest = difference s t in if contains k t then rest else k ∷ rest

  pub contains-insert_self : (k : K) (s : BTreeSet K) → contains k (insert k s) ≡ true
  unfolding contains insert
  contains-insert_self k [] = ground (arith, o.cmp_refl k)
  contains-insert_self k (j ∷ s) = ground (arith, o.cmp_refl k, contains-insert_self k s)

  pub contains-insert_ne :
      (k j : K) (s : BTreeSet K) → j ≢ k → contains j (insert k s) ≡ contains j s
  unfolding contains insert
  contains-insert_ne k j [] h = ground (arith, o.eq_of_cmp j k)
  contains-insert_ne k j (i ∷ s) h =
      ground (arith, o.eq_of_cmp j k, o.eq_of_cmp k i, contains-insert_ne k j s h)

  -- What was in the set stays.
  pub contains-insert_mono :
      (k j : K) (s : BTreeSet K) → contains j s ≡ true → contains j (insert k s) ≡ true
  unfolding contains insert
  contains-insert_mono k j [] h = cc
  contains-insert_mono k j (i ∷ s) h =
      ground (arith, contains-insert_mono k j s, o.eq_of_cmp j i, o.eq_of_cmp k i)

  pub length-insert_new :
      (k : K) (s : BTreeSet K) → contains k s ≡ false → length (insert k s) ≡ suc (length s)
  unfolding contains insert
  length-insert_new k [] h = refl
  length-insert_new k (j ∷ s) h = ground (arith, length-insert_new k s)

  -- No element is in both of two disjoint sets.
  pub is_disjoint-contains :
      (k : K) (s t : BTreeSet K)
      → is_disjoint s t ≡ true
      → contains k s ≡ true
      → contains k t ≡ false
  unfolding is_disjoint contains
  is_disjoint-contains k [] t h c = cc
  is_disjoint-contains k (j ∷ s) t h c = ground (arith, o.eq_of_cmp k j, is_disjoint-contains k s t)

  pub All-insert {μ} :
      (P : K → Type μ) (k : K) (s : BTreeSet K) → P k → All P s → All P (insert k s)
  unfolding insert
  All-insert P k [] p a = (p, tt)
  All-insert P k (j ∷ s) p a = ground (arith, All-insert P k s p a.1)

  head_or_rest :
      (k j : K) (s : BTreeSet K) → contains k (j ∷ s) ≡ true → (j ≡ k) ⊎ (contains k s ≡ true)
  unfolding contains
  head_or_rest k j s h = ground (arith, o.eq_of_cmp k j)

  pub contains-All {μ} :
      (P : K → Type μ) (k : K) (s : BTreeSet K) → All P s → contains k s ≡ true → P k
  unfolding contains
  contains-All P k [] a h = cc
  contains-All P k (j ∷ s) a h = elim (head_or_rest k j s h) [
    | inl same ↦ subst P same a.0
    | inr rest ↦ contains-All P k s a.1 rest
  ]
