-- ===== src/Base/Map.antt =====
-- `BTreeMap<K, V>`: the entries in the order of their keys.
use Prim.Native.Nat.{Ordering}
use joan.Base.Order.{Ord}
use joan.Base.Lists.{length, All}
use joan.Base.Tests.{is_some}
use Prim.Native.Nat.{ℕ, suc, ◌+◌, ◌≤◌}
use mathlib.Core.Path.{◌≡◌, refl, sym, subst}
use mathlib.Core.Bool.{Bool, true, false}
use mathlib.Core.Logic.{◌≢◌, ◌⊎◌, inl, inr}
use mathlib.Core.Option.{Option, none, some}
use mathlib.Core.List.{List, [], ◌∷◌}
use native.Mathlib.Omega.{arith}

abbrev pub BTreeMap {ℓ κ} : Type ℓ → Type κ → Type (ℓ ⊔ κ)
BTreeMap K V = List (K × V)

module _ {ℓ κ} {K : Type ℓ} {V : Type κ} where
  abbrev pub values : BTreeMap K V → List V
  values [] = []
  values ((k, v) ∷ m) = v ∷ values m

  abbrev pub keys : BTreeMap K V → List K
  keys [] = []
  keys ((k, v) ∷ m) = k ∷ keys m

  -- The sum of a measure over the values.
  abbrev pub sum_by : (V → ℕ) → BTreeMap K V → ℕ
  sum_by f [] = 0
  sum_by f ((k, v) ∷ m) = f v + sum_by f m

module _ {ℓ κ} {K : Type ℓ} {V : Type κ} ⦃o : Ord K⦄ where
  unfoldable pub get : K → BTreeMap K V → Option V
  get k [] = none
  get k ((j, v) ∷ m) = elim (o.cmp k j) [ Ordering.eq ↦ some v | _ ↦ get k m ]

  unfoldable pub contains_key : K → BTreeMap K V → Bool
  contains_key k m = is_some (get k m)

  unfoldable pub insert : K → V → BTreeMap K V → BTreeMap K V
  insert k v [] = (k, v) ∷ []
  insert k v ((j, w) ∷ m) = elim (o.cmp k j) [
    | Ordering.lt ↦ (k, v) ∷ (j, w) ∷ m
    | Ordering.eq ↦ (k, v) ∷ m
    | Ordering.gt ↦ (j, w) ∷ insert k v m
  ]

  unfoldable pub remove : K → BTreeMap K V → BTreeMap K V
  remove k [] = []
  remove k ((j, w) ∷ m) = elim (o.cmp k j) [ Ordering.eq ↦ m | _ ↦ (j, w) ∷ remove k m ]

  -- Every key of the map lies above `k`.
  abbrev pub IsAbove : K → BTreeMap K V → Type 0
  IsAbove k [] = Unit
  IsAbove k ((j, w) ∷ m) = (o.cmp k j ≡ Ordering.lt) × IsAbove k m

  -- What the type `BTreeMap` keeps: keys in strictly rising order.
  abbrev pub IsSorted : BTreeMap K V → Type 0
  IsSorted [] = Unit
  IsSorted ((k, v) ∷ m) = IsAbove k m × IsSorted m

  pub get-insert_self : (k : K) (v : V) (m : BTreeMap K V) → get k (insert k v m) ≡ some v
  unfolding get insert
  get-insert_self k v [] = ground (arith, o.cmp_refl k)
  get-insert_self k v ((j, w) ∷ m) = ground (arith, o.cmp_refl k, get-insert_self k v m)

  pub get-insert_ne : (k j : K) (v : V) (m : BTreeMap K V) → j ≢ k → get j (insert k v m) ≡ get j m
  unfolding get insert
  get-insert_ne k j v [] h = ground (arith, o.eq_of_cmp j k)
  get-insert_ne k j v ((i, w) ∷ m) h =
      ground (arith, o.eq_of_cmp j k, o.eq_of_cmp k i, get-insert_ne k j v m h)

  pub IsAbove-trans :
      (k j : K) (m : BTreeMap K V) → o.cmp k j ≡ Ordering.lt → IsAbove j m → IsAbove k m
  IsAbove-trans k j [] h a = tt
  IsAbove-trans k j ((i, w) ∷ m) h (b, a) = (o.lt_trans k j i h b, IsAbove-trans k j m h a)

  pub insert-IsAbove :
      (i k : K) (v : V) (m : BTreeMap K V)
      → o.cmp i k ≡ Ordering.lt
      → IsAbove i m
      → IsAbove i (insert k v m)
  unfolding insert
  insert-IsAbove i k v [] h a = (h, tt)
  insert-IsAbove i k v ((j, w) ∷ m) h a = ground (arith, insert-IsAbove i k v m h a.1)

  pub insert-IsSorted : (k : K) (v : V) (m : BTreeMap K V) → IsSorted m → IsSorted (insert k v m)
  unfolding insert
  insert-IsSorted k v [] s = (tt, tt)
  insert-IsSorted k v ((j, w) ∷ m) s = ground (
    arith,
    o.eq_of_cmp k j,
    o.lt_of_gt k j,
    IsAbove-trans k j m,
    insert-IsAbove j k v m,
    insert-IsSorted k v m,
  )

  pub get_above : (k : K) (m : BTreeMap K V) → IsAbove k m → get k m ≡ none
  unfolding get
  get_above k [] a = refl
  get_above k ((j, w) ∷ m) a = ground (arith, get_above k m)

  -- Overwriting a value moves the sum by the difference.
  pub sum_by-insert :
      (f : V → ℕ) (k : K) (v old : V) (m : BTreeMap K V)
      → IsSorted m
      → get k m ≡ some old
      → sum_by f (insert k v m) + f old ≡ sum_by f m + f v
  unfolding get insert
  sum_by-insert f k v old [] s h = cc
  sum_by-insert f k v old ((j, w) ∷ m) s h =
      ground (arith, get_above k m, IsAbove-trans k j m, sum_by-insert f k v old m)

  -- A new entry adds its measure.
  pub sum_by-insert_new :
      (f : V → ℕ) (k : K) (v : V) (m : BTreeMap K V)
      → get k m ≡ none
      → sum_by f (insert k v m) ≡ sum_by f m + f v
  unfolding get insert
  sum_by-insert_new f k v [] h = omega arith
  sum_by-insert_new f k v ((j, w) ∷ m) h = ground (arith, sum_by-insert_new f k v m)

  pub get-le-sum_by :
      (f : V → ℕ) (k : K) (v : V) (m : BTreeMap K V) → get k m ≡ some v → f v ≤ sum_by f m
  unfolding get
  get-le-sum_by f k v [] h = cc
  get-le-sum_by f k v ((j, w) ∷ m) h = ground (arith, get-le-sum_by f k v m)

  pub contains_key-insert_mono :
      (k j : K) (v : V) (m : BTreeMap K V)
      → contains_key j m ≡ true
      → contains_key j (insert k v m) ≡ true
  unfolding contains_key get insert
  contains_key-insert_mono k j v [] h = cc
  contains_key-insert_mono k j v ((i, w) ∷ m) h =
      ground (arith, contains_key-insert_mono k j v m, o.eq_of_cmp j i, o.eq_of_cmp k i)

  pub get-insert_keeps :
      (k j : K) (v w : V) (m : BTreeMap K V)
      → contains_key k m ≡ false
      → get j m ≡ some w
      → get j (insert k v m) ≡ some w
  unfolding contains_key get insert
  get-insert_keeps k j v w [] c h = cc
  get-insert_keeps k j v w ((i, u) ∷ m) c h = ground (
    arith,
    get-insert_keeps k j v w m,
    o.eq_of_cmp j i,
    o.eq_of_cmp k i,
    o.eq_of_cmp j k,
    o.cmp_refl k,
  )

  pub length-insert_new :
      (k : K) (v : V) (m : BTreeMap K V)
      → contains_key k m ≡ false
      → length (insert k v m) ≡ suc (length m)
  unfolding contains_key get insert
  length-insert_new k v [] h = refl
  length-insert_new k v ((i, w) ∷ m) h = ground (arith, length-insert_new k v m)

  -- An insertion keeps what holds of every entry.
  pub All-insert {μ} :
      (P : K × V → Type μ) (k : K) (v : V) (m : BTreeMap K V)
      → P (k, v)
      → All P m
      → All P (insert k v m)
  unfolding insert
  All-insert P k v [] p a = (p, tt)
  All-insert P k v ((i, w) ∷ m) p a = ground (arith, All-insert P k v m p a.1)

  head_or_rest :
      (k i : K) (v w : V) (m : BTreeMap K V)
      → get k ((i, w) ∷ m) ≡ some v
      → ((k ≡ i) × (w ≡ v)) ⊎ (get k m ≡ some v)
  unfolding get
  head_or_rest k i v w m h = ground (arith, o.eq_of_cmp k i)

  pub get-All {μ} :
      (P : K × V → Type μ) (k : K) (v : V) (m : BTreeMap K V)
      → All P m
      → get k m ≡ some v
      → P (k, v)
  unfolding get
  get-All P k v [] a h = cc
  get-All P k v ((i, w) ∷ m) a h = elim (head_or_rest k i v w m h) [
    | inl same ↦ subst (λ j. P (j, v)) (sym same.0) (subst (λ u. P (i, u)) same.1 a.0)
    | inr rest ↦ get-All P k v m a.1 rest
  ]
