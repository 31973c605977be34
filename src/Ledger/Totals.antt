-- ===== src/Ledger/Totals.antt =====
-- `checked_sum` and `total_value` against plain sums.
use joan.Base.{
  ℕ, ◌+◌, ◌<◌, ◌≡◌, refl, List, [], ◌∷◌, ◌++◌, map, arith, ok, ok_or, >>=-eq-ok, ok_or-eq-ok,
  ok_inj, String,
}
use joan.Base.Map.{BTreeMap, values, sum_by}
use joan.Base.Words.{checked_add, checked_add-eq-some, checked_add_fits, u64_end}
use joan.Ledger.Model.{MockHold, MockLedger, amount_overflow}
use joan.Ledger.Ops.{checked_sum_from, checked_sum, total_value}

abbrev pub sum : List ℕ → ℕ
sum [] = 0
sum (x ∷ xs) = x + sum xs

abbrev pub locked : MockHold → ℕ
locked h = h.locked_amount_microunits

abbrev pub amount : ℕ → ℕ
amount n = n

-- The value of a ledger: what is available and what is locked.
abbrev pub worth : MockLedger → ℕ
worth l = sum_by amount l.balances + sum_by locked l.holds

checked_sum_from-eq-ok :
    (t : ℕ) (xs : List ℕ) (n : ℕ)
    → t < u64_end
    → checked_sum_from t xs ≡ ok n
    → (n ≡ t + sum xs) × (n < u64_end)
unfolding checked_sum_from
checked_sum_from-eq-ok t [] n b h = let e : t ≡ n = ok_inj h in (omega arith, omega arith)
checked_sum_from-eq-ok t (x ∷ xs) n b h =
    let (next, e, h1) = >>=-eq-ok (ok_or (checked_add t x) amount_overflow) _ h in
    let (same, fits) = checked_add-eq-some t x (ok_or-eq-ok (checked_add t x) _ e) in
    let (total, bound) = checked_sum_from-eq-ok next xs n (omega arith) h1 in (omega arith, bound)

checked_sum_from_fits :
    (t : ℕ) (xs : List ℕ) → t + sum xs < u64_end → checked_sum_from t xs ≡ ok (t + sum xs)
unfolding checked_sum_from
checked_sum_from_fits t [] h = ground arith
checked_sum_from_fits t (x ∷ xs) h =
    ground (arith, checked_add_fits t x, checked_sum_from_fits (t + x) xs)

-- The checked sum is the sum, and it is returned exactly if the sum fits in 64 bits.
pub checked_sum-eq-ok : (xs : List ℕ) (n : ℕ) → checked_sum xs ≡ ok n → (n ≡ sum xs) × (n < u64_end)
unfolding checked_sum
checked_sum-eq-ok xs n h =
    let p = checked_sum_from-eq-ok 0 xs n (omega arith) h in (omega (arith, p.0), p.1)

pub checked_sum_fits : (xs : List ℕ) → sum xs < u64_end → checked_sum xs ≡ ok (sum xs)
unfolding checked_sum
checked_sum_fits xs h = ground (arith, checked_sum_from_fits 0 xs)

sum-append : (xs ys : List ℕ) → sum (xs ++ ys) ≡ sum xs + sum ys
sum-append [] ys = omega arith
sum-append (x ∷ xs) ys = omega (arith, sum-append xs ys)

pub sum-values : (m : BTreeMap String ℕ) → sum (values m) ≡ sum_by amount m
sum-values [] = refl
sum-values ((k, v) ∷ m) = omega (arith, sum-values m)

sum-locked :
    (m : BTreeMap String MockHold)
    → sum (map (λ h. h.locked_amount_microunits) (values m)) ≡ sum_by locked m
sum-locked [] = refl
sum-locked ((k, v) ∷ m) = omega (arith, sum-locked m)

sum-worth :
    (l : MockLedger)
    → sum (values l.balances ++ map (λ h. h.locked_amount_microunits) (values l.holds)) ≡ worth l
sum-worth l = omega (
  arith,
  sum-append (values l.balances) (map (λ h. h.locked_amount_microunits) (values l.holds)),
  sum-values l.balances,
  sum-locked l.holds,
)

-- `total_value` returns the value of the ledger, exactly if it fits in 64 bits.
pub total_value-eq-ok :
    (l : MockLedger) (n : ℕ) → total_value l ≡ ok n → (n ≡ worth l) × (worth l < u64_end)
unfolding total_value
total_value-eq-ok l n h =
    let p = checked_sum-eq-ok _ n h in
    (omega (arith, p.0, sum-worth l), omega (arith, p.0, p.1, sum-worth l))

pub total_value_fits : (l : MockLedger) → worth l < u64_end → total_value l ≡ ok (worth l)
unfolding total_value
total_value_fits l h = rw (
  checked_sum_fits (values l.balances ++ map (λ h. h.locked_amount_microunits) (values l.holds))
      (omega (arith, sum-worth l)),
  sum-worth l,
)
