-- ===== src/Ledger/Credits.antt =====
-- The two credits of `apply_decision`.
use joan.Base.{
  ℕ, ◌+◌, ◌<◌, ◌≡◌, ◌≢◌, sym, subst, ◌∙◌, String, arith, ok, ok_or, some, ◌⊎◌, inl, inr,
  string_cases, >>=-eq-ok, ok_or-eq-ok, ok_inj, string_eq,
}
use joan.Base.Map
use joan.Base.Map.{BTreeMap, get-insert_self, get-insert_ne}
use joan.Base.Order.{string_ord}
use joan.Base.Words.{u64_end, checked_add, checked_add-eq-some}
use joan.Ledger.Model.{unknown_account, amount_overflow}
use joan.Ledger.Ops.{credit}
use joan.Ledger.Holds.{insert_elsewhere}

-- A credit raises one balance, and the sum fits in 64 bits.
pub credit-eq-ok :
    (m : BTreeMap String ℕ) (k : String) (n : ℕ) (m' : BTreeMap String ℕ)
    → credit m k n ≡ ok m'
    → (b : ℕ) × (Map.get k m ≡ some b) × (b + n < u64_end) × (Map.insert k (b + n) m ≡ m')
unfolding credit
credit-eq-ok m k n m' h0 =
    let (b, had, h1) = >>=-eq-ok (ok_or (Map.get k m) (unknown_account k)) _ h0 in
    let (s, e, h2) = >>=-eq-ok (ok_or (checked_add b n) amount_overflow) _ h1 in
    let (same, fits) = checked_add-eq-some b n (ok_or-eq-ok (checked_add b n) _ e) in
    (b, ok_or-eq-ok (Map.get k m) _ had, fits, subst (λ x. Map.insert k x m ≡ m') same (ok_inj h2))

-- Both credits: two accounts rise by their parts, and no other balance changes.
pub record Paid (m : BTreeMap String ℕ) (buyer provider : String) (refund release : ℕ)
    (m' : BTreeMap String ℕ) : Type 0 where
  pub buyer_paid :
      (buyer ≡ provider)
      ⊎ ((b : ℕ) × (Map.get buyer m ≡ some b) × (Map.get buyer m' ≡ some (b + refund)))
  pub provider_paid :
      (buyer ≡ provider)
      ⊎ ((b : ℕ) × (Map.get provider m ≡ some b) × (Map.get provider m' ≡ some (b + release)))
  pub both_paid :
      (buyer ≢ provider)
      ⊎ ((b : ℕ) × (Map.get buyer m ≡ some b) × (Map.get buyer m' ≡ some (b + refund + release)))
  pub others : (k : String) → (k ≡ buyer) ⊎ (k ≡ provider) ⊎ (Map.get k m' ≡ Map.get k m)

credits-others :
    (m : BTreeMap String ℕ) (buyer provider : String) (x y : ℕ) (k : String)
    → (k ≡ buyer)
      ⊎ (k ≡ provider)
      ⊎ (Map.get k (Map.insert provider y (Map.insert buyer x m)) ≡ Map.get k m)
credits-others m buyer provider x y k = elim (insert_elsewhere buyer k x m) [
  | inl same ↦ inl same
  | inr first ↦ elim (insert_elsewhere provider k y (Map.insert buyer x m)) [
    | inl same ↦ inr (inl same)
    | inr second ↦ inr (inr (second ∙ first))
  ]
]

together :
    (buyer provider : String) (m1 m2 : BTreeMap String ℕ) (raised p release : ℕ)
    → buyer ≡ provider
    → Map.get buyer m1 ≡ some raised
    → Map.get provider m1 ≡ some p
    → Map.get provider m2 ≡ some (p + release)
    → Map.get buyer m2 ≡ some (raised + release)
together buyer provider m1 m2 raised p release same paid was released = ground arith

pub credits-Paid :
    (m : BTreeMap String ℕ) (buyer provider : String) (refund release : ℕ)
    (m1 m2 : BTreeMap String ℕ)
    → credit m buyer refund ≡ ok m1
    → credit m1 provider release ≡ ok m2
    → Paid m buyer provider refund release m2
credits-Paid m buyer provider refund release m1 m2 h1 h2 =
    let (b, had, _, e) = credit-eq-ok m buyer refund m1 h1 in
    let (p, was, _, f) = credit-eq-ok m1 provider release m2 h2 in
    let paid : Map.get buyer m1 ≡ some (b + refund) =
      subst (λ x. Map.get buyer x ≡ some (b + refund)) e (get-insert_self buyer (b + refund) m) in
    let released : Map.get provider m2 ≡ some (p + release) =
      subst (λ x. Map.get provider x ≡ some (p + release)) f
        (get-insert_self provider (p + release) m1) in
    let elsewhere : (k : String) → (k ≡ buyer) ⊎ (k ≡ provider) ⊎ (Map.get k m2 ≡ Map.get k m) =
      λ k.
        subst (λ x. (k ≡ buyer) ⊎ (k ≡ provider) ⊎ (Map.get k x ≡ Map.get k m)) f
          (subst
            (λ x.
              (k ≡ buyer)
              ⊎ (k ≡ provider)
              ⊎ (Map.get k (Map.insert provider (p + release) x) ≡ Map.get k m))
            e (credits-others m buyer provider (b + refund) (p + release) k)) in
    elim (string_cases buyer provider) [
      | inl same ↦ record {
        buyer_paid = inl same;
        provider_paid = inl same;
        both_paid =
            inr
              (b, had, together buyer provider m1 m2 (b + refund) p release same paid was released);
        others = elsewhere;
      }
      | inr apart ↦ record {
        buyer_paid = inr (
          b,
          had,
          subst (λ x. Map.get buyer x ≡ some (b + refund)) f
              (get-insert_ne provider buyer (p + release) m1 apart ∙ paid),
        );
        provider_paid = inr (
          p,
          sym (get-insert_ne buyer provider (b + refund) m (λ s. apart (sym s)))
              ∙ subst (λ x. Map.get provider x ≡ some p) (sym e) was,
          released,
        );
        both_paid = inl apart;
        others = elsewhere;
      }
    ]
