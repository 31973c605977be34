-- ===== src/Ledger/Open.antt =====
-- Open holds in the histories of a ledger, and when a decision on one goes through.
use joan.Base.{ℕ, ◌+◌, ◌≡◌, ◌≢◌, refl, subst, String, [], ◌∷◌, arith, ok, some, true, inl, inr, ◌⊎◌}
use joan.Base.Lists.{length, All}
use joan.Base.Map
use joan.Base.Map.{
  BTreeMap, IsSorted, insert-IsSorted, contains_key, contains_key-insert_mono, All-insert, get-All,
}
use joan.Base.Order.{string_ord}
use joan.Base.Set.{length-insert_new}
use joan.Canonical.{Digests}
use joan.Dispute.Evaluate.{Hashes}
use joan.Ledger.Model.{
  reserved, MockHold, MockLedger, ReserveRequest, ApplyDecisionRequest, LedgerMutationReceipt,
  LedgerCore,
}
use joan.Ledger.Ops.{decided_hold, new_hold, credit}
use joan.Ledger.Credits.{credit-eq-ok}
use joan.Ledger.Holds.{Reserved, reserve-Reserved}
use joan.Ledger.Settlement.{Settled, apply_decision-Settled, status_for-reserved}
use joan.Ledger.History.{reserving, applying, Reach, begin, extend}

-- A hold is past `reserved`, or it locks its whole amount and both of its accounts exist.
abbrev pub IsPayable : BTreeMap String ℕ → String × MockHold → Type 0
IsPayable m e =
    (e.1.status ≢ reserved)
    ⊎ ((e.1.locked_amount_microunits ≡ e.1.original_amount_microunits)
        × (contains_key e.1.buyer_id m ≡ true)
        × (contains_key e.1.provider_id m ≡ true))

pub record IsOpen (l : MockLedger) : Type 0 where
  pub sorted_balances : IsSorted l.balances
  pub sorted_holds : IsSorted l.holds
  pub payable : All (IsPayable l.balances) l.holds
  pub counted : length l.consumed_idempotency_keys ≡ l.revision

All-IsPayable :
    (m m' : BTreeMap String ℕ) (holds : BTreeMap String MockHold)
    → ((k : String) → contains_key k m ≡ true → contains_key k m' ≡ true)
    → All (IsPayable m) holds
    → All (IsPayable m') holds
All-IsPayable m m' [] grows a = tt
All-IsPayable m m' ((k, h) ∷ rest) grows (inl past, a) = (inl past, All-IsPayable m m' rest grows a)
All-IsPayable m m' ((k, h) ∷ rest) grows (inr (full, buyer, provider), a) = (
  inr (full, grows h.buyer_id buyer, grows h.provider_id provider),
  All-IsPayable m m' rest grows a,
)

-- A credit keeps the order and the accounts.
credit-IsSorted :
    (m : BTreeMap String ℕ) (k : String) (n : ℕ) (m' : BTreeMap String ℕ)
    → credit m k n ≡ ok m'
    → IsSorted m
    → IsSorted m' × ((j : String) → contains_key j m ≡ true → contains_key j m' ≡ true)
credit-IsSorted m k n m' h s =
    let (b, _, _, e) = credit-eq-ok m k n m' h in
    subst (λ x. IsSorted x × ((j : String) → contains_key j m ≡ true → contains_key j x ≡ true)) e
      (insert-IsSorted k (b + n) m s, λ j. contains_key-insert_mono k j (b + n) m)

known :
    (k : String) (m : BTreeMap String ℕ) (b : ℕ) → Map.get k m ≡ some b → contains_key k m ≡ true
unfolding contains_key
known k m b h = ground arith

module _ (cores : Digests LedgerCore) (reserves : Digests ReserveRequest)
    (applies : Digests ApplyDecisionRequest) (hashes : Hashes) where
  reserve-IsOpen :
      (l l' : MockLedger) (q : ReserveRequest) (r : LedgerMutationReceipt)
      → Reserved cores reserves l q l' r
      → IsOpen l
      → IsOpen l'
  reserve-IsOpen l l' q r p o =
      let (remaining, had, _) = p.buyer in
      let count = length-insert_new q.idempotency_key l.consumed_idempotency_keys p.current.fresh in
      let grows : (k : String)
          → contains_key k l.balances ≡ true
          → contains_key k l'.balances ≡ true =
        λ k c. rw p.balances_after (contains_key-insert_mono q.buyer_id k p.buyer.0 l.balances c) in
      record {
        sorted_balances =
            rw p.balances_after (insert-IsSorted q.buyer_id p.buyer.0 l.balances o.sorted_balances);
        sorted_holds =
            rw p.holds_after (insert-IsSorted q.hold_id (new_hold q) l.holds o.sorted_holds);
        payable = rw p.holds_after (
            All-insert (IsPayable l'.balances) q.hold_id (new_hold q) l.holds
              (inr (
                refl,
                grows q.buyer_id (known q.buyer_id l.balances _ had),
                grows q.provider_id p.reservable.provider,
              ))
              (All-IsPayable l.balances l'.balances l.holds grows o.payable));
        counted = rw p.keys (omega (arith, count, o.counted, p.revision));
      }

  apply_decision-IsOpen :
      (l l' : MockLedger) (q : ApplyDecisionRequest) (r : LedgerMutationReceipt)
      → Settled cores applies hashes l q l' r
      → IsOpen l
      → IsOpen l'
  apply_decision-IsOpen l l' q r p o =
      let (m, c1, c2) = p.credited in
      let count = length-insert_new q.idempotency_key l.consumed_idempotency_keys p.current.fresh in
      let (s1, g1) =
        credit-IsSorted l.balances p.hold.buyer_id q.decision.remedy.buyer_refund_microunits m c1
          o.sorted_balances in
      let (s2, g2) =
        credit-IsSorted m p.hold.provider_id q.decision.remedy.provider_release_microunits
          l'.balances c2 s1 in
      record {
        sorted_balances = s2;
        sorted_holds =
            rw p.holds_after
              (insert-IsSorted q.hold_id (decided_hold q p.hold) l.holds o.sorted_holds);
        payable = rw p.holds_after (
            All-insert (IsPayable l'.balances) q.hold_id (decided_hold q p.hold) l.holds
              (inl (status_for-reserved q.decision.remedy.kind))
              (All-IsPayable l.balances l'.balances l.holds (λ k c. g2 k (g1 k c)) o.payable));
        counted = rw p.keys (omega (arith, count, o.counted, p.revision));
      }

  pub Reach-IsOpen :
      (l : MockLedger) {l' : MockLedger}
      → Reach cores reserves applies hashes l l'
      → IsOpen l
      → IsOpen l'
  Reach-IsOpen l begin o = o
  Reach-IsOpen l (extend {m = m} {n = n} s (reserving q r h)) o =
      reserve-IsOpen m n q r (reserve-Reserved cores reserves m q n r h) (Reach-IsOpen l s o)
  Reach-IsOpen l (extend {m = m} {n = n} s (applying q r h)) o =
      apply_decision-IsOpen m n q r (apply_decision-Settled cores applies hashes m q n r h)
        (Reach-IsOpen l s o)
