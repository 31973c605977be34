-- ===== src/Ledger/Payout.antt =====
-- When `apply_decision` goes through.
use joan.Base.{
  ℕ, ◌+◌, ◌<◌, ◌≡◌, refl, ◌∙◌, String, true, arith, ok, some, Option-cases, inl, inr, ◌!=◌,
  string_eq, false,
}
use joan.Base.Map
use joan.Base.Map.{
  sum_by, sum_by-insert, IsSorted, insert-IsSorted, contains_key, contains_key-insert_mono,
  get-le-sum_by, BTreeMap,
}
use joan.Base.Order.{string_ord}
use joan.Base.Words.{u64_end, checked_add_fits}
use joan.Canonical.{Digest, Digests}
use joan.Dispute.Evaluate.{Hashes, verify_decision}
use joan.Ledger.Model.{
  MockHold, MockLedger, ApplyDecisionRequest, LedgerMutationReceipt, LedgerCore,
}
use joan.Ledger.Ops.{
  verify_ledger, validate_preconditions, admit_decision, apply_decision, decided_hold, credit,
}
use joan.Ledger.Totals.{worth, amount, locked}
use joan.Ledger.Conservation.{verify_ledger-IsConserved}
use joan.Ledger.Settlement.{admit_decision-Decidable, settled_into}
use joan.Ledger.Progress.{finish_mutation_succeeds}

-- What a credit that fits does to the sum of the balances.
record Credited (m : BTreeMap String ℕ) (k : String) (n : ℕ) (m' : BTreeMap String ℕ) : Type 0 where
  returns : credit m k n ≡ ok m'
  raised : sum_by amount m' ≡ sum_by amount m + n
  sorted : IsSorted m'
  same_keys : (j : String) → contains_key j m ≡ true → contains_key j m' ≡ true

present :
    (k : String) (m : BTreeMap String ℕ)
    → contains_key k m ≡ true
    → (b : ℕ) × (Map.get k m ≡ some b)
unfolding contains_key
present k m h = elim (Option-cases (Map.get k m)) [ inl missing ↦ ground arith | inr there ↦ there ]

credit_succeeds :
    (m : BTreeMap String ℕ) (k : String) (n : ℕ)
    → IsSorted m
    → contains_key k m ≡ true
    → sum_by amount m + n < u64_end
    → (m' : BTreeMap String ℕ) × Credited m k n m'
unfolding credit
credit_succeeds m k n s known fits =
    let (b, had) = present k m known in
    let part = get-le-sum_by amount k b m had in
    let sums = sum_by-insert amount k (b + n) b m s had in
    (
      Map.insert k (b + n) m,
      record {
        returns = rw (had, checked_add_fits b n (omega (arith, part, fits))) refl;
        raised = omega (arith, sums);
        sorted = insert-IsSorted k (b + n) m s;
        same_keys = λ j. contains_key-insert_mono k j (b + n) m;
      },
    )

module _ (cores : Digests LedgerCore) (requests : Digests ApplyDecisionRequest)
    (hashes : Hashes) where
  -- If every digest can be computed, the maps are sorted, the ledger verifies, the preconditions
  -- and the request's schema are met, the decision verifies and is admitted on a hold that still
  -- locks its whole amount, both of its accounts exist, and the revision does not overflow, then
  -- `apply_decision` succeeds: no credit overflows and the conservation check passes.
  pub apply_decision_succeeds :
      (l : MockLedger) (q : ApplyDecisionRequest) (hold : MockHold)
      → ((v : LedgerCore)
          → (d : Digest) × (cores.digest_serializable "joan.mock-ledger.v0" v ≡ ok d))
      → ((v : ApplyDecisionRequest)
          → (d : Digest) × (requests.digest_serializable "joan.mock-apply-decision-request.v0" v
              ≡ ok d))
      → IsSorted l.balances
      → IsSorted l.holds
      → verify_ledger cores l ≡ ok tt
      → validate_preconditions l q.expected_ledger_root q.expected_revision q.idempotency_key
        ≡ ok tt
      → q.schema ≡ "joan.mock-apply-decision-request.v0"
      → verify_decision hashes q.decision ≡ ok tt
      → Map.get q.hold_id l.holds ≡ some hold
      → admit_decision q hold ≡ ok tt
      → hold.locked_amount_microunits ≡ hold.original_amount_microunits
      → contains_key hold.buyer_id l.balances ≡ true
      → contains_key hold.provider_id l.balances ≡ true
      → l.revision + 1 < u64_end
      → (x : MockLedger × LedgerMutationReceipt) × (apply_decision cores requests hashes l q ≡ ok x)
  unfolding apply_decision
  apply_decision_succeeds l q hold hashed seals sb sh v p schema real held a full buyer provider
        room =
      let before = verify_ledger-IsConserved cores l v in
      let whole = (admit_decision-Decidable q hold a).divided in
      let share = get-le-sum_by locked q.hold_id hold l.holds held in
      let (m1, first) =
        credit_succeeds l.balances hold.buyer_id q.decision.remedy.buyer_refund_microunits sb buyer
          (omega (arith, before.fits, whole, share, full)) in
      let (m2, second) =
        credit_succeeds m1 hold.provider_id q.decision.remedy.provider_release_microunits
          first.sorted (first.same_keys hold.provider_id provider)
          (omega (arith, before.fits, whole, share, full, first.raised)) in
      let kept = sum_by-insert locked q.hold_id (decided_hold q hold) hold l.holds sh held in
      let same : worth (settled_into cores requests hashes l q m2 hold) ≡ worth l =
        omega (arith, first.raised, second.raised, kept, whole, full) in
      let done =
        finish_mutation_succeeds cores (settled_into cores requests hashes l q m2 hold)
          q.idempotency_key l.ledger_root q.hold_id "apply-decision" (seals q).0 hashed
          (same ∙ before.total) (omega (arith, same, before.fits)) room in
      let fitting : (q.schema != "joan.mock-apply-decision-request.v0") ≡ false =
        ground (arith, string_eq.beq_iff q.schema "joan.mock-apply-decision-request.v0") in
      rw (v, p, fitting, real, held, a, first.returns, second.returns, (seals q).1) done
