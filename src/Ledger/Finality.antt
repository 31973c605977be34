-- ===== src/Ledger/Finality.antt =====
-- When a decision on an open hold of a history goes through.
use joan.Base.{ℕ, ◌≡◌, refl, String, true, arith, ok, some, inl, inr}
use joan.Base.Map
use joan.Base.Map.{BTreeMap, IsSorted, contains_key, get-All}
use joan.Base.Order.{string_ord}
use joan.Canonical.{Digest, Digests}
use joan.Dispute.Evaluate.{Hashes, verify_decision}
use joan.Ledger.Model.{
  reserved, MockHold, MockLedger, ReserveRequest, ApplyDecisionRequest, LedgerMutationReceipt,
  LedgerCore,
}
use joan.Ledger.Ops.{create_ledger, apply_decision, admit_decision, validate_preconditions}
use joan.Ledger.Holds.{validate_preconditions-Current}
use joan.Ledger.Settlement.{admit_decision-Decidable}
use joan.Ledger.History.{Reach, create_ledger-verified, Reach-conserves}
use joan.Ledger.Open.{IsPayable, IsOpen, Reach-IsOpen}
use joan.Ledger.Payout.{apply_decision_succeeds}

-- An open hold locks its whole amount, and its accounts exist.
payable_parts :
    (m : BTreeMap String ℕ) (k : String) (hold : MockHold)
    → hold.status ≡ reserved
    → IsPayable m (k, hold)
    → (hold.locked_amount_microunits ≡ hold.original_amount_microunits)
      × (contains_key hold.buyer_id m ≡ true)
      × (contains_key hold.provider_id m ≡ true)
payable_parts m k hold s (inl past) = absurd (past s)
payable_parts m k hold s (inr parts) = parts

module _ (cores : Digests LedgerCore) (reserves : Digests ReserveRequest)
    (applies : Digests ApplyDecisionRequest) (hashes : Hashes) where
  create_ledger-IsOpen :
      (balances : BTreeMap String ℕ) (l : MockLedger)
      → create_ledger cores balances ≡ ok l
      → IsSorted balances
      → IsOpen l
  create_ledger-IsOpen balances l h s =
      let (_, same, _, _, holds, keys, revision) = create_ledger-verified cores balances l h in
      record {
        sorted_balances = rw same s;
        sorted_holds = rw holds tt;
        payable = rw holds tt;
        counted = rw (keys, revision) refl;
      }

  -- Take any ledger that successful reservations and decisions reach from one created with sorted
  -- balances, and let every digest be computed. A request with the right schema that meets the
  -- preconditions, whose decision verifies and is admitted on a hold of the ledger, then succeeds:
  -- an open hold of a history can always be settled by its decision.
  pub history_settles :
      (balances : BTreeMap String ℕ) (l0 l : MockLedger) (q : ApplyDecisionRequest)
      (hold : MockHold)
      → ((v : LedgerCore)
          → (d : Digest) × (cores.digest_serializable "joan.mock-ledger.v0" v ≡ ok d))
      → ((v : ApplyDecisionRequest)
          → (d : Digest) × (applies.digest_serializable "joan.mock-apply-decision-request.v0" v
              ≡ ok d))
      → IsSorted balances
      → create_ledger cores balances ≡ ok l0
      → Reach cores reserves applies hashes l0 l
      → validate_preconditions l q.expected_ledger_root q.expected_revision q.idempotency_key
        ≡ ok tt
      → q.schema ≡ "joan.mock-apply-decision-request.v0"
      → verify_decision hashes q.decision ≡ ok tt
      → Map.get q.hold_id l.holds ≡ some hold
      → admit_decision q hold ≡ ok tt
      → (x : MockLedger × LedgerMutationReceipt) × (apply_decision cores applies hashes l q ≡ ok x)
  history_settles balances l0 l q hold hashed seals s made reach p schema real held a =
      let first = create_ledger-verified cores balances l0 made in
      let verified = (Reach-conserves cores reserves applies hashes l0 reach first.0).3 in
      let o =
        Reach-IsOpen cores reserves applies hashes l0 reach
          (create_ledger-IsOpen balances l0 made s) in
      let room =
        (validate_preconditions-Current l q.expected_ledger_root q.expected_revision
          q.idempotency_key p).room in
      let (full, buyer, provider) =
        payable_parts l.balances q.hold_id hold (admit_decision-Decidable q hold a).undecided.0
          (get-All (IsPayable l.balances) q.hold_id hold l.holds o.payable held) in
      apply_decision_succeeds cores applies hashes l q hold hashed seals o.sorted_balances
        o.sorted_holds verified p schema real held a full buyer provider
        (omega (arith, room, o.counted))
