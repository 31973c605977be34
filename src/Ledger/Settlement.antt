-- ===== src/Ledger/Settlement.antt =====
-- `apply_decision`: the ledger before and after.
use joan.Base.{
  ℕ, ◌+◌, ◌≡◌, ◌≢◌, sym, subst, ◌∙◌, false, ◌||◌, String, [], ◌∷◌, arith, ok, ok_or, some, ◌⊎◌,
  is_some, >>-eq-ok, >>=-eq-ok, reject_if-eq-ok, ok_or-eq-ok, map_err, map_err-eq-ok, ok_inj, ◌!=◌,
  string_eq, nat_eq,
}
use joan.Base.Map
use joan.Base.Map.{BTreeMap, get-insert_self, get-insert_ne, All-insert, get-All}
use joan.Base.Order.{string_ord}
use joan.Base.Set.{insert}
use joan.Canonical.{Digests}
use joan.Dispute.Allocation.{allocated}
use joan.Dispute.Model.{RemedyKind}
use joan.Dispute.Evaluate.{Hashes, verify_decision}
use joan.Ledger.Model.{
  reserved, hold_status_eq, MockHold, MockLedger, ApplyDecisionRequest, LedgerMutationReceipt,
  LedgerCore, canonical, dispute, unknown_hold,
}
use joan.Ledger.Ops.{
  verify_ledger, validate_preconditions, admit_decision, apply_decision, decided_hold, credit,
  checked_sum, status_for,
}
use joan.Ledger.Totals.{worth, checked_sum-eq-ok}
use joan.Ledger.Conservation.{
  IsSoundHold, verify_ledger-IsConserved, Finished, finish_mutation-Finished,
}
use joan.Ledger.Stored.{Concluded, decided_hold-Concluded}
use joan.Ledger.Credits.{Paid, credits-Paid}
use joan.Ledger.Holds.{Current, validate_preconditions-Current, insert_elsewhere}

-- A hold that a decision may be applied to, and one whose parts add up to it.
pub record Decidable (q : ApplyDecisionRequest) (hold : MockHold) : Type 0 where
  pub undecided : (hold.status ≡ reserved) × (is_some hold.decision_digest ≡ false)
  pub divided : allocated q.decision.remedy ≡ hold.original_amount_microunits

pub admit_decision-Decidable :
    (q : ApplyDecisionRequest) (hold : MockHold) → admit_decision q hold ≡ ok tt → Decidable q hold
unfolding admit_decision
admit_decision-Decidable q hold h0 =
    let (undecided, h1) =
      reject_if-eq-ok (hold.status != reserved || is_some hold.decision_digest) _ _ h0 in
    let parts =
      q.decision.remedy.buyer_refund_microunits ∷ q.decision.remedy.provider_release_microunits
      ∷ q.decision.remedy.retained_microunits ∷ [] in
    let (n, e, h2) = >>=-eq-ok (checked_sum parts) _ h1 in
    let whole : n ≡ hold.original_amount_microunits = ground arith in
    let total = checked_sum-eq-ok parts n e in
    record {
      undecided = ground (arith, hold_status_eq.beq_iff hold.status reserved);
      divided = omega (arith, whole, total.0);
    }

module _ (cores : Digests LedgerCore) (requests : Digests ApplyDecisionRequest)
    (hashes : Hashes) where
  -- The ledger before and after a decision, with its receipt.
  pub record Settled (l : MockLedger) (q : ApplyDecisionRequest) (l' : MockLedger)
      (r : LedgerMutationReceipt) : Type 0 where
    pub current : Current l q.expected_ledger_root q.expected_revision q.idempotency_key
    pub authentic : verify_decision hashes q.decision ≡ ok tt
    pub hold : MockHold
    pub held : Map.get q.hold_id l.holds ≡ some hold
    pub decidable : Decidable q hold
    pub decided : Map.get q.hold_id l'.holds ≡ some (decided_hold q hold)
    pub concluded : (x : MockHold) × (Map.get q.hold_id l'.holds ≡ some x) × Concluded q hold x
    pub other_holds : (k : String) → (k ≡ q.hold_id) ⊎ (Map.get k l'.holds ≡ Map.get k l.holds)
    pub paid :
        Paid l.balances hold.buyer_id hold.provider_id q.decision.remedy.buyer_refund_microunits
          q.decision.remedy.provider_release_microunits l'.balances
    pub holds_after : l'.holds ≡ Map.insert q.hold_id (decided_hold q hold) l.holds
    pub credited :
        (m : BTreeMap String ℕ) × (credit l.balances hold.buyer_id
            q.decision.remedy.buyer_refund_microunits
          ≡ ok m)
        × (credit m hold.provider_id q.decision.remedy.provider_release_microunits ≡ ok l'.balances)
    pub keys : l'.consumed_idempotency_keys ≡ insert q.idempotency_key l.consumed_idempotency_keys
    pub revision : l'.revision ≡ l.revision + 1
    pub worth_kept : worth l' ≡ worth l
    pub initial_total : l'.initial_total_microunits ≡ l.initial_total_microunits
    pub verified_before : verify_ledger cores l ≡ ok tt
    pub verified_after : verify_ledger cores l' ≡ ok tt
    pub receipt_total : r.conserved_total_microunits ≡ l.initial_total_microunits
    pub receipt_roots : (r.prior_ledger_root ≡ l.ledger_root) × (r.new_ledger_root ≡ l'.ledger_root)
    pub receipt_hold : r.hold_id ≡ q.hold_id

  abbrev pub settled_into :
      MockLedger → ApplyDecisionRequest → BTreeMap String ℕ → MockHold → MockLedger
  settled_into l q balances hold = record l {
    balances = balances;
    holds = Map.insert q.hold_id (decided_hold q hold) l.holds;
  }

  Settled-parts :
      (l : MockLedger) (q : ApplyDecisionRequest) (l' : MockLedger) (r : LedgerMutationReceipt)
      (hold : MockHold) (m1 m2 : BTreeMap String ℕ)
      → verify_ledger cores l ≡ ok tt
      → Current l q.expected_ledger_root q.expected_revision q.idempotency_key
      → verify_decision hashes q.decision ≡ ok tt
      → Map.get q.hold_id l.holds ≡ some hold
      → Decidable q hold
      → credit l.balances hold.buyer_id q.decision.remedy.buyer_refund_microunits ≡ ok m1
      → credit m1 hold.provider_id q.decision.remedy.provider_release_microunits ≡ ok m2
      → Finished cores (settled_into l q m2 hold) q.idempotency_key l.ledger_root q.hold_id l' r
      → Settled l q l' r
  Settled-parts l q l' r hold m1 m2 v c real held d c1 c2 f =
      let before = verify_ledger-IsConserved cores l v in
      let after : worth l' ≡ l.initial_total_microunits = rw (f.balances, f.holds) f.conserved in
      let (own, _) = get-All IsSoundHold q.hold_id hold l.holds before.holds held in
      record {
        current = c;
        authentic = real;
        hold = hold;
        held = held;
        decidable = d;
        decided = rw f.holds (get-insert_self q.hold_id (decided_hold q hold) l.holds);
        concluded = (
          decided_hold q hold,
          rw f.holds (get-insert_self q.hold_id (decided_hold q hold) l.holds),
          decided_hold-Concluded q hold,
        );
        other_holds = λ k. rw f.holds (insert_elsewhere q.hold_id k (decided_hold q hold) l.holds);
        paid = rw f.balances (
            credits-Paid l.balances hold.buyer_id hold.provider_id
              q.decision.remedy.buyer_refund_microunits
              q.decision.remedy.provider_release_microunits m1 m2 c1 c2);
        holds_after = f.holds;
        credited = (m1, c1, rw f.balances c2);
        keys = f.keys;
        revision = f.revision;
        worth_kept = after ∙ sym before.total;
        initial_total = f.initial_total;
        verified_before = v;
        verified_after =
            f.verified
              (All-insert IsSoundHold q.hold_id (decided_hold q hold) l.holds
                (own, omega (arith, d.divided)) before.holds)
              before.schema;
        receipt_total = f.receipt_total ∙ after;
        receipt_roots = (f.receipt_prior, f.receipt_new);
        receipt_hold = f.receipt_hold;
      }

  -- If `apply_decision` succeeds, its preconditions held, the decision verifies, and the hold was
  -- reserved, undecided and of exactly the amount that the decision divides. Then buyer and
  -- provider are credited their parts and no other balance changes. The hold keeps its identifier,
  -- parties, contract and original amount, locks the retained part, bears the decision's digest,
  -- and has the status that tells of the remedy: `refunded` for a full refund, `settled` for a
  -- release to the provider, `split`, `repair_pending` or `quarantined` for a split, a repair or a
  -- quarantine; no other hold changes. The key is consumed and the revision rises by one; the
  -- ledger's worth is kept, it verifies before and after, and the receipt names the hold, both
  -- roots and the conserved total.
  pub apply_decision-Settled :
      (l : MockLedger) (q : ApplyDecisionRequest) (l' : MockLedger) (r : LedgerMutationReceipt)
      → apply_decision cores requests hashes l q ≡ ok (l', r)
      → Settled l q l' r
  unfolding apply_decision
  apply_decision-Settled l q l' r h0 =
      let (v, h1) = >>-eq-ok (verify_ledger cores l) _ h0 in
      let (c, h2) =
        >>-eq-ok
          (validate_preconditions l q.expected_ledger_root q.expected_revision q.idempotency_key) _
          h1 in
      let (_, h3) = reject_if-eq-ok (q.schema != "joan.mock-apply-decision-request.v0") _ _ h2 in
      let (real, h4) = >>-eq-ok (map_err dispute (verify_decision hashes q.decision)) _ h3 in
      let (hold, held, h5) =
        >>=-eq-ok (ok_or (Map.get q.hold_id l.holds) (unknown_hold q.hold_id)) _ h4 in
      let (d, h6) = >>-eq-ok (admit_decision q hold) _ h5 in
      let (m1, c1, h7) =
        >>=-eq-ok (credit l.balances hold.buyer_id q.decision.remedy.buyer_refund_microunits) _
          h6 in
      let (m2, c2, h8) =
        >>=-eq-ok (credit m1 hold.provider_id q.decision.remedy.provider_release_microunits) _ h7 in
      let (updated, again, h9) =
        >>=-eq-ok (ok_or (Map.get q.hold_id l.holds) (unknown_hold q.hold_id)) _ h8 in
      let (g, _, h10) =
        >>=-eq-ok
          (map_err canonical (requests.digest_serializable "joan.mock-apply-decision-request.v0" q))
          _ h9 in
      let same : updated ≡ hold = ok_inj (sym again ∙ held) in
      Settled-parts l q l' r hold m1 m2 v
        (validate_preconditions-Current l q.expected_ledger_root q.expected_revision
          q.idempotency_key c)
        (map_err-eq-ok dispute _ real) (ok_or-eq-ok (Map.get q.hold_id l.holds) _ held)
        (admit_decision-Decidable q hold d) c1 c2
        (subst
          (λ x.
            Finished cores (settled_into l q m2 x) q.idempotency_key l.ledger_root q.hold_id l' r)
          same
          (finish_mutation-Finished cores (settled_into l q m2 updated) q.idempotency_key
            l.ledger_root q.hold_id "apply-decision" g l' r h10))

-- No remedy puts a hold back to `reserved`.
pub status_for-reserved : (k : RemedyKind) → status_for k ≢ reserved
unfolding status_for
status_for-reserved RemedyKind.full_refund h = cc
status_for-reserved RemedyKind.release_provider h = cc
status_for-reserved RemedyKind.split h = cc
status_for-reserved RemedyKind.repair h = cc
status_for-reserved RemedyKind.quarantine h = cc
