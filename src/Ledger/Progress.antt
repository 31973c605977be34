-- ===== src/Ledger/Progress.antt =====
-- When `reserve` goes through.
use joan.Base.{
  ℕ, ◌+◌, ◌-◌, ◌≤◌, ◌<◌, ◌≡◌, refl, ◌∙◌, String, arith, ok, some, none, ◌!=◌, nat_eq, false,
}
use joan.Base.Map
use joan.Base.Map.{sum_by, sum_by-insert, sum_by-insert_new, IsSorted, contains_key, BTreeMap}
use joan.Base.Order.{string_ord}
use joan.Base.Words.{u64_end, checked_add_fits, checked_sub_fits}
use joan.Canonical.{Digest, Digests}
use joan.Ledger.Model.{MockHold, MockLedger, ReserveRequest, LedgerMutationReceipt, LedgerCore}
use joan.Ledger.Ops.{
  verify_ledger, validate_preconditions, admit_reserve, reserve, new_hold, reserve_into,
  finish_mutation, compute_ledger_root,
}
use joan.Ledger.Totals.{worth, amount, locked, total_value_fits}
use joan.Ledger.Conservation.{verify_ledger-IsConserved, marked}
use joan.Ledger.Holds.{admit_reserve-Reservable}

absent : (k : String) (m : BTreeMap String MockHold) → contains_key k m ≡ false → Map.get k m ≡ none
unfolding contains_key
absent k m h = ground arith

-- The amount that leaves the buyer's balance is the amount that the new hold locks.
reserve_into-worth :
    (l : MockLedger) (q : ReserveRequest) (b : ℕ)
    → IsSorted l.balances
    → Map.get q.buyer_id l.balances ≡ some b
    → q.amount_microunits ≤ b
    → contains_key q.hold_id l.holds ≡ false
    → worth (reserve_into l q (b - q.amount_microunits)) ≡ worth l
reserve_into-worth l q b s had enough unused =
    let paid = sum_by-insert amount q.buyer_id (b - q.amount_microunits) b l.balances s had in
    let kept =
      sum_by-insert_new locked q.hold_id (new_hold q) l.holds (absent q.hold_id l.holds unused) in
    omega (arith, paid, kept)

module _ (cores : Digests LedgerCore) where
  pub finish_mutation_succeeds :
      (l : MockLedger) (key : String) (prior : Digest) (id op : String) (g : Digest)
      → ((v : LedgerCore)
          → (d : Digest) × (cores.digest_serializable "joan.mock-ledger.v0" v ≡ ok d))
      → worth l ≡ l.initial_total_microunits
      → worth l < u64_end
      → l.revision + 1 < u64_end
      → (x : MockLedger × LedgerMutationReceipt) × (finish_mutation cores l key prior id op g
          ≡ ok x)
  unfolding finish_mutation compute_ledger_root
  finish_mutation_succeeds l key prior id op g hashes whole fits room =
      let same : (worth l != l.initial_total_microunits) ≡ false = ground arith in
      rw
        (
          checked_add_fits l.revision 1 room,
          (hashes _).1,
          total_value_fits (marked cores l key (l.revision + 1)) fits,
          same,
        )
        (_, refl)

module _ (cores : Digests LedgerCore) (requests : Digests ReserveRequest) where
  -- If every digest can be computed, the balances are sorted, the ledger verifies, the
  -- preconditions and the checks of `reserve` are met, the buyer has at least the amount, and the
  -- revision does not overflow, then `reserve` succeeds: the conservation check passes.
  pub reserve_succeeds :
      (l : MockLedger) (q : ReserveRequest) (b : ℕ)
      → ((v : LedgerCore)
          → (d : Digest) × (cores.digest_serializable "joan.mock-ledger.v0" v ≡ ok d))
      → ((v : ReserveRequest)
          → (d : Digest) × (requests.digest_serializable "joan.mock-reserve-request.v0" v ≡ ok d))
      → IsSorted l.balances
      → verify_ledger cores l ≡ ok tt
      → validate_preconditions l q.expected_ledger_root q.expected_revision q.idempotency_key
        ≡ ok tt
      → admit_reserve l q ≡ ok tt
      → Map.get q.buyer_id l.balances ≡ some b
      → q.amount_microunits ≤ b
      → l.revision + 1 < u64_end
      → (x : MockLedger × LedgerMutationReceipt) × (reserve cores requests l q ≡ ok x)
  unfolding reserve
  reserve_succeeds l q b hashes seals s v p a had enough room =
      let before = verify_ledger-IsConserved cores l v in
      let same = reserve_into-worth l q b s had enough (admit_reserve-Reservable l q a).unused in
      let done =
        finish_mutation_succeeds cores (reserve_into l q (b - q.amount_microunits))
          q.idempotency_key l.ledger_root q.hold_id "reserve" (seals q).0 hashes
          (same ∙ before.total) (omega (arith, same, before.fits)) room in
      rw (v, p, a, had, checked_sub_fits b q.amount_microunits enough, (seals q).1) done
