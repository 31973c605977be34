-- ===== src/Ledger/Holds.antt =====
-- `reserve`: the ledger before and after.
use joan.Base.{
  ℕ, ◌+◌, ◌<◌, ◌≡◌, ◌≢◌, refl, sym, subst, ◌∙◌, true, false, String, arith, ok, ok_or, some, ◌⊎◌,
  string_cases, inl, inr, >>-eq-ok, >>=-eq-ok, reject_if-eq-ok, ok_or-eq-ok, map_err, ◌!=◌, ◌==◌,
  eq_of_!=, string_eq, nat_eq, leb,
}
use joan.Base.Lists.{length}
use joan.Base.Map
use joan.Base.Map.{BTreeMap, contains_key, get-insert_self, get-insert_ne, All-insert, sum_by}
use joan.Base.Order.{string_ord}
use joan.Base.Set.{contains, insert}
use joan.Base.Texts.{is_blank}
use joan.Base.Words.{checked_sub, checked_sub-eq-some}
use joan.Canonical.{Digest, digest_eq, Digests}
use joan.Ledger.Model.{
  MockHold, MockLedger, ReserveRequest, LedgerMutationReceipt, LedgerCore, canonical,
  unknown_account, insufficient_balance,
}
use joan.Ledger.Ops.{
  verify_ledger, validate_preconditions, require_nonempty, admit_reserve, reserve, new_hold,
  reserve_into, max_holds, max_idempotency_keys,
}
use joan.Ledger.Totals.{worth}
use joan.Ledger.Stored.{Placed, new_hold-Placed}
use joan.Ledger.Conservation.{
  IsSoundHold, verify_ledger-IsConserved, Finished, finish_mutation-Finished,
}

-- What `validate_preconditions` establishes.
pub record Current (l : MockLedger) (root : Digest) (revision : ℕ) (key : String) : Type 0 where
  pub key_given : is_blank key ≡ false
  pub root_met : root ≡ l.ledger_root
  pub revision_met : revision ≡ l.revision
  pub fresh : contains key l.consumed_idempotency_keys ≡ false
  pub room : length l.consumed_idempotency_keys < max_idempotency_keys

require_nonempty-eq-ok :
    (value field : String) → require_nonempty value field ≡ ok tt → is_blank value ≡ false
unfolding require_nonempty
require_nonempty-eq-ok value field h = ground arith

pub validate_preconditions-Current :
    (l : MockLedger) (root : Digest) (revision : ℕ) (key : String)
    → validate_preconditions l root revision key ≡ ok tt
    → Current l root revision key
unfolding validate_preconditions
validate_preconditions-Current l root revision key h0 =
    let (given, h1) = >>-eq-ok (require_nonempty key "idempotency_key") _ h0 in
    let (met, h2) = reject_if-eq-ok (root != l.ledger_root) _ _ h1 in
    let (same, h3) = reject_if-eq-ok (revision != l.revision) _ _ h2 in
    let (fresh, h4) = reject_if-eq-ok (contains key l.consumed_idempotency_keys) _ _ h3 in
    record {
      key_given = require_nonempty-eq-ok key _ given;
      root_met = eq_of_!= met;
      revision_met = eq_of_!= same;
      fresh = fresh;
      room = ground arith;
    }

-- What the other checks of `reserve` establish.
pub record Reservable (l : MockLedger) (q : ReserveRequest) : Type 0 where
  pub apart : q.buyer_id ≢ q.provider_id
  pub positive : 0 < q.amount_microunits
  pub room : length l.holds < max_holds
  pub unused : contains_key q.hold_id l.holds ≡ false
  pub provider : contains_key q.provider_id l.balances ≡ true

pub admit_reserve-Reservable :
    (l : MockLedger) (q : ReserveRequest) → admit_reserve l q ≡ ok tt → Reservable l q
unfolding admit_reserve
admit_reserve-Reservable l q h0 =
    let (_, h1) = reject_if-eq-ok (q.schema != "joan.mock-reserve-request.v0") _ _ h0 in
    let (_, h2) = >>-eq-ok (require_nonempty q.hold_id "hold_id") _ h1 in
    let (_, h3) = >>-eq-ok (require_nonempty q.buyer_id "buyer_id") _ h2 in
    let (_, h4) = >>-eq-ok (require_nonempty q.provider_id "provider_id") _ h3 in
    let (apart, h5) = reject_if-eq-ok (q.buyer_id == q.provider_id) _ _ h4 in
    let (positive, h6) = reject_if-eq-ok (q.amount_microunits == 0) _ _ h5 in
    let (room, h7) = reject_if-eq-ok (leb max_holds (length l.holds)) _ _ h6 in
    let (unused, h8) = reject_if-eq-ok (contains_key q.hold_id l.holds) _ _ h7 in
    record {
      apart = ground (arith, string_eq.beq_iff q.buyer_id q.provider_id);
      positive = ground arith;
      room = ground arith;
      unused = unused;
      provider = ground arith;
    }

-- An insertion under one key leaves every other.
pub insert_elsewhere {ℓ} :
    {V : Type ℓ} (j k : String) (v : V) (m : BTreeMap String V)
    → (k ≡ j) ⊎ (Map.get k (Map.insert j v m) ≡ Map.get k m)
insert_elsewhere j k v m = elim (string_cases k j) [
  | inl same ↦ inl same
  | inr other ↦ inr (get-insert_ne j k v m other)
]

module _ (cores : Digests LedgerCore) (requests : Digests ReserveRequest) where
  -- The ledger before and after a reservation, with its receipt.
  pub record Reserved (l : MockLedger) (q : ReserveRequest) (l' : MockLedger)
      (r : LedgerMutationReceipt) : Type 0 where
    pub current : Current l q.expected_ledger_root q.expected_revision q.idempotency_key
    pub reservable : Reservable l q
    pub buyer :
        (remaining : ℕ) × (Map.get q.buyer_id l.balances ≡ some (remaining + q.amount_microunits))
        × (Map.get q.buyer_id l'.balances ≡ some remaining)
    pub others : (k : String) → (k ≡ q.buyer_id) ⊎ (Map.get k l'.balances ≡ Map.get k l.balances)
    pub balances_after : l'.balances ≡ Map.insert q.buyer_id (buyer.0) l.balances
    pub holds_after : l'.holds ≡ Map.insert q.hold_id (new_hold q) l.holds
    pub hold : Map.get q.hold_id l'.holds ≡ some (new_hold q)
    pub placed : (x : MockHold) × (Map.get q.hold_id l'.holds ≡ some x) × Placed q x
    pub other_holds : (k : String) → (k ≡ q.hold_id) ⊎ (Map.get k l'.holds ≡ Map.get k l.holds)
    pub keys : l'.consumed_idempotency_keys ≡ insert q.idempotency_key l.consumed_idempotency_keys
    pub revision : l'.revision ≡ l.revision + 1
    pub worth_kept : worth l' ≡ worth l
    pub initial_total : l'.initial_total_microunits ≡ l.initial_total_microunits
    pub verified_before : verify_ledger cores l ≡ ok tt
    pub verified_after : verify_ledger cores l' ≡ ok tt
    pub receipt_total : r.conserved_total_microunits ≡ l.initial_total_microunits
    pub receipt_roots : (r.prior_ledger_root ≡ l.ledger_root) × (r.new_ledger_root ≡ l'.ledger_root)

  Reserved-parts :
      (l : MockLedger) (q : ReserveRequest) (l' : MockLedger) (r : LedgerMutationReceipt)
      (remaining : ℕ)
      → verify_ledger cores l ≡ ok tt
      → Current l q.expected_ledger_root q.expected_revision q.idempotency_key
      → Reservable l q
      → Map.get q.buyer_id l.balances ≡ some (remaining + q.amount_microunits)
      → Finished cores (reserve_into l q remaining) q.idempotency_key l.ledger_root q.hold_id l' r
      → Reserved l q l' r
  Reserved-parts l q l' r remaining v c a had f =
      let before = verify_ledger-IsConserved cores l v in
      let after : worth l' ≡ l.initial_total_microunits = rw (f.balances, f.holds) f.conserved in
      record {
        current = c;
        reservable = a;
        buyer = (remaining, had, rw f.balances (get-insert_self q.buyer_id remaining l.balances));
        balances_after = f.balances;
        holds_after = f.holds;
        others = λ k. rw f.balances (insert_elsewhere q.buyer_id k remaining l.balances);
        hold = rw f.holds (get-insert_self q.hold_id (new_hold q) l.holds);
        placed = (
          new_hold q,
          rw f.holds (get-insert_self q.hold_id (new_hold q) l.holds),
          new_hold-Placed q,
        );
        other_holds = λ k. rw f.holds (insert_elsewhere q.hold_id k (new_hold q) l.holds);
        keys = f.keys;
        revision = f.revision;
        worth_kept = after ∙ sym before.total;
        initial_total = f.initial_total;
        verified_before = v;
        verified_after =
            f.verified
              (All-insert IsSoundHold q.hold_id (new_hold q) l.holds (refl, omega arith)
                before.holds)
              before.schema;
        receipt_total = f.receipt_total ∙ after;
        receipt_roots = (f.receipt_prior, f.receipt_new);
      }

  -- If `reserve` succeeds, its preconditions held, buyer and provider differ, the amount is
  -- positive and the hold's identifier was unused. Then the buyer's balance falls by the amount;
  -- the new hold has the request's identifier, parties and contract, locks the amount, and is
  -- reserved and undecided; no other balance or hold changes; the key is consumed and the revision
  -- rises by one; the ledger's worth is kept, it verifies before and after, and the receipt names
  -- both roots and the conserved total.
  pub reserve-Reserved :
      (l : MockLedger) (q : ReserveRequest) (l' : MockLedger) (r : LedgerMutationReceipt)
      → reserve cores requests l q ≡ ok (l', r)
      → Reserved l q l' r
  unfolding reserve
  reserve-Reserved l q l' r h0 =
      let (v, h1) = >>-eq-ok (verify_ledger cores l) _ h0 in
      let (c, h2) =
        >>-eq-ok
          (validate_preconditions l q.expected_ledger_root q.expected_revision q.idempotency_key) _
          h1 in
      let (a, h3) = >>-eq-ok (admit_reserve l q) _ h2 in
      let (b, had, h4) =
        >>=-eq-ok (ok_or (Map.get q.buyer_id l.balances) (unknown_account q.buyer_id)) _ h3 in
      let (remaining, e, h5) =
        >>=-eq-ok (ok_or (checked_sub b q.amount_microunits) insufficient_balance) _ h4 in
      let (g, _, h6) =
        >>=-eq-ok
          (map_err canonical (requests.digest_serializable "joan.mock-reserve-request.v0" q)) _
          h5 in
      let left =
        checked_sub-eq-some b q.amount_microunits
          (ok_or-eq-ok (checked_sub b q.amount_microunits) _ e) in
      Reserved-parts l q l' r remaining v
        (validate_preconditions-Current l q.expected_ledger_root q.expected_revision
          q.idempotency_key c)
        (admit_reserve-Reservable l q a)
        (subst (λ n. Map.get q.buyer_id l.balances ≡ some n) (sym left)
          (ok_or-eq-ok (Map.get q.buyer_id l.balances) _ had))
        (finish_mutation-Finished cores (reserve_into l q remaining) q.idempotency_key l.ledger_root
          q.hold_id "reserve" g l' r h6)
