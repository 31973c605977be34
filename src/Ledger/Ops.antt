-- ===== src/Ledger/Ops.antt =====
-- `create_ledger`, `verify_ledger`, `reserve` and `apply_decision`. The parameters are
-- `digest_serializable` at the types that the crate hashes, and those of the dispute crate.
use joan.Base.{
  ℕ, true, not, ◌||◌, String, List, [], ◌∷◌, ◌++◌, map, none, some, Result, ok, ◌>>=◌, ◌>>◌,
  reject_if, ok_or, map_err, ◌==◌, ◌!=◌, nat_eq, string_eq, ltb, leb, is_some,
}
use joan.Base.Lists.{length, is_nil}
use joan.Base.Map
use joan.Base.Map.{BTreeMap, contains_key, values, keys}
use joan.Base.Order.{string_ord}
use joan.Base.Set.{contains, insert}
use joan.Base.Texts.{is_blank}
use joan.Base.Words.{checked_add, checked_sub}
use joan.Canonical.{Digest, digest_eq, placeholder_digest, Digests}
use joan.Dispute.Model.{RemedyKind}
use joan.Dispute.Evaluate.{Hashes, verify_decision}
use joan.Ledger.Model.{
  HoldStatus, reserved, hold_status_eq, MockHold, MockLedger, ReserveRequest, ApplyDecisionRequest,
  LedgerMutationReceipt, LedgerCore, LedgerError, canonical, dispute, unsupported_schema,
  empty_field, invalid_stored_ledger, stale_root, stale_revision, replay, unknown_account,
  same_account, duplicate_hold, unknown_hold, insufficient_balance, hold_not_reserved,
  allocation_mismatch, capacity, amount_overflow,
}

abbrev pub max_holds : ℕ
max_holds = 100_000

abbrev pub max_idempotency_keys : ℕ
max_idempotency_keys = 200_000

unfoldable pub require_nonempty : String → String → Result (Unit {0}) LedgerError
require_nonempty value field = reject_if (is_blank value) (empty_field field)

-- The fold of `checked_sum`, from its accumulator.
unfoldable pub checked_sum_from : ℕ → List ℕ → Result ℕ LedgerError
checked_sum_from total [] = ok total
checked_sum_from total (value ∷ rest) = do
  next ← ok_or (checked_add total value) amount_overflow
  checked_sum_from next rest

unfoldable pub checked_sum : List ℕ → Result ℕ LedgerError
checked_sum xs = checked_sum_from 0 xs

unfoldable pub total_value : MockLedger → Result ℕ LedgerError
total_value ledger =
    checked_sum
      (values ledger.balances ++ map (λ h. h.locked_amount_microunits) (values ledger.holds))

abbrev pub ledger_core : MockLedger → LedgerCore
ledger_core l = record {
  schema = l.schema;
  balances = l.balances;
  holds = l.holds;
  consumed_idempotency_keys = l.consumed_idempotency_keys;
  revision = l.revision;
  initial_total_microunits = l.initial_total_microunits;
}

-- The loop of `create_ledger` over the accounts.
unfoldable pub require_accounts : List String → Result (Unit {0}) LedgerError
require_accounts [] = ok tt
require_accounts (account ∷ rest) = require_nonempty account "account_id" >> require_accounts rest

-- The loop of `verify_ledger` over the holds.
unfoldable pub verify_holds : BTreeMap String MockHold → Result (Unit {0}) LedgerError
verify_holds [] = ok tt
verify_holds ((key, hold) ∷ rest) = do
  reject_if
      (key != hold.hold_id || ltb hold.original_amount_microunits hold.locked_amount_microunits)
      invalid_stored_ledger
  verify_holds rest

-- `validate_preconditions`, on the parts of the request that it reads.
unfoldable pub validate_preconditions :
    MockLedger → Digest → ℕ → String → Result (Unit {0}) LedgerError
validate_preconditions ledger expected_root expected_revision idempotency_key = do
  require_nonempty idempotency_key "idempotency_key"
  reject_if (expected_root != ledger.ledger_root) stale_root
  reject_if (expected_revision != ledger.revision) stale_revision
  reject_if (contains idempotency_key ledger.consumed_idempotency_keys) replay
  reject_if (leb max_idempotency_keys (length ledger.consumed_idempotency_keys)) capacity

unfoldable pub credit : BTreeMap String ℕ → String → ℕ → Result (BTreeMap String ℕ) LedgerError
credit balances account amount = do
  balance ← ok_or (Map.get account balances) (unknown_account account)
  sum ← ok_or (checked_add balance amount) amount_overflow
  ok (Map.insert account sum balances)

unfoldable pub status_for : RemedyKind → HoldStatus
status_for RemedyKind.full_refund = HoldStatus.refunded
status_for RemedyKind.release_provider = HoldStatus.settled
status_for RemedyKind.split = HoldStatus.split
status_for RemedyKind.repair = HoldStatus.repair_pending
status_for RemedyKind.quarantine = HoldStatus.quarantined

module _ (cores : Digests LedgerCore) where
  unfoldable pub compute_ledger_root : MockLedger → Result Digest LedgerError
  compute_ledger_root l =
      map_err canonical (cores.digest_serializable "joan.mock-ledger.v0" (ledger_core l))

  unfoldable pub create_ledger : BTreeMap String ℕ → Result MockLedger LedgerError
  create_ledger balances = do
    reject_if (is_nil balances) capacity
    require_accounts (keys balances)
    initial_total ← checked_sum (values balances)
    let ledger : MockLedger = record {
      schema = "joan.mock-ledger.v0";
      balances = balances;
      holds = [];
      consumed_idempotency_keys = [];
      revision = 0;
      initial_total_microunits = initial_total;
      ledger_root = placeholder_digest;
    }
    root ← compute_ledger_root ledger
    ok (record ledger { ledger_root = root })

  -- `||` runs its right side, which can fail, only if the totals agree.
  unfoldable pub verify_ledger : MockLedger → Result (Unit {0}) LedgerError
  verify_ledger ledger = do
    reject_if (ledger.schema != "joan.mock-ledger.v0") (unsupported_schema ledger.schema)
    verify_holds ledger.holds
    total ← total_value ledger
    reject_if (total != ledger.initial_total_microunits) invalid_stored_ledger
    root ← compute_ledger_root ledger
    reject_if (root != ledger.ledger_root) invalid_stored_ledger

  unfoldable pub finish_mutation :
      MockLedger
      → String
      → Digest
      → String
      → String
      → Digest
      → Result (MockLedger × LedgerMutationReceipt) LedgerError
  finish_mutation candidate idempotency_key prior_root hold_id operation request_digest = do
    revision ← ok_or (checked_add candidate.revision 1) amount_overflow
    let marked = record candidate {
      consumed_idempotency_keys = insert idempotency_key candidate.consumed_idempotency_keys;
      revision = revision;
    }
    root ← compute_ledger_root marked
    total ← total_value marked
    reject_if (total != marked.initial_total_microunits) invalid_stored_ledger
    ok (
      record marked { ledger_root = root },
      record {
        schema = "joan.mock-ledger-mutation-receipt.v0";
        operation = operation;
        prior_ledger_root = prior_root;
        new_ledger_root = root;
        revision = revision;
        hold_id = hold_id;
        request_digest = request_digest;
        conserved_total_microunits = total;
        committed = true;
      },
    )

-- The checks of `reserve` between its preconditions and its change.
unfoldable pub admit_reserve : MockLedger → ReserveRequest → Result (Unit {0}) LedgerError
admit_reserve ledger request = do
  reject_if (request.schema != "joan.mock-reserve-request.v0") (unsupported_schema request.schema)
  require_nonempty request.hold_id "hold_id"
  require_nonempty request.buyer_id "buyer_id"
  require_nonempty request.provider_id "provider_id"
  reject_if (request.buyer_id == request.provider_id) same_account
  reject_if (request.amount_microunits == 0) allocation_mismatch
  reject_if (leb max_holds (length ledger.holds)) capacity
  reject_if (contains_key request.hold_id ledger.holds) (duplicate_hold request.hold_id)
  reject_if (not (contains_key request.provider_id ledger.balances))
      (unknown_account request.provider_id)

abbrev pub new_hold : ReserveRequest → MockHold
new_hold request = record {
  hold_id = request.hold_id;
  buyer_id = request.buyer_id;
  provider_id = request.provider_id;
  contract_digest = request.contract_digest;
  original_amount_microunits = request.amount_microunits;
  locked_amount_microunits = request.amount_microunits;
  status = reserved;
  decision_digest = none;
}

-- What `reserve` does to its clone, given what the buyer keeps.
abbrev pub reserve_into : MockLedger → ReserveRequest → ℕ → MockLedger
reserve_into ledger request remaining = record ledger {
  balances = Map.insert request.buyer_id remaining ledger.balances;
  holds = Map.insert request.hold_id (new_hold request) ledger.holds;
}

module _ (cores : Digests LedgerCore) (requests : Digests ReserveRequest) where
  unfoldable pub reserve :
      MockLedger → ReserveRequest → Result (MockLedger × LedgerMutationReceipt) LedgerError
  reserve ledger request = do
    verify_ledger cores ledger
    validate_preconditions ledger request.expected_ledger_root request.expected_revision
        request.idempotency_key
    admit_reserve ledger request
    buyer_balance ←
        ok_or (Map.get request.buyer_id ledger.balances) (unknown_account request.buyer_id)
    remaining ← ok_or (checked_sub buyer_balance request.amount_microunits) insufficient_balance
    request_digest ←
        map_err canonical (requests.digest_serializable "joan.mock-reserve-request.v0" request)
    finish_mutation cores (reserve_into ledger request remaining) request.idempotency_key
        ledger.ledger_root request.hold_id "reserve" request_digest

-- The checks of `apply_decision` on the hold that it has found.
unfoldable pub admit_decision : ApplyDecisionRequest → MockHold → Result (Unit {0}) LedgerError
admit_decision request hold = do
  reject_if (hold.status != reserved || is_some hold.decision_digest) hold_not_reserved
  allocated ← checked_sum (
      request.decision.remedy.buyer_refund_microunits
      ∷ request.decision.remedy.provider_release_microunits
      ∷ request.decision.remedy.retained_microunits ∷ [])
  reject_if (allocated != hold.original_amount_microunits) allocation_mismatch

abbrev pub decided_hold : ApplyDecisionRequest → MockHold → MockHold
decided_hold request hold = record hold {
  locked_amount_microunits = request.decision.remedy.retained_microunits;
  status = status_for request.decision.remedy.kind;
  decision_digest = some request.decision.decision_digest;
}

module _ (cores : Digests LedgerCore) (requests : Digests ApplyDecisionRequest)
    (hashes : Hashes) where
  unfoldable pub apply_decision :
      MockLedger → ApplyDecisionRequest → Result (MockLedger × LedgerMutationReceipt) LedgerError
  apply_decision ledger request = do
    verify_ledger cores ledger
    validate_preconditions ledger request.expected_ledger_root request.expected_revision
        request.idempotency_key
    reject_if (request.schema != "joan.mock-apply-decision-request.v0")
        (unsupported_schema request.schema)
    map_err dispute (verify_decision hashes request.decision)
    hold ← ok_or (Map.get request.hold_id ledger.holds) (unknown_hold request.hold_id)
    admit_decision request hold
    after_refund ←
        credit ledger.balances hold.buyer_id request.decision.remedy.buyer_refund_microunits
    after_release ←
        credit after_refund hold.provider_id request.decision.remedy.provider_release_microunits
    updated ← ok_or (Map.get request.hold_id ledger.holds) (unknown_hold request.hold_id)
    request_digest ←
        map_err canonical
          (requests.digest_serializable "joan.mock-apply-decision-request.v0" request)
    finish_mutation cores
        (record ledger {
          balances = after_release;
          holds = Map.insert request.hold_id (decided_hold request updated) ledger.holds;
        })
        request.idempotency_key ledger.ledger_root request.hold_id "apply-decision" request_digest
