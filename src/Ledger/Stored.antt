-- ===== src/Ledger/Stored.antt =====
-- The holds that `reserve` and `apply_decision` store.
use joan.Base.{◌≡◌, refl, none, some}
use joan.Dispute.Model.{RemedyKind}
use joan.Ledger.Model.{HoldStatus, MockHold, ReserveRequest, ApplyDecisionRequest}
use joan.Ledger.Ops.{new_hold, decided_hold, status_for}

-- A hold that has been reserved for a request: it locks the whole amount.
pub record Placed (q : ReserveRequest) (hold : MockHold) : Type 0 where
  pub named : hold.hold_id ≡ q.hold_id
  pub buyer : hold.buyer_id ≡ q.buyer_id
  pub provider : hold.provider_id ≡ q.provider_id
  pub contract : hold.contract_digest ≡ q.contract_digest
  pub amount : hold.original_amount_microunits ≡ q.amount_microunits
  pub locks : hold.locked_amount_microunits ≡ q.amount_microunits
  pub undecided : (hold.status ≡ HoldStatus.reserved) × (hold.decision_digest ≡ none)

pub new_hold-Placed : (q : ReserveRequest) → Placed q (new_hold q)
new_hold-Placed q = record {
  named = refl;
  buyer = refl;
  provider = refl;
  contract = refl;
  amount = refl;
  locks = refl;
  undecided = (refl, refl);
}

-- Which status of a hold tells of which remedy.
pub data Tells : RemedyKind → HoldStatus → Type 0 where
  refund : Tells RemedyKind.full_refund HoldStatus.refunded
  release : Tells RemedyKind.release_provider HoldStatus.settled
  split : Tells RemedyKind.split HoldStatus.split
  repair : Tells RemedyKind.repair HoldStatus.repair_pending
  quarantine : Tells RemedyKind.quarantine HoldStatus.quarantined

-- A hold after a decision on it: its parties, contract and original amount are those it had.
pub record Concluded (q : ApplyDecisionRequest) (hold hold' : MockHold) : Type 0 where
  pub same_hold : hold'.hold_id ≡ hold.hold_id
  pub same_buyer : hold'.buyer_id ≡ hold.buyer_id
  pub same_provider : hold'.provider_id ≡ hold.provider_id
  pub same_contract : hold'.contract_digest ≡ hold.contract_digest
  pub same_amount : hold'.original_amount_microunits ≡ hold.original_amount_microunits
  pub retains : hold'.locked_amount_microunits ≡ q.decision.remedy.retained_microunits
  pub tells : Tells q.decision.remedy.kind hold'.status
  pub bears : hold'.decision_digest ≡ some q.decision.decision_digest

status_for-Tells : (k : RemedyKind) → Tells k (status_for k)
unfolding status_for
status_for-Tells RemedyKind.full_refund = refund
status_for-Tells RemedyKind.release_provider = release
status_for-Tells RemedyKind.split = Tells.split
status_for-Tells RemedyKind.repair = repair
status_for-Tells RemedyKind.quarantine = quarantine

pub decided_hold-Concluded :
    (q : ApplyDecisionRequest) (hold : MockHold) → Concluded q hold (decided_hold q hold)
decided_hold-Concluded q hold = record {
  same_hold = refl;
  same_buyer = refl;
  same_provider = refl;
  same_contract = refl;
  same_amount = refl;
  retains = refl;
  tells = status_for-Tells q.decision.remedy.kind;
  bears = refl;
}
