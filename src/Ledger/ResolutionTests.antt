-- ===== src/Ledger/ResolutionTests.antt =====
-- The ledger meets a decision that the dispute's tests evaluate.
use joan.Base.{◌≡◌, refl, none, ok, arith}
use joan.Dispute.Model.{primary}
use joan.Dispute.Evaluate.{verify_decision}
use joan.Dispute.Tests
use joan.Ledger.Model.{HoldStatus, MockHold, ApplyDecisionRequest}
use joan.Ledger.Ops.{admit_decision}
use joan.Ledger.Resolution.{evaluate-admit_decision}

abbrev open_hold : MockHold
open_hold = record {
  hold_id = "h1";
  buyer_id = "alice";
  provider_id = "bob";
  contract_digest = Tests.seal;
  original_amount_microunits = 61;
  locked_amount_microunits = 61;
  status = HoldStatus.reserved;
  decision_digest = none;
}

abbrev to_apply : ApplyDecisionRequest
to_apply = record {
  schema = "joan.mock-apply-decision-request.v0";
  expected_ledger_root = Tests.seal;
  expected_revision = 1;
  hold_id = "h1";
  idempotency_key = "k2";
  decision = Tests.upheld;
}

evaluate-admit_decision_example :
    (verify_decision Tests.hashes Tests.upheld ≡ ok tt)
    × (admit_decision to_apply open_hold ≡ ok tt)
evaluate-admit_decision_example =
    evaluate-admit_decision Tests.hashes Tests.in_evaluation Tests.locked_log Tests.claim
      Tests.policy Tests.agreed primary none to_apply open_hold Tests.evaluate_runs refl refl refl
      (omega arith)
