-- ===== src/Ledger/Resolution.antt =====
-- The dispute's decisions as the ledger meets them.
use joan.Base.{◌<◌, ◌≡◌, sym, ◌∙◌, [], ◌∷◌, List, arith, ok, Option, none, nat_eq}
use joan.Base.Words.{u64_end}
use joan.Case.Model.{DisputeCase}
use joan.Evidence.Model.{EvidenceGraph}
use joan.Dispute.Model.{
  AutomaticResolutionProfile, Claim, MachineFinding, DecisionPhase, AutomaticDecisionReceipt,
}
use joan.Dispute.Allocation.{allocated}
use joan.Dispute.Evaluate.{Hashes, evaluate, verify_decision}
use joan.Dispute.Ruling.{evaluate_conserves}
use joan.Ledger.Model.{reserved, hold_status_eq, MockHold, ApplyDecisionRequest}
use joan.Ledger.Ops.{admit_decision}
use joan.Ledger.Totals.{checked_sum_fits}

-- A divided decision is admitted on an open hold of the same amount.
allocated-admit_decision :
    (q : ApplyDecisionRequest) (hold : MockHold)
    → hold.status ≡ reserved
    → hold.decision_digest ≡ none
    → allocated q.decision.remedy ≡ hold.original_amount_microunits
    → hold.original_amount_microunits < u64_end
    → admit_decision q hold ≡ ok tt
unfolding admit_decision
allocated-admit_decision q hold s d a b =
    let parts =
      q.decision.remedy.buyer_refund_microunits ∷ q.decision.remedy.provider_release_microunits
      ∷ q.decision.remedy.retained_microunits ∷ [] in
    let total = checked_sum_fits parts (omega (arith, a, b)) in
    ground (arith, total, hold_status_eq.beq_iff hold.status reserved)

-- A decision that `evaluate` returns for a case verifies, and passes the checks of
-- `apply_decision` on every reserved and undecided hold whose original amount is the value of the
-- case, a 64-bit number.
pub evaluate-admit_decision :
    (hashes : Hashes) (c : DisputeCase) (e : EvidenceGraph) (claim : Claim)
    (profile : AutomaticResolutionProfile) (findings : List MachineFinding) (phase : DecisionPhase)
    (prior : Option AutomaticDecisionReceipt) (q : ApplyDecisionRequest) (hold : MockHold)
    → evaluate hashes c e claim profile findings phase prior ≡ ok q.decision
    → hold.status ≡ reserved
    → hold.decision_digest ≡ none
    → hold.original_amount_microunits ≡ c.value_microunits
    → c.value_microunits < u64_end
    → (verify_decision hashes q.decision ≡ ok tt) × (admit_decision q hold ≡ ok tt)
evaluate-admit_decision hashes c e claim profile findings phase prior q hold h s d a b =
    let ruling = evaluate_conserves hashes c e claim profile findings phase prior q.decision h in
    (ruling.6, allocated-admit_decision q hold s d (ruling.0 ∙ sym a) (omega (arith, a, b)))
