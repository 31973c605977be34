-- ===== src/Dispute/Findings.antt =====
-- `verify_evidence_refs` and `evaluate_findings`.
use joan.Base.{
  ℕ, ◌+◌, Bool, true, false, not, ◌||◌, ◌&&◌, String, List, [], ◌∷◌, Result, ok, ◌>>=◌, ◌>>◌,
  reject_if, ok_or, ◌!=◌, string_eq,
}
use joan.Base.Lists.{is_nil}
use joan.Base.Map
use joan.Base.Order.{string_ord}
use joan.Base.Set.{BTreeSet, contains, insert}
use joan.Base.Texts.{is_blank}
use joan.Canonical.{digest_eq}
use joan.Case.Model.{DisputeCase}
use joan.Evidence.Model.{EvidenceGraph, verified, verification_eq}
use joan.Dispute.Model.{
  AutomaticResolutionProfile, MachineFinding, DecisionPhase, phase_eq, FindingDisposition,
  supports_claim, rejects_claim, abstain, DisputeError, unsupported_schema, empty_field,
  invalid_evidence_reference, finding_binding_mismatch, unauthorized_adjudicator, duplicate_finding,
  finding_without_evidence,
}

unfoldable pub require_nonempty : String → String → Result (Unit {0}) DisputeError
require_nonempty value field = reject_if (is_blank value) (empty_field field)

unfoldable pub verify_evidence_refs : EvidenceGraph → List String → Result (Unit {0}) DisputeError
verify_evidence_refs graph [] = ok tt
verify_evidence_refs graph (reference ∷ rest) = do
  item ← ok_or (Map.get reference graph.items) (invalid_evidence_reference reference)
  reject_if (item.verification != verified) (invalid_evidence_reference reference)
  verify_evidence_refs graph rest

-- The variables of the loop in `evaluate_findings`.
pub record Tally : Type 0 where
  pub seen : BTreeSet String
  pub support : ℕ  -- u64
  pub reject : ℕ  -- u64
  pub abstained : ℕ  -- u64

abbrev pub no_findings : Tally
no_findings = record { seen = []; support = 0; reject = 0; abstained = 0 }

-- A tally counts findings in memory, so that its `u64` counters do not overflow.
abbrev pub count_finding : FindingDisposition → Tally → Tally
count_finding supports_claim t = record t { support = t.support + 1 }
count_finding rejects_claim t = record t { reject = t.reject + 1 }
count_finding abstain t = record t { abstained = t.abstained + 1 }

abbrev pub is_decisive : FindingDisposition → Bool
is_decisive abstain = false
is_decisive supports_claim = true
is_decisive rejects_claim = true

module _ (dispute_case : DisputeCase) (evidence : EvidenceGraph)
    (profile : AutomaticResolutionProfile) (phase : DecisionPhase) (allowed : BTreeSet String) where
  -- The loop's body.
  unfoldable pub evaluate_finding : Tally → MachineFinding → Result Tally DisputeError
  evaluate_finding tally finding = do
    reject_if (finding.schema != "joan.machine-finding.v0") (unsupported_schema finding.schema)
    require_nonempty finding.adjudicator_id "adjudicator_id"
    reject_if
        (finding.phase != phase
          || finding.case_digest != dispute_case.case_digest
          || finding.evidence_root != evidence.graph_root
          || finding.policy_digest != profile.policy_digest)
        finding_binding_mismatch
    reject_if (not (contains finding.adjudicator_id allowed))
        (unauthorized_adjudicator finding.adjudicator_id)
    reject_if (contains finding.adjudicator_id tally.seen)
        (duplicate_finding finding.adjudicator_id)
    reject_if (is_decisive finding.disposition && is_nil finding.evidence_refs)
        finding_without_evidence
    verify_evidence_refs evidence finding.evidence_refs
    ok (
        count_finding finding.disposition
          (record tally { seen = insert finding.adjudicator_id tally.seen }))

  unfoldable pub evaluate_findings_from : Tally → List MachineFinding → Result Tally DisputeError
  evaluate_findings_from tally [] = ok tally
  evaluate_findings_from tally (finding ∷ rest) = do
    next ← evaluate_finding tally finding
    evaluate_findings_from next rest

  unfoldable pub evaluate_findings : List MachineFinding → Result Tally DisputeError
  evaluate_findings findings = evaluate_findings_from no_findings findings
