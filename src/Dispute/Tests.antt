-- ===== src/Dispute/Tests.antt =====
-- A dispute on which two adjudicators agree, its appeal, and what the theorems give there.
use joan.Base.{
  ◌+◌, ◌*◌, ◌≤◌, ◌<◌, ◌≡◌, ◌⊎◌, refl, String, List, [], ◌∷◌, none, some, ok, true, false, arith,
}
use joan.Base.Lists.{length, All}
use joan.Base.Map
use joan.Base.Map.{contains_key}
use joan.Base.Order.{string_ord}
use joan.Base.Set
use joan.Base.Set.{contains, is_disjoint}
use joan.Base.Texts.{is_blank, is_whitespace}
use joan.Base.Words.{checked_sub}
use joan.Canonical.{Digest, Digests, digest_eq}
use joan.Case.State.{deterministic_evaluation, appealed}
use joan.Case.Model.{DisputeCase}
use joan.Case.Transition.{verify_case, compute_case_digest}
use joan.Evidence.Model.{
  EvidenceVerification, EvidenceVerification-discrete, verification_eq, Confidentiality,
  EvidenceItem, EvidenceGraph,
}
use joan.Evidence.Graph.{verify_evidence_graph, verify_items, verify_relations, compute_graph_root}
use joan.Dispute.Model.{
  ClaimCode, RemedyKind, AmbiguityFallback, AutomaticResolutionProfile, Claim, DecisionPhase,
  DecisionPhase-discrete, phase_eq, primary, appeal, FindingDisposition, MachineFinding,
  DecisionStatus, RemedyAllocation, AutomaticDecisionReceipt, DisputeEvaluationBundle,
  remedy_kind_ord,
}
use joan.Dispute.Remedy.{fallback_kind, allocation_for, validate_profile}
use joan.Dispute.Findings.{
  require_nonempty, verify_evidence_refs, evaluate_finding, evaluate_findings_from,
  evaluate_findings,
}
use joan.Dispute.Evaluate.{
  Hashes, outcome, decision_content_digest, verify_decision, validate_prior, validate_inputs,
  decide, evaluate, evaluate_bundle,
}
use joan.Dispute.Allocation.{
  allocated, allocation_for_sums, allocation_for_total, split_rounds_down,
}
use joan.Dispute.Quorum.{votes, is_support, is_reject, IsDistinct, IsBound}
use joan.Dispute.Decision.{Selects}
use joan.Dispute.Ruling.{evaluate_quorum, evaluate_conserves, appeal_disjoint}
use joan.Dispute.Bundle.{IsFirst, IsAppeal, evaluate_bundle_phase}

abbrev pub seal : Digest
seal = record { algorithm = "sha256"; profile = "jcs"; domain = "test"; value = "00" }

-- Digests that do not tell two values apart.
abbrev pub sealed : {T : Type 0} → Digests T
sealed = record { digest_serializable = λ domain value. ok seal }

abbrev pub hashes : Hashes
hashes = record {
  cases = sealed;
  graphs = sealed;
  claims = sealed;
  profiles = sealed;
  decisions = sealed;
}

abbrev pub in_evaluation : DisputeCase
in_evaluation = record {
  schema = "joan.dispute-case.v0";
  case_id = "c1";
  contract_digest = seal;
  transaction_digest = seal;
  claimant_id = "alice";
  respondent_id = "bob";
  policy_digest = seal;
  value_microunits = 61;
  state = deterministic_evaluation;
  revision = 9;
  consumed_idempotency_keys = [];
  case_digest = seal;
}

abbrev on_appeal : DisputeCase
on_appeal = record in_evaluation { state = appealed }

abbrev log_item : EvidenceItem
log_item = record {
  evidence_id = "e1";
  issuer_id = "bob";
  content_digest = seal;
  source = "log";
  acquired_at_epoch_seconds = 1_700_000_000;
  content_type = "text";
  relevance_code = "delivery";
  confidentiality = Confidentiality.public;
  verification = EvidenceVerification.verified;
}

abbrev pub locked_log : EvidenceGraph
locked_log = record {
  schema = "joan.evidence-graph.v0";
  case_id = "c1";
  items = ("e1", log_item) ∷ [];
  relations = [];
  locked = true;
  revision = 2;
  consumed_idempotency_keys = "k1" ∷ "k2" ∷ [];
  graph_root = seal;
}

abbrev pub claim : Claim
claim = record {
  schema = "joan.dispute-claim.v0";
  claim_id = "claim1";
  case_id = "c1";
  claimant_id = "alice";
  claim_code = ClaimCode.non_delivery;
  requested_remedy = RemedyKind.full_refund;
  evidence_refs = "e1" ∷ [];
}

abbrev pub policy : AutomaticResolutionProfile
policy = record {
  schema = "joan.automatic-resolution-profile.v0";
  policy_digest = seal;
  eligible_claim_codes = ClaimCode.non_delivery ∷ [];
  allowed_remedies = RemedyKind.full_refund ∷ RemedyKind.release_provider ∷ RemedyKind.split ∷ [];
  max_value_microunits = 1_000;
  primary_adjudicators = "a1" ∷ "a2" ∷ [];
  appeal_adjudicators = "b1" ∷ [];
  primary_threshold = 2;
  appeal_threshold = 1;
  ambiguity_fallback = AmbiguityFallback.split 2_500;
  automatic_finality = true;
}

abbrev finding : String → DecisionPhase → FindingDisposition → MachineFinding
finding adjudicator phase disposition = record {
  schema = "joan.machine-finding.v0";
  adjudicator_id = adjudicator;
  phase = phase;
  case_digest = seal;
  evidence_root = seal;
  policy_digest = seal;
  disposition = disposition;
  evidence_refs = "e1" ∷ [];
}

abbrev pub agreed : List MachineFinding
agreed =
    finding "a1" primary FindingDisposition.supports_claim
    ∷ finding "a2" primary FindingDisposition.supports_claim
    ∷ []

abbrev reviewed : List MachineFinding
reviewed = finding "b1" appeal FindingDisposition.abstain ∷ []

-- Two adjudicators uphold the claim.
abbrev pub upheld : AutomaticDecisionReceipt
upheld = record {
  schema = "joan.automatic-decision-receipt.v0";
  phase = primary;
  case_digest = seal;
  evidence_root = seal;
  claim_digest = seal;
  profile_digest = seal;
  supersedes = none;
  status = DecisionStatus.claim_upheld;
  support_count = 2;
  reject_count = 0;
  abstain_count = 0;
  participating_adjudicators = "a1" ∷ "a2" ∷ [];
  remedy = record {
    kind = RemedyKind.full_refund;
    buyer_refund_microunits = 61;
    provider_release_microunits = 0;
    retained_microunits = 0;
  };
  reason_codes = "claim-threshold-satisfied" ∷ [];
  finality_class = "automatic-primary-appealable";
  decision_digest = seal;
}

-- A quarter of 61 microunits, rounded down, and the rest.
abbrev quarter : RemedyAllocation
quarter = record {
  kind = RemedyKind.split;
  buyer_refund_microunits = 15;
  provider_release_microunits = 46;
  retained_microunits = 0;
}

-- The only adjudicator of the appeal abstains, and the fallback applies.
abbrev replaced : AutomaticDecisionReceipt
replaced = record upheld {
  phase = appeal;
  supersedes = some seal;
  status = DecisionStatus.fallback_applied;
  support_count = 0;
  abstain_count = 1;
  participating_adjudicators = "b1" ∷ [];
  remedy = quarter;
  reason_codes = "precommitted-ambiguity-fallback" ∷ [];
  finality_class = "automatic-appeal-final";
}

abbrev bundle : DisputeEvaluationBundle
bundle = record {
  schema = "joan.dispute-evaluation-bundle.v0";
  dispute_case = on_appeal;
  evidence = locked_log;
  claim = claim;
  profile = policy;
  findings = reviewed;
  prior_decision = some upheld;
}

pub evaluate_runs :
    evaluate hashes in_evaluation locked_log claim policy agreed primary none ≡ ok upheld
unfolding evaluate validate_inputs verify_case compute_case_digest digest_eq verify_evidence_graph
    verify_items verify_relations compute_graph_root require_nonempty is_blank is_whitespace
    validate_profile is_disjoint contains fallback_kind verify_evidence_refs Map.get verification_eq
    EvidenceVerification-discrete validate_prior evaluate_findings evaluate_findings_from
    evaluate_finding phase_eq DecisionPhase-discrete Set.insert decide outcome allocation_for
    decision_content_digest
evaluate_runs = refl

appeal_runs :
    evaluate hashes on_appeal locked_log claim policy reviewed appeal (some upheld) ≡ ok replaced
unfolding evaluate validate_inputs verify_case compute_case_digest digest_eq verify_evidence_graph
    verify_items verify_relations compute_graph_root require_nonempty is_blank is_whitespace
    validate_profile is_disjoint contains fallback_kind verify_evidence_refs Map.get verification_eq
    EvidenceVerification-discrete validate_prior verify_decision evaluate_findings
    evaluate_findings_from evaluate_finding phase_eq DecisionPhase-discrete Set.insert decide
    outcome allocation_for checked_sub decision_content_digest
appeal_runs = refl

bundle_runs : evaluate_bundle hashes bundle ≡ ok replaced
unfolding evaluate_bundle
bundle_runs = appeal_runs

quarter_runs : allocation_for RemedyKind.split (AmbiguityFallback.split 2_500) 61 ≡ ok quarter
unfolding allocation_for checked_sub
quarter_runs = refl

evaluate_quorum_example :
    Selects policy claim 2
      (votes is_support agreed)
      (votes is_reject agreed)
      upheld.status
      upheld.remedy.kind
    × (upheld.support_count ≡ votes is_support agreed)
    × (upheld.reject_count ≡ votes is_reject agreed)
    × (upheld.support_count + upheld.reject_count + upheld.abstain_count ≡ length agreed)
    × (length upheld.participating_adjudicators ≡ length agreed)
    × All (λ k. contains k policy.primary_adjudicators ≡ true) upheld.participating_adjudicators
    × IsDistinct agreed
    × All (IsBound in_evaluation locked_log policy primary policy.primary_adjudicators) agreed
evaluate_quorum_example =
    evaluate_quorum hashes in_evaluation locked_log claim policy agreed primary none upheld
      evaluate_runs

evaluate_conserves_example :
    (allocated quarter ≡ 61)
    × (contains RemedyKind.split policy.allowed_remedies ≡ true)
    × (61 ≤ policy.max_value_microunits)
    × (locked_log.locked ≡ true)
    × (replaced.case_digest ≡ on_appeal.case_digest)
    × (replaced.evidence_root ≡ locked_log.graph_root)
    × (verify_decision hashes replaced ≡ ok tt)
evaluate_conserves_example =
    evaluate_conserves hashes on_appeal locked_log claim policy reviewed appeal (some upheld)
      replaced appeal_runs

appeal_disjoint_example : contains "a1" replaced.participating_adjudicators ≡ false
unfolding contains
appeal_disjoint_example =
    appeal_disjoint hashes in_evaluation on_appeal locked_log locked_log claim claim policy agreed
      reviewed upheld replaced (some upheld) "a1" evaluate_runs appeal_runs refl

evaluate_bundle_phase_example : IsFirst bundle replaced ⊎ IsAppeal hashes bundle replaced
evaluate_bundle_phase_example = evaluate_bundle_phase hashes bundle replaced bundle_runs

allocation_for_sums_example : (allocated quarter ≡ 61) × (quarter.kind ≡ RemedyKind.split)
allocation_for_sums_example =
    allocation_for_sums RemedyKind.split (AmbiguityFallback.split 2_500) 61 quarter quarter_runs

allocation_for_total_example :
    (a : RemedyAllocation) × (allocation_for RemedyKind.split (AmbiguityFallback.split 2_500) 61
      ≡ ok a)
unfolding fallback_kind
allocation_for_total_example =
    allocation_for_total RemedyKind.split (AmbiguityFallback.split 2_500) 61 refl (omega arith)
      (λ same. refl)

split_rounds_down_example :
    (15 * 10_000 ≤ 61 * 2_500)
    × (61 * 2_500 < 16 * 10_000)
    × (46 + 15 ≡ 61)
    × (quarter.retained_microunits ≡ 0)
split_rounds_down_example = split_rounds_down 2_500 61 quarter quarter_runs
