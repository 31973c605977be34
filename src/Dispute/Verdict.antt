-- ===== src/Dispute/Verdict.antt =====
-- `validate_profile` and `validate_inputs`: the conditions under which `evaluate` goes on.
use joan.Base.{
  ◌≤◌, ◌<◌, ◌≡◌, true, false, not, ◌||◌, arith, ok, Option, >>-eq-ok, reject_if-eq-ok, map_err,
  map_err-eq-ok, ◌!=◌, ◌==◌, string_eq, nat_eq, ltb, eq_of_!=,
}
use joan.Base.Lists.{length}
use joan.Base.Order.{string_ord}
use joan.Base.Set.{contains, is_disjoint}
use joan.Canonical.{digest_eq}
use joan.Case.Model.{DisputeCase}
use joan.Case.Transition.{verify_case}
use joan.Evidence.Model.{EvidenceGraph}
use joan.Evidence.Graph.{verify_evidence_graph}
use joan.Dispute.Model.{
  RemedyKind, AutomaticResolutionProfile, Claim, DecisionPhase, AutomaticDecisionReceipt,
  case_error, evidence_error, claim_code_ord, remedy_kind_ord,
}
use joan.Dispute.Remedy.{fallback_kind, validate_profile, exceeds_whole}
use joan.Dispute.Findings.{verify_evidence_refs, require_nonempty}
use joan.Dispute.Evaluate.{Hashes, validate_inputs, validate_prior, is_adjudicable}

-- What `validate_profile` establishes.
pub record IsSoundProfile (profile : AutomaticResolutionProfile) : Type 0 where
  pub final : profile.automatic_finality ≡ true
  pub disjoint : is_disjoint profile.primary_adjudicators profile.appeal_adjudicators ≡ true
  pub primary_reachable :
      (0 < profile.primary_threshold)
      × (profile.primary_threshold ≤ length profile.primary_adjudicators)
  pub appeal_reachable :
      (0 < profile.appeal_threshold)
      × (profile.appeal_threshold ≤ length profile.appeal_adjudicators)
  pub fallback_allowed :
      contains (fallback_kind profile.ambiguity_fallback) profile.allowed_remedies ≡ true
  pub release_allowed : contains RemedyKind.release_provider profile.allowed_remedies ≡ true
  pub whole : exceeds_whole profile.ambiguity_fallback ≡ false

validate_profile-IsSoundProfile :
    (profile : AutomaticResolutionProfile)
    → validate_profile profile ≡ ok tt
    → IsSoundProfile profile
unfolding validate_profile
validate_profile-IsSoundProfile profile h0 =
    let (_, h1) =
      reject_if-eq-ok (profile.schema != "joan.automatic-resolution-profile.v0") _ _ h0 in
    let (final, h2) = reject_if-eq-ok (not profile.automatic_finality) _ _ h1 in
    let (apart, h3) =
      reject_if-eq-ok (not (is_disjoint profile.primary_adjudicators profile.appeal_adjudicators)) _
        _ h2 in
    let (thresholds, h4) =
      reject_if-eq-ok
        (profile.primary_threshold == 0
          || profile.appeal_threshold == 0
          || ltb (length profile.primary_adjudicators) profile.primary_threshold
          || ltb (length profile.appeal_adjudicators) profile.appeal_threshold)
        _ _ h3 in
    let (remedies, whole) =
      reject_if-eq-ok
        (not (contains (fallback_kind profile.ambiguity_fallback) profile.allowed_remedies)
          || not (contains RemedyKind.release_provider profile.allowed_remedies))
        _ _ h4 in
    record {
      final = ground arith;
      disjoint = ground arith;
      primary_reachable = ground arith;
      appeal_reachable = ground arith;
      fallback_allowed = ground arith;
      release_allowed = ground arith;
      whole = ground arith;
    }

module _ (hashes : Hashes) where
  -- What `validate_inputs` establishes.
  pub record Validated (dispute_case : DisputeCase) (evidence : EvidenceGraph) (claim : Claim)
      (profile : AutomaticResolutionProfile) (phase : DecisionPhase)
      (prior : Option AutomaticDecisionReceipt) : Type 0 where
    pub case_verified : verify_case hashes.cases dispute_case ≡ ok tt
    pub evidence_verified : verify_evidence_graph hashes.graphs evidence ≡ ok tt
    pub adjudicable : is_adjudicable dispute_case.state ≡ true
    pub locked : evidence.locked ≡ true
    pub sound : IsSoundProfile profile
    pub policy : profile.policy_digest ≡ dispute_case.policy_digest
    pub affordable : dispute_case.value_microunits ≤ profile.max_value_microunits
    pub eligible : contains claim.claim_code profile.eligible_claim_codes ≡ true
    pub prior_valid : validate_prior hashes dispute_case evidence phase prior ≡ ok tt

  pub validate_inputs-Validated :
      (dispute_case : DisputeCase) (evidence : EvidenceGraph) (claim : Claim)
      (profile : AutomaticResolutionProfile) (phase : DecisionPhase)
      (prior : Option AutomaticDecisionReceipt)
      → validate_inputs hashes dispute_case evidence claim profile phase prior ≡ ok tt
      → Validated dispute_case evidence claim profile phase prior
  unfolding validate_inputs
  validate_inputs-Validated dispute_case evidence claim profile phase prior h0 =
      let (c, h1) = >>-eq-ok (map_err case_error (verify_case hashes.cases dispute_case)) _ h0 in
      let (e, h2) =
        >>-eq-ok (map_err evidence_error (verify_evidence_graph hashes.graphs evidence)) _ h1 in
      let (adjudicable, h3) = reject_if-eq-ok (not (is_adjudicable dispute_case.state)) _ _ h2 in
      let (locked, h4) = reject_if-eq-ok (not evidence.locked) _ _ h3 in
      let (_, h5) = reject_if-eq-ok (claim.schema != "joan.dispute-claim.v0") _ _ h4 in
      let (_, h6) = >>-eq-ok (require_nonempty claim.claim_id "claim_id") _ h5 in
      let (_, h7) =
        reject_if-eq-ok
          (evidence.case_id != dispute_case.case_id
            || claim.case_id != dispute_case.case_id
            || claim.claimant_id != dispute_case.claimant_id)
          _ _ h6 in
      let (sound, h8) = >>-eq-ok (validate_profile profile) _ h7 in
      let (policy, h9) =
        reject_if-eq-ok (profile.policy_digest != dispute_case.policy_digest) _ _ h8 in
      let (affordable, h10) =
        reject_if-eq-ok (ltb profile.max_value_microunits dispute_case.value_microunits) _ _ h9 in
      let (eligible, h11) =
        reject_if-eq-ok (not (contains claim.claim_code profile.eligible_claim_codes)) _ _ h10 in
      let (_, h12) =
        reject_if-eq-ok (not (contains claim.requested_remedy profile.allowed_remedies)) _ _ h11 in
      let (_, valid) = >>-eq-ok (verify_evidence_refs evidence claim.evidence_refs) _ h12 in
      record {
        case_verified = map_err-eq-ok case_error _ c;
        evidence_verified = map_err-eq-ok evidence_error _ e;
        adjudicable = ground arith;
        locked = ground arith;
        sound = validate_profile-IsSoundProfile profile sound;
        policy = eq_of_!= policy;
        affordable = ground arith;
        eligible = ground arith;
        prior_valid = valid;
      }
