-- ===== src/Dispute/Decision.antt =====
-- `outcome` and `decide`: the decision from the counts of the findings.
use joan.Base.{
  ℕ, ◌≤◌, ◌<◌, ◌≡◌, refl, subst, true, not, [], ◌∷◌, arith, ok, Option, ◌⊎◌, >>=-eq-ok,
  reject_if-eq-ok, ok_inj, map_err, string_eq,
}
use joan.Base.Order.{string_ord}
use joan.Base.Set.{contains}
use joan.Canonical.{Digest, digest_eq, placeholder_digest}
use mathlib.Core.Option
use joan.Case.Model.{DisputeCase}
use joan.Evidence.Model.{EvidenceGraph}
use joan.Dispute.Model.{
  RemedyKind, remedy_kind_ord, AutomaticResolutionProfile, Claim, DecisionPhase, DecisionStatus,
  claim_upheld, claim_rejected, fallback_applied, AutomaticDecisionReceipt, canonical,
}
use joan.Dispute.Remedy.{fallback_kind, allocation_for}
use joan.Dispute.Findings.{Tally}
use joan.Dispute.Evaluate.{
  Hashes, outcome, decide, verify_decision, decision_content_digest, threshold_for, finality_for,
}
use joan.Dispute.Allocation.{allocated, allocation_for_sums}

-- One side prevails if it alone reaches the threshold; the fallback applies if neither or both do.
abbrev pub Selects :
    AutomaticResolutionProfile → Claim → ℕ → ℕ → ℕ → DecisionStatus → RemedyKind → Type 0
Selects profile claim threshold support reject status kind =
    ((threshold ≤ support)
      × (reject < threshold)
      × (status ≡ claim_upheld)
      × (kind ≡ claim.requested_remedy))
    ⊎ ((threshold ≤ reject)
        × (support < threshold)
        × (status ≡ claim_rejected)
        × (kind ≡ RemedyKind.release_provider))
    ⊎ (((threshold ≤ support) × (threshold ≤ reject) ⊎ (support < threshold) × (reject < threshold))
        × (status ≡ fallback_applied)
        × (kind ≡ fallback_kind profile.ambiguity_fallback))

outcome-Selects :
    (profile : AutomaticResolutionProfile) (claim : Claim) (threshold : ℕ) (t : Tally)
    → let (status, kind, _) = outcome profile claim threshold t in
      Selects profile claim threshold t.support t.reject status kind
unfolding outcome
outcome-Selects profile claim threshold t = ground arith

module _ (hashes : Hashes) where
  -- A digest that has just been computed verifies.
  pub verify_decision-computed :
      (d : AutomaticDecisionReceipt) (g : Digest)
      → d.schema ≡ "joan.automatic-decision-receipt.v0"
      → decision_content_digest hashes d ≡ ok g
      → verify_decision hashes (record d { decision_digest = g }) ≡ ok tt
  unfolding verify_decision decision_content_digest
  verify_decision-computed d g s h = ground (
    arith,
    string_eq.beq_iff d.schema "joan.automatic-decision-receipt.v0",
    digest_eq.beq_iff g g,
  )

  -- What a decision says of its inputs.
  pub record Decided (dispute_case : DisputeCase) (evidence : EvidenceGraph) (claim : Claim)
      (profile : AutomaticResolutionProfile) (phase : DecisionPhase)
      (prior : Option AutomaticDecisionReceipt) (t : Tally) (d : AutomaticDecisionReceipt)
      : Type 0 where
    pub phase_kept : d.phase ≡ phase
    pub case_bound : d.case_digest ≡ dispute_case.case_digest
    pub evidence_bound : d.evidence_root ≡ evidence.graph_root
    pub supersedes : d.supersedes ≡ Option.map (λ p. p.decision_digest) prior
    pub support : d.support_count ≡ t.support
    pub reject : d.reject_count ≡ t.reject
    pub abstained : d.abstain_count ≡ t.abstained
    pub participants : d.participating_adjudicators ≡ t.seen
    pub selects :
        Selects profile claim
          (threshold_for phase profile)
          d.support_count
          d.reject_count
          d.status
          d.remedy.kind
    pub remedy_allowed : contains d.remedy.kind profile.allowed_remedies ≡ true
    pub conserves : allocated d.remedy ≡ dispute_case.value_microunits
    pub finality : d.finality_class ≡ finality_for phase
    pub verifies : verify_decision hashes d ≡ ok tt

  pub decide-Decided :
      (dispute_case : DisputeCase) (evidence : EvidenceGraph) (claim : Claim)
      (profile : AutomaticResolutionProfile) (phase : DecisionPhase)
      (prior : Option AutomaticDecisionReceipt) (t : Tally) (d : AutomaticDecisionReceipt)
      → decide hashes dispute_case evidence claim profile phase prior t ≡ ok d
      → Decided dispute_case evidence claim profile phase prior t d
  unfolding decide
  decide-Decided dispute_case evidence claim profile phase prior t d h0 =
      let chosen = outcome profile claim (threshold_for phase profile) t in
      let selected = outcome-Selects profile claim (threshold_for phase profile) t in
      let (permitted, h1) =
        reject_if-eq-ok (not (contains chosen.1 profile.allowed_remedies)) _ _ h0 in
      let (remedy, allocates, h2) =
        >>=-eq-ok (allocation_for chosen.1 profile.ambiguity_fallback dispute_case.value_microunits)
          _ h1 in
      let (claim_digest, _, h3) =
        >>=-eq-ok
          (map_err canonical (hashes.claims.digest_serializable "joan.dispute-claim.v0" claim)) _
          h2 in
      let (profile_digest, _, h4) =
        >>=-eq-ok
          (map_err canonical
            (hashes.profiles.digest_serializable "joan.automatic-resolution-profile.v0" profile))
          _ h3 in
      let decision : AutomaticDecisionReceipt = record {
        schema = "joan.automatic-decision-receipt.v0";
        phase = phase;
        case_digest = dispute_case.case_digest;
        evidence_root = evidence.graph_root;
        claim_digest = claim_digest;
        profile_digest = profile_digest;
        supersedes = Option.map (λ d. d.decision_digest) prior;
        status = chosen.0;
        support_count = t.support;
        reject_count = t.reject;
        abstain_count = t.abstained;
        participating_adjudicators = t.seen;
        remedy = remedy;
        reason_codes = chosen.2 ∷ [];
        finality_class = finality_for phase;
        decision_digest = placeholder_digest;
      } in
      let (g, seals, h5) = >>=-eq-ok (decision_content_digest hashes decision) _ h4 in
      let sums =
        allocation_for_sums chosen.1 profile.ambiguity_fallback dispute_case.value_microunits remedy
          allocates in
      subst (Decided dispute_case evidence claim profile phase prior t) (ok_inj h5) (record {
        phase_kept = refl;
        case_bound = refl;
        evidence_bound = refl;
        supersedes = refl;
        support = refl;
        reject = refl;
        abstained = refl;
        participants = refl;
        selects = rw sums.1 selected;
        remedy_allowed = rw sums.1 (ground arith);
        conserves = sums.0;
        finality = refl;
        verifies = verify_decision-computed decision g refl seals;
      })
