-- ===== src/Dispute/Bundle.antt =====
-- `evaluate_bundle`: the first evaluation of a dispute and its appeal.
use joan.Base.{
  ◌≡◌, subst, true, arith, ok, Option, none, some, ◌⊎◌, inl, inr, Option-cases, >>-eq-ok,
  reject_if-eq-ok, ◌!=◌, string_eq,
}
use joan.Base.Lists.{All}
use joan.Base.Order.{string_ord}
use joan.Base.Set.{contains}
use joan.Canonical.{digest_eq}
use joan.Case.Model.{DisputeCase}
use joan.Evidence.Model.{EvidenceGraph}
use joan.Dispute.Model.{
  phase_eq, primary, appeal, AutomaticDecisionReceipt, DisputeEvaluationBundle,
}
use joan.Dispute.Evaluate.{
  Hashes, evaluate, evaluate_bundle, validate_prior, verify_decision, phase_of,
}
use joan.Dispute.Ruling.{evaluate_parts, evaluate_quorum}

-- A decision on a bundle that has no prior one: it may be appealed.
pub record IsFirst (b : DisputeEvaluationBundle) (d : AutomaticDecisionReceipt) : Type 0 where
  pub unprecedented : b.prior_decision ≡ none
  pub in_phase : d.phase ≡ primary
  pub supersedes : d.supersedes ≡ none
  pub finality : d.finality_class ≡ "automatic-primary-appealable"
  pub panel :
      All (λ k. contains k b.profile.primary_adjudicators ≡ true) d.participating_adjudicators

module _ (hashes : Hashes) where
  -- A decision that an appeal may be made against.
  pub record IsAppealable (c : DisputeCase) (e : EvidenceGraph) (p : AutomaticDecisionReceipt)
      : Type 0 where
    pub in_phase : p.phase ≡ primary
    pub same_case : p.case_digest ≡ c.case_digest
    pub same_evidence : p.evidence_root ≡ e.graph_root
    pub authentic : verify_decision hashes p ≡ ok tt

  -- A decision on a bundle that has a prior one: it replaces that one and is final.
  pub record IsAppeal (b : DisputeEvaluationBundle) (d : AutomaticDecisionReceipt) : Type 0 where
    pub prior : AutomaticDecisionReceipt
    pub appealed : b.prior_decision ≡ some prior
    pub appealable : IsAppealable b.dispute_case b.evidence prior
    pub in_phase : d.phase ≡ appeal
    pub supersedes : d.supersedes ≡ some prior.decision_digest
    pub finality : d.finality_class ≡ "automatic-appeal-final"
    pub panel :
        All (λ k. contains k b.profile.appeal_adjudicators ≡ true) d.participating_adjudicators

  validate_prior-IsAppealable :
      (c : DisputeCase) (e : EvidenceGraph) (p : AutomaticDecisionReceipt)
      → validate_prior hashes c e appeal (some p) ≡ ok tt
      → IsAppealable c e p
  unfolding validate_prior
  validate_prior-IsAppealable c e p h =
      let (real, bound) = >>-eq-ok (verify_decision hashes p) _ h in
      record {
        in_phase = ground (arith, phase_eq.beq_iff p.phase primary);
        same_case = ground (arith, digest_eq.beq_iff p.case_digest c.case_digest);
        same_evidence = ground (arith, digest_eq.beq_iff p.evidence_root e.graph_root);
        authentic = real;
      }

  -- If `evaluate_bundle` succeeds on a bundle without a prior decision, the decision is of the
  -- primary phase, supersedes none, is marked as appealable, and only primary adjudicators took
  -- part. If it succeeds on one with a prior decision, that decision is of the primary phase, is
  -- bound to the case and the evidence of the bundle, and verifies; and the new decision is of the
  -- appeal phase, supersedes the prior one by its digest, is marked as final, and only adjudicators
  -- of the appeal took part. So no decision on appeal is itself appealed.
  pub evaluate_bundle_phase :
      (b : DisputeEvaluationBundle) (d : AutomaticDecisionReceipt)
      → evaluate_bundle hashes b ≡ ok d
      → IsFirst b d ⊎ IsAppeal b d
  unfolding evaluate_bundle
  evaluate_bundle_phase b d h0 =
      let (_, h) = reject_if-eq-ok (b.schema != "joan.dispute-evaluation-bundle.v0") _ _ h0 in
      let run = λ (o : Option AutomaticDecisionReceipt).
        evaluate hashes b.dispute_case b.evidence b.claim b.profile b.findings (phase_of o) o in
      elim (Option-cases b.prior_decision) [
        | inl e ↦
            let h1 : run none ≡ ok d = subst (λ o. run o ≡ ok d) e h in
            let (_, _, q, _) =
              evaluate_parts hashes b.dispute_case b.evidence b.claim b.profile b.findings primary
                none d h1 in
            inl (record {
              unprecedented = e;
              in_phase = q.phase_kept;
              supersedes = q.supersedes;
              finality = q.finality;
              panel =
                  (evaluate_quorum hashes b.dispute_case b.evidence b.claim b.profile b.findings
                    primary none d h1).5;
            })
        | inr (p, e) ↦
            let h1 : run (some p) ≡ ok d = subst (λ o. run o ≡ ok d) e h in
            let (_, _, q, v) =
              evaluate_parts hashes b.dispute_case b.evidence b.claim b.profile b.findings appeal
                (some p) d h1 in
            inr (record {
              prior = p;
              appealed = e;
              appealable = validate_prior-IsAppealable b.dispute_case b.evidence p v.prior_valid;
              in_phase = q.phase_kept;
              supersedes = q.supersedes;
              finality = q.finality;
              panel =
                  (evaluate_quorum hashes b.dispute_case b.evidence b.claim b.profile b.findings
                    appeal (some p) d h1).5;
            })
      ]
