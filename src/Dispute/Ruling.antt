-- ===== src/Dispute/Ruling.antt =====
-- `evaluate` as its callers see it.
use joan.Base.{
  ◌+◌, ◌≤◌, ◌≡◌, subst, ◌∙◌, true, false, String, List, arith, ok, Option, none, inl, inr,
  Bool-cases, >>-eq-ok, >>=-eq-ok, string_eq,
}
use joan.Base.Lists.{length, All}
use joan.Base.Order.{string_ord}
use joan.Base.Set.{contains, is_disjoint-contains, contains-All}
use joan.Case.Model.{DisputeCase}
use joan.Evidence.Model.{EvidenceGraph}
use joan.Dispute.Model.{
  remedy_kind_ord, AutomaticResolutionProfile, Claim, DecisionPhase, primary, appeal,
  MachineFinding, AutomaticDecisionReceipt,
}
use joan.Dispute.Findings.{Tally, evaluate_findings}
use joan.Dispute.Evaluate.{
  Hashes, evaluate, validate_inputs, verify_decision, adjudicators_for, threshold_for,
}
use joan.Dispute.Allocation.{allocated}
use joan.Dispute.Quorum.{votes, is_support, is_reject, IsDistinct, IsBound}
use joan.Dispute.Count.{evaluate_findings-Counted}
use joan.Dispute.Decision.{Selects, Decided, decide-Decided}
use joan.Dispute.Verdict.{Validated, validate_inputs-Validated}

module _ (hashes : Hashes) (dispute_case : DisputeCase) (evidence : EvidenceGraph) (claim : Claim)
    (profile : AutomaticResolutionProfile) (findings : List MachineFinding) (phase : DecisionPhase)
    (prior : Option AutomaticDecisionReceipt) (d : AutomaticDecisionReceipt) where
  -- The three steps of an evaluation that succeeds.
  pub evaluate_parts :
      evaluate hashes dispute_case evidence claim profile findings phase prior ≡ ok d
      → (t : Tally) × (evaluate_findings dispute_case evidence profile phase
            (adjudicators_for phase profile)
            findings
          ≡ ok t)
        × Decided hashes dispute_case evidence claim profile phase prior t d
        × Validated hashes dispute_case evidence claim profile phase prior
  unfolding evaluate
  evaluate_parts h =
      let (valid, h1) =
        >>-eq-ok (validate_inputs hashes dispute_case evidence claim profile phase prior) _ h in
      let (t, counts, h2) =
        >>=-eq-ok
          (evaluate_findings dispute_case evidence profile phase (adjudicators_for phase profile)
            findings)
          _ h1 in
      (
        t,
        counts,
        decide-Decided hashes dispute_case evidence claim profile phase prior t d h2,
        validate_inputs-Validated hashes dispute_case evidence claim profile phase prior valid,
      )

  -- If `evaluate` succeeds, its status and remedy follow from the findings: the side that alone
  -- reaches the phase's threshold prevails, and the profile's fallback applies if neither or both
  -- do. The decision's counts are those of the findings; its participants are as many as the
  -- findings and all allowed in the phase; no adjudicator has two findings; every finding is bound
  -- to the case, the evidence, the policy and the phase, cites only verified items, and cites at
  -- least one if it is decisive.
  pub evaluate_quorum :
      evaluate hashes dispute_case evidence claim profile findings phase prior ≡ ok d
      → Selects profile claim
          (threshold_for phase profile)
          (votes is_support findings)
          (votes is_reject findings)
          d.status
          d.remedy.kind
        × (d.support_count ≡ votes is_support findings)
        × (d.reject_count ≡ votes is_reject findings)
        × (d.support_count + d.reject_count + d.abstain_count ≡ length findings)
        × (length d.participating_adjudicators ≡ length findings)
        × All (λ k. contains k (adjudicators_for phase profile) ≡ true) d.participating_adjudicators
        × IsDistinct findings
        × All
            (IsBound dispute_case evidence profile phase (adjudicators_for phase profile))
            findings
  evaluate_quorum h =
      let (t, counts, q, _) = evaluate_parts h in
      let c =
        evaluate_findings-Counted dispute_case evidence profile phase
          (adjudicators_for phase profile) findings t counts in
      (
        subst
            (λ n.
              Selects profile claim (threshold_for phase profile) n (votes is_reject findings)
                d.status d.remedy.kind)
            (q.support ∙ c.0)
            (subst
              (λ n.
                Selects profile claim (threshold_for phase profile) d.support_count n d.status
                  d.remedy.kind)
              (q.reject ∙ c.1) q.selects),
        q.support ∙ c.0,
        q.reject ∙ c.1,
        omega (arith, q.support, q.reject, q.abstained, c.2),
        rw q.participants c.3,
        rw q.participants c.4,
        c.5,
        c.6,
      )

  -- If `evaluate` succeeds, the three parts of its remedy add up to the value of the case, which
  -- the profile affords; the profile allows the remedy; the evidence is locked; the decision names
  -- the case's digest and the evidence's root; and it verifies.
  pub evaluate_conserves :
      evaluate hashes dispute_case evidence claim profile findings phase prior ≡ ok d
      → (allocated d.remedy ≡ dispute_case.value_microunits)
        × (contains d.remedy.kind profile.allowed_remedies ≡ true)
        × (dispute_case.value_microunits ≤ profile.max_value_microunits)
        × (evidence.locked ≡ true)
        × (d.case_digest ≡ dispute_case.case_digest)
        × (d.evidence_root ≡ evidence.graph_root)
        × (verify_decision hashes d ≡ ok tt)
  evaluate_conserves h =
      let (t, counts, q, v) = evaluate_parts h in
      (
        q.conserves, q.remedy_allowed, v.affordable, v.locked, q.case_bound, q.evidence_bound,
        q.verifies,
      )

  pub evaluate_disjoint :
      evaluate hashes dispute_case evidence claim profile findings phase prior ≡ ok d
      → (k : String) → contains k profile.primary_adjudicators ≡ true
      → contains k profile.appeal_adjudicators ≡ false
  evaluate_disjoint h k m =
      let (_, _, _, v) = evaluate_parts h in
      is_disjoint-contains k profile.primary_adjudicators profile.appeal_adjudicators
        v.sound.disjoint m

-- If one evaluation in the primary phase and one on appeal, both under the same profile, succeed,
-- nobody who took part in the first takes part in the second.
pub appeal_disjoint :
    (hashes : Hashes) (c c' : DisputeCase) (e e' : EvidenceGraph) (claim claim' : Claim)
    (profile : AutomaticResolutionProfile) (fs fs' : List MachineFinding)
    (d d' : AutomaticDecisionReceipt) (prior : Option AutomaticDecisionReceipt) (k : String)
    → evaluate hashes c e claim profile fs primary none ≡ ok d
    → evaluate hashes c' e' claim' profile fs' appeal prior ≡ ok d'
    → contains k d.participating_adjudicators ≡ true
    → contains k d'.participating_adjudicators ≡ false
appeal_disjoint hashes c c' e e' claim claim' profile fs fs' d d' prior k h h' m =
    let first = evaluate_quorum hashes c e claim profile fs primary none d h in
    let second = evaluate_quorum hashes c' e' claim' profile fs' appeal prior d' h' in
    let member =
      contains-All (λ j. contains j profile.primary_adjudicators ≡ true) k
        d.participating_adjudicators first.5 m in
    let stranger = evaluate_disjoint hashes c e claim profile fs primary none d h k member in
    elim (Bool-cases (contains k d'.participating_adjudicators)) [
      | inl again ↦ cc (
        contains-All (λ j. contains j profile.appeal_adjudicators ≡ true) k
            d'.participating_adjudicators second.5 again,
        stranger,
      )
      | inr apart ↦ apart
    ]
