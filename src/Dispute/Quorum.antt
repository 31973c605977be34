-- ===== src/Dispute/Quorum.antt =====
-- `evaluate_finding`: one finding and the tally, and what counting the findings means.
use joan.Base.{
  ℕ, ◌+◌, ◌≡◌, ◌≢◌, sym, Bool, true, false, not, ◌||◌, ◌&&◌, String, List, [], ◌∷◌, arith, ok, some,
  >>-eq-ok, >>=-eq-ok, reject_if-eq-ok, ok_or-eq-ok, ok_inj, eq_of_!=, ◌!=◌, string_eq, ok_or,
  if◌then◌else◌,
}
use joan.Base.Lists.{is_nil, All}
use joan.Base.Map
use joan.Base.Order.{string_ord}
use joan.Base.Set.{BTreeSet, contains, insert}
use joan.Canonical.{digest_eq}
use joan.Case.Model.{DisputeCase}
use joan.Evidence.Model.{EvidenceGraph, EvidenceItem, verified, verification_eq}
use joan.Dispute.Model.{
  AutomaticResolutionProfile, MachineFinding, DecisionPhase, phase_eq, FindingDisposition,
  supports_claim, rejects_claim, invalid_evidence_reference,
}
use joan.Dispute.Findings.{
  require_nonempty, verify_evidence_refs, Tally, count_finding, is_decisive, evaluate_finding,
}

-- The reference is an item of the graph that was verified.
abbrev pub IsVerifiedRef : EvidenceGraph → String → Type 0
IsVerifiedRef g reference =
    (item : EvidenceItem) × (Map.get reference g.items ≡ some item) × (item.verification ≡ verified)

-- References pass exactly if all are verified items; this is the direction that decisions use.
pub verify_evidence_refs-All :
    (g : EvidenceGraph) (refs : List String)
    → verify_evidence_refs g refs ≡ ok tt
    → All (IsVerifiedRef g) refs
unfolding verify_evidence_refs
verify_evidence_refs-All g [] h = tt
verify_evidence_refs-All g (r ∷ refs) h =
    let (item, found, h1) =
      >>=-eq-ok (ok_or (Map.get r g.items) (invalid_evidence_reference r)) _ h in
    let (seen, rest) = reject_if-eq-ok (item.verification != verified) _ _ h1 in
    ((item, ok_or-eq-ok _ _ found, eq_of_!= seen), verify_evidence_refs-All g refs rest)

-- How many findings have the disposition.
abbrev pub votes : (FindingDisposition → Bool) → List MachineFinding → ℕ
votes p [] = 0
votes p (f ∷ fs) = (if p f.disposition then 1 else 0) + votes p fs

abbrev pub is_support : FindingDisposition → Bool
is_support supports_claim = true
is_support _ = false

abbrev pub is_reject : FindingDisposition → Bool
is_reject rejects_claim = true
is_reject _ = false

-- No adjudicator has two findings.
abbrev pub IsDistinct : List MachineFinding → Type 0
IsDistinct [] = Unit
IsDistinct (f ∷ fs) = All (λ g. g.adjudicator_id ≢ f.adjudicator_id) fs × IsDistinct fs

module _ (dispute_case : DisputeCase) (evidence : EvidenceGraph)
    (profile : AutomaticResolutionProfile) (phase : DecisionPhase) (allowed : BTreeSet String) where
  -- A finding that counts: bound to this evaluation, by an allowed adjudicator, on verified
  -- evidence, of which a decisive finding has some.
  pub record IsBound (f : MachineFinding) : Type 0 where
    pub phase_bound : f.phase ≡ phase
    pub case_bound : f.case_digest ≡ dispute_case.case_digest
    pub evidence_bound : f.evidence_root ≡ evidence.graph_root
    pub policy_bound : f.policy_digest ≡ profile.policy_digest
    pub is_allowed : contains f.adjudicator_id allowed ≡ true
    pub has_evidence : (is_decisive f.disposition && is_nil f.evidence_refs) ≡ false
    pub refs : All (IsVerifiedRef evidence) f.evidence_refs

  pub record Counts (t : Tally) (f : MachineFinding) (t' : Tally) : Type 0 where
    pub bound : IsBound f
    pub fresh : contains f.adjudicator_id t.seen ≡ false
    pub counted :
        t' ≡ count_finding f.disposition (record t { seen = insert f.adjudicator_id t.seen })

  pub evaluate_finding-Counts :
      (t t' : Tally) (f : MachineFinding)
      → evaluate_finding dispute_case evidence profile phase allowed t f ≡ ok t'
      → Counts t f t'
  unfolding evaluate_finding
  evaluate_finding-Counts t t' f h0 =
      let (_, h1) = reject_if-eq-ok (f.schema != "joan.machine-finding.v0") _ _ h0 in
      let (_, h2) = >>-eq-ok (require_nonempty f.adjudicator_id "adjudicator_id") _ h1 in
      let (binding, h3) =
        reject_if-eq-ok
          (f.phase != phase
            || f.case_digest != dispute_case.case_digest
            || f.evidence_root != evidence.graph_root
            || f.policy_digest != profile.policy_digest)
          _ _ h2 in
      let (known, h4) = reject_if-eq-ok (not (contains f.adjudicator_id allowed)) _ _ h3 in
      let (fresh, h5) = reject_if-eq-ok (contains f.adjudicator_id t.seen) _ _ h4 in
      let (based, h6) =
        reject_if-eq-ok (is_decisive f.disposition && is_nil f.evidence_refs) _ _ h5 in
      let (refs, h7) = >>-eq-ok (verify_evidence_refs evidence f.evidence_refs) _ h6 in
      record {
        bound = record {
          phase_bound = ground (arith, phase_eq.beq_iff f.phase phase);
          case_bound = ground (arith, digest_eq.beq_iff f.case_digest dispute_case.case_digest);
          evidence_bound = ground (arith, digest_eq.beq_iff f.evidence_root evidence.graph_root);
          policy_bound = ground (arith, digest_eq.beq_iff f.policy_digest profile.policy_digest);
          is_allowed = ground arith;
          has_evidence = based;
          refs = verify_evidence_refs-All evidence f.evidence_refs refs;
        };
        fresh = fresh;
        counted = sym (ok_inj h7);
      }
