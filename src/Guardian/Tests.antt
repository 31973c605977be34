-- ===== src/Guardian/Tests.antt =====
-- A candidate with two votes for it, and what the theorem gives there.
use joan.Base.{◌≡◌, ◌≤◌, refl, String, [], ◌∷◌, ok, err, string_eq, nat_eq, false}
use joan.Base.Lists.{All}
use joan.Base.Map
use joan.Base.Set.{contains, insert, difference}
use joan.Canonical.{Digest, Digests, digest_eq}
use joan.Guardian.Gate.{
  GuardianRole, role_ord, approve, GuardianVote, GuardianCandidate, approved,
  GuardianDecisionReceipt, ReceiptCore, self_approval, record_decision, count_vote, count_votes,
  decide, evaluate_candidate,
}
use joan.Guardian.Approval.{
  is_deny, count_approvals, IsApprovedUnder, OnePerGuardian, evaluate_candidate-approved,
}

abbrev root : Digest
root = record { algorithm = "sha256"; profile = "jcs"; domain = "test"; value = "00" }

abbrev digests : Digests ReceiptCore
digests = record { digest_serializable = λ domain value. ok root }

abbrev vote_of : String → GuardianRole → GuardianVote
vote_of id role = record {
  guardian_id = id;
  role = role;
  candidate_root = root;
  decision = approve;
  evidence = [];
}

abbrev candidate : GuardianCandidate
candidate = record {
  schema = "joan.guardian-candidate.v0";
  candidate_root = root;
  proposer_id = "agent";
  required_roles = GuardianRole.test_guardian ∷ GuardianRole.archivist ∷ [];
  approval_threshold = 2;
  votes = vote_of "g1" GuardianRole.archivist ∷ vote_of "g2" GuardianRole.test_guardian ∷ [];
}

abbrev receipt : GuardianDecisionReceipt
receipt = record {
  core = record {
    schema = "joan.guardian-decision-receipt.v0";
    candidate_root = root;
    outcome = approved;
    approvals = 2;
    approved_roles = GuardianRole.test_guardian ∷ GuardianRole.archivist ∷ [];
    missing_roles = [];
    denying_guardians = [];
    independence_profile = "one-host-logical-only";
  };
  receipt_digest = root;
}

approves : evaluate_candidate digests candidate ≡ ok receipt
unfolding evaluate_candidate count_votes count_vote record_decision decide role_ord digest_eq
    contains insert difference Map.insert
approves = refl

-- The proposer's own approval is refused.
self_refused :
    evaluate_candidate digests (record candidate { proposer_id = "g2" }) ≡ err self_approval
unfolding evaluate_candidate count_votes count_vote record_decision decide role_ord digest_eq
    contains insert difference Map.insert
self_refused = refl

evaluate_candidate-approved_example :
    All (λ (v : GuardianVote). is_deny v.decision ≡ false) candidate.votes
    × All (λ (v : GuardianVote). v.candidate_root ≡ root) candidate.votes
    × OnePerGuardian candidate.votes
    × All (λ role. IsApprovedUnder "agent" role candidate.votes) candidate.required_roles
    × (2 ≤ count_approvals candidate.votes)
evaluate_candidate-approved_example = evaluate_candidate-approved digests candidate approves refl
