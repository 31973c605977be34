-- ===== src/Guardian/Gate.antt =====
-- `evaluate_candidate`.
use joan.Base.{
  ℕ, ◌≡◌, not, ◌&&◌, String, List, [], ◌∷◌, ◌++◌, Result, ok, ◌>>=◌, ◌>>◌, reject_if, map_err, ◌!=◌,
  ◌==◌, nat_eq, string_eq, leb, if◌then◌else◌, arith,
}
use Prim.Native.Nat.{Ordering}
use joan.Base.Lists.{length, is_nil}
use joan.Base.Map
use joan.Base.Map.{BTreeMap}
use joan.Base.Order.{Ord, derive_ord, string_ord}
use joan.Base.Set.{BTreeSet, contains, insert, difference}
use joan.Base.Texts.{is_empty}
use joan.Canonical.{Digest, Digests, digest_eq, CanonicalError}

pub data GuardianRole : Type 0 where
  semantic_verifier test_guardian policy_gatekeeper archivist repair_proposer : GuardianRole

abbrev role_position : GuardianRole → ℕ
role_position GuardianRole.semantic_verifier = 0
role_position GuardianRole.test_guardian = 1
role_position GuardianRole.policy_gatekeeper = 2
role_position GuardianRole.archivist = 3
role_position GuardianRole.repair_proposer = 4

pub role_position_inj : (a b : GuardianRole) → role_position a ≡ role_position b → a ≡ b
role_position_inj a b h = ground arith

instance unfoldable pub role_ord : Ord GuardianRole
role_ord = derive_ord role_position role_position_inj

pub data VoteDecision : Type 0 where
  approve deny abstain : VoteDecision

pub record GuardianVote : Type 0 where
  pub guardian_id : String
  pub role : GuardianRole
  pub candidate_root : Digest
  pub decision : VoteDecision
  pub evidence : List Digest

pub record GuardianCandidate : Type 0 where
  pub schema : String
  pub candidate_root : Digest
  pub proposer_id : String
  pub required_roles : BTreeSet GuardianRole
  pub approval_threshold : ℕ
  pub votes : List GuardianVote

pub data GuardianOutcome : Type 0 where
  approved denied pending : GuardianOutcome

pub record ReceiptCore : Type 0 where
  pub schema : String
  pub candidate_root : Digest
  pub outcome : GuardianOutcome
  pub approvals : ℕ
  pub approved_roles : BTreeSet GuardianRole
  pub missing_roles : BTreeSet GuardianRole
  pub denying_guardians : List String
  pub independence_profile : String

-- The fields of `ReceiptCore`, and their digest.
pub record GuardianDecisionReceipt : Type 0 where
  pub core : ReceiptCore
  pub receipt_digest : Digest

pub data GuardianError : Type 0 where
  canonical : CanonicalError → GuardianError
  unsupported_schema duplicate_guardian candidate_mismatch : String → GuardianError
  invalid_threshold no_required_roles empty_guardian_id self_approval : GuardianError

-- The variables of the loop over the votes.
pub record Tally : Type 0 where
  pub voters : BTreeSet String
  pub approved_roles : BTreeSet GuardianRole
  pub denying_guardians : List String
  pub approvals_by_id : BTreeMap String GuardianRole

-- The `match` on the vote's decision.
unfoldable pub record_decision :
    String → VoteDecision → GuardianVote → Tally → Result Tally GuardianError
record_decision proposer approve vote t = do
  reject_if (vote.guardian_id == proposer) self_approval
  ok (record t {
    approved_roles = insert vote.role t.approved_roles;
    approvals_by_id = Map.insert vote.guardian_id vote.role t.approvals_by_id;
  })
record_decision proposer deny vote t =
    ok (record t { denying_guardians = t.denying_guardians ++ (vote.guardian_id ∷ []) })
record_decision proposer abstain vote t = ok t

unfoldable pub count_vote : GuardianCandidate → GuardianVote → Tally → Result Tally GuardianError
count_vote candidate vote t = do
  reject_if (is_empty vote.guardian_id) empty_guardian_id
  reject_if (vote.candidate_root != candidate.candidate_root) (candidate_mismatch vote.guardian_id)
  reject_if (contains vote.guardian_id t.voters) (duplicate_guardian vote.guardian_id)
  record_decision candidate.proposer_id vote.decision vote
      (record t { voters = insert vote.guardian_id t.voters })

unfoldable pub count_votes :
    GuardianCandidate → List GuardianVote → Tally → Result Tally GuardianError
count_votes candidate [] t = ok t
count_votes candidate (vote ∷ votes) t = do
  t' ← count_vote candidate vote t
  count_votes candidate votes t'

-- `sort` on names.
abbrev pub insert_name : String → List String → List String
insert_name name [] = name ∷ []
insert_name name (n ∷ names) = elim (string_ord.cmp name n) [
  | Ordering.gt ↦ n ∷ insert_name name names
  | _ ↦ name ∷ n ∷ names
]

abbrev pub sort : List String → List String
sort [] = []
sort (name ∷ names) = insert_name name (sort names)

unfoldable pub decide :
    List String → BTreeSet GuardianRole → (approvals threshold : ℕ) → GuardianOutcome
decide denying missing approvals threshold =
    if not (is_nil denying)
    then denied
    else (if is_nil missing && leb threshold approvals then approved else pending)

unfoldable pub evaluate_candidate :
    Digests ReceiptCore → GuardianCandidate → Result GuardianDecisionReceipt GuardianError
evaluate_candidate digests candidate = do
  reject_if (candidate.schema != "joan.guardian-candidate.v0") (unsupported_schema candidate.schema)
  reject_if (candidate.approval_threshold == 0) invalid_threshold
  reject_if (is_nil candidate.required_roles) no_required_roles
  t ←
      count_votes candidate candidate.votes
        (record { voters = []; approved_roles = []; denying_guardians = []; approvals_by_id = [] })
  let denying_guardians = sort t.denying_guardians
  let missing_roles = difference candidate.required_roles t.approved_roles
  let approvals = length t.approvals_by_id
  let core : ReceiptCore = record {
    schema = "joan.guardian-decision-receipt.v0";
    candidate_root = candidate.candidate_root;
    outcome = decide denying_guardians missing_roles approvals candidate.approval_threshold;
    approvals = approvals;
    approved_roles = t.approved_roles;
    missing_roles = missing_roles;
    denying_guardians = denying_guardians;
    independence_profile = "one-host-logical-only";
  }
  digest ← map_err canonical (digests.digest_serializable "joan.guardian-decision-receipt.v0" core)
  ok (record { core = core; receipt_digest = digest })
