-- ===== src/Case/Transition.antt =====
-- `create_case`, `verify_case` and `transition_case`. The two parameters are
-- `digest_serializable` at the types `CaseCore` and `CaseTransition`.
use joan.Base.{
  ℕ, String, true, not, [], Result, ok, ◌>>=◌, ◌>>◌, reject_if, ok_or, map_err, ◌==◌, ◌!=◌, nat_eq,
  string_eq, leb,
}
use joan.Base.Lists.{length}
use joan.Base.Order.{string_ord}
use joan.Base.Set.{contains, insert}
use joan.Base.Texts.{is_blank}
use joan.Base.Words.{checked_add}
use joan.Canonical.{Digest, digest_eq, placeholder_digest, Digests}
use joan.Case.State.{submitted, case_state_eq, is_allowed}
use joan.Case.Model.{
  NewCase, DisputeCase, CaseTransition, CaseTransitionReceipt, CaseCore, CaseError, canonical,
  unsupported_schema, empty_field, same_party, zero_value, invalid_stored_digest, stale_case_digest,
  stale_revision, stale_state, illegal_transition, replay, idempotency_capacity, revision_overflow,
}

abbrev pub max_idempotency_keys : ℕ
max_idempotency_keys = 10_000

unfoldable pub require_nonempty : String → String → Result (Unit {0}) CaseError
require_nonempty value field = reject_if (is_blank value) (empty_field field)

abbrev pub case_core : DisputeCase → CaseCore
case_core c = record {
  schema = c.schema;
  case_id = c.case_id;
  contract_digest = c.contract_digest;
  transaction_digest = c.transaction_digest;
  claimant_id = c.claimant_id;
  respondent_id = c.respondent_id;
  policy_digest = c.policy_digest;
  value_microunits = c.value_microunits;
  state = c.state;
  revision = c.revision;
  consumed_idempotency_keys = c.consumed_idempotency_keys;
}

-- The case that `create_case` builds before its digest is known.
abbrev pub submitted_case : NewCase → DisputeCase
submitted_case input = record {
  schema = "joan.dispute-case.v0";
  case_id = input.case_id;
  contract_digest = input.contract_digest;
  transaction_digest = input.transaction_digest;
  claimant_id = input.claimant_id;
  respondent_id = input.respondent_id;
  policy_digest = input.policy_digest;
  value_microunits = input.value_microunits;
  state = submitted;
  revision = 0;
  consumed_idempotency_keys = [];
  case_digest = placeholder_digest;
}

module _ (cores : Digests CaseCore) where
  unfoldable pub compute_case_digest : DisputeCase → Result Digest CaseError
  compute_case_digest c =
      map_err canonical (cores.digest_serializable "joan.dispute-case.v0" (case_core c))

  unfoldable pub create_case : NewCase → Result DisputeCase CaseError
  create_case input = do
    reject_if (input.schema != "joan.new-dispute-case.v0") (unsupported_schema input.schema)
    require_nonempty input.case_id "case_id"
    require_nonempty input.claimant_id "claimant_id"
    require_nonempty input.respondent_id "respondent_id"
    reject_if (input.claimant_id == input.respondent_id) same_party
    reject_if (input.value_microunits == 0) zero_value
    let fresh = submitted_case input
    digest ← compute_case_digest fresh
    ok (record fresh { case_digest = digest })

  unfoldable pub verify_case : DisputeCase → Result (Unit {0}) CaseError
  verify_case c = do
    reject_if (c.schema != "joan.dispute-case.v0") (unsupported_schema c.schema)
    digest ← compute_case_digest c
    reject_if (digest != c.case_digest) invalid_stored_digest

-- The checks of `transition_case`, in their order, once the case has been verified.
unfoldable pub admit_transition : DisputeCase → CaseTransition → Result (Unit {0}) CaseError
admit_transition c t = do
  reject_if (t.schema != "joan.case-transition.v0") (unsupported_schema t.schema)
  require_nonempty t.actor_id "actor_id"
  require_nonempty t.idempotency_key "idempotency_key"
  require_nonempty t.reason_code "reason_code"
  reject_if (t.expected_case_digest != c.case_digest) stale_case_digest
  reject_if (t.expected_revision != c.revision) stale_revision
  reject_if (t.from != c.state) stale_state
  reject_if (not (is_allowed t.from t.to)) illegal_transition
  reject_if (contains t.idempotency_key c.consumed_idempotency_keys) replay
  reject_if (leb max_idempotency_keys (length c.consumed_idempotency_keys)) idempotency_capacity

module _ (cores : Digests CaseCore) (requests : Digests CaseTransition) where
  -- The rest of `transition_case`, on its clone of the case.
  unfoldable pub commit_transition :
      DisputeCase → CaseTransition → Result (DisputeCase × CaseTransitionReceipt) CaseError
  commit_transition c t = do
    revision ← ok_or (checked_add c.revision 1) revision_overflow
    let candidate = record c {
      consumed_idempotency_keys = insert t.idempotency_key c.consumed_idempotency_keys;
      state = t.to;
      revision = revision;
    }
    digest ← compute_case_digest cores candidate
    transition_digest ← map_err canonical (requests.digest_serializable "joan.case-transition.v0" t)
    ok (
      record candidate { case_digest = digest },
      record {
        schema = "joan.case-transition-receipt.v0";
        case_id = c.case_id;
        prior_case_digest = c.case_digest;
        new_case_digest = digest;
        revision = revision;
        from = t.from;
        to = t.to;
        actor_id = t.actor_id;
        reason_code = t.reason_code;
        transition_digest = transition_digest;
        committed = true;
      },
    )

  unfoldable pub transition_case :
      DisputeCase → CaseTransition → Result (DisputeCase × CaseTransitionReceipt) CaseError
  transition_case c t = do verify_case cores c; admit_transition c t; commit_transition c t
