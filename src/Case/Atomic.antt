-- ===== src/Case/Atomic.antt =====
-- One call of `transition_case`: the case before and after.
use joan.Base.{
  ℕ, ◌+◌, ◌<◌, ◌≡◌, true, false, String, arith, ok, nat_eq, string_eq, Option-cases, Result-cases,
  some, inl, inr, >>-eq-ok, reject_if-eq-ok, eq_of_!=, ◌!=◌, not,
}
use joan.Base.Lists.{length}
use joan.Base.Order.{string_ord}
use joan.Base.Set.{contains, insert}
use joan.Base.Texts.{is_blank}
use joan.Base.Words.{u64_end, checked_add-eq-some, checked_add}
use joan.Canonical.{Digest, digest_eq, Digests}
use joan.Case.State.{is_allowed, case_state_eq}
use joan.Case.Model.{DisputeCase, CaseTransition, CaseTransitionReceipt, CaseCore}
use joan.Case.Transition.{
  verify_case, transition_case, admit_transition, commit_transition, require_nonempty,
  compute_case_digest, max_idempotency_keys,
}

-- What the checks of a transition establish.
pub record Admitted (c : DisputeCase) (t : CaseTransition) : Type 0 where
  pub schema : t.schema ≡ "joan.case-transition.v0"
  pub actor : is_blank t.actor_id ≡ false
  pub key : is_blank t.idempotency_key ≡ false
  pub reason : is_blank t.reason_code ≡ false
  pub digest : t.expected_case_digest ≡ c.case_digest
  pub revision : t.expected_revision ≡ c.revision
  pub state : t.from ≡ c.state
  pub allowed : is_allowed t.from t.to ≡ true
  pub fresh : contains t.idempotency_key c.consumed_idempotency_keys ≡ false
  pub room : length c.consumed_idempotency_keys < max_idempotency_keys

require_nonempty-eq-ok :
    (value field : String) → require_nonempty value field ≡ ok tt → is_blank value ≡ false
unfolding require_nonempty
require_nonempty-eq-ok value field h = ground arith

pub admit_transition-Admitted :
    (c : DisputeCase) (t : CaseTransition) → admit_transition c t ≡ ok tt → Admitted c t
unfolding admit_transition
admit_transition-Admitted c t h0 =
    let (schema, h1) = reject_if-eq-ok (t.schema != "joan.case-transition.v0") _ _ h0 in
    let (actor, h2) = >>-eq-ok (require_nonempty t.actor_id "actor_id") _ h1 in
    let (key, h3) = >>-eq-ok (require_nonempty t.idempotency_key "idempotency_key") _ h2 in
    let (reason, h4) = >>-eq-ok (require_nonempty t.reason_code "reason_code") _ h3 in
    let (digest, h5) = reject_if-eq-ok (t.expected_case_digest != c.case_digest) _ _ h4 in
    let (revision, h6) = reject_if-eq-ok (t.expected_revision != c.revision) _ _ h5 in
    let (state, h7) = reject_if-eq-ok (t.from != c.state) _ _ h6 in
    let (allowed, h8) = reject_if-eq-ok (not (is_allowed t.from t.to)) _ _ h7 in
    let (fresh, room) =
      reject_if-eq-ok (contains t.idempotency_key c.consumed_idempotency_keys) _ _ h8 in
    record {
      schema = eq_of_!= schema;
      actor = require_nonempty-eq-ok t.actor_id _ actor;
      key = require_nonempty-eq-ok t.idempotency_key _ key;
      reason = require_nonempty-eq-ok t.reason_code _ reason;
      digest = eq_of_!= digest;
      revision = eq_of_!= revision;
      state = eq_of_!= state;
      allowed = ground arith;
      fresh = fresh;
      room = ground arith;
    }

pub Admitted-admit_transition :
    (c : DisputeCase) (t : CaseTransition) → Admitted c t → admit_transition c t ≡ ok tt
unfolding admit_transition require_nonempty
Admitted-admit_transition c t a = ground (
  arith,
  string_eq.beq_iff t.schema "joan.case-transition.v0",
  digest_eq.beq_iff t.expected_case_digest c.case_digest,
  case_state_eq.beq_iff t.from c.state,
)

-- What a committed transition has done to the case `c`, with its receipt `r`.
pub record Committed (cores : Digests CaseCore) (c : DisputeCase) (t : CaseTransition)
    (c' : DisputeCase) (r : CaseTransitionReceipt) : Type 0 where
  pub admitted : Admitted c t
  pub state : c'.state ≡ t.to
  pub revision : c'.revision ≡ c.revision + 1
  pub revision_fits : c.revision + 1 < u64_end
  pub keys : c'.consumed_idempotency_keys ≡ insert t.idempotency_key c.consumed_idempotency_keys
  pub same_contract : c'.contract_digest ≡ c.contract_digest
  pub same_transaction : c'.transaction_digest ≡ c.transaction_digest
  pub same_policy : c'.policy_digest ≡ c.policy_digest
  pub same_case_id : c'.case_id ≡ c.case_id
  pub same_claimant : c'.claimant_id ≡ c.claimant_id
  pub same_respondent : c'.respondent_id ≡ c.respondent_id
  pub same_value : c'.value_microunits ≡ c.value_microunits
  pub verified_before : verify_case cores c ≡ ok tt
  pub verified_after : verify_case cores c' ≡ ok tt
  pub receipt_case : r.case_id ≡ c.case_id
  pub receipt_prior : r.prior_case_digest ≡ c.case_digest
  pub receipt_new : r.new_case_digest ≡ c'.case_digest
  pub receipt_revision : r.revision ≡ c'.revision
  pub receipt_from : r.from ≡ c.state
  pub receipt_to : r.to ≡ c'.state
  pub receipt_committed : r.committed ≡ true

module _ (cores : Digests CaseCore) (requests : Digests CaseTransition) where
  verify_case-schema :
      (c : DisputeCase) → verify_case cores c ≡ ok tt → c.schema ≡ "joan.dispute-case.v0"
  unfolding verify_case
  verify_case-schema c h = ground (arith, string_eq.beq_iff c.schema "joan.dispute-case.v0")

  -- A digest that has just been computed verifies.
  pub verify_case-computed :
      (c : DisputeCase) (g : Digest)
      → c.schema ≡ "joan.dispute-case.v0"
      → compute_case_digest cores c ≡ ok g
      → verify_case cores (record c { case_digest = g }) ≡ ok tt
  unfolding verify_case compute_case_digest
  verify_case-computed c g s h =
      ground (arith, string_eq.beq_iff c.schema "joan.dispute-case.v0", digest_eq.beq_iff g g)

  -- The clone on which `commit_transition` works, at the new revision.
  abbrev candidate : DisputeCase → CaseTransition → ℕ → DisputeCase
  candidate c t revision = record c {
    consumed_idempotency_keys = insert t.idempotency_key c.consumed_idempotency_keys;
    state = t.to;
    revision = revision;
  }

  Committed-parts :
      (c : DisputeCase) (t : CaseTransition) (rev : ℕ) (g : Digest) (c' : DisputeCase)
      (r : CaseTransitionReceipt)
      → Admitted c t
      → verify_case cores c ≡ ok tt
      → checked_add c.revision 1 ≡ some rev
      → compute_case_digest cores (candidate c t rev) ≡ ok g
      → commit_transition cores requests c t ≡ ok (c', r)
      → Committed cores c t c' r
  unfolding commit_transition
  Committed-parts c t rev g c' r a v e f h =
      let fits = checked_add-eq-some c.revision 1 e in
      let after = verify_case-computed (candidate c t rev) g (verify_case-schema c v) f in
      ground (arith, fits, after, a)

  commit_transition-Committed :
      (c : DisputeCase) (t : CaseTransition) (c' : DisputeCase) (r : CaseTransitionReceipt)
      → Admitted c t
      → verify_case cores c ≡ ok tt
      → commit_transition cores requests c t ≡ ok (c', r)
      → Committed cores c t c' r
  unfolding commit_transition
  commit_transition-Committed c t c' r a v h = elim (Option-cases (checked_add c.revision 1)) [
    | inl over ↦ ground arith
    | inr (rev, e) ↦ elim (Result-cases (compute_case_digest cores (candidate c t rev))) [
      | inl (g, f) ↦ Committed-parts c t rev g c' r a v e f h
      | inr (x, f) ↦ ground arith
    ]
  ]

  -- If `transition_case` succeeds, all its checks held; the new case has the transition's state,
  -- the revision raised by one within 64 bits and the key consumed, and keeps everything else; it
  -- verifies, as the old one did; and the receipt names the case, both digests, both states and
  -- the revision.
  pub transition_case-Committed :
      (c : DisputeCase) (t : CaseTransition) (c' : DisputeCase) (r : CaseTransitionReceipt)
      → transition_case cores requests c t ≡ ok (c', r)
      → Committed cores c t c' r
  unfolding transition_case
  transition_case-Committed c t c' r h =
      let v = >>-eq-ok (verify_case cores c) _ h in
      let a = >>-eq-ok (admit_transition c t) _ v.1 in
      commit_transition-Committed c t c' r (admit_transition-Admitted c t a.0) v.0 a.1
