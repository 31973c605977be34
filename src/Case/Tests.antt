-- ===== src/Case/Tests.antt =====
-- A case that is submitted and then taken to intake validation, and what the theorems give there.
use joan.Base.{ℕ, ◌+◌, ◌≡◌, ◌≢◌, refl, String, [], ◌∷◌, ok, true, false}
use joan.Base.Set.{BTreeSet, contains, insert}
use joan.Base.Texts.{is_blank, is_whitespace}
use joan.Base.Words.{checked_add}
use joan.Canonical.{Digest, Digests, digest_eq}
use joan.Case.State.{
  CaseState, CaseState-discrete, case_state_eq, is_allowed, submitted, intake_validation,
  awaiting_cure, appealed, accepted, preservation_hold, notice_served, response_window,
  evidence_collection, evidence_locked, deterministic_evaluation, final_decision, remedy_execution,
  execution_reconciliation, closed,
}
use joan.Case.Model.{NewCase, DisputeCase, CaseTransition, CaseTransitionReceipt}
use joan.Case.Transition.{
  require_nonempty, compute_case_digest, create_case, verify_case, admit_transition,
  commit_transition, transition_case,
}
use joan.Case.Lifecycle.{Route, Route-closed, terminal_stays}
use joan.Case.Stages.{Reach-join, create_case-closed}
use joan.Case.Atomic.{Committed, transition_case-Committed, admit_transition-Admitted}
use joan.Case.History.{
  Reach, step, begin, extend, IsValid, create_case-IsValid, Reach-IsValid, Reach-no_replay,
  transition_case_succeeds,
}

abbrev seal : Digest
seal = record { algorithm = "sha256"; profile = "jcs"; domain = "test"; value = "00" }

-- Digests that do not tell two values apart.
abbrev sealed : {T : Type 0} → Digests T
sealed = record { digest_serializable = λ domain value. ok seal }

abbrev input : NewCase
input = record {
  schema = "joan.new-dispute-case.v0";
  case_id = "c1";
  contract_digest = seal;
  transaction_digest = seal;
  claimant_id = "alice";
  respondent_id = "bob";
  policy_digest = seal;
  value_microunits = 60;
}

abbrev fresh_case : DisputeCase
fresh_case = record {
  schema = "joan.dispute-case.v0";
  case_id = "c1";
  contract_digest = seal;
  transaction_digest = seal;
  claimant_id = "alice";
  respondent_id = "bob";
  policy_digest = seal;
  value_microunits = 60;
  state = submitted;
  revision = 0;
  consumed_idempotency_keys = [];
  case_digest = seal;
}

abbrev to_intake : CaseTransition
to_intake = record {
  schema = "joan.case-transition.v0";
  expected_case_digest = seal;
  expected_revision = 0;
  from = submitted;
  to = intake_validation;
  actor_id = "clerk";
  authority_ref = seal;
  idempotency_key = "k1";
  reason_code = "intake";
  evidence_refs = [];
}

abbrev in_intake : DisputeCase
in_intake = record fresh_case {
  state = intake_validation;
  revision = 1;
  consumed_idempotency_keys = "k1" ∷ [];
}

abbrev receipt : CaseTransitionReceipt
receipt = record {
  schema = "joan.case-transition-receipt.v0";
  case_id = "c1";
  prior_case_digest = seal;
  new_case_digest = seal;
  revision = 1;
  from = submitted;
  to = intake_validation;
  actor_id = "clerk";
  reason_code = "intake";
  transition_digest = seal;
  committed = true;
}

-- A second request under the first one's key.
abbrev to_cure : CaseTransition
to_cure = record to_intake { expected_revision = 1; from = intake_validation; to = awaiting_cure }

create_case_runs : create_case sealed input ≡ ok fresh_case
unfolding create_case require_nonempty is_blank is_whitespace compute_case_digest
create_case_runs = refl

admit_runs : admit_transition fresh_case to_intake ≡ ok tt
unfolding admit_transition require_nonempty is_blank is_whitespace digest_eq case_state_eq
    CaseState-discrete is_allowed contains
admit_runs = refl

transition_runs : transition_case sealed sealed fresh_case to_intake ≡ ok (in_intake, receipt)
unfolding transition_case verify_case admit_transition require_nonempty is_blank is_whitespace
    digest_eq case_state_eq CaseState-discrete is_allowed contains commit_transition checked_add
    insert compute_case_digest
transition_runs = refl

transition_case-Committed_example : Committed sealed fresh_case to_intake in_intake receipt
transition_case-Committed_example =
    transition_case-Committed sealed sealed fresh_case to_intake in_intake receipt transition_runs

Reach-IsValid_example : IsValid sealed sealed in_intake
Reach-IsValid_example =
    Reach-IsValid sealed sealed fresh_case (extend begin (step to_intake receipt transition_runs))
      (create_case-IsValid sealed sealed input fresh_case create_case_runs).0

Reach-no_replay_example : transition_case sealed sealed in_intake to_cure ≢ ok (in_intake, receipt)
Reach-no_replay_example =
    Reach-no_replay sealed sealed fresh_case in_intake in_intake to_intake to_cure receipt receipt
      in_intake transition_runs begin refl

transition_case_succeeds_example :
    (x : DisputeCase × CaseTransitionReceipt) × (transition_case sealed sealed fresh_case to_intake
      ≡ ok x)
transition_case_succeeds_example =
    transition_case_succeeds sealed sealed fresh_case to_intake (λ v. (seal, refl))
      (λ v. (seal, refl)) (create_case-IsValid sealed sealed input fresh_case create_case_runs).0
      (admit_transition-Admitted fresh_case to_intake admit_runs)

Route-closed_example : Route appealed closed
Route-closed_example = Route-closed appealed refl

terminal_stays_example : is_allowed closed submitted ≡ false
terminal_stays_example = terminal_stays closed submitted refl

-- The case after `n` transitions, and the request and receipt of the next one.
abbrev at : ℕ → BTreeSet String → CaseState → DisputeCase
at n keys state = record fresh_case {
  state = state;
  revision = n;
  consumed_idempotency_keys = keys;
}

abbrev ask : ℕ → CaseState → CaseState → String → CaseTransition
ask n from to key = record to_intake {
  expected_revision = n;
  from = from;
  to = to;
  idempotency_key = key;
}

abbrev done : ℕ → CaseState → CaseState → CaseTransitionReceipt
done n from to = record receipt { revision = n; from = from; to = to }

-- One more transition; the keys come in descending order.
abbrev via :
    {c : DisputeCase} {n : ℕ} {keys : BTreeSet String} {from : CaseState}
    → Reach sealed sealed c (at n keys from)
    → (to : CaseState) (key : String)
    → transition_case sealed sealed (at n keys from) (ask n from to key)
      ≡ ok (at (n + 1) (key ∷ keys) to, done (n + 1) from to)
    → Reach sealed sealed c (at (n + 1) (key ∷ keys) to)
via {n = n} {from = from} r to key h = extend r (step (ask n from to key) (done (n + 1) from to) h)

-- A case that is decided once its evidence is locked, and then remedied.
abbrev collected : DisputeCase
collected = at 6 ("u" ∷ "v" ∷ "w" ∷ "x" ∷ "y" ∷ "z" ∷ []) evidence_collection

abbrev to_collection : Reach sealed sealed fresh_case collected
unfolding transition_case verify_case admit_transition require_nonempty is_blank is_whitespace
    digest_eq case_state_eq CaseState-discrete is_allowed contains commit_transition checked_add
    insert compute_case_digest
to_collection =
    via
      (via
        (via
          (via (via (via begin intake_validation "z" refl) accepted "y" refl) preservation_hold "x"
            refl)
          notice_served "w" refl)
        response_window "v" refl)
      evidence_collection "u" refl

abbrev ended : DisputeCase
ended = at 12 ("o" ∷ "p" ∷ "q" ∷ "r" ∷ "s" ∷ "t" ∷ "u" ∷ "v" ∷ "w" ∷ "x" ∷ "y" ∷ "z" ∷ []) closed

abbrev to_closed : Reach sealed sealed fresh_case ended
unfolding transition_case verify_case admit_transition require_nonempty is_blank is_whitespace
    digest_eq case_state_eq CaseState-discrete is_allowed contains commit_transition checked_add
    insert compute_case_digest
to_closed =
    via
      (via
        (via
          (via (via (via to_collection evidence_locked "t" refl) deterministic_evaluation "s" refl)
            final_decision "r" refl)
          remedy_execution "q" refl)
        execution_reconciliation "p" refl)
      closed "o" refl

create_case-closed_example :
    (d : DisputeCase) × (e : DisputeCase) × (p : Reach sealed sealed fresh_case d) × (q : Reach
      sealed sealed d e)
    × (w : Reach sealed sealed e ended) × (to_closed
        ≡ Reach-join sealed sealed p (Reach-join sealed sealed q w))
    × (d.state ≡ evidence_locked)
    × (e.state ≡ remedy_execution)
create_case-closed_example =
    create_case-closed sealed sealed input fresh_case ended create_case_runs to_closed refl
