-- ===== src/Ledger/Tests.antt =====
-- A reservation of 60 of alice's 100 microunits, a decision that splits it, and what the theorems
-- give there.
use joan.Base.{ℕ, ◌≡◌, ◌≢◌, refl, String, [], ◌∷◌, none, ok, arith, true, ◌≤◌}
use joan.Base.Map
use joan.Base.Map.{BTreeMap, sum_by, contains_key}
use joan.Base.Set
use joan.Base.Set.{contains}
use joan.Base.Texts.{is_blank, is_whitespace}
use joan.Base.Words.{checked_add, checked_sub}
use joan.Canonical.{Digest, Digests, digest_eq}
use joan.Dispute.Model.{AutomaticDecisionReceipt, primary, DecisionStatus, RemedyKind}
use joan.Dispute.Evaluate.{Hashes, verify_decision, decision_content_digest}
use joan.Ledger.Model.{
  hold_status_eq, HoldStatus-discrete, MockLedger, ReserveRequest, ApplyDecisionRequest,
  LedgerMutationReceipt,
}
use joan.Ledger.Ops.{
  require_nonempty, checked_sum_from, checked_sum, total_value, require_accounts, verify_holds,
  validate_preconditions, credit, status_for, compute_ledger_root, create_ledger, verify_ledger,
  finish_mutation, admit_reserve, reserve, admit_decision, apply_decision, new_hold, decided_hold,
}
use joan.Ledger.Totals.{worth, amount}
use joan.Ledger.Holds.{Reserved, reserve-Reserved}
use joan.Ledger.Settlement.{Settled, apply_decision-Settled}
use joan.Ledger.Progress.{reserve_succeeds}
use joan.Ledger.Payout.{apply_decision_succeeds}
use joan.Ledger.Finality.{history_settles}
use joan.Ledger.History.{
  Step, begin, extend, reserving, applying, create_ledger-verified, Reach-conserves, decided_once,
  keys_differ,
}

abbrev seal : Digest
seal = record { algorithm = "sha256"; profile = "jcs"; domain = "test"; value = "00" }

-- Digests that do not tell two values apart.
abbrev sealed : {T : Type 0} → Digests T
sealed = record { digest_serializable = λ domain value. ok seal }

abbrev hashes : Hashes
hashes = record {
  cases = sealed;
  graphs = sealed;
  claims = sealed;
  profiles = sealed;
  decisions = sealed;
}

abbrev opening : BTreeMap String ℕ
opening = ("alice", 100) ∷ ("bob", 20) ∷ []

abbrev opened : MockLedger
opened = record {
  schema = "joan.mock-ledger.v0";
  balances = opening;
  holds = [];
  consumed_idempotency_keys = [];
  revision = 0;
  initial_total_microunits = 120;
  ledger_root = seal;
}

abbrev to_reserve : ReserveRequest
to_reserve = record {
  schema = "joan.mock-reserve-request.v0";
  expected_ledger_root = seal;
  expected_revision = 0;
  hold_id = "h1";
  buyer_id = "alice";
  provider_id = "bob";
  contract_digest = seal;
  amount_microunits = 60;
  idempotency_key = "k1";
}

abbrev held : MockLedger
held = record opened {
  balances = ("alice", 40) ∷ ("bob", 20) ∷ [];
  holds = ("h1", new_hold to_reserve) ∷ [];
  consumed_idempotency_keys = "k1" ∷ [];
  revision = 1;
}

abbrev receipt : String → ℕ → LedgerMutationReceipt
receipt operation revision = record {
  schema = "joan.mock-ledger-mutation-receipt.v0";
  operation = operation;
  prior_ledger_root = seal;
  new_ledger_root = seal;
  revision = revision;
  hold_id = "h1";
  request_digest = seal;
  conserved_total_microunits = 120;
  committed = true;
}

abbrev decision : AutomaticDecisionReceipt
decision = record {
  schema = "joan.automatic-decision-receipt.v0";
  phase = primary;
  case_digest = seal;
  evidence_root = seal;
  claim_digest = seal;
  profile_digest = seal;
  supersedes = none;
  status = DecisionStatus.fallback_applied;
  support_count = 1;
  reject_count = 1;
  abstain_count = 0;
  participating_adjudicators = "a1" ∷ "a2" ∷ [];
  remedy = record {
    kind = RemedyKind.split;
    buyer_refund_microunits = 15;
    provider_release_microunits = 45;
    retained_microunits = 0;
  };
  reason_codes = "precommitted-ambiguity-fallback" ∷ [];
  finality_class = "automatic-primary-appealable";
  decision_digest = seal;
}

abbrev to_apply : ℕ → String → ApplyDecisionRequest
to_apply revision key = record {
  schema = "joan.mock-apply-decision-request.v0";
  expected_ledger_root = seal;
  expected_revision = revision;
  hold_id = "h1";
  idempotency_key = key;
  decision = decision;
}

abbrev settled : MockLedger
settled = record held {
  balances = ("alice", 55) ∷ ("bob", 65) ∷ [];
  holds = ("h1", decided_hold (to_apply 1 "k2") (new_hold to_reserve)) ∷ [];
  consumed_idempotency_keys = "k1" ∷ "k2" ∷ [];
  revision = 2;
}

create_ledger_runs : create_ledger sealed opening ≡ ok opened
unfolding create_ledger require_accounts require_nonempty is_blank is_whitespace checked_sum
    checked_sum_from checked_add compute_ledger_root
create_ledger_runs = refl

opened_verifies : verify_ledger sealed opened ≡ ok tt
unfolding verify_ledger verify_holds total_value checked_sum checked_sum_from checked_add
    compute_ledger_root digest_eq
opened_verifies = refl

reserve_runs : reserve sealed sealed opened to_reserve ≡ ok (held, receipt "reserve" 1)
unfolding reserve verify_ledger verify_holds total_value checked_sum checked_sum_from checked_add
    compute_ledger_root digest_eq validate_preconditions require_nonempty is_blank is_whitespace
    contains admit_reserve contains_key Map.get Map.insert Set.insert checked_sub finish_mutation
reserve_runs = refl

apply_runs :
    apply_decision sealed sealed hashes held (to_apply 1 "k2")
    ≡ ok (settled, receipt "apply-decision" 2)
unfolding apply_decision verify_ledger verify_holds total_value checked_sum checked_sum_from
    checked_add compute_ledger_root digest_eq validate_preconditions require_nonempty is_blank
    is_whitespace contains Map.get Map.insert Set.insert finish_mutation verify_decision
    decision_content_digest admit_decision hold_status_eq HoldStatus-discrete credit status_for
apply_runs = refl

create_ledger-verified_example :
    (verify_ledger sealed opened ≡ ok tt)
    × (opened.balances ≡ opening)
    × (worth opened ≡ sum_by amount opening)
    × (opened.initial_total_microunits ≡ sum_by amount opening)
    × (opened.holds ≡ [])
    × (opened.consumed_idempotency_keys ≡ [])
    × (opened.revision ≡ 0)
create_ledger-verified_example = create_ledger-verified sealed opening opened create_ledger_runs

reserve-Reserved_example : Reserved sealed sealed opened to_reserve held (receipt "reserve" 1)
reserve-Reserved_example =
    reserve-Reserved sealed sealed opened to_reserve held (receipt "reserve" 1) reserve_runs

apply_decision-Settled_example :
    Settled sealed sealed hashes held (to_apply 1 "k2") settled (receipt "apply-decision" 2)
apply_decision-Settled_example =
    apply_decision-Settled sealed sealed hashes held (to_apply 1 "k2") settled
      (receipt "apply-decision" 2) apply_runs

abbrev first_step : Step sealed sealed sealed hashes opened held
first_step = reserving to_reserve (receipt "reserve" 1) reserve_runs

abbrev second_step : Step sealed sealed sealed hashes held settled
second_step = applying (to_apply 1 "k2") (receipt "apply-decision" 2) apply_runs

Reach-conserves_example :
    (worth settled ≡ worth opened)
    × (settled.initial_total_microunits ≡ opened.initial_total_microunits)
    × (opened.revision ≤ settled.revision)
    × (verify_ledger sealed settled ≡ ok tt)
Reach-conserves_example =
    Reach-conserves sealed sealed sealed hashes opened
      (extend (extend begin first_step) second_step) opened_verifies

decided_once_example :
    apply_decision sealed sealed hashes settled (to_apply 2 "k3")
    ≢ ok (settled, receipt "apply-decision" 3)
decided_once_example =
    decided_once sealed sealed sealed hashes held settled settled (to_apply 1 "k2")
      (to_apply 2 "k3") (receipt "apply-decision" 2) (receipt "apply-decision" 3) settled apply_runs
      begin refl

keys_differ_example : (to_apply 1 "k2").idempotency_key ≢ to_reserve.idempotency_key
keys_differ_example =
    keys_differ sealed sealed sealed hashes opened held held settled first_step second_step begin

preconditions_run : validate_preconditions opened seal 0 "k1" ≡ ok tt
unfolding validate_preconditions require_nonempty is_blank is_whitespace digest_eq contains
preconditions_run = refl

admit_reserve_runs : admit_reserve opened to_reserve ≡ ok tt
unfolding admit_reserve require_nonempty is_blank is_whitespace contains_key Map.get
admit_reserve_runs = refl

reserve_succeeds_example :
    (x : MockLedger × LedgerMutationReceipt) × (reserve sealed sealed opened to_reserve ≡ ok x)
unfolding Map.get
reserve_succeeds_example =
    reserve_succeeds sealed sealed opened to_reserve 100 (λ v. (seal, refl)) (λ v. (seal, refl))
      ((refl, tt), (tt, tt)) opened_verifies preconditions_run admit_reserve_runs refl (omega arith)
      (omega arith)

held_verifies : verify_ledger sealed held ≡ ok tt
unfolding verify_ledger verify_holds total_value checked_sum checked_sum_from checked_add
    compute_ledger_root digest_eq
held_verifies = refl

later_preconditions_run : validate_preconditions held seal 1 "k2" ≡ ok tt
unfolding validate_preconditions require_nonempty is_blank is_whitespace digest_eq contains
later_preconditions_run = refl

decision_verifies : verify_decision hashes decision ≡ ok tt
unfolding verify_decision decision_content_digest digest_eq
decision_verifies = refl

admit_decision_runs : admit_decision (to_apply 1 "k2") (new_hold to_reserve) ≡ ok tt
unfolding admit_decision hold_status_eq HoldStatus-discrete checked_sum checked_sum_from checked_add
admit_decision_runs = refl

apply_decision_succeeds_example :
    (x : MockLedger × LedgerMutationReceipt) × (apply_decision sealed sealed hashes held
        (to_apply 1 "k2")
      ≡ ok x)
unfolding Map.get contains_key
apply_decision_succeeds_example =
    apply_decision_succeeds sealed sealed hashes held (to_apply 1 "k2") (new_hold to_reserve)
      (λ v. (seal, refl)) (λ v. (seal, refl)) ((refl, tt), (tt, tt)) (tt, tt) held_verifies
      later_preconditions_run refl decision_verifies refl admit_decision_runs refl refl refl
      (omega arith)

history_settles_example :
    (x : MockLedger × LedgerMutationReceipt) × (apply_decision sealed sealed hashes held
        (to_apply 1 "k2")
      ≡ ok x)
unfolding Map.get
history_settles_example =
    history_settles sealed sealed sealed hashes opening opened held (to_apply 1 "k2")
      (new_hold to_reserve) (λ v. (seal, refl)) (λ v. (seal, refl)) ((refl, tt), (tt, tt))
      create_ledger_runs (extend begin first_step) later_preconditions_run refl decision_verifies
      refl admit_decision_runs
