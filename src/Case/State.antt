-- ===== src/Case/State.antt =====
-- `CaseState` and `is_allowed`.
use joan.Base.{Bool, true, false, Eq, derive_eq}

pub data CaseState : Type 0 where
  submitted intake_validation rejected_out_of_scope awaiting_cure accepted : CaseState
  preservation_hold notice_served response_window evidence_collection : CaseState
  evidence_locked deterministic_evaluation automated_settlement_offered : CaseState
  settled_by_agreement review_assigned proposed_decision challenge_window : CaseState
  final_decision appeal_window appealed appeal_decision repair_pending : CaseState
  reverification remedy_execution execution_reconciliation quarantined expired closed : CaseState

unfoldable pub CaseState-discrete : Discrete CaseState
CaseState-discrete = hlevel

instance unfoldable pub case_state_eq : Eq CaseState
unfolding CaseState-discrete
case_state_eq = derive_eq CaseState-discrete

unfoldable pub is_allowed : CaseState → CaseState → Bool
is_allowed submitted intake_validation = true
is_allowed intake_validation rejected_out_of_scope = true
is_allowed intake_validation awaiting_cure = true
is_allowed intake_validation accepted = true
is_allowed awaiting_cure intake_validation = true
is_allowed awaiting_cure expired = true
is_allowed accepted preservation_hold = true
is_allowed preservation_hold notice_served = true
is_allowed notice_served response_window = true
is_allowed response_window evidence_collection = true
is_allowed response_window expired = true
is_allowed evidence_collection evidence_locked = true
is_allowed reverification evidence_locked = true
is_allowed evidence_locked deterministic_evaluation = true
is_allowed deterministic_evaluation automated_settlement_offered = true
is_allowed deterministic_evaluation review_assigned = true
is_allowed deterministic_evaluation final_decision = true
is_allowed deterministic_evaluation quarantined = true
is_allowed automated_settlement_offered settled_by_agreement = true
is_allowed automated_settlement_offered review_assigned = true
is_allowed settled_by_agreement remedy_execution = true
is_allowed quarantined remedy_execution = true
is_allowed review_assigned proposed_decision = true
is_allowed review_assigned quarantined = true
is_allowed proposed_decision challenge_window = true
is_allowed proposed_decision final_decision = true
is_allowed challenge_window final_decision = true
is_allowed challenge_window appealed = true
is_allowed final_decision appeal_window = true
is_allowed final_decision remedy_execution = true
is_allowed final_decision repair_pending = true
is_allowed appeal_window appealed = true
is_allowed appeal_window remedy_execution = true
is_allowed appealed appeal_decision = true
is_allowed appeal_decision remedy_execution = true
is_allowed appeal_decision repair_pending = true
is_allowed appeal_decision quarantined = true
is_allowed repair_pending reverification = true
is_allowed remedy_execution execution_reconciliation = true
is_allowed execution_reconciliation remedy_execution = true
is_allowed execution_reconciliation closed = true
is_allowed _ _ = false
