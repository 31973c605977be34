-- ===== src/Case/Lifecycle.antt =====
-- `is_allowed` as a graph: where a case can go, and what it must pass.
use joan.Base.{ℕ, zero, suc, ◌≡◌, refl, sym, subst, ◌⊎◌, inl, inr, Bool, true, false, not, arith}
use joan.Case.State.{
  CaseState, submitted, intake_validation, rejected_out_of_scope, awaiting_cure, accepted,
  preservation_hold, notice_served, response_window, evidence_collection, evidence_locked,
  deterministic_evaluation, automated_settlement_offered, settled_by_agreement, review_assigned,
  proposed_decision, challenge_window, final_decision, appeal_window, appealed, appeal_decision,
  repair_pending, reverification, remedy_execution, execution_reconciliation, quarantined, expired,
  closed, is_allowed,
}

-- A walk along allowed transitions.
pub data Route (s : CaseState) : CaseState → Type 0 where
  here : Route s s
  next : {t u : CaseState} → Route s t → is_allowed t u ≡ true → Route s u

-- A walk followed by another.
Route-join : {s t u : CaseState} → Route s t → Route t u → Route s u
Route-join r here = r
Route-join r (next q a) = next (Route-join r q) a

-- The states in which a case ends.
abbrev pub is_terminal : CaseState → Bool
is_terminal rejected_out_of_scope = true
is_terminal expired = true
is_terminal closed = true
is_terminal _ = false

-- No transition leaves a terminal state.
pub terminal_stays : (s t : CaseState) → is_terminal s ≡ true → is_allowed s t ≡ false
unfolding is_allowed
terminal_stays s t h = ground arith

-- The first step of a walk.
first : {s t u : CaseState} → is_allowed s t ≡ true → Route t u → Route s u
first a r = Route-join (next here a) r

-- A state and the next one on the way to `closed`.
abbrev onward : CaseState → CaseState
onward execution_reconciliation = closed
onward remedy_execution = execution_reconciliation
onward quarantined = remedy_execution
onward settled_by_agreement = remedy_execution
onward final_decision = remedy_execution
onward appeal_window = remedy_execution
onward appeal_decision = remedy_execution
onward appealed = appeal_decision
onward challenge_window = final_decision
onward proposed_decision = final_decision
onward review_assigned = proposed_decision
onward automated_settlement_offered = settled_by_agreement
onward deterministic_evaluation = final_decision
onward evidence_locked = deterministic_evaluation
onward reverification = evidence_locked
onward repair_pending = reverification
onward evidence_collection = evidence_locked
onward response_window = evidence_collection
onward notice_served = response_window
onward preservation_hold = notice_served
onward accepted = preservation_hold
onward intake_validation = accepted
onward awaiting_cure = intake_validation
onward submitted = intake_validation
onward s = s

onward_allowed : (s : CaseState) → is_terminal s ≡ false → is_allowed s (onward s) ≡ true
unfolding is_allowed
onward_allowed s h = ground arith

-- How many steps are left on that way.
abbrev distance : CaseState → ℕ
distance execution_reconciliation = 1
distance remedy_execution = 2
distance quarantined = 3
distance settled_by_agreement = 3
distance final_decision = 3
distance appeal_window = 3
distance appeal_decision = 3
distance appealed = 4
distance challenge_window = 4
distance proposed_decision = 4
distance review_assigned = 5
distance automated_settlement_offered = 4
distance deterministic_evaluation = 4
distance evidence_locked = 5
distance reverification = 6
distance repair_pending = 7
distance evidence_collection = 6
distance response_window = 7
distance notice_served = 8
distance preservation_hold = 9
distance accepted = 10
distance intake_validation = 11
distance awaiting_cure = 12
distance submitted = 12
distance s = 0

onward_nearer : (s : CaseState) → is_terminal s ≡ false → distance s ≡ suc (distance (onward s))
onward_nearer s h = ground arith

onward_ends : (s : CaseState) → distance s ≡ 0 → is_terminal s ≡ false → ⊥
onward_ends s h e = ground arith

onward_alive :
    (s : CaseState) → is_terminal s ≡ false → (onward s ≡ closed) ⊎ (is_terminal (onward s) ≡ false)
onward_alive s h = ground arith

Route-closed_within :
    (n : ℕ) (s : CaseState) → distance s ≡ n → is_terminal s ≡ false → Route s closed
Route-closed_within zero s d h = absurd (onward_ends s d h)
Route-closed_within (suc n) s d h = elim (onward_alive s h) [
  | inl last ↦ first (onward_allowed s h) (subst (λ t. Route t closed) (sym last) here)
  | inr more ↦
      first (onward_allowed s h)
        (Route-closed_within n (onward s) (omega (arith, onward_nearer s h)) more)
]

-- From every state that is not terminal, allowed transitions lead to `closed`.
pub Route-closed : (s : CaseState) → is_terminal s ≡ false → Route s closed
Route-closed s = Route-closed_within (distance s) s refl

-- The states of a case whose evidence has not been locked.
abbrev pub is_unlocked : CaseState → Bool
is_unlocked submitted = true
is_unlocked intake_validation = true
is_unlocked rejected_out_of_scope = true
is_unlocked awaiting_cure = true
is_unlocked accepted = true
is_unlocked preservation_hold = true
is_unlocked notice_served = true
is_unlocked response_window = true
is_unlocked evidence_collection = true
is_unlocked expired = true
is_unlocked _ = false

-- From there the table leads out only to `evidence_locked`.
pub unlocked_leaves :
    (a b : CaseState)
    → is_allowed a b ≡ true
    → is_unlocked a ≡ true
    → is_unlocked b ≡ false
    → b ≡ evidence_locked
unfolding is_allowed
unlocked_leaves a b h i o = ground arith

-- The states from which a case is closed with no further remedy.
abbrev pub is_settled : CaseState → Bool
is_settled remedy_execution = true
is_settled execution_reconciliation = true
is_settled closed = true
is_settled _ = false

-- And from the others it leads to these only through `remedy_execution`.
pub unsettled_leaves :
    (a b : CaseState)
    → is_allowed a b ≡ true
    → not (is_settled a) ≡ true
    → not (is_settled b) ≡ false
    → b ≡ remedy_execution
unfolding is_allowed
unsettled_leaves a b h i o = ground arith
