-- ===== src/Ast/Flow.antt =====
-- The laws of the labels.
use joan.Base.{
  sym, subst, ◌∙◌, ◌≡◌, ◌⊎◌, inl, inr, refl, true, false, ◌&&◌, none, some, String, arith,
  string_eq, Bool-cases,
}
use joan.Ast.Types.{
  InformationLabel, public, secret, label_beq, label_eq, label_beq_iff, can_flow_to, join,
}

-- Labels are ordered by the flows that are allowed.
pub can_flow_to_refl : (a : InformationLabel) → can_flow_to a a ≡ true
unfolding can_flow_to label_eq
can_flow_to_refl a = ground (arith, label_beq_iff a a)

pub can_flow_to_trans :
    (a b c : InformationLabel)
    → can_flow_to a b ≡ true
    → can_flow_to b c ≡ true
    → can_flow_to a c ≡ true
unfolding can_flow_to label_eq
can_flow_to_trans a b c h k =
    ground (arith, label_beq_iff a b, label_beq_iff b c, label_beq_iff a c)

public_flows : (d : InformationLabel) → can_flow_to public d ≡ true
unfolding can_flow_to label_eq
public_flows public = refl
public_flows (secret t p) = refl

-- A secret label flows only where an equal one does.
secret_flows :
    (t p : String) (d : InformationLabel) → can_flow_to (secret t p) d ≡ true → secret t p ≡ d
unfolding can_flow_to label_eq
secret_flows t p d h = (label_beq_iff _ _).0 (ground arith)

-- No label takes flows from two different secret ones.
secrets_apart :
    (t p u q : String) (d : InformationLabel)
    → label_beq (secret t p) (secret u q) ≡ false
    → (can_flow_to (secret t p) d && can_flow_to (secret u q) d) ≡ false
secrets_apart t p u q d h = elim (Bool-cases (can_flow_to (secret t p) d)) [
  | inl left ↦ elim (Bool-cases (can_flow_to (secret u q) d)) [
    | inl right ↦ cc (
      h,
      (label_beq_iff (secret t p) (secret u q)).1
          (secret_flows t p d left ∙ sym (secret_flows u q d right)),
    )
    | inr stopped ↦ ground arith
  ]
  | inr stopped ↦ ground arith
]

-- Two labels either have a join, to which both flow and which flows to exactly those labels to
-- which both flow, or they have none, and then no label takes flows from both.
pub join_least :
    (a b d : InformationLabel)
    → ((c : InformationLabel) × (join a b ≡ some c)
        × (can_flow_to a c ≡ true)
        × (can_flow_to b c ≡ true)
        × (can_flow_to c d ≡ (can_flow_to a d && can_flow_to b d)))
      ⊎ ((join a b ≡ none) × ((can_flow_to a d && can_flow_to b d) ≡ false))
unfolding join label_eq
join_least public public d =
    inl (public, refl, public_flows _, public_flows _, rw (public_flows d) refl)
join_least public (secret t p) d =
    inl (secret t p, refl, public_flows _, can_flow_to_refl _, rw (public_flows d) refl)
join_least (secret t p) public d =
    inl (secret t p, refl, can_flow_to_refl _, public_flows _, ground (arith, public_flows d))
join_least (secret t p) (secret u q) d = elim (Bool-cases (label_beq (secret t p) (secret u q))) [
  | inl same ↦
      let e : secret t p ≡ secret u q = (label_beq_iff _ _).0 same in
      inl (
        secret t p,
        rw same refl,
        can_flow_to_refl (secret t p),
        subst (λ x. can_flow_to x (secret t p) ≡ true) e (can_flow_to_refl (secret t p)),
        subst (λ x. can_flow_to (secret t p) d ≡ (can_flow_to (secret t p) d && can_flow_to x d)) e
            (ground arith),
      )
  | inr apart ↦ inr (rw apart refl, secrets_apart t p u q d apart)
]
