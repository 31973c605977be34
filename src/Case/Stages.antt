-- ===== src/Case/Stages.antt =====
-- The stages that a case passes from `create_case` until it is closed.
use joan.Base.{◌≡◌, refl, ap, ◌∙◌, inl, inr, Bool, true, false, not, ok, Bool-cases}
use joan.Canonical.{Digests}
use joan.Case.State.{CaseState, evidence_locked, remedy_execution, closed, is_allowed}
use joan.Case.Model.{NewCase, DisputeCase, CaseTransition, CaseCore}
use joan.Case.Transition.{create_case}
use joan.Case.Lifecycle.{is_unlocked, unlocked_leaves, is_settled, unsettled_leaves}
use joan.Case.History.{Reach, begin, extend, Step-allowed, create_case-IsValid}

module _ (cores : Digests CaseCore) (requests : Digests CaseTransition) where
  -- A history followed by another.
  abbrev pub Reach-join :
      {c d e : DisputeCase}
      → Reach cores requests c d
      → Reach cores requests d e
      → Reach cores requests c e
  Reach-join r begin = r
  Reach-join r (extend q s) = extend (Reach-join r q) s

  -- A history that leaves a region of states is one up to a case in its gate and one from there.
  passes_gate :
      (inside : CaseState → Bool) (gate : CaseState)
      → ((a b : CaseState) → is_allowed a b ≡ true → inside a ≡ true → inside b ≡ false → b ≡ gate)
      → {c c' : DisputeCase} (r : Reach cores requests c c') → inside c.state ≡ true
      → inside c'.state ≡ false
      → (d : DisputeCase) × (p : Reach cores requests c d) × (q : Reach cores requests d c') × (r
          ≡ Reach-join p q)
        × (d.state ≡ gate)
  passes_gate inside gate leaves begin i o = cc
  passes_gate inside gate leaves (extend {d = d} {e = e} r s) i o =
      elim (Bool-cases (inside d.state)) [
        | inl still ↦ (
          e,
          extend r s,
          begin,
          refl,
          leaves d.state e.state (Step-allowed cores requests d e s) still o,
        )
        | inr left ↦
            (let (x, p, q, same, at) = passes_gate inside gate leaves r i left in
              (x, p, extend q s, ap (λ h. extend h s) same, at))
      ]

  -- Every history of successful transitions from a case that `create_case` makes to a closed one
  -- consists of a history up to a case in `evidence_locked`, one from there to a case in
  -- `remedy_execution`, and one from there to the end. So no case is closed without having been in
  -- `evidence_locked` and after it in `remedy_execution`.
  pub create_case-closed :
      (input : NewCase) (c c' : DisputeCase)
      → create_case cores input ≡ ok c
      → (r : Reach cores requests c c') → c'.state ≡ closed
      → (d : DisputeCase) × (e : DisputeCase) × (p : Reach cores requests c d) × (q : Reach cores
          requests d e)
        × (w : Reach cores requests e c') × (r ≡ Reach-join p (Reach-join q w))
        × (d.state ≡ evidence_locked)
        × (e.state ≡ remedy_execution)
  create_case-closed input c c' h r end =
      let (_, start, _) = create_case-IsValid cores requests input c h in
      let (d, p, rest, first, locked) =
        passes_gate is_unlocked evidence_locked unlocked_leaves r (rw start refl) (rw end refl) in
      let (e, q, w, second, remedied) =
        passes_gate (λ s. not (is_settled s)) remedy_execution unsettled_leaves rest
          (rw locked refl) (rw end refl) in
      (d, e, p, q, w, first ∙ ap (Reach-join p) second, locked, remedied)
