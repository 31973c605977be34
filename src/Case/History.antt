-- ===== src/Case/History.antt =====
-- Whole histories of a case: `create_case`, then any number of transitions.
use joan.Base.{
  ◌≤◌, ◌≡◌, ◌≢◌, refl, sym, subst, ok_inj, true, String, arith, ok, nat_eq, string_eq, >>-eq-ok,
  >>=-eq-ok, reject_if-eq-ok, ◌!=◌, ◌==◌,
}
use joan.Base.Lists.{length}
use joan.Base.Order.{string_ord}
use joan.Base.Set.{contains, contains-insert_self, contains-insert_mono, length-insert_new}
use joan.Base.Words.{checked_add_fits}
use joan.Canonical.{Digest, Digests}
use joan.Case.State.{submitted, is_allowed}
use joan.Case.Model.{NewCase, DisputeCase, CaseTransition, CaseTransitionReceipt, CaseCore}
use joan.Case.Transition.{
  create_case, verify_case, transition_case, commit_transition, compute_case_digest, submitted_case,
  max_idempotency_keys, require_nonempty,
}
use joan.Case.Lifecycle.{Route, here, next}
use joan.Case.Atomic.{
  Admitted, transition_case-Committed, Admitted-admit_transition, verify_case-computed,
}

module _ (cores : Digests CaseCore) (requests : Digests CaseTransition) where
  -- One successful transition, by any request.
  pub data Step (c c' : DisputeCase) : Type 0 where
    step :
        (t : CaseTransition) (r : CaseTransitionReceipt)
        → transition_case cores requests c t ≡ ok (c', r)
        → Step c c'

  -- Any number of them.
  pub data Reach (c : DisputeCase) : DisputeCase → Type 0 where
    begin : Reach c c
    extend : {d e : DisputeCase} → Reach c d → Step d e → Reach c e

  -- What holds of a case at every point of its history.
  pub record IsValid (c : DisputeCase) : Type 0 where
    pub verified : verify_case cores c ≡ ok tt
    pub counted : length c.consumed_idempotency_keys ≡ c.revision
    pub bounded : c.revision ≤ max_idempotency_keys
    pub route : Route submitted c.state

  -- If `create_case` succeeds, the case is valid, as every case of its history will be, and it is
  -- in `submitted` at revision 0.
  pub create_case-IsValid :
      (input : NewCase) (c : DisputeCase)
      → create_case cores input ≡ ok c
      → IsValid c × (c.state ≡ submitted) × (c.revision ≡ 0)
  unfolding create_case
  create_case-IsValid input c h0 =
      let (_, h1) = reject_if-eq-ok (input.schema != "joan.new-dispute-case.v0") _ _ h0 in
      let (_, h2) = >>-eq-ok (require_nonempty input.case_id "case_id") _ h1 in
      let (_, h3) = >>-eq-ok (require_nonempty input.claimant_id "claimant_id") _ h2 in
      let (_, h4) = >>-eq-ok (require_nonempty input.respondent_id "respondent_id") _ h3 in
      let (_, h5) = reject_if-eq-ok (input.claimant_id == input.respondent_id) _ _ h4 in
      let (_, h6) = reject_if-eq-ok (input.value_microunits == 0) _ _ h5 in
      let (g, f, e) = >>=-eq-ok (compute_case_digest cores (submitted_case input)) _ h6 in
      subst (λ c. IsValid c × (c.state ≡ submitted) × (c.revision ≡ 0)) (ok_inj e)
        (
          record {
            verified = verify_case-computed cores requests (submitted_case input) g refl f;
            counted = refl;
            bounded = omega arith;
            route = here;
          },
          refl,
          refl,
        )

  -- A transition moves along the table.
  pub Step-allowed : (c c' : DisputeCase) → Step c c' → is_allowed c.state c'.state ≡ true
  Step-allowed c c' (step t r h) =
      let p = transition_case-Committed cores requests c t c' r h in
      subst (λ s. is_allowed s c'.state ≡ true) p.admitted.state
        (subst (λ s. is_allowed t.from s ≡ true) (sym p.state) p.admitted.allowed)

  pub Step-IsValid : (c c' : DisputeCase) → Step c c' → IsValid c → IsValid c'
  Step-IsValid c c' (step t r h) v =
      let p = transition_case-Committed cores requests c t c' r h in
      let count =
        length-insert_new t.idempotency_key c.consumed_idempotency_keys p.admitted.fresh in
      record {
        verified = p.verified_after;
        counted = rw p.keys (omega (arith, count, v.counted, p.revision));
        bounded = omega (arith, p.revision, p.admitted.room, v.counted);
        route = next v.route (Step-allowed c c' (step t r h));
      }

  -- From a case of a history, every case that successful transitions reach verifies, has consumed
  -- as many keys as its revision, which is at most `max_idempotency_keys`, and stands in a state
  -- that allowed transitions reach from `submitted`.
  pub Reach-IsValid : (c : DisputeCase) {c' : DisputeCase} → Reach c c' → IsValid c → IsValid c'
  Reach-IsValid c begin v = v
  Reach-IsValid c (extend {d = d} {e = e} r s) v = Step-IsValid d e s (Reach-IsValid c r v)

  -- A consumed key stays consumed.
  Step-keys :
      (k : String) (c c' : DisputeCase)
      → Step c c'
      → contains k c.consumed_idempotency_keys ≡ true
      → contains k c'.consumed_idempotency_keys ≡ true
  Step-keys k c c' (step t r h) m =
      let p = transition_case-Committed cores requests c t c' r h in
      rw p.keys (contains-insert_mono t.idempotency_key k c.consumed_idempotency_keys m)

  Reach-keys :
      (k : String) (c : DisputeCase) {c' : DisputeCase}
      → Reach c c'
      → contains k c.consumed_idempotency_keys ≡ true
      → contains k c'.consumed_idempotency_keys ≡ true
  Reach-keys k c begin m = m
  Reach-keys k c (extend {d = d} {e = e} r s) m = Step-keys k d e s (Reach-keys k c r m)

  -- Once a transition has succeeded, no request with the same idempotency key succeeds on any case
  -- that later transitions reach.
  pub Reach-no_replay :
      (c d e : DisputeCase) (t u : CaseTransition) (r q : CaseTransitionReceipt) (f : DisputeCase)
      → transition_case cores requests c t ≡ ok (d, r)
      → Reach d e
      → u.idempotency_key ≡ t.idempotency_key
      → transition_case cores requests e u ≢ ok (f, q)
  Reach-no_replay c d e t u r q f h later same k =
      let p = transition_case-Committed cores requests c t d r h in
      let used : contains t.idempotency_key d.consumed_idempotency_keys ≡ true =
        rw p.keys (contains-insert_self t.idempotency_key c.consumed_idempotency_keys) in
      let fresh = (transition_case-Committed cores requests e u f q k).admitted.fresh in
      cc (Reach-keys t.idempotency_key d later used, fresh, same)

  -- On a case of a history, and if every digest can be computed, a request that meets the
  -- conditions of a transition succeeds: the revision does not overflow.
  pub transition_case_succeeds :
      (c : DisputeCase) (t : CaseTransition)
      → ((v : CaseCore)
          → (g : Digest) × (cores.digest_serializable "joan.dispute-case.v0" v ≡ ok g))
      → ((v : CaseTransition)
          → (g : Digest) × (requests.digest_serializable "joan.case-transition.v0" v ≡ ok g))
      → IsValid c
      → Admitted c t
      → (x : DisputeCase × CaseTransitionReceipt) × (transition_case cores requests c t ≡ ok x)
  unfolding transition_case commit_transition compute_case_digest
  transition_case_succeeds c t hashes seals v a =
      rw
        (
          v.verified,
          Admitted-admit_transition c t a,
          checked_add_fits c.revision 1 (omega (arith, v.bounded)),
          (hashes _).1,
          (seals t).1,
        )
        (_, refl)
