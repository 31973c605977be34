-- ===== src/Dispute/Count.antt =====
-- The loop of `evaluate_findings`: what its counters and its set hold at the end.
use joan.Base.{
  ℕ, ◌+◌, ◌≡◌, ◌≢◌, subst, ◌∙◌, ap, true, false, String, List, [], ◌∷◌, arith, ok, Bool-cases, inl,
  inr, >>=-eq-ok, ok_inj, if◌then◌else◌,
}
use joan.Base.Lists.{length, All}
use joan.Base.Order.{string_ord}
use joan.Base.Set.{
  BTreeSet, contains, insert, length-insert_new, contains-insert_self, contains-insert_mono,
  All-insert,
}
use joan.Case.Model.{DisputeCase}
use joan.Evidence.Model.{EvidenceGraph}
use joan.Dispute.Model.{
  AutomaticResolutionProfile, MachineFinding, DecisionPhase, FindingDisposition,
}
use joan.Dispute.Findings.{
  Tally, no_findings, count_finding, evaluate_finding, evaluate_findings_from, evaluate_findings,
}
use joan.Dispute.Quorum.{
  votes, is_support, is_reject, IsDistinct, IsBound, Counts, evaluate_finding-Counts,
}

-- One count more for the finding's own disposition, the set one larger.
count_finding_support :
    (d : FindingDisposition) (t : Tally)
    → (count_finding d t).support ≡ t.support + (if is_support d then 1 else 0)
count_finding_support d t = ground arith

count_finding_reject :
    (d : FindingDisposition) (t : Tally)
    → (count_finding d t).reject ≡ t.reject + (if is_reject d then 1 else 0)
count_finding_reject d t = ground arith

count_finding_total :
    (d : FindingDisposition) (t : Tally)
    → (let t' = count_finding d t in t'.support + t'.reject + t'.abstained)
      ≡ t.support + t.reject + t.abstained + 1
count_finding_total d t = ground arith

count_finding_seen : (d : FindingDisposition) (t : Tally) → (count_finding d t).seen ≡ t.seen
count_finding_seen d t = ground arith

-- An element outside `insert k s` is not `k` and is outside `s`.
outside_insert :
    (k j : String) (s : BTreeSet String)
    → contains j (insert k s) ≡ false
    → (j ≢ k) × (contains j s ≡ false)
outside_insert k j s h = (
  λ e. cc (contains-insert_self k s, h, e),
  elim (Bool-cases (contains j s)) [
    | inl known ↦ cc (contains-insert_mono k j s known, h)
    | inr out ↦ out
  ],
)

-- None of these findings is by `k`, nor by a member of the set.
split_fresh :
    (k : String) (s : BTreeSet String) (fs : List MachineFinding)
    → All (λ f. contains f.adjudicator_id (insert k s) ≡ false) fs
    → All (λ f. f.adjudicator_id ≢ k) fs × All (λ f. contains f.adjudicator_id s ≡ false) fs
split_fresh k s [] a = (tt, tt)
split_fresh k s (f ∷ fs) a =
    let (apart, out) = outside_insert k f.adjudicator_id s a.0 in
    let (aparts, outs) = split_fresh k s fs a.1 in ((apart, aparts), (out, outs))

module _ (dispute_case : DisputeCase) (evidence : EvidenceGraph)
    (profile : AutomaticResolutionProfile) (phase : DecisionPhase) (allowed : BTreeSet String) where
  -- The loop has run from the tally `t` over `fs` to `t'`.
  pub record Counted (t : Tally) (fs : List MachineFinding) (t' : Tally) : Type 0 where
    pub support : t'.support ≡ t.support + votes is_support fs
    pub reject : t'.reject ≡ t.reject + votes is_reject fs
    pub total :
        t'.support + t'.reject + t'.abstained ≡ t.support + t.reject + t.abstained + length fs
    pub seen : length t'.seen ≡ length t.seen + length fs
    pub bound : All (IsBound dispute_case evidence profile phase allowed) fs
    pub fresh : All (λ f. contains f.adjudicator_id t.seen ≡ false) fs
    pub distinct : IsDistinct fs
    pub members :
        All (λ k. contains k allowed ≡ true) t.seen → All (λ k. contains k allowed ≡ true) t'.seen

  step-Counted :
      (t t1 t' : Tally) (f : MachineFinding) (fs : List MachineFinding)
      → Counts dispute_case evidence profile phase allowed t f t1
      → Counted t1 fs t'
      → Counted t (f ∷ fs) t'
  step-Counted t t1 t' f fs c r =
      let marked : Tally = record t { seen = insert f.adjudicator_id t.seen } in
      let seen1 : t1.seen ≡ insert f.adjudicator_id t.seen =
        ap {B = BTreeSet String} (λ (x : Tally). x.seen) c.counted
        ∙ count_finding_seen f.disposition marked in
      let (apart, out) = split_fresh f.adjudicator_id t.seen fs (rw seen1 at r.fresh) in
      record {
        support =
            r.support
            ∙ omega (
              arith,
              ap {B = ℕ} (λ (x : Tally). x.support) c.counted
                  ∙ count_finding_support f.disposition marked,
            );
        reject =
            r.reject
            ∙ omega (
              arith,
              ap {B = ℕ} (λ (x : Tally). x.reject) c.counted
                  ∙ count_finding_reject f.disposition marked,
            );
        total =
            r.total
            ∙ omega (
              arith,
              ap {B = ℕ} (λ (x : Tally). x.support + x.reject + x.abstained) c.counted
                  ∙ count_finding_total f.disposition marked,
            );
        seen =
            r.seen
            ∙ omega (
              arith,
              ap {B = ℕ} (λ (x : BTreeSet String). length x) seen1
                  ∙ length-insert_new f.adjudicator_id t.seen c.fresh,
            );
        bound = (c.bound, r.bound);
        fresh = (c.fresh, out);
        distinct = (apart, r.distinct);
        members = λ a. r.members (
            rw seen1 (
              All-insert (λ k. contains k allowed ≡ true) f.adjudicator_id t.seen c.bound.is_allowed
                a));
      }

  evaluate_findings_from-Counted :
      (t t' : Tally) (fs : List MachineFinding)
      → evaluate_findings_from dispute_case evidence profile phase allowed t fs ≡ ok t'
      → Counted t fs t'
  unfolding evaluate_findings_from
  evaluate_findings_from-Counted t t' [] h =
      let same : t ≡ t' = ok_inj h in
      record {
        support = omega (arith, ap {B = ℕ} (λ (x : Tally). x.support) same);
        reject = omega (arith, ap {B = ℕ} (λ (x : Tally). x.reject) same);
        total = omega (arith, ap {B = ℕ} (λ (x : Tally). x.support + x.reject + x.abstained) same);
        seen = omega (arith, ap {B = ℕ} (λ (x : Tally). length x.seen) same);
        bound = tt;
        fresh = tt;
        distinct = tt;
        members = λ a. subst (λ (x : Tally). All (λ k. contains k allowed ≡ true) x.seen) same a;
      }
  evaluate_findings_from-Counted t t' (f ∷ fs) h =
      let (t1, e, h1) =
        >>=-eq-ok (evaluate_finding dispute_case evidence profile phase allowed t f) _ h in
      step-Counted t t1 t' f fs
        (evaluate_finding-Counts dispute_case evidence profile phase allowed t t1 f e)
        (evaluate_findings_from-Counted t1 t' fs h1)

  -- The counters are the numbers of findings of each disposition, the set has one member for each
  -- finding, all of them allowed, no adjudicator has two findings, and every finding is bound to
  -- this evaluation.
  pub evaluate_findings-Counted :
      (fs : List MachineFinding) (t : Tally)
      → evaluate_findings dispute_case evidence profile phase allowed fs ≡ ok t
      → (t.support ≡ votes is_support fs)
        × (t.reject ≡ votes is_reject fs)
        × (t.support + t.reject + t.abstained ≡ length fs)
        × (length t.seen ≡ length fs)
        × All (λ k. contains k allowed ≡ true) t.seen
        × IsDistinct fs
        × All (IsBound dispute_case evidence profile phase allowed) fs
  unfolding evaluate_findings
  evaluate_findings-Counted fs t h =
      let c = evaluate_findings_from-Counted no_findings t fs h in
      (
        omega (arith, c.support),
        omega (arith, c.reject),
        omega (arith, c.total),
        omega (arith, c.seen),
        c.members tt,
        c.distinct,
        c.bound,
      )
