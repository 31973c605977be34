-- ===== src/Guardian/Approval.antt =====
-- What an approval rests on.
use joan.Base.{
  ℕ, suc, ◌+◌, ◌≤◌, ◌≡◌, ◌≢◌, ◌⊎◌, inl, inr, refl, sym, ap, subst, ◌∙◌, Bool, true, false, String,
  List, [], ◌∷◌, ◌++◌, ok, map_err, ◌!=◌, ◌==◌, nat_eq, string_eq, if◌then◌else◌, arith, >>=-eq-ok,
  reject_if-eq-ok, ok_inj, eq_of_!=, Bool-cases,
}
use joan.Base.Lists.{length, is_nil, All}
use joan.Base.Map
use joan.Base.Map.{BTreeMap}
use joan.Base.Order.{string_ord}
use joan.Base.Set.{
  BTreeSet, contains, insert, difference, contains-insert_self, contains-insert_mono,
  contains-insert_ne,
}
use joan.Base.Texts.{is_empty}
use joan.Canonical.{Digests, digest_eq}
use joan.Guardian.Gate.{
  GuardianRole, role_ord, VoteDecision, approve, deny, abstain, GuardianVote, GuardianCandidate,
  approved, GuardianDecisionReceipt, ReceiptCore, canonical, Tally, record_decision, count_vote,
  count_votes, insert_name, sort, decide, evaluate_candidate,
}

abbrev pub is_deny : VoteDecision → Bool
is_deny deny = true
is_deny _ = false

abbrev pub count_approvals : List GuardianVote → ℕ
count_approvals [] = 0
count_approvals (v ∷ votes) = elim v.decision [
  | approve ↦ suc (count_approvals votes)
  | _ ↦ count_approvals votes
]

-- Some vote approves under the role, and it is not the proposer's.
abbrev pub IsApprovedUnder : String → GuardianRole → List GuardianVote → Type 0
IsApprovedUnder proposer role [] = ⊥
IsApprovedUnder proposer role (v ∷ votes) =
    ((v.decision ≡ approve) × (v.role ≡ role) × (v.guardian_id ≢ proposer))
    ⊎ IsApprovedUnder proposer role votes

-- No two votes are of one guardian.
abbrev pub OnePerGuardian : List GuardianVote → Type 0
OnePerGuardian [] = Unit
OnePerGuardian (v ∷ votes) =
    All (λ (w : GuardianVote). w.guardian_id ≢ v.guardian_id) votes × OnePerGuardian votes

-- What the loop has counted when it ends, given what it had when it began.
record Counted (c : GuardianCandidate) (votes : List GuardianVote) (t t' : Tally) : Type 0 where
  denials : is_nil t'.denying_guardians ≡ true → is_nil t.denying_guardians ≡ true
  undenied :
      is_nil t'.denying_guardians ≡ true
      → All (λ (v : GuardianVote). is_deny v.decision ≡ false) votes
  roles :
      (role : GuardianRole)
      → contains role t'.approved_roles ≡ true
      → (contains role t.approved_roles ≡ true) ⊎ IsApprovedUnder c.proposer_id role votes
  approvals : length t'.approvals_by_id ≤ length t.approvals_by_id + count_approvals votes
  bound : All (λ (v : GuardianVote). v.candidate_root ≡ c.candidate_root) votes
  fresh : All (λ (v : GuardianVote). contains v.guardian_id t.voters ≡ false) votes
  distinct : OnePerGuardian votes

-- What one vote does to the tally.
record Cast (c : GuardianCandidate) (v : GuardianVote) (t t' : Tally) : Type 0 where
  denials : is_nil t'.denying_guardians ≡ true → is_nil t.denying_guardians ≡ true
  undenied : is_nil t'.denying_guardians ≡ true → is_deny v.decision ≡ false
  roles :
      (role : GuardianRole)
      → contains role t'.approved_roles ≡ true
      → (contains role t.approved_roles ≡ true) ⊎ IsApprovedUnder c.proposer_id role (v ∷ [])
  approvals : length t'.approvals_by_id ≤ length t.approvals_by_id + count_approvals (v ∷ [])
  bound : v.candidate_root ≡ c.candidate_root
  fresh : contains v.guardian_id t.voters ≡ false
  voted : t'.voters ≡ insert v.guardian_id t.voters

length-insert_le :
    (k : String) (r : GuardianRole) (m : BTreeMap String GuardianRole)
    → length (Map.insert k r m) ≤ suc (length m)
unfolding Map.insert
length-insert_le k r [] = omega arith
length-insert_le k r ((j, w) ∷ m) = ground (arith, length-insert_le k r m)

is_nil-append : (names : List String) (name : String) → is_nil (names ++ (name ∷ [])) ≡ false
is_nil-append [] name = refl
is_nil-append (n ∷ names) name = refl

role-discrete : Discrete GuardianRole
role-discrete = hlevel

head_role :
    (role : GuardianRole) (r : GuardianRole) (s : BTreeSet GuardianRole)
    → contains role (insert r s) ≡ true
    → (contains role s ≡ true) ⊎ (r ≡ role)
head_role role r s h = elim (role-discrete role r) [
  | yes same ↦ inr (sym same)
  | no other ↦ inl (sym (contains-insert_ne r role s other) ∙ h)
]

record_decision-Cast :
    (c : GuardianCandidate) (d : VoteDecision) (v : GuardianVote) (t : Tally) {t' : Tally}
    → v.decision ≡ d
    → v.candidate_root ≡ c.candidate_root
    → contains v.guardian_id t.voters ≡ false
    → record_decision c.proposer_id d v (record t { voters = insert v.guardian_id t.voters })
      ≡ ok t'
    → Cast c v t t'
unfolding record_decision
record_decision-Cast c approve v t {t'} e bound fresh h =
    let (other, k) = reject_if-eq-ok (v.guardian_id == c.proposer_id) _ _ h in
    let apart : v.guardian_id ≢ c.proposer_id =
      λ (p : v.guardian_id ≡ c.proposer_id). cc (other, (string_eq.beq_iff _ _).1 p) in
    subst (Cast c v t) (ok_inj k) (record {
      denials = λ n. n;
      undenied = λ n. ap is_deny e;
      roles = λ role found. elim (head_role role v.role t.approved_roles found) [
        | inl old ↦ inl old
        | inr new ↦ inr (inl (e, new, apart))
      ];
      approvals = rw e (omega (arith, length-insert_le v.guardian_id v.role t.approvals_by_id));
      bound = bound;
      fresh = fresh;
      voted = refl;
    })
record_decision-Cast c deny v t {t'} e bound fresh h = subst (Cast c v t) (ok_inj h) (record {
  denials = λ n. cc (n, is_nil-append t.denying_guardians v.guardian_id);
  undenied = λ n. cc (n, is_nil-append t.denying_guardians v.guardian_id);
  roles = λ role found. inl found;
  approvals = omega arith;
  bound = bound;
  fresh = fresh;
  voted = refl;
})
record_decision-Cast c abstain v t {t'} e bound fresh h = subst (Cast c v t) (ok_inj h) (record {
  denials = λ n. n;
  undenied = λ n. ap is_deny e;
  roles = λ role found. inl found;
  approvals = omega arith;
  bound = bound;
  fresh = fresh;
  voted = refl;
})

count_vote-Cast :
    (c : GuardianCandidate) (v : GuardianVote) (t : Tally) {t' : Tally}
    → count_vote c v t ≡ ok t'
    → Cast c v t t'
unfolding count_vote
count_vote-Cast c v t h =
    let (e1, k1) = reject_if-eq-ok (is_empty v.guardian_id) _ _ h in
    let (e2, k2) = reject_if-eq-ok (v.candidate_root != c.candidate_root) _ _ k1 in
    let (e3, k3) = reject_if-eq-ok (contains v.guardian_id t.voters) _ _ k2 in
    record_decision-Cast c v.decision v t refl (eq_of_!= e2) e3 k3

-- Later votes are of guardians who are not in the larger set of voters.
fresh-insert :
    (k : String) (s : BTreeSet String) (votes : List GuardianVote)
    → All (λ (v : GuardianVote). contains v.guardian_id (insert k s) ≡ false) votes
    → All (λ (v : GuardianVote). contains v.guardian_id s ≡ false) votes
      × All (λ (v : GuardianVote). v.guardian_id ≢ k) votes
fresh-insert k s [] h = (tt, tt)
fresh-insert k s (v ∷ votes) h =
    let (kept, others) = fresh-insert k s votes h.1 in
    (
      (ground (arith, contains-insert_mono k v.guardian_id s), kept),
      (
        λ (e : v.guardian_id ≡ k).
            cc (h.0, contains-insert_self k s, ap (λ j. contains j (insert k s)) e),
        others,
      ),
    )

approvals_step :
    (v : GuardianVote) (votes : List GuardianVote) (n : ℕ) {m k : ℕ}
    → m ≤ n + count_approvals (v ∷ [])
    → k ≤ m + count_approvals votes
    → k ≤ n + count_approvals (v ∷ votes)
approvals_step v votes n h l = ground arith

one_role :
    (c : GuardianCandidate) (role : GuardianRole) (v : GuardianVote) (votes : List GuardianVote)
    → IsApprovedUnder c.proposer_id role (v ∷ [])
    → IsApprovedUnder c.proposer_id role (v ∷ votes)
one_role c role v votes (inl h) = inl h
one_role c role v votes (inr h) = absurd h

count_votes-Counted :
    (c : GuardianCandidate) (votes : List GuardianVote) (t : Tally) {t' : Tally}
    → count_votes c votes t ≡ ok t'
    → Counted c votes t t'
unfolding count_votes
count_votes-Counted c [] t {t'} h = subst (Counted c [] t) (ok_inj h) (record {
  denials = λ n. n;
  undenied = λ n. tt;
  roles = λ role found. inl found;
  approvals = omega arith;
  bound = tt;
  fresh = tt;
  distinct = tt;
})
count_votes-Counted c (v ∷ votes) t {t'} h =
    let (t1, e1, k1) = >>=-eq-ok (count_vote c v t) _ h in
    let cast = count_vote-Cast c v t e1 in
    let rest = count_votes-Counted c votes t1 k1 in
    let (fresh, others) = fresh-insert v.guardian_id t.voters votes (
      subst (λ s. All (λ (w : GuardianVote). contains w.guardian_id s ≡ false) votes) cast.voted
        rest.fresh) in
    record {
      denials = λ n. cast.denials (rest.denials n);
      undenied = λ n. (cast.undenied (rest.denials n), rest.undenied n);
      roles = λ role found. elim (rest.roles role found) [
        | inr later ↦ inr (inr later)
        | inl old ↦ elim (cast.roles role old) [
          | inl older ↦ inl older
          | inr now ↦ inr (one_role c role v votes now)
        ]
      ];
      approvals = approvals_step v votes (length t.approvals_by_id) cast.approvals rest.approvals;
      bound = (cast.bound, rest.bound);
      fresh = (cast.fresh, fresh);
      distinct = (others, rest.distinct);
    }

insert_name-not_nil :
    (name : String) (names : List String) → is_nil (insert_name name names) ≡ false
insert_name-not_nil name [] = refl
insert_name-not_nil name (n ∷ names) = ground arith

sort-nil : (names : List String) → is_nil (sort names) ≡ true → is_nil names ≡ true
sort-nil [] h = refl
sort-nil (n ∷ names) h = cc (h, insert_name-not_nil n (sort names))

difference-nil :
    (s t : BTreeSet GuardianRole)
    → is_nil (difference s t) ≡ true
    → All (λ role. contains role t ≡ true) s
unfolding difference
difference-nil [] t h = tt
difference-nil (role ∷ s) t h = elim (Bool-cases (contains role t)) [
  | inl found ↦ (
    found,
    difference-nil s t
        (subst (λ b. is_nil (if b then difference s t else role ∷ difference s t) ≡ true) found h),
  )
  | inr missing ↦
      cc
        (subst (λ b. is_nil (if b then difference s t else role ∷ difference s t) ≡ true) missing h)
]

decide-approved :
    (denying : List String) (missing : BTreeSet GuardianRole) (n threshold : ℕ)
    → decide denying missing n threshold ≡ approved
    → (is_nil denying ≡ true) × (is_nil missing ≡ true) × (threshold ≤ n)
unfolding decide
decide-approved denying missing n threshold h = ground arith

approved_roles :
    (proposer : String) (votes : List GuardianVote) (found roles : BTreeSet GuardianRole)
    → ((role : GuardianRole) → contains role found ≡ true → IsApprovedUnder proposer role votes)
    → All (λ role. contains role found ≡ true) roles
    → All (λ role. IsApprovedUnder proposer role votes) roles
approved_roles proposer votes found [] each h = tt
approved_roles proposer votes found (role ∷ roles) each h =
    (each role h.0, approved_roles proposer votes found roles each h.1)

from_nothing :
    (proposer : String) (role : GuardianRole) (votes : List GuardianVote)
    → (contains role [] ≡ true) ⊎ IsApprovedUnder proposer role votes
    → IsApprovedUnder proposer role votes
unfolding contains
from_nothing proposer role votes (inl h) = cc
from_nothing proposer role votes (inr h) = h

-- A candidate that is approved has no vote against it; all its votes are bound to its root, and no
-- two are of one guardian; under each required role some guardian other than the proposer
-- approves; and at least as many votes approve as its threshold asks for.
pub evaluate_candidate-approved :
    (digests : Digests ReceiptCore) (c : GuardianCandidate) {receipt : GuardianDecisionReceipt}
    → evaluate_candidate digests c ≡ ok receipt
    → receipt.core.outcome ≡ approved
    → All (λ (v : GuardianVote). is_deny v.decision ≡ false) c.votes
      × All (λ (v : GuardianVote). v.candidate_root ≡ c.candidate_root) c.votes
      × OnePerGuardian c.votes
      × All (λ role. IsApprovedUnder c.proposer_id role c.votes) c.required_roles
      × (c.approval_threshold ≤ count_approvals c.votes)
unfolding evaluate_candidate
evaluate_candidate-approved digests c {receipt} h gate =
    let (e1, k1) = reject_if-eq-ok (c.schema != "joan.guardian-candidate.v0") _ _ h in
    let (e2, k2) = reject_if-eq-ok (c.approval_threshold == 0) _ _ k1 in
    let (e3, k3) = reject_if-eq-ok (is_nil c.required_roles) _ _ k2 in
    let (t, e4, k4) = >>=-eq-ok (count_votes c c.votes _) _ k3 in
    let (d, e5, k5) = >>=-eq-ok (map_err canonical (digests.digest_serializable _ _)) _ k4 in
    let counted = count_votes-Counted c c.votes _ e4 in
    let (undenied, complete, enough) =
      decide-approved (sort t.denying_guardians) (difference c.required_roles t.approved_roles)
        (length t.approvals_by_id) c.approval_threshold
        (ap (λ (r : GuardianDecisionReceipt). r.core.outcome) (ok_inj k5) ∙ gate) in
    (
      counted.undenied (sort-nil t.denying_guardians undenied),
      counted.bound,
      counted.distinct,
      approved_roles c.proposer_id c.votes t.approved_roles c.required_roles
          (λ role found. from_nothing c.proposer_id role c.votes (counted.roles role found))
          (difference-nil c.required_roles t.approved_roles complete),
      omega (arith, enough, counted.approvals),
    )
