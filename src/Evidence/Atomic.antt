-- ===== src/Evidence/Atomic.antt =====
-- One call of `mutate_evidence`: the graph before and after.
use joan.Base.{
  ℕ, ◌+◌, ◌<◌, ◌≡◌, true, false, String, arith, ok, nat_eq, string_eq, Option-cases, Result-cases,
  some, inl, inr, sym, ap, subst, ◌∙◌, >>-eq-ok, >>=-eq-ok, reject_if-eq-ok, eq_of_!=, ◌!=◌,
}
use joan.Base.Lists.{length}
use joan.Base.Order.{string_ord}
use joan.Base.Set.{BTreeSet, contains, insert}
use joan.Base.Texts.{is_blank}
use joan.Base.Words.{checked_add-eq-some, checked_add}
use joan.Canonical.{Digest, digest_eq, Digests}
use joan.Evidence.Model.{
  EvidenceMutation, add_item, add_relation, lock, EvidenceGraph, EvidenceMutationRequest,
  EvidenceMutationReceipt, GraphCore,
}
use joan.Evidence.Graph.{
  verify_evidence_graph, verify_items, verify_relations, mutate_evidence, admit_mutation,
  apply_mutation, commit_mutation, require_nonempty, compute_graph_root, max_idempotency_keys,
}
use joan.Evidence.WellFormed.{IsWellFormed, verify_IsWellFormed, IsWellFormed-verify}
use joan.Evidence.Mutations.{Applied, apply_mutation-Applied, Applied-IsWellFormed}

-- What the checks of a request establish.
pub record Admitted (g : EvidenceGraph) (q : EvidenceMutationRequest) : Type 0 where
  pub schema : q.schema ≡ "joan.evidence-mutation-request.v0"
  pub actor : is_blank q.actor_id ≡ false
  pub key : is_blank q.idempotency_key ≡ false
  pub open_graph : g.locked ≡ false
  pub root : q.expected_graph_root ≡ g.graph_root
  pub revision : q.expected_revision ≡ g.revision
  pub fresh : contains q.idempotency_key g.consumed_idempotency_keys ≡ false
  pub room : length g.consumed_idempotency_keys < max_idempotency_keys

require_nonempty-eq-ok :
    (value field : String) → require_nonempty value field ≡ ok tt → is_blank value ≡ false
unfolding require_nonempty
require_nonempty-eq-ok value field h = ground arith

admit_mutation-Admitted :
    (g : EvidenceGraph) (q : EvidenceMutationRequest) → admit_mutation g q ≡ ok tt → Admitted g q
unfolding admit_mutation
admit_mutation-Admitted g q h0 =
    let (schema, h1) = reject_if-eq-ok (q.schema != "joan.evidence-mutation-request.v0") _ _ h0 in
    let (actor, h2) = >>-eq-ok (require_nonempty q.actor_id "actor_id") _ h1 in
    let (key, h3) = >>-eq-ok (require_nonempty q.idempotency_key "idempotency_key") _ h2 in
    let (locked, h4) = reject_if-eq-ok g.locked _ _ h3 in
    let (root, h5) = reject_if-eq-ok (q.expected_graph_root != g.graph_root) _ _ h4 in
    let (revision, h6) = reject_if-eq-ok (q.expected_revision != g.revision) _ _ h5 in
    let (fresh, room) =
      reject_if-eq-ok (contains q.idempotency_key g.consumed_idempotency_keys) _ _ h6 in
    record {
      schema = eq_of_!= schema;
      actor = require_nonempty-eq-ok q.actor_id _ actor;
      key = require_nonempty-eq-ok q.idempotency_key _ key;
      open_graph = locked;
      root = eq_of_!= root;
      revision = eq_of_!= revision;
      fresh = fresh;
      room = ground arith;
    }

module _ (cores : Digests GraphCore) where
  pub verify_evidence_graph-IsWellFormed :
      (g : EvidenceGraph)
      → verify_evidence_graph cores g ≡ ok tt
      → IsWellFormed g × (g.schema ≡ "joan.evidence-graph.v0")
  unfolding verify_evidence_graph
  verify_evidence_graph-IsWellFormed g h0 =
      let (schema, h1) = reject_if-eq-ok (g.schema != "joan.evidence-graph.v0") _ _ h0 in
      let (items, h2) = >>-eq-ok (verify_items g.items) _ h1 in
      let (relations, _) = >>-eq-ok (verify_relations g g.relations) _ h2 in
      (verify_IsWellFormed g items relations, eq_of_!= schema)

  -- A well-formed graph verifies under a root that has just been computed.
  pub verify_evidence_graph-computed :
      (g : EvidenceGraph) (d : Digest)
      → g.schema ≡ "joan.evidence-graph.v0"
      → IsWellFormed g
      → compute_graph_root cores g ≡ ok d
      → verify_evidence_graph cores (record g { graph_root = d }) ≡ ok tt
  unfolding verify_evidence_graph compute_graph_root
  verify_evidence_graph-computed g d s w h = ground (
    arith,
    string_eq.beq_iff g.schema "joan.evidence-graph.v0",
    digest_eq.beq_iff d d,
    IsWellFormed-verify (record g { graph_root = d })
        (record { items_keyed = w.items_keyed; relations_sound = w.relations_sound }),
  )

-- The graph `g` with the contents of `g'`.
abbrev pub with_contents : EvidenceGraph → EvidenceGraph → EvidenceGraph
with_contents g g' = record g { items = g'.items; relations = g'.relations; locked = g'.locked }

-- What a committed mutation has done to the graph `g`, with its receipt `r`.
pub record Committed (cores : Digests GraphCore) (g : EvidenceGraph) (q : EvidenceMutationRequest)
    (g' : EvidenceGraph) (r : EvidenceMutationReceipt) : Type 0 where
  pub admitted : Admitted g q
  pub applied : Applied q.mutation g (with_contents g g')
  pub same_case : g'.case_id ≡ g.case_id
  pub revision : g'.revision ≡ g.revision + 1
  pub keys : g'.consumed_idempotency_keys ≡ insert q.idempotency_key g.consumed_idempotency_keys
  pub verified_before : verify_evidence_graph cores g ≡ ok tt
  pub verified_after : verify_evidence_graph cores g' ≡ ok tt
  pub receipt_case : r.case_id ≡ g.case_id
  pub receipt_prior : r.prior_graph_root ≡ g.graph_root
  pub receipt_new : r.new_graph_root ≡ g'.graph_root
  pub receipt_revision : r.revision ≡ g'.revision
  pub receipt_locked : r.locked ≡ g'.locked
  pub receipt_committed : r.committed ≡ true

-- A mutation leaves all but the contents alone.
Applied-frame :
    (m : EvidenceMutation) (g g' : EvidenceGraph) → Applied m g g' → with_contents g g' ≡ g'
Applied-frame (add_item i) g g' (_, _, e) = rw e
Applied-frame (add_relation r) g g' (_, _, _, e) = rw e
Applied-frame lock g g' (_, e) = rw e

module _ (cores : Digests GraphCore) (requests : Digests EvidenceMutationRequest) where
  abbrev candidate : EvidenceGraph → EvidenceMutationRequest → ℕ → EvidenceGraph
  candidate g q revision = record g {
    consumed_idempotency_keys = insert q.idempotency_key g.consumed_idempotency_keys;
    revision = revision;
  }

  Committed-parts :
      (g : EvidenceGraph) (q : EvidenceMutationRequest) (rev : ℕ) (d : Digest)
      (x g' : EvidenceGraph) (r : EvidenceMutationReceipt)
      → Admitted g q
      → verify_evidence_graph cores g ≡ ok tt
      → Applied q.mutation g (with_contents g x)
      → with_contents g x ≡ x
      → IsWellFormed x
      → checked_add x.revision 1 ≡ some rev
      → compute_graph_root cores (candidate x q rev) ≡ ok d
      → commit_mutation cores requests g q x ≡ ok (g', r)
      → Committed cores g q g' r
  unfolding commit_mutation
  Committed-parts g q rev d x g' r a v applied frame w e f h =
      let fits = checked_add-eq-some x.revision 1 e in
      let schema = (verify_evidence_graph-IsWellFormed cores g v).1 in
      let after =
        verify_evidence_graph-computed cores (candidate x q rev) d
          (ap {B = String} (λ y. y.schema) (sym frame) ∙ schema)
          (record { items_keyed = w.items_keyed; relations_sound = w.relations_sound }) f in
      ground (
        arith,
        fits,
        after,
        a,
        applied,
        ap {B = String} (λ y. y.case_id) (sym frame),
        ap {B = ℕ} (λ y. y.revision) (sym frame),
        ap {B = BTreeSet String} (λ y. y.consumed_idempotency_keys) (sym frame),
      )

  commit_mutation-Committed :
      (g : EvidenceGraph) (q : EvidenceMutationRequest) (x g' : EvidenceGraph)
      (r : EvidenceMutationReceipt)
      → Admitted g q
      → verify_evidence_graph cores g ≡ ok tt
      → Applied q.mutation g x
      → commit_mutation cores requests g q x ≡ ok (g', r)
      → Committed cores g q g' r
  unfolding commit_mutation
  commit_mutation-Committed g q x g' r a v applied h =
      let frame = Applied-frame q.mutation g x applied in
      let formed = (verify_evidence_graph-IsWellFormed cores g v).0 in
      let formed' = Applied-IsWellFormed q.mutation g x applied formed in
      let framed = subst (Applied q.mutation g) (sym frame) applied in
      elim (Option-cases (checked_add x.revision 1)) [
        | inl over ↦ ground arith
        | inr (rev, e) ↦ elim (Result-cases (compute_graph_root cores (candidate x q rev))) [
          | inl (d, f) ↦ Committed-parts g q rev d x g' r a v framed frame formed' e f h
          | inr (y, f) ↦ ground arith
        ]
      ]

  -- If `mutate_evidence` succeeds, its checks held, the mutation applied, the case's name is kept,
  -- the revision rises by one, the key is consumed, the graph verifies before and after, and the
  -- receipt names both roots, the revision and the lock.
  pub mutate_evidence-Committed :
      (g : EvidenceGraph) (q : EvidenceMutationRequest) (g' : EvidenceGraph)
      (r : EvidenceMutationReceipt)
      → mutate_evidence cores requests g q ≡ ok (g', r)
      → Committed cores g q g' r
  unfolding mutate_evidence
  mutate_evidence-Committed g q g' r h =
      let (v, h1) = >>-eq-ok (verify_evidence_graph cores g) _ h in
      let (a, h2) = >>-eq-ok (admit_mutation g q) _ h1 in
      let (x, e, h3) = >>=-eq-ok (apply_mutation g q.mutation) _ h2 in
      commit_mutation-Committed g q x g' r (admit_mutation-Admitted g q a) v
        (apply_mutation-Applied g q.mutation x e) h3
