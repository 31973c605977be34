-- ===== src/Evidence/Graph.antt =====
-- `create_evidence_graph`, `verify_evidence_graph` and `mutate_evidence`. The parameters are
-- `digest_serializable` at the types `GraphCore` and `EvidenceMutationRequest`.
use joan.Base.{
  ℕ, String, true, false, not, [], ◌∷◌, Result, ok, ◌>>=◌, ◌>>◌, reject_if, ok_or, map_err, ◌==◌,
  ◌!=◌, nat_eq, string_eq, leb,
}
use joan.Base.Lists.{length, any}
use joan.Base.Map
use joan.Base.Map.{BTreeMap, contains_key, values}
use joan.Base.Order.{string_ord}
use joan.Base.Set.{contains, insert}
use joan.Base.Texts.{is_blank}
use joan.Base.Words.{checked_add}
use joan.Canonical.{Digest, digest_eq, placeholder_digest, Digests}
use joan.Evidence.Model.{
  EvidenceItem, EvidenceRelation, EvidenceMutation, add_item, add_relation, lock, verified,
  verification_eq, EvidenceMutationRequest, EvidenceGraph, EvidenceMutationReceipt, GraphCore,
  EvidenceError, canonical, unsupported_schema, empty_field, invalid_stored_root, stale_root,
  stale_revision, graph_locked, replay, duplicate_item, duplicate_relation,
  missing_relation_endpoint, self_relation, no_verified_evidence, capacity, revision_overflow,
}

abbrev pub max_items : ℕ
max_items = 10_000

abbrev pub max_relations : ℕ
max_relations = 50_000

abbrev pub max_idempotency_keys : ℕ
max_idempotency_keys = 60_000

unfoldable pub require_nonempty : String → String → Result (Unit {0}) EvidenceError
require_nonempty value field = reject_if (is_blank value) (empty_field field)

-- The loop over the two endpoints is written out.
unfoldable pub validate_relation :
    EvidenceGraph → EvidenceRelation → Result (Unit {0}) EvidenceError
validate_relation graph relation = do
  reject_if (relation.from_evidence_id == relation.to_evidence_id) self_relation
  reject_if (not (contains_key relation.from_evidence_id graph.items))
      (missing_relation_endpoint relation.from_evidence_id)
  reject_if (not (contains_key relation.to_evidence_id graph.items))
      (missing_relation_endpoint relation.to_evidence_id)

abbrev pub graph_core : EvidenceGraph → GraphCore
graph_core g = record {
  schema = g.schema;
  case_id = g.case_id;
  items = g.items;
  relations = g.relations;
  locked = g.locked;
  revision = g.revision;
  consumed_idempotency_keys = g.consumed_idempotency_keys;
}

-- The two loops of `verify_evidence_graph`.
unfoldable pub verify_items : BTreeMap String EvidenceItem → Result (Unit {0}) EvidenceError
verify_items [] = ok tt
verify_items ((key, item) ∷ rest) =
    reject_if (key != item.evidence_id) invalid_stored_root >> verify_items rest

unfoldable pub verify_relations :
    EvidenceGraph → BTreeMap String EvidenceRelation → Result (Unit {0}) EvidenceError
verify_relations graph [] = ok tt
verify_relations graph ((key, relation) ∷ rest) = do
  reject_if (key != relation.relation_id) invalid_stored_root
  validate_relation graph relation
  verify_relations graph rest

-- The graph that `create_evidence_graph` builds before its root is known.
abbrev pub empty_graph : String → EvidenceGraph
empty_graph case_id = record {
  schema = "joan.evidence-graph.v0";
  case_id = case_id;
  items = [];
  relations = [];
  locked = false;
  revision = 0;
  consumed_idempotency_keys = [];
  graph_root = placeholder_digest;
}

module _ (cores : Digests GraphCore) where
  unfoldable pub compute_graph_root : EvidenceGraph → Result Digest EvidenceError
  compute_graph_root g =
      map_err canonical (cores.digest_serializable "joan.evidence-graph.v0" (graph_core g))

  unfoldable pub create_evidence_graph : String → Result EvidenceGraph EvidenceError
  create_evidence_graph case_id = do
    require_nonempty case_id "case_id"
    root ← compute_graph_root (empty_graph case_id)
    ok (record (empty_graph case_id) { graph_root = root })

  unfoldable pub verify_evidence_graph : EvidenceGraph → Result (Unit {0}) EvidenceError
  verify_evidence_graph graph = do
    reject_if (graph.schema != "joan.evidence-graph.v0") (unsupported_schema graph.schema)
    verify_items graph.items
    verify_relations graph graph.relations
    root ← compute_graph_root graph
    reject_if (root != graph.graph_root) invalid_stored_root

unfoldable pub apply_mutation :
    EvidenceGraph → EvidenceMutation → Result EvidenceGraph EvidenceError
apply_mutation graph (add_item item) = do
  require_nonempty item.evidence_id "evidence_id"
  require_nonempty item.issuer_id "issuer_id"
  require_nonempty item.source "source"
  require_nonempty item.content_type "content_type"
  require_nonempty item.relevance_code "relevance_code"
  reject_if (leb max_items (length graph.items)) capacity
  reject_if (contains_key item.evidence_id graph.items) (duplicate_item item.evidence_id)
  ok (record graph { items = Map.insert item.evidence_id item graph.items })
apply_mutation graph (add_relation relation) = do
  require_nonempty relation.relation_id "relation_id"
  reject_if (leb max_relations (length graph.relations)) capacity
  reject_if (contains_key relation.relation_id graph.relations)
      (duplicate_relation relation.relation_id)
  validate_relation graph relation
  ok (record graph { relations = Map.insert relation.relation_id relation graph.relations })
apply_mutation graph lock = do
  reject_if (not (any (λ item. item.verification == verified) (values graph.items)))
      no_verified_evidence
  ok (record graph { locked = true })

-- The checks of `mutate_evidence`, in their order, once the graph has been verified.
unfoldable pub admit_mutation :
    EvidenceGraph → EvidenceMutationRequest → Result (Unit {0}) EvidenceError
admit_mutation graph request = do
  reject_if (request.schema != "joan.evidence-mutation-request.v0")
      (unsupported_schema request.schema)
  require_nonempty request.actor_id "actor_id"
  require_nonempty request.idempotency_key "idempotency_key"
  reject_if graph.locked graph_locked
  reject_if (request.expected_graph_root != graph.graph_root) stale_root
  reject_if (request.expected_revision != graph.revision) stale_revision
  reject_if (contains request.idempotency_key graph.consumed_idempotency_keys) replay
  reject_if (leb max_idempotency_keys (length graph.consumed_idempotency_keys)) capacity

module _ (cores : Digests GraphCore) (requests : Digests EvidenceMutationRequest) where
  -- What `mutate_evidence` does to its clone after the mutation proper.
  unfoldable pub commit_mutation :
      EvidenceGraph
      → EvidenceMutationRequest
      → EvidenceGraph
      → Result (EvidenceGraph × EvidenceMutationReceipt) EvidenceError
  commit_mutation graph request mutated = do
    revision ← ok_or (checked_add mutated.revision 1) revision_overflow
    let candidate = record mutated {
      consumed_idempotency_keys = insert request.idempotency_key mutated.consumed_idempotency_keys;
      revision = revision;
    }
    root ← compute_graph_root cores candidate
    mutation_digest ←
        map_err canonical (requests.digest_serializable "joan.evidence-mutation-request.v0" request)
    ok (
      record candidate { graph_root = root },
      record {
        schema = "joan.evidence-mutation-receipt.v0";
        case_id = graph.case_id;
        prior_graph_root = graph.graph_root;
        new_graph_root = root;
        revision = revision;
        mutation_digest = mutation_digest;
        committed = true;
        locked = candidate.locked;
      },
    )

  unfoldable pub mutate_evidence :
      EvidenceGraph
      → EvidenceMutationRequest
      → Result (EvidenceGraph × EvidenceMutationReceipt) EvidenceError
  mutate_evidence graph request = do
    verify_evidence_graph cores graph
    admit_mutation graph request
    mutated ← apply_mutation graph request.mutation
    commit_mutation graph request mutated
