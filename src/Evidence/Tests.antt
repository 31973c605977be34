-- ===== src/Evidence/Tests.antt =====
-- A graph that gets one verified item and is then locked, and what the theorems give there.
use joan.Base.{ℕ, ◌≡◌, refl, String, [], ◌∷◌, some, ok, true, false}
use joan.Base.Map
use joan.Base.Map.{contains_key}
use joan.Base.Set
use joan.Base.Set.{contains}
use joan.Base.Texts.{is_blank, is_whitespace}
use joan.Base.Words.{checked_add}
use joan.Base.Order.{string_ord}
use joan.Canonical.{Digest, Digests, digest_eq}
use joan.Evidence.Model.{
  EvidenceVerification, EvidenceVerification-discrete, verification_eq, Confidentiality,
  EvidenceItem, EvidenceRelationKind, EvidenceRelation, EvidenceMutation, EvidenceMutationRequest,
  EvidenceGraph, EvidenceMutationReceipt,
}
use joan.Evidence.Graph.{
  require_nonempty, verify_items, verify_relations, compute_graph_root, create_evidence_graph,
  verify_evidence_graph, validate_relation, apply_mutation, admit_mutation, commit_mutation,
  mutate_evidence,
}
use joan.Evidence.WellFormed.{IsWellFormed}
use joan.Evidence.Mutations.{Applied, apply_mutation-Applied, apply_mutation-IsWellFormed}
use joan.Evidence.Atomic.{Committed, mutate_evidence-Committed}
use joan.Evidence.History.{
  Step, step, begin, extend, IsIntact, create_evidence_graph-IsIntact, Reach-IsIntact,
  Reach-keeps_items, locked_stays,
}

abbrev seal : Digest
seal = record { algorithm = "sha256"; profile = "jcs"; domain = "test"; value = "00" }

-- Digests that do not tell two values apart.
abbrev sealed : {T : Type 0} → Digests T
sealed = record { digest_serializable = λ domain value. ok seal }

abbrev log_item : EvidenceItem
log_item = record {
  evidence_id = "e1";
  issuer_id = "bob";
  content_digest = seal;
  source = "log";
  acquired_at_epoch_seconds = 1_700_000_000;
  content_type = "text";
  relevance_code = "delivery";
  confidentiality = Confidentiality.public;
  verification = EvidenceVerification.verified;
}

abbrev empty : EvidenceGraph
empty = record {
  schema = "joan.evidence-graph.v0";
  case_id = "c1";
  items = [];
  relations = [];
  locked = false;
  revision = 0;
  consumed_idempotency_keys = [];
  graph_root = seal;
}

abbrev request : ℕ → String → EvidenceMutation → EvidenceMutationRequest
request revision key mutation = record {
  schema = "joan.evidence-mutation-request.v0";
  expected_graph_root = seal;
  expected_revision = revision;
  actor_id = "clerk";
  authority_ref = seal;
  idempotency_key = key;
  mutation = mutation;
}

abbrev receipt : ℕ → EvidenceMutationReceipt
receipt revision = record {
  schema = "joan.evidence-mutation-receipt.v0";
  case_id = "c1";
  prior_graph_root = seal;
  new_graph_root = seal;
  revision = revision;
  mutation_digest = seal;
  committed = true;
  locked = false;
}

abbrev with_log : EvidenceGraph
with_log = record empty {
  items = ("e1", log_item) ∷ [];
  revision = 1;
  consumed_idempotency_keys = "k1" ∷ [];
}

abbrev locked_log : EvidenceGraph
locked_log = record with_log {
  locked = true;
  revision = 2;
  consumed_idempotency_keys = "k1" ∷ "k2" ∷ [];
}

abbrev add_log : EvidenceMutationRequest
add_log = request 0 "k1" (EvidenceMutation.add_item log_item)

abbrev lock_log : EvidenceMutationRequest
lock_log = request 1 "k2" EvidenceMutation.lock

create_runs : create_evidence_graph sealed "c1" ≡ ok empty
unfolding create_evidence_graph require_nonempty is_blank is_whitespace compute_graph_root
create_runs = refl

add_runs : mutate_evidence sealed sealed empty add_log ≡ ok (with_log, receipt 1)
unfolding mutate_evidence verify_evidence_graph verify_items verify_relations compute_graph_root
    digest_eq admit_mutation require_nonempty is_blank is_whitespace contains apply_mutation
    contains_key Map.get Map.insert commit_mutation checked_add Set.insert
add_runs = refl

lock_runs :
    mutate_evidence sealed sealed with_log lock_log
    ≡ ok (locked_log, record (receipt 2) { locked = true })
unfolding mutate_evidence verify_evidence_graph verify_items verify_relations compute_graph_root
    digest_eq admit_mutation require_nonempty is_blank is_whitespace contains apply_mutation
    verification_eq EvidenceVerification-discrete commit_mutation checked_add Set.insert
lock_runs = refl

add_applies :
    apply_mutation empty (EvidenceMutation.add_item log_item)
    ≡ ok (record empty { items = ("e1", log_item) ∷ [] })
unfolding apply_mutation require_nonempty is_blank is_whitespace contains_key Map.get Map.insert
add_applies = refl

abbrev adding : Step sealed sealed empty with_log
adding = step add_log (receipt 1) add_runs

abbrev locking : Step sealed sealed with_log locked_log
locking = step lock_log (record (receipt 2) { locked = true }) lock_runs

create_evidence_graph-IsIntact_example :
    IsIntact sealed sealed empty × (empty.case_id ≡ "c1") × (empty.locked ≡ false)
create_evidence_graph-IsIntact_example =
    create_evidence_graph-IsIntact sealed sealed "c1" empty create_runs

apply_mutation-Applied_example :
    Applied
      (EvidenceMutation.add_item log_item)
      empty
      (record empty { items = ("e1", log_item) ∷ [] })
apply_mutation-Applied_example =
    apply_mutation-Applied empty (EvidenceMutation.add_item log_item)
      (record empty { items = ("e1", log_item) ∷ [] }) add_applies

-- Two items, the second of which the first supports.
abbrev with_photo : EvidenceGraph
with_photo = record empty {
  items = ("e1", log_item) ∷ ("e2", record log_item { evidence_id = "e2" }) ∷ [];
}

abbrev supporting : EvidenceRelation
supporting = record {
  relation_id = "r1";
  from_evidence_id = "e1";
  to_evidence_id = "e2";
  kind = EvidenceRelationKind.supports;
}

abbrev related : EvidenceGraph
related = record with_photo { relations = ("r1", supporting) ∷ [] }

relation_applies : apply_mutation with_photo (EvidenceMutation.add_relation supporting) ≡ ok related
unfolding apply_mutation require_nonempty is_blank is_whitespace contains_key Map.get Map.insert
    validate_relation
relation_applies = refl

apply_mutation-IsWellFormed_example :
    IsWellFormed related
    × (verify_items related.items ≡ ok tt)
    × (verify_relations related related.relations ≡ ok tt)
apply_mutation-IsWellFormed_example =
    apply_mutation-IsWellFormed with_photo (EvidenceMutation.add_relation supporting) related
      relation_applies (record { items_keyed = (refl, (refl, tt)); relations_sound = tt })

mutate_evidence-Committed_example : Committed sealed empty add_log with_log (receipt 1)
mutate_evidence-Committed_example =
    mutate_evidence-Committed sealed sealed empty add_log with_log (receipt 1) add_runs

Reach-IsIntact_example : IsIntact sealed sealed locked_log
Reach-IsIntact_example =
    Reach-IsIntact sealed sealed empty (extend (extend begin adding) locking)
      (create_evidence_graph-IsIntact sealed sealed "c1" empty create_runs).0

Reach-keeps_items_example : Map.get "e1" locked_log.items ≡ some log_item
unfolding Map.get
Reach-keeps_items_example =
    Reach-keeps_items sealed sealed with_log "e1" log_item (extend begin locking) refl

locked_stays_example : locked_log ≡ locked_log
locked_stays_example = locked_stays sealed sealed locked_log refl begin
