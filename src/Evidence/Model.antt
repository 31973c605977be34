-- ===== src/Evidence/Model.antt =====
-- The items, relations and mutations of an evidence graph, and the errors.
use joan.Base.{ℕ, String, Bool, Eq, derive_eq}
use joan.Base.Map.{BTreeMap}
use joan.Base.Set.{BTreeSet}
use joan.Canonical.{Digest, CanonicalError}

pub data EvidenceVerification : Type 0 where
  unverified verified rejected : EvidenceVerification

unfoldable pub EvidenceVerification-discrete : Discrete EvidenceVerification
EvidenceVerification-discrete = hlevel

instance unfoldable pub verification_eq : Eq EvidenceVerification
unfolding EvidenceVerification-discrete
verification_eq = derive_eq EvidenceVerification-discrete

pub data Confidentiality : Type 0 where
  public restricted secret_reference : Confidentiality

pub record EvidenceItem : Type 0 where
  pub evidence_id : String
  pub issuer_id : String
  pub content_digest : Digest
  pub source : String
  pub acquired_at_epoch_seconds : ℕ  -- u64
  pub content_type : String
  pub relevance_code : String
  pub confidentiality : Confidentiality
  pub verification : EvidenceVerification

pub data EvidenceRelationKind : Type 0 where
  supports contradicts derived_from reproduces : EvidenceRelationKind
  supersedes redacts invalidates corroborates : EvidenceRelationKind

pub record EvidenceRelation : Type 0 where
  pub relation_id : String
  pub from_evidence_id : String
  pub to_evidence_id : String
  pub kind : EvidenceRelationKind

pub data EvidenceMutation : Type 0 where
  add_item : EvidenceItem → EvidenceMutation
  add_relation : EvidenceRelation → EvidenceMutation
  lock : EvidenceMutation

pub record EvidenceMutationRequest : Type 0 where
  pub schema : String
  pub expected_graph_root : Digest
  pub expected_revision : ℕ  -- u64
  pub actor_id : String
  pub authority_ref : Digest
  pub idempotency_key : String
  pub mutation : EvidenceMutation

pub record EvidenceGraph : Type 0 where
  pub schema : String
  pub case_id : String
  pub items : BTreeMap String EvidenceItem
  pub relations : BTreeMap String EvidenceRelation
  pub locked : Bool
  pub revision : ℕ  -- u64
  pub consumed_idempotency_keys : BTreeSet String
  pub graph_root : Digest

pub record EvidenceMutationReceipt : Type 0 where
  pub schema : String
  pub case_id : String
  pub prior_graph_root : Digest
  pub new_graph_root : Digest
  pub revision : ℕ  -- u64
  pub mutation_digest : Digest
  pub committed : Bool
  pub locked : Bool

pub data EvidenceError : Type 0 where
  canonical : CanonicalError → EvidenceError
  unsupported_schema empty_field : String → EvidenceError
  invalid_stored_root stale_root stale_revision graph_locked replay : EvidenceError
  duplicate_item duplicate_relation missing_relation_endpoint : String → EvidenceError
  self_relation no_verified_evidence capacity revision_overflow : EvidenceError

-- The fields that the root protects.
pub record GraphCore : Type 0 where
  pub schema : String
  pub case_id : String
  pub items : BTreeMap String EvidenceItem
  pub relations : BTreeMap String EvidenceRelation
  pub locked : Bool
  pub revision : ℕ
  pub consumed_idempotency_keys : BTreeSet String
