-- ===== src/Evidence/WellFormed.antt =====
-- What `verify_evidence_graph` establishes of the two maps.
use joan.Base.{
  ◌≡◌, ◌≢◌, refl, true, String, [], ◌∷◌, arith, ok, string_eq, nat_eq, ◌==◌, ◌!=◌, reject_if-eq-ok,
  >>-eq-ok, eq_of_!=, not,
}
use joan.Base.Lists.{All}
use joan.Base.Map.{BTreeMap, contains_key}
use joan.Base.Order.{string_ord}
use joan.Evidence.Model.{EvidenceItem, EvidenceRelation, EvidenceGraph, verification_eq}
use joan.Evidence.Graph.{validate_relation, verify_items, verify_relations}

-- The two ends of a relation are distinct items of the map.
pub record IsConnected (items : BTreeMap String EvidenceItem) (relation : EvidenceRelation)
    : Type 0 where
  pub distinct : relation.from_evidence_id ≢ relation.to_evidence_id
  pub from_known : contains_key relation.from_evidence_id items ≡ true
  pub to_known : contains_key relation.to_evidence_id items ≡ true

-- Every entry of the items stands under its own identifier.
abbrev pub IsKeyed : String × EvidenceItem → Type 0
IsKeyed e = e.0 ≡ e.1.evidence_id

-- Every relation stands under its own identifier and joins known items.
abbrev pub IsSound : BTreeMap String EvidenceItem → String × EvidenceRelation → Type 0
IsSound items e = (e.0 ≡ e.1.relation_id) × IsConnected items e.1

pub record IsWellFormed (g : EvidenceGraph) : Type 0 where
  pub items_keyed : All IsKeyed g.items
  pub relations_sound : All (IsSound g.items) g.relations

pub validate_relation-IsConnected :
    (g : EvidenceGraph) (r : EvidenceRelation)
    → validate_relation g r ≡ ok tt
    → IsConnected g.items r
unfolding validate_relation
validate_relation-IsConnected g r h0 =
    let (apart, h1) = reject_if-eq-ok (r.from_evidence_id == r.to_evidence_id) _ _ h0 in
    let (known, h2) = reject_if-eq-ok (not (contains_key r.from_evidence_id g.items)) _ _ h1 in
    record {
      distinct = λ e. cc ((string_eq.beq_iff r.from_evidence_id r.to_evidence_id).1 e);
      from_known = ground arith;
      to_known = ground arith;
    }

IsConnected-validate_relation :
    (g : EvidenceGraph) (r : EvidenceRelation)
    → IsConnected g.items r
    → validate_relation g r ≡ ok tt
unfolding validate_relation
IsConnected-validate_relation g r c =
    ground (arith, c.distinct, string_eq.beq_iff r.from_evidence_id r.to_evidence_id)

verify_items-All : (m : BTreeMap String EvidenceItem) → verify_items m ≡ ok tt → All IsKeyed m
unfolding verify_items
verify_items-All [] h = tt
verify_items-All ((k, i) ∷ m) h =
    let (same, rest) = reject_if-eq-ok (k != i.evidence_id) _ _ h in
    (eq_of_!= same, verify_items-All m rest)

All-verify_items : (m : BTreeMap String EvidenceItem) → All IsKeyed m → verify_items m ≡ ok tt
unfolding verify_items
All-verify_items [] a = refl
All-verify_items ((k, i) ∷ m) a =
    ground (arith, string_eq.beq_iff k i.evidence_id, All-verify_items m a.1)

verify_relations-All :
    (g : EvidenceGraph) (m : BTreeMap String EvidenceRelation)
    → verify_relations g m ≡ ok tt
    → All (IsSound g.items) m
unfolding verify_relations
verify_relations-All g [] h = tt
verify_relations-All g ((k, r) ∷ m) h =
    let (same, h1) = reject_if-eq-ok (k != r.relation_id) _ _ h in
    let (valid, h2) = >>-eq-ok (validate_relation g r) _ h1 in
    ((eq_of_!= same, validate_relation-IsConnected g r valid), verify_relations-All g m h2)

All-verify_relations :
    (g : EvidenceGraph) (m : BTreeMap String EvidenceRelation)
    → All (IsSound g.items) m
    → verify_relations g m ≡ ok tt
unfolding verify_relations
All-verify_relations g [] a = refl
All-verify_relations g ((k, r) ∷ m) ((same, c), a) = ground (
  arith,
  string_eq.beq_iff k r.relation_id,
  IsConnected-validate_relation g r c,
  All-verify_relations g m a,
)

-- The checks of the two maps pass exactly when the graph is well formed.
pub verify_IsWellFormed :
    (g : EvidenceGraph)
    → verify_items g.items ≡ ok tt
    → verify_relations g g.relations ≡ ok tt
    → IsWellFormed g
verify_IsWellFormed g h k = record {
  items_keyed = verify_items-All g.items h;
  relations_sound = verify_relations-All g g.relations k;
}

pub IsWellFormed-verify :
    (g : EvidenceGraph)
    → IsWellFormed g
    → (verify_items g.items ≡ ok tt) × (verify_relations g g.relations ≡ ok tt)
IsWellFormed-verify g w =
    (All-verify_items g.items w.items_keyed, All-verify_relations g g.relations w.relations_sound)
