-- ===== src/Evidence/Mutations.antt =====
-- `apply_mutation`: what each mutation needs and what it changes.
use joan.Base.{
  ◌≡◌, refl, ◌<◌, Bool, true, false, String, [], ◌∷◌, arith, ok, string_eq, nat_eq, ◌==◌,
  reject_if-eq-ok, >>-eq-ok, not, some, ok_inj, sym, subst, leb,
}
use joan.Base.Lists.{length, All, any}
use joan.Base.Map
use joan.Base.Map.{
  BTreeMap, contains_key, contains_key-insert_mono, All-insert, values, get-insert_keeps,
}
use joan.Base.Order.{string_ord}
use joan.Evidence.Model.{
  EvidenceItem, EvidenceRelation, EvidenceMutation, add_item, add_relation, lock, EvidenceGraph,
  verification_eq, verified,
}
use joan.Evidence.Graph.{
  validate_relation, apply_mutation, require_nonempty, verify_items, verify_relations, max_items,
  max_relations,
}
use joan.Evidence.WellFormed.{
  IsConnected, IsSound, IsKeyed, IsWellFormed, validate_relation-IsConnected, IsWellFormed-verify,
}

abbrev pub has_verified : EvidenceGraph → Bool
has_verified g = any (λ i. i.verification == verified) (values g.items)

-- The effect of a mutation on a graph, with the conditions under which it applies.
abbrev pub Applied : EvidenceMutation → EvidenceGraph → EvidenceGraph → Type 0
Applied (add_item i) g g' =
    (contains_key i.evidence_id g.items ≡ false)
    × (length g.items < max_items)
    × (g' ≡ record g { items = Map.insert i.evidence_id i g.items })
Applied (add_relation r) g g' =
    (contains_key r.relation_id g.relations ≡ false)
    × (length g.relations < max_relations)
    × IsConnected g.items r
    × (g' ≡ record g { relations = Map.insert r.relation_id r g.relations })
Applied lock g g' = (has_verified g ≡ true) × (g' ≡ record g { locked = true })

-- A mutation that is applied met its conditions and changed only its own field.
pub apply_mutation-Applied :
    (g : EvidenceGraph) (m : EvidenceMutation) (g' : EvidenceGraph)
    → apply_mutation g m ≡ ok g'
    → Applied m g g'
unfolding apply_mutation
apply_mutation-Applied g (add_item i) g' h0 =
    let (_, h1) = >>-eq-ok (require_nonempty i.evidence_id "evidence_id") _ h0 in
    let (_, h2) = >>-eq-ok (require_nonempty i.issuer_id "issuer_id") _ h1 in
    let (_, h3) = >>-eq-ok (require_nonempty i.source "source") _ h2 in
    let (_, h4) = >>-eq-ok (require_nonempty i.content_type "content_type") _ h3 in
    let (_, h5) = >>-eq-ok (require_nonempty i.relevance_code "relevance_code") _ h4 in
    let (room, h6) = reject_if-eq-ok (leb max_items (length g.items)) _ _ h5 in
    let (fresh, h7) = reject_if-eq-ok (contains_key i.evidence_id g.items) _ _ h6 in
    (fresh, ground arith, sym (ok_inj h7))
apply_mutation-Applied g (add_relation r) g' h0 =
    let (_, h1) = >>-eq-ok (require_nonempty r.relation_id "relation_id") _ h0 in
    let (room, h2) = reject_if-eq-ok (leb max_relations (length g.relations)) _ _ h1 in
    let (fresh, h3) = reject_if-eq-ok (contains_key r.relation_id g.relations) _ _ h2 in
    let (valid, h4) = >>-eq-ok (validate_relation g r) _ h3 in
    (fresh, ground arith, validate_relation-IsConnected g r valid, sym (ok_inj h4))
apply_mutation-Applied g lock g' h0 =
    let (some_verified, h1) = reject_if-eq-ok (not (has_verified g)) _ _ h0 in
    (ground arith, sym (ok_inj h1))

IsConnected-insert :
    (k : String) (i : EvidenceItem) (items : BTreeMap String EvidenceItem) (r : EvidenceRelation)
    → IsConnected items r
    → IsConnected (Map.insert k i items) r
IsConnected-insert k i items r c = record {
  distinct = c.distinct;
  from_known = contains_key-insert_mono k r.from_evidence_id i items c.from_known;
  to_known = contains_key-insert_mono k r.to_evidence_id i items c.to_known;
}

All-IsSound-insert :
    (k : String) (i : EvidenceItem) (items : BTreeMap String EvidenceItem)
    (m : BTreeMap String EvidenceRelation)
    → All (IsSound items) m
    → All (IsSound (Map.insert k i items)) m
All-IsSound-insert k i items [] a = tt
All-IsSound-insert k i items ((j, r) ∷ m) ((same, c), a) =
    ((same, IsConnected-insert k i items r c), All-IsSound-insert k i items m a)

-- A mutation with that effect keeps a graph well formed.
pub Applied-IsWellFormed :
    (m : EvidenceMutation) (g g' : EvidenceGraph)
    → Applied m g g'
    → IsWellFormed g
    → IsWellFormed g'
Applied-IsWellFormed (add_item i) g g' (_, _, e) w = subst IsWellFormed (sym e) (record {
  items_keyed = All-insert IsKeyed i.evidence_id i g.items refl w.items_keyed;
  relations_sound = All-IsSound-insert i.evidence_id i g.items g.relations w.relations_sound;
})
Applied-IsWellFormed (add_relation r) g g' (_, _, c, e) w = subst IsWellFormed (sym e) (record {
  items_keyed = w.items_keyed;
  relations_sound =
      All-insert (IsSound g.items) r.relation_id r g.relations (refl, c) w.relations_sound;
})
Applied-IsWellFormed lock g g' (_, e) w =
    subst IsWellFormed (sym e)
      (record { items_keyed = w.items_keyed; relations_sound = w.relations_sound })

-- If `apply_mutation` succeeds on a well-formed graph, the graph that it gives is well formed:
-- items and relations stand under their own identifiers, and every relation joins two distinct
-- known items. So both loops of `verify_evidence_graph` pass on it.
pub apply_mutation-IsWellFormed :
    (g : EvidenceGraph) (m : EvidenceMutation) (g' : EvidenceGraph)
    → apply_mutation g m ≡ ok g'
    → IsWellFormed g
    → IsWellFormed g' × (verify_items g'.items ≡ ok tt) × (verify_relations g' g'.relations ≡ ok tt)
apply_mutation-IsWellFormed g m g' h w =
    let formed = Applied-IsWellFormed m g g' (apply_mutation-Applied g m g' h) w in
    let (items, relations) = IsWellFormed-verify g' formed in (formed, items, relations)

-- No mutation drops or rewrites an item.
pub Applied-keeps_items :
    (m : EvidenceMutation) (g g' : EvidenceGraph) (k : String) (i : EvidenceItem)
    → Applied m g g'
    → Map.get k g.items ≡ some i
    → Map.get k g'.items ≡ some i
Applied-keeps_items (add_item j) g g' k i (fresh, _, e) h =
    rw e (get-insert_keeps j.evidence_id k j i g.items fresh h)
Applied-keeps_items (add_relation r) g g' k i (_, _, _, e) h = rw e h
Applied-keeps_items lock g g' k i (_, e) h = rw e h

-- Nor a relation.
pub Applied-keeps_relations :
    (m : EvidenceMutation) (g g' : EvidenceGraph) (k : String) (r : EvidenceRelation)
    → Applied m g g'
    → Map.get k g.relations ≡ some r
    → Map.get k g'.relations ≡ some r
Applied-keeps_relations (add_item j) g g' k r (_, _, e) h = rw e h
Applied-keeps_relations (add_relation q) g g' k r (fresh, _, _, e) h =
    rw e (get-insert_keeps q.relation_id k q r g.relations fresh h)
Applied-keeps_relations lock g g' k r (_, e) h = rw e h
