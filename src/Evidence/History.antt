-- ===== src/Evidence/History.antt =====
-- Whole histories of an evidence graph: `create_evidence_graph`, then any number of mutations.
use joan.Base.{
  ℕ, ◌+◌, ◌≤◌, ◌≡◌, ◌≢◌, refl, sym, subst, ap, Bool, true, false, not, ◌||◌, String, arith, ok,
  some, >>-eq-ok, >>=-eq-ok, ok_inj, if◌then◌else◌,
}
use joan.Base.Lists.{length}
use joan.Base.Map
use joan.Base.Order.{string_ord}
use joan.Base.Set.{length-insert_new}
use joan.Canonical.{Digests}
use joan.Evidence.Model.{
  EvidenceItem, EvidenceRelation, EvidenceMutation, add_item, add_relation, lock, EvidenceGraph,
  EvidenceMutationRequest, EvidenceMutationReceipt, GraphCore,
}
use joan.Evidence.Graph.{
  create_evidence_graph, verify_evidence_graph, mutate_evidence, compute_graph_root, empty_graph,
  require_nonempty, max_items, max_relations,
}
use joan.Evidence.Mutations.{Applied, has_verified, Applied-keeps_items, Applied-keeps_relations}
use joan.Evidence.Atomic.{with_contents, mutate_evidence-Committed, verify_evidence_graph-computed}

-- How many mutations the contents of a graph account for.
abbrev pub contents : EvidenceGraph → ℕ
contents g = length g.items + length g.relations + (if g.locked then 1 else 0)

-- Each mutation adds one item, one relation or the lock.
Applied-contents :
    (m : EvidenceMutation) (g g' : EvidenceGraph)
    → g.locked ≡ false
    → Applied m g g'
    → contents g' ≡ contents g + 1
Applied-contents (add_item i) g g' o (fresh, _, e) =
    rw (e, o) (omega (arith, Map.length-insert_new i.evidence_id i g.items fresh))
Applied-contents (add_relation r) g g' o (fresh, _, _, e) =
    rw (e, o) (omega (arith, Map.length-insert_new r.relation_id r g.relations fresh))
Applied-contents lock g g' o (_, e) = rw (e, o) (omega arith)

-- The limits on the maps.
pub record IsBounded (g : EvidenceGraph) : Type 0 where
  pub items : length g.items ≤ max_items
  pub relations : length g.relations ≤ max_relations
  pub locked_verified : (not g.locked || has_verified g) ≡ true

Applied-IsBounded :
    (m : EvidenceMutation) (g g' : EvidenceGraph)
    → g.locked ≡ false
    → Applied m g g'
    → IsBounded g
    → IsBounded g'
Applied-IsBounded (add_item i) g g' o (fresh, room, e) b = subst IsBounded (sym e) (record {
  items = omega (arith, Map.length-insert_new i.evidence_id i g.items fresh);
  relations = b.relations;
  locked_verified = ground arith;
})
Applied-IsBounded (add_relation r) g g' o (fresh, room, _, e) b = subst IsBounded (sym e) (record {
  items = b.items;
  relations = omega (arith, Map.length-insert_new r.relation_id r g.relations fresh);
  locked_verified = b.locked_verified;
})
Applied-IsBounded lock g g' o (seen, e) b =
    subst IsBounded (sym e)
      (record { items = b.items; relations = b.relations; locked_verified = seen })

module _ (cores : Digests GraphCore) (requests : Digests EvidenceMutationRequest) where
  pub data Step (g g' : EvidenceGraph) : Type 0 where
    step :
        (q : EvidenceMutationRequest) (r : EvidenceMutationReceipt)
        → mutate_evidence cores requests g q ≡ ok (g', r)
        → Step g g'

  pub data Reach (g : EvidenceGraph) : EvidenceGraph → Type 0 where
    begin : Reach g g
    extend : {h k : EvidenceGraph} → Reach g h → Step h k → Reach g k

  -- What holds of a graph at every point of its history.
  pub record IsIntact (g : EvidenceGraph) : Type 0 where
    pub verified : verify_evidence_graph cores g ≡ ok tt
    pub bounded : IsBounded g
    pub accounted : contents g ≡ g.revision
    pub counted : length g.consumed_idempotency_keys ≡ g.revision

  -- If `create_evidence_graph` succeeds, the graph is intact, as every graph of its history will
  -- be, it bears the case's name, and it is not locked.
  pub create_evidence_graph-IsIntact :
      (case_id : String) (g : EvidenceGraph)
      → create_evidence_graph cores case_id ≡ ok g
      → IsIntact g × (g.case_id ≡ case_id) × (g.locked ≡ false)
  unfolding create_evidence_graph
  create_evidence_graph-IsIntact case_id g h0 =
      let (_, h1) = >>-eq-ok (require_nonempty case_id "case_id") _ h0 in
      let (d, f, e) = >>=-eq-ok (compute_graph_root cores (empty_graph case_id)) _ h1 in
      subst (λ g. IsIntact g × (g.case_id ≡ case_id) × (g.locked ≡ false)) (ok_inj e)
        (
          record {
            verified =
                verify_evidence_graph-computed cores (empty_graph case_id) d refl
                  (record { items_keyed = tt; relations_sound = tt }) f;
            bounded = record {
              items = omega arith;
              relations = omega arith;
              locked_verified = refl;
            };
            accounted = omega arith;
            counted = refl;
          },
          refl,
          refl,
        )

  pub Step-IsIntact : (g g' : EvidenceGraph) → Step g g' → IsIntact g → IsIntact g'
  Step-IsIntact g g' (step q r h) v =
      let p = mutate_evidence-Committed cores requests g q g' r h in
      let b =
        Applied-IsBounded q.mutation g (with_contents g g') p.admitted.open_graph p.applied
          v.bounded in
      let one =
        Applied-contents q.mutation g (with_contents g g') p.admitted.open_graph p.applied in
      let key = length-insert_new q.idempotency_key g.consumed_idempotency_keys p.admitted.fresh in
      record {
        verified = p.verified_after;
        bounded = record {
          items = b.items;
          relations = b.relations;
          locked_verified = b.locked_verified;
        };
        accounted = omega (arith, one, v.accounted, p.revision);
        counted = rw p.keys (omega (arith, key, v.counted, p.revision));
      }

  -- From a graph of a history, every graph that successful mutations reach verifies, has at most
  -- `max_items` items and `max_relations` relations, has a verified item if it is locked, and has
  -- consumed as many keys as its revision, which is the number of its items, its relations and its
  -- lock.
  pub Reach-IsIntact :
      (g : EvidenceGraph) {g' : EvidenceGraph} → Reach g g' → IsIntact g → IsIntact g'
  Reach-IsIntact g begin v = v
  Reach-IsIntact g (extend {h = h} {k = k} r s) v = Step-IsIntact h k s (Reach-IsIntact g r v)

  Step-keeps_items :
      (g g' : EvidenceGraph) (k : String) (i : EvidenceItem)
      → Step g g'
      → Map.get k g.items ≡ some i
      → Map.get k g'.items ≡ some i
  Step-keeps_items g g' k i (step q r h) m =
      let p = mutate_evidence-Committed cores requests g q g' r h in
      Applied-keeps_items q.mutation g (with_contents g g') k i p.applied m

  Step-keeps_relations :
      (g g' : EvidenceGraph) (k : String) (x : EvidenceRelation)
      → Step g g'
      → Map.get k g.relations ≡ some x
      → Map.get k g'.relations ≡ some x
  Step-keeps_relations g g' k x (step q r h) m =
      let p = mutate_evidence-Committed cores requests g q g' r h in
      Applied-keeps_relations q.mutation g (with_contents g g') k x p.applied m

  -- An item of a graph is found under its key, unchanged, in every graph that successful mutations
  -- reach.
  pub Reach-keeps_items :
      (g : EvidenceGraph) {g' : EvidenceGraph} (k : String) (i : EvidenceItem)
      → Reach g g'
      → Map.get k g.items ≡ some i
      → Map.get k g'.items ≡ some i
  Reach-keeps_items g k i begin m = m
  Reach-keeps_items g k i (extend {h = h} {k = j} r s) m =
      Step-keeps_items h j k i s (Reach-keeps_items g k i r m)

  pub Reach-keeps_relations :
      (g : EvidenceGraph) {g' : EvidenceGraph} (k : String) (x : EvidenceRelation)
      → Reach g g'
      → Map.get k g.relations ≡ some x
      → Map.get k g'.relations ≡ some x
  Reach-keeps_relations g k x begin m = m
  Reach-keeps_relations g k x (extend {h = h} {k = j} r s) m =
      Step-keeps_relations h j k x s (Reach-keeps_relations g k x r m)

  -- Every graph that successful mutations reach from a locked graph is that graph itself.
  pub locked_stays :
      (g : EvidenceGraph) {g' : EvidenceGraph} → g.locked ≡ true → Reach g g' → g' ≡ g
  locked_stays g l begin = refl
  locked_stays g l (extend {h = h} {k = k} r (step q x e)) =
      let p = mutate_evidence-Committed cores requests h q k x e in
      let same = locked_stays g l r in
      cc (same, p.admitted.open_graph, ap {B = Bool} (λ (y : EvidenceGraph). y.locked) same)

  -- A graph filled to both limits has used up its keys, so no request, not even the lock, is
  -- accepted any more.
  pub full_graph_refuses :
      (g g' : EvidenceGraph) (q : EvidenceMutationRequest) (r : EvidenceMutationReceipt)
      → IsIntact g
      → length g.items ≡ max_items
      → length g.relations ≡ max_relations
      → mutate_evidence cores requests g q ≢ ok (g', r)
  full_graph_refuses g g' q r v full_items full_relations h =
      let p = mutate_evidence-Committed cores requests g q g' r h in
      absurd (omega (arith, p.admitted.room, v.counted, v.accounted))
