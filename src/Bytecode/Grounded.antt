-- ===== src/Bytecode/Grounded.antt =====
-- What `verify_acyclic` finds in a call graph.
use joan.Base.{
  ℕ, suc, zero, ◌<◌, ◌≡◌, ◌≢◌, refl, sym, ap, subst, ◌∙◌, ◌⊎◌, inl, inr, Bool, true, false, List,
  [], ◌∷◌, some, Result, ok, err, ◌>>=◌, ok_or, ◌==◌, nat_eq, if◌then◌else◌, arith, some_inj,
  ok_inj, >>=-eq-ok, ok_or-eq-ok,
}
use joan.Base.Lists.{length, get_elem?, set, replicate, All}
use joan.Bytecode.Model.{BytecodeError, panicked}
use joan.Bytecode.Structure.{visit_targets, visit_graph, verify_acyclic, range_onto}

abbrev pub IsTarget : ℕ → List ℕ → Type 0
IsTarget j [] = ⊥
IsTarget j (t ∷ targets) = (j ≡ t) ⊎ IsTarget j targets

-- Every chain of calls from the function ends.
pub data Grounded (graph : List (List ℕ)) : ℕ → Type 0 where
  grounded :
      (i : ℕ) (targets : List ℕ)
      → get_elem? graph i ≡ some targets
      → ((j : ℕ) → IsTarget j targets → Grounded graph j)
      → Grounded graph i

get_elem?-set :
    (state : List ℕ) (i v j : ℕ) {w : ℕ}
    → get_elem? (set state i v) j ≡ some w
    → ((j ≡ i) × (v ≡ w)) ⊎ (get_elem? state j ≡ some w)
get_elem?-set [] i v j h = cc
get_elem?-set (m ∷ state) zero v zero h = inl (refl, some_inj h)
get_elem?-set (m ∷ state) zero v (suc j) h = inr h
get_elem?-set (m ∷ state) (suc i) v zero h = inr h
get_elem?-set (m ∷ state) (suc i) v (suc j) h = elim (get_elem?-set state i v j h) [
  | inl same ↦ inl (ap suc same.0, same.1)
  | inr kept ↦ inr kept
]

if-cases {ℓ} :
    {A : Type ℓ} (b : Bool) (x y : A) {z : A}
    → (if b then x else y) ≡ z
    → ((b ≡ true) × (x ≡ z)) ⊎ ((b ≡ false) × (y ≡ z))
if-cases true x y h = inl (refl, h)
if-cases false x y h = inr (refl, h)

err-ne-ok :
    {e : BytecodeError} {s : List ℕ} → ◌≢◌ {A = Result (List ℕ) BytecodeError} (err e) (ok s)
err-ne-ok h = cc

no_mark : (n i : ℕ) → get_elem? {A = ℕ} (replicate n 0) i ≢ some 2
no_mark zero i h = cc
no_mark (suc n) zero h = absurd (omega (arith, some_inj h))
no_mark (suc n) (suc i) h = no_mark n i h

lt_or_eq : (i n : ℕ) → i < suc n → (i < n) ⊎ (i ≡ n)
lt_or_eq i n h = ground arith

module _ (graph : List (List ℕ)) where
  -- The functions that are done are grounded.
  abbrev Done : List ℕ → Type 0
  Done state = (i : ℕ) → get_elem? state i ≡ some 2 → Grounded graph i

  All-IsTarget :
      (targets : List ℕ)
      → All (Grounded graph) targets
      → (j : ℕ) → IsTarget j targets
      → Grounded graph j
  All-IsTarget [] h j m = absurd m
  All-IsTarget (t ∷ targets) h j (inl same) = subst (Grounded graph) (sym same) h.0
  All-IsTarget (t ∷ targets) h j (inr later) = All-IsTarget targets h.1 j later

  Done-visiting : (state : List ℕ) (i : ℕ) → Done state → Done (set state i 1)
  Done-visiting state i d j h = elim (get_elem?-set state i 1 j h) [
    | inl same ↦ absurd (omega (arith, same.1))
    | inr kept ↦ d j kept
  ]

  Done-finished : (state : List ℕ) (i : ℕ) → Done state → Grounded graph i → Done (set state i 2)
  Done-finished state i d g j h = elim (get_elem?-set state i 2 j h) [
    | inl same ↦ subst (Grounded graph) (sym same.0) g
    | inr kept ↦ d j kept
  ]

  -- What a visit of a function gives where it succeeds.
  abbrev Visits : (ℕ → List ℕ → Result (List ℕ) BytecodeError) → Type 0
  Visits visit =
      (t : ℕ) (state state' : List ℕ)
      → Done state
      → visit t state ≡ ok state'
      → Grounded graph t × Done state'

  visit_targets-Grounded :
      (visit : ℕ → List ℕ → Result (List ℕ) BytecodeError)
      → Visits visit
      → (targets state : List ℕ) {state' : List ℕ} → Done state
      → visit_targets visit targets state ≡ ok state'
      → All (Grounded graph) targets × Done state'
  unfolding visit_targets
  visit_targets-Grounded visit each [] state d h = (tt, subst Done (ok_inj h) d)
  visit_targets-Grounded visit each (t ∷ targets) state d h =
      let (s1, e1, k1) = >>=-eq-ok (visit t state) _ h in
      let (first, d1) = each t state s1 d e1 in
      let (rest, d2) = visit_targets-Grounded visit each targets s1 d1 k1 in ((first, rest), d2)

  -- A visit that marks the function, visits its targets and finishes it.
  finish :
      (fuel t : ℕ) (state state' : List ℕ)
      → Visits (visit_graph fuel graph)
      → Done state
      → (ok_or (get_elem? graph t) panicked >>= (λ targets.
          visit_targets (visit_graph fuel graph) targets (set state t 1) >>= (λ s. ok (set s t 2))))
        ≡ ok state'
      → Grounded graph t × Done state'
  finish fuel t state state' each d h =
      let (targets, e1, k1) = >>=-eq-ok (ok_or (get_elem? graph t) _) _ h in
      let (s, e2, k2) =
        >>=-eq-ok (visit_targets (visit_graph fuel graph) targets (set state t 1)) _ k1 in
      let (all, d2) =
        visit_targets-Grounded (visit_graph fuel graph) each targets (set state t 1)
          (Done-visiting state t d) e2 in
      let ground_t = grounded t targets (ok_or-eq-ok _ _ e1) (All-IsTarget targets all) in
      (ground_t, subst Done (ok_inj k2) (Done-finished s t d2 ground_t))

  visit_graph-Grounded : (fuel : ℕ) → Visits (visit_graph fuel graph)
  unfolding visit_graph
  visit_graph-Grounded zero t state state' d h = cc
  visit_graph-Grounded (suc fuel) t state state' d h =
      let (mark, e1, k1) = >>=-eq-ok (ok_or (get_elem? state t) _) _ h in
      let found = ok_or-eq-ok _ _ e1 in
      elim (if-cases (mark == 1) _ _ k1) [
        | inl (one, impossible) ↦ absurd (err-ne-ok impossible)
        | inr (n, k2) ↦ elim (if-cases (mark == 2) _ _ k2) [
          | inl (two, same) ↦
              (d t (found ∙ ap some ((nat_eq.beq_iff mark 2).0 two)), subst Done (ok_inj same) d)
          | inr (o, k3) ↦ finish fuel t state state' (visit_graph-Grounded fuel) d k3
        ]
      ]

  visit_all-Grounded :
      (fuel : ℕ) (targets state : List ℕ) {state' : List ℕ}
      → Done state
      → visit_targets (visit_graph fuel graph) targets state ≡ ok state'
      → All (Grounded graph) targets
  visit_all-Grounded fuel targets state d h =
      (visit_targets-Grounded (visit_graph fuel graph) (visit_graph-Grounded fuel) targets state d
        h).0

  nothing-Done : (n : ℕ) → Done (replicate n 0)
  nothing-Done n i h = absurd (no_mark n i h)

All-range :
    (P : ℕ → Type 0) (n : ℕ) (rest : List ℕ)
    → All P (range_onto n rest)
    → ((i : ℕ) → i < n → P i) × All P rest
All-range P zero rest h = (λ i l. absurd (omega arith), h)
All-range P (suc n) rest h =
    let (below, top) = All-range P n (n ∷ rest) h in
    (
      λ i l. elim (lt_or_eq i n l) [
        | inl less ↦ below i less
        | inr same ↦ subst P (sym same) top.0
      ],
      top.1,
    )

-- Where `verify_acyclic` accepts a call graph, every chain of calls from each of its functions
-- ends: no function calls itself, not even through others.
pub verify_acyclic-Grounded :
    (graph : List (List ℕ)) (i : ℕ)
    → verify_acyclic graph ≡ ok tt
    → i < length graph
    → Grounded graph i
unfolding verify_acyclic
verify_acyclic-Grounded graph i h l =
    let (state, e1, k1) =
      >>=-eq-ok
        (visit_targets (visit_graph (suc (length graph)) graph) (range_onto (length graph) [])
          (replicate (length graph) 0))
        _ h in
    (All-range (Grounded graph) (length graph) [] (
        visit_all-Grounded graph (suc (length graph)) (range_onto (length graph) [])
          (replicate (length graph) 0) (nothing-Done graph (length graph)) e1)).0
      i l
