-- ===== src/Bytecode/Acyclic.antt =====
-- The fuel of `verify_acyclic`.
use joan.Base.{
  ℕ, suc, zero, ◌<◌, ◌≤◌, ◌≡◌, ◌≢◌, refl, ap, Bool, true, false, List, [], ◌∷◌, some, Result, ok,
  err, ◌>>=◌, ◌==◌, ◌||◌, nat_eq, if◌then◌else◌, arith, Bool-cases, Option-cases, inl, inr,
}
use joan.Base.Lists.{length, get_elem?, set, replicate}
use joan.Bytecode.Model.{BytecodeError, out_of_fuel}
use joan.Bytecode.Structure.{visit_targets, visit_graph, verify_acyclic, range_onto}

abbrev is_out_of_fuel : BytecodeError → Bool
is_out_of_fuel out_of_fuel = true
is_out_of_fuel _ = false

-- How many functions are neither visited nor done.
abbrev unvisited : List ℕ → ℕ
unvisited [] = 0
unvisited (mark ∷ state) = if mark == 1 || mark == 2 then unvisited state else suc (unvisited state)

abbrev Finishes : ℕ → Result (List ℕ) BytecodeError → Type 0
Finishes n (ok state) = unvisited state ≤ n
Finishes n (err e) = is_out_of_fuel e ≡ false

Finishes-le : (m n : ℕ) (r : Result (List ℕ) BytecodeError) → m ≤ n → Finishes m r → Finishes n r
Finishes-le m n (ok state) l h = omega arith
Finishes-le m n (err e) l h = h

Finishes-bind :
    (m n : ℕ) (r : Result (List ℕ) BytecodeError) (k : List ℕ → Result (List ℕ) BytecodeError)
    → Finishes m r
    → ((state : List ℕ) → unvisited state ≤ m → Finishes n (k state))
    → Finishes n (r >>= k)
Finishes-bind m n (ok state) k h c = c state h
Finishes-bind m n (err e) k h c = h

-- A mark put on a function that has none leaves one fewer.
unvisited-set_new :
    (state : List ℕ) (i mark : ℕ)
    → get_elem? state i ≡ some mark
    → (mark == 1) ≡ false
    → (mark == 2) ≡ false
    → suc (unvisited (set state i 1)) ≡ unvisited state
unvisited-set_new [] i mark h a b = cc
unvisited-set_new (m ∷ state) zero mark h a b = ground arith
unvisited-set_new (m ∷ state) (suc i) mark h a b = ground (arith, unvisited-set_new state i mark)

unvisited-set_done : (state : List ℕ) (i : ℕ) → unvisited (set state i 2) ≤ unvisited state
unvisited-set_done [] i = omega arith
unvisited-set_done (m ∷ state) zero = ground arith
unvisited-set_done (m ∷ state) (suc i) = ground (arith, unvisited-set_done state i)

visit_targets-Finishes :
    (visit : ℕ → List ℕ → Result (List ℕ) BytecodeError) (fuel : ℕ)
    → ((i : ℕ) (state : List ℕ)
        → unvisited state < fuel
        → Finishes (unvisited state) (visit i state))
    → (targets state : List ℕ) → unvisited state < fuel
    → Finishes (unvisited state) (visit_targets visit targets state)
unfolding visit_targets
visit_targets-Finishes visit fuel each [] state h = omega arith
visit_targets-Finishes visit fuel each (t ∷ targets) state h =
    Finishes-bind (unvisited state) (unvisited state) (visit t state) _ (each t state h)
      (λ state' l.
        Finishes-le (unvisited state') (unvisited state) _ l
          (visit_targets-Finishes visit fuel each targets state' (omega arith)))

ended :
    (n : ℕ) (r : Result (List ℕ) BytecodeError)
    → Finishes n r
    → ◌≢◌ {A = Result (Unit {0}) BytecodeError} (r >>= (λ state. ok tt)) (err out_of_fuel)
ended n (ok state) f h = cc
ended n (err e) f h = ground arith

-- One visit, given those of the targets.
visited :
    (fuel : ℕ) (graph : List (List ℕ)) (i : ℕ) (state : List ℕ)
    → ((j : ℕ) (s : List ℕ)
        → unvisited s < fuel
        → Finishes (unvisited s) (visit_graph fuel graph j s))
    → unvisited state < suc fuel
    → (targets : List ℕ) (mark : ℕ) → get_elem? state i ≡ some mark
    → (mark == 1) ≡ false
    → (mark == 2) ≡ false
    → Finishes
        (unvisited state)
        (visit_targets (visit_graph fuel graph) targets (set state i 1) >>= (λ s. ok (set s i 2)))
visited fuel graph i state each h targets mark found n o =
    let fewer = unvisited-set_new state i mark found n o in
    Finishes-bind (unvisited (set state i 1)) (unvisited state)
      (visit_targets (visit_graph fuel graph) targets (set state i 1)) _
      (visit_targets-Finishes (visit_graph fuel graph) fuel each targets (set state i 1)
        (omega (arith, fewer)))
      (λ s l. omega (arith, fewer, unvisited-set_done s i))

visit_graph-Finishes :
    (fuel : ℕ) (graph : List (List ℕ)) (i : ℕ) (state : List ℕ)
    → unvisited state < fuel
    → Finishes (unvisited state) (visit_graph fuel graph i state)
unfolding visit_graph
visit_graph-Finishes zero graph i state h = absurd (omega arith)
visit_graph-Finishes (suc fuel) graph i state h = elim (Option-cases (get_elem? state i)) [
  | inl missing ↦ rw missing refl
  | inr (mark, found) ↦ elim (Bool-cases (mark == 1)) [
    | inl t ↦ rw (found, t) refl
    | inr n ↦ elim (Bool-cases (mark == 2)) [
      | inl t ↦ rw (found, n, t) (omega arith)
      | inr o ↦ elim (Option-cases (get_elem? graph i)) [
        | inl missing ↦ rw (found, n, o, missing) refl
        | inr (targets, row) ↦
            rw (found, n, o, row)
              (visited fuel graph i state (visit_graph-Finishes fuel graph) h targets mark found n
                o)
      ]
    ]
  ]
]

unvisited-replicate : (n : ℕ) → unvisited (replicate n 0) ≡ n
unvisited-replicate zero = refl
unvisited-replicate (suc n) = ap suc (unvisited-replicate n)

-- The fuel of `verify_acyclic`, one more than the number of functions, never runs out: the search
-- of the call graph ends, whatever the graph.
pub verify_acyclic-ends : (graph : List (List ℕ)) → verify_acyclic graph ≢ err out_of_fuel
unfolding verify_acyclic
verify_acyclic-ends graph h =
    let start = unvisited-replicate (length graph) in
    ended _
      (visit_targets (visit_graph (suc (length graph)) graph) (range_onto (length graph) [])
        (replicate (length graph) 0))
      (visit_targets-Finishes (visit_graph (suc (length graph)) graph) (suc (length graph))
        (visit_graph-Finishes (suc (length graph)) graph) (range_onto (length graph) [])
        (replicate (length graph) 0) (omega (arith, start)))
      h
