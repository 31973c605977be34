-- ===== src/Bytecode/Linear.antt =====
-- The authority slots that a verified function requests.
use joan.Base.{
  ℕ, ◌+◌, ◌≡◌, ◌≢◌, refl, sym, ap, subst, ◌∙◌, true, false, not, ◌&&◌, String, List, [], ◌∷◌, ◌++◌,
  Option, none, some, Result, ok, ok_or, ◌!=◌, nat_eq, string_eq, arith, >>=-eq-ok, >>-eq-ok,
  reject_if-eq-ok, ok_inj, ok_or-eq-ok, eq_of_!=, ltb,
}
use joan.Base.Lists.{length, get_elem?, is_nil, All, all, split_off}
use joan.Base.Map
use joan.Base.Map.{BTreeMap}
use joan.Base.Set.{
  BTreeSet, contains, insert, contains-insert_self, contains-insert_mono, length-insert_new,
}
use joan.Base.Order.{string_ord}
use joan.Ast.Types.{value_type_eq, InformationLabel}
use joan.Ast.Canonical.{is_linear, is_information_flow}
use joan.Bytecode.Model.{Instruction, BytecodeFunction, BytecodeProgram, BytecodeError}
use joan.Bytecode.Abstract.{
  Stack, pop_type, require_pop, require_information_flow, join_information, require_arguments,
  require_sink,
}
use joan.Bytecode.Labels.{validate_identifier, validate_information_presence}
use joan.Bytecode.Verify.{
  Abstract, local_label, label_or_public, authority_slots, consume_authority, is_return, on_stack,
  verify_load, verify_store, verify_equality, verify_call, verify_request, verify_return,
  verify_instruction, verify_instructions, verify_function, initial_locals, last_is_return,
  max_stack_depth,
}

-- The slot and the effect of each request that names a slot.
abbrev pub requested : Instruction → List (String × String)
requested (Instruction.request effect (some authority) information count) = (authority, effect) ∷ []
requested _ = []

abbrev pub requests_of : List Instruction → List (String × String)
requests_of [] = []
requests_of (i ∷ code) = requested i ++ requests_of code

abbrev pub Distinct : List (String × String) → Type 0
Distinct [] = Unit
Distinct (q ∷ rest) = All (λ (p : String × String). p.0 ≢ q.0) rest × Distinct rest

-- Each request takes a slot of its effect.
abbrev pub Permitted : BTreeMap String String → List (String × String) → Type 0
Permitted slots qs = All (λ (q : String × String). Map.get q.0 slots ≡ some q.1) qs

abbrev Fresh : BTreeSet String → List (String × String) → Type 0
Fresh consumed qs = All (λ (q : String × String). contains q.0 consumed ≡ false) qs

-- What the requests of one instruction do to the slots consumed.
abbrev Consumed :
    BTreeMap String String → List (String × String) → BTreeSet String → BTreeSet String → Type 0
Consumed slots [] c c' = c' ≡ c
Consumed slots (q ∷ []) c c' =
    (Map.get q.0 slots ≡ some q.1) × (contains q.0 c ≡ false) × (c' ≡ insert q.0 c)
Consumed slots (q ∷ r ∷ rest) c c' = ⊥

-- What the requests of a sequence of instructions do to them.
abbrev Spent :
    BTreeMap String String → List (String × String) → BTreeSet String → BTreeSet String → Type 0
Spent slots qs c c' =
    Permitted slots qs × Fresh c qs × Distinct qs × (length c' ≡ length c + length qs)

Fresh-insert :
    (k : String) (c : BTreeSet String) (qs : List (String × String))
    → Fresh (insert k c) qs
    → Fresh c qs × All (λ (p : String × String). p.0 ≢ k) qs
Fresh-insert k c [] h = (tt, tt)
Fresh-insert k c (q ∷ qs) h =
    let (kept, others) = Fresh-insert k c qs h.1 in
    (
      (ground (arith, contains-insert_mono k q.0 c), kept),
      (
        λ (e : q.0 ≡ k). cc (h.0, contains-insert_self k c, ap (λ j. contains j (insert k c)) e),
        others,
      ),
    )

Spent-step :
    (slots : BTreeMap String String) (one rest : List (String × String)) (c c1 c2 : BTreeSet String)
    → Consumed slots one c c1
    → Spent slots rest c1 c2
    → Spent slots (one ++ rest) c c2
Spent-step slots [] rest c c1 c2 h k = subst (λ x. Spent slots rest x c2) h k
Spent-step slots (q ∷ []) rest c c1 c2 h k =
    let (permitted, fresh, distinct, size) = k in
    let (fresh', others) = Fresh-insert q.0 c rest (subst (λ x. Fresh x rest) h.2 fresh) in
    (
      (h.0, permitted),
      (h.1, fresh'),
      (others, distinct),
      omega (arith, size, ap length h.2, length-insert_new q.0 c h.1),
    )
Spent-step slots (q ∷ r ∷ more) rest c c1 c2 h k = absurd h

consume_authority-Consumed :
    (slots : BTreeMap String String) (effect : String) (authority : Option String)
    (information : Option InformationLabel) (count : ℕ) (c : BTreeSet String) {c' : BTreeSet String}
    → consume_authority true slots effect authority c ≡ ok c'
    → Consumed slots (requested (Instruction.request effect authority information count)) c c'
unfolding consume_authority
consume_authority-Consumed slots effect none information count c h = cc
consume_authority-Consumed slots effect (some authority) information count c h =
    let (allowed, e1, k1) = >>=-eq-ok (ok_or (Map.get authority slots) _) _ h in
    let (e2, k2) = reject_if-eq-ok (allowed != effect) _ _ k1 in
    let (e3, k3) = reject_if-eq-ok (contains authority c) _ _ k2 in
    (ok_or-eq-ok _ _ e1 ∙ ap some (eq_of_!= e2), e3, sym (ok_inj k3))

module _ (program : BytecodeProgram) (function : BytecodeFunction)
    (linear : is_linear program.canonical_ast ≡ true) where
  same :
      (a b : Abstract) {a' : Abstract}
      → b.consumed ≡ a.consumed
      → ◌≡◌ {A = Result Abstract BytecodeError} (ok b) (ok a')
      → a'.consumed ≡ a.consumed
  same a b e h = ap (λ (x : Abstract). x.consumed) (sym (ok_inj h)) ∙ e

  on_stack-same :
      (a : Abstract) (r : Result Stack BytecodeError) {a' : Abstract}
      → on_stack a r ≡ ok a'
      → a'.consumed ≡ a.consumed
  on_stack-same a r h = let (s, e1, k1) = >>=-eq-ok r _ h in same a _ refl k1

  equality-same :
      (a : Abstract) {a' : Abstract}
      → verify_equality program function a ≡ ok a'
      → a'.consumed ≡ a.consumed
  unfolding verify_equality
  equality-same a h =
      let (p, e1, k1) = >>=-eq-ok (pop_type a.stack) _ h in
      let (q, e2, k2) = >>=-eq-ok (pop_type p.1) _ k1 in
      let (e3, k3) = reject_if-eq-ok (q.0.value_type != p.0.value_type) _ _ k2 in
      let (l, e4, k4) = >>=-eq-ok (join_information q.0.information p.0.information) _ k3 in
      same a _ refl k4

  verify_instruction-Consumed :
      (i : Instruction) (a : Abstract) {a' : Abstract}
      → verify_instruction program function i a ≡ ok a'
      → Consumed (authority_slots function) (requested i) a.consumed a'.consumed
  unfolding verify_instruction verify_load verify_store verify_call verify_request
  verify_instruction-Consumed (Instruction.push v) a h = same a _ refl h
  verify_instruction-Consumed (Instruction.load_local slot) a h =
      let (t, e1, k1) = >>=-eq-ok (ok_or (get_elem? function.local_types slot) _) _ h in
      let (b, e2, k2) = >>=-eq-ok (ok_or (get_elem? a.initialized slot) _) _ k1 in
      let (e3, k3) = reject_if-eq-ok (not b) _ _ k2 in
      let (l, e4, k4) = >>=-eq-ok (local_label function.local_information slot) _ k3 in
      same a _ refl k4
  verify_instruction-Consumed (Instruction.store_local slot) a h =
      let (t, e1, k1) = >>=-eq-ok (ok_or (get_elem? function.local_types slot) _) _ h in
      let (b, e2, k2) = >>=-eq-ok (ok_or (get_elem? a.initialized slot) _) _ k1 in
      let (e3, k3) = reject_if-eq-ok b _ _ k2 in
      let (p, e4, k4) = >>=-eq-ok (require_pop a.stack t) _ k3 in
      let (l, e5, k5) = >>=-eq-ok (local_label function.local_information slot) _ k4 in
      let (e6, k6) = >>-eq-ok (require_information_flow p.0.information l) _ k5 in same a _ refl k6
  verify_instruction-Consumed Instruction.pop a h =
      let (p, e1, k1) = >>=-eq-ok (pop_type a.stack) _ h in same a _ refl k1
  verify_instruction-Consumed Instruction.negate a h = on_stack-same a _ h
  verify_instruction-Consumed Instruction.not_ a h = on_stack-same a _ h
  verify_instruction-Consumed Instruction.add a h = on_stack-same a _ h
  verify_instruction-Consumed Instruction.subtract a h = on_stack-same a _ h
  verify_instruction-Consumed Instruction.multiply a h = on_stack-same a _ h
  verify_instruction-Consumed Instruction.divide a h = on_stack-same a _ h
  verify_instruction-Consumed Instruction.remainder a h = on_stack-same a _ h
  verify_instruction-Consumed Instruction.less a h = on_stack-same a _ h
  verify_instruction-Consumed Instruction.less_equal a h = on_stack-same a _ h
  verify_instruction-Consumed Instruction.greater a h = on_stack-same a _ h
  verify_instruction-Consumed Instruction.greater_equal a h = on_stack-same a _ h
  verify_instruction-Consumed Instruction.and a h = on_stack-same a _ h
  verify_instruction-Consumed Instruction.or a h = on_stack-same a _ h
  verify_instruction-Consumed Instruction.equal a h = equality-same a h
  verify_instruction-Consumed Instruction.not_equal a h = equality-same a h
  verify_instruction-Consumed (Instruction.call index count) a h =
      let (g, e1, k1) = >>=-eq-ok (ok_or (get_elem? program.functions index) _) _ h in
      let (e2, k2) = reject_if-eq-ok (count != g.parameter_count) _ _ k1 in
      let (s, e3, k3) =
        >>=-eq-ok (require_arguments a.stack g.parameter_types g.parameter_information) _ k2 in
      let (e4, k4) =
        reject_if-eq-ok (not (all (λ effect. contains effect function.effects) g.effects)) _ _ k3 in
      same a _ refl k4
  verify_instruction-Consumed (Instruction.request effect authority information count) a h =
      let (e1, k1) = >>-eq-ok (validate_identifier effect) _ h in
      let (e2, k2) = reject_if-eq-ok (not (contains effect function.effects)) _ _ k1 in
      let (p, e3, k3) = >>=-eq-ok (ok_or (split_off count a.stack []) _) _ k2 in
      let (e4, k4) =
        >>-eq-ok
          (validate_information_presence (is_information_flow program.canonical_ast) information) _
          k3 in
      let (e5, k5) = >>-eq-ok (require_sink p.0 (label_or_public information)) _ k4 in
      let (c, e6, k6) =
        >>=-eq-ok
          (consume_authority (is_linear program.canonical_ast) (authority_slots function) effect
            authority a.consumed)
          _ k5 in
      subst
        (λ (x : Abstract).
          Consumed (authority_slots function)
            (requested (Instruction.request effect authority information count)) a.consumed
            x.consumed)
        (ok_inj k6)
        (consume_authority-Consumed (authority_slots function) effect authority information count
          a.consumed
          (subst
            (λ b. consume_authority b (authority_slots function) effect authority a.consumed ≡ ok c)
            linear e6))
  verify_instruction-Consumed Instruction.return a h =
      let (e1, k1) = >>-eq-ok (verify_return program function a.stack) _ h in same a _ refl k1

  verify_instructions-Spent :
      (code : List Instruction) (a : Abstract) (depth : ℕ) {r : Abstract × ℕ}
      → verify_instructions program function code a depth ≡ ok r
      → Spent (authority_slots function) (requests_of code) a.consumed r.0.consumed
  unfolding verify_instructions
  verify_instructions-Spent [] a depth {r} h =
      (tt, tt, tt, omega (arith, ap (λ (x : Abstract × ℕ). length x.0.consumed) (ok_inj h)))
  verify_instructions-Spent (i ∷ rest) a depth {r} h =
      let (e1, k1) = reject_if-eq-ok (is_return i && not (is_nil rest)) _ _ h in
      let (b, e2, k2) = >>=-eq-ok (verify_instruction program function i a) _ k1 in
      let (e3, k3) = reject_if-eq-ok (ltb max_stack_depth (length b.stack)) _ _ k2 in
      Spent-step (authority_slots function) (requested i) (requests_of rest) a.consumed b.consumed
        r.0.consumed (verify_instruction-Consumed i a e2) (verify_instructions-Spent rest b _ k3)

-- A verified function of an artifact with linear authority requests with each of its slots at most
-- once, only with slots of its table, and only the effect that the slot permits; and it makes as
-- many such requests as its table has slots.
pub verify_function_linear :
    (program : BytecodeProgram) (function : BytecodeFunction) {r : ℕ × List ℕ}
    → is_linear program.canonical_ast ≡ true
    → verify_function program function ≡ ok r
    → Permitted (authority_slots function) (requests_of function.instructions)
      × Distinct (requests_of function.instructions)
      × (length (requests_of function.instructions) ≡ length (authority_slots function))
unfolding verify_function
verify_function_linear program function linear h =
    let (bs, e1, k1) =
      >>=-eq-ok (initial_locals function.parameter_count function.local_count) _ h in
    let (ad, e2, k2) =
      >>=-eq-ok (verify_instructions program function function.instructions _ 0) _ k1 in
    let (e3, k3) = reject_if-eq-ok (not (last_is_return function.instructions)) _ _ k2 in
    let (e4, k4) =
      reject_if-eq-ok (length ad.0.consumed != length (authority_slots function)) _ _ k3 in
    let (permitted, fresh, distinct, size) =
      verify_instructions-Spent program function linear function.instructions _ 0 e2 in
    let full : length ad.0.consumed ≡ length (authority_slots function) = eq_of_!= e4 in
    (permitted, distinct, omega (arith, size, full))
