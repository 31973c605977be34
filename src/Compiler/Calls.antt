-- ===== src/Compiler/Calls.antt =====
-- Calls, requests and returns of a verified function.
use joan.Base.{
  ℕ, ◌≡◌, refl, sym, ap, subst, ◌∙◌, inl, inr, true, not, List, [], ◌∷◌, Option, none, some, Result,
  ok, err, ◌>>=◌, ok_or, ◌!=◌, ◌==◌, nat_eq, string_eq, map_err, arith, >>=-eq-ok, >>-eq-ok,
  reject_if-eq-ok, ok_inj, ok_or-eq-ok, eq_of_!=, String, Bool-cases,
}
use joan.Base.Lists.{length, get_elem?, split_off, all}
use joan.Base.Map.{BTreeMap}
use joan.Base.Set.{BTreeSet, contains}
use joan.Base.Order.{string_ord}
use joan.Ast.Types.{value_type_eq, InformationLabel}
use joan.Canonical.{Digest}
use joan.Ast.Canonical.{CanonicalProgram, is_linear, is_information_flow}
use joan.Bytecode.Model.{
  Value, Instruction, BytecodeFunction, BytecodeProgram, program_linear_schema,
  program_information_schema,
}
use joan.Bytecode.Abstract.{Stack, require_arguments, require_labels, same_types, require_sink}
use joan.Bytecode.Labels.{validate_information_presence, validate_identifier}
use joan.Bytecode.Verify.{
  Abstract, label_or_public, authority_slots, consume_authority, verify_call, verify_request,
  verify_return, verify_instruction,
}
use joan.Compiler.Model.{canonical, RequestIds, Machine}
use joan.Compiler.Stack.{pop, pop_arguments}
use joan.Compiler.Vm.{Frame, returned, Callee, request_id, request_effect, call_function, execute}
use joan.Compiler.Ensures.{Ensures, Ensures-bind}
use joan.Compiler.Typing.{StackTyped, LocalsTyped}
use joan.Compiler.Frames.{split_off_lem, same_types-Typed}
use joan.Compiler.Instructions.{
  Profiled, CalleeTyped, Framed, FrameTyped, OutcomeTyped, next_lem, Keeps,
}

digest_lem :
    {D : Type 0} (r : Result D String) → Ensures (λ (d : D). Unit {0}) (map_err canonical r)
digest_lem (ok d) = tt
digest_lem (err why) = refl

authority_present :
    (slots : BTreeMap String String) (effect : String) (authority : Option String)
    (consumed : BTreeSet String) {consumed' : BTreeSet String}
    → consume_authority true slots effect authority consumed ≡ ok consumed'
    → (slot : String) × (authority ≡ some slot)
unfolding consume_authority
authority_present slots effect none consumed h = cc
authority_present slots effect (some slot) consumed h = (slot, refl)

label_present :
    (information : Option InformationLabel)
    → validate_information_presence true information ≡ ok tt
    → (label : InformationLabel) × (information ≡ some label)
unfolding validate_information_presence
label_present none h = cc
label_present (some label) h = (label, refl)

is_linear-of_flow : (ast : CanonicalProgram) → is_information_flow ast ≡ true → is_linear ast ≡ true
unfolding is_linear is_information_flow
is_linear-of_flow ast h = ground arith

module _ (ids : RequestIds) (program : BytecodeProgram) (profiled : Profiled program) where
  request_id_lem :
      (index : ℕ) (name effect : String) (authority : Option String)
      (information : Option InformationLabel) (arguments : List Value)
      (slots : BTreeMap String String) (consumed : BTreeSet String) {consumed' : BTreeSet String}
      → validate_information_presence (is_information_flow program.canonical_ast) information
        ≡ ok tt
      → consume_authority (is_linear program.canonical_ast) slots effect authority consumed
        ≡ ok consumed'
      → Ensures
          (λ (id : String). Unit {0})
          (request_id ids program index name effect authority information arguments)
  unfolding request_id
  request_id_lem index name effect authority information arguments slots consumed {consumed'} h k =
      elim (Bool-cases (program.schema == program_information_schema)) [
        | inl t ↦
            let flow : is_information_flow program.canonical_ast ≡ true = sym profiled.0 ∙ t in
            let (slot, hs) = authority_present slots effect authority consumed (
              subst (λ b. consume_authority b slots effect authority consumed ≡ ok consumed')
                (is_linear-of_flow program.canonical_ast flow) k) in
            let (label, hl) =
              label_present information
                (subst (λ b. validate_information_presence b information ≡ ok tt) flow h) in
            rw (t, hs, hl)
              (Ensures-bind (λ (d : Digest). Unit {0}) _ (map_err canonical (ids.information _)) _
                (digest_lem (ids.information _)) (λ d hd. tt))
        | inr n ↦ elim (Bool-cases (program.schema == program_linear_schema)) [
          | inl t ↦
              let (slot, hs) = authority_present slots effect authority consumed (
                subst (λ b. consume_authority b slots effect authority consumed ≡ ok consumed')
                  (profiled.1 t) k) in
              rw (n, t, hs)
                (Ensures-bind (λ (d : Digest). Unit {0}) _ (map_err canonical (ids.linear _)) _
                  (digest_lem (ids.linear _)) (λ d hd. tt))
          | inr m ↦ rw (n, m) tt
        ]
      ]

module _ (ids : RequestIds) (program : BytecodeProgram) (profiled : Profiled program)
    (framed : Framed program) (callee : Callee) (function : BytecodeFunction) (f : Frame)
    (a : Abstract) (a' : Abstract) (typed : FrameTyped function f a)
    (called : CalleeTyped program callee) where
  pub execute_call :
      (index count : ℕ)
      → Keeps ids program callee function f a a' typed (Instruction.call index count)
  unfolding verify_instruction verify_call require_arguments execute call_function pop_arguments
  execute_call index count e =
      let (target, e1, k1) = >>=-eq-ok (ok_or (get_elem? program.functions index) _) _ e in
      let (counted, k2) = reject_if-eq-ok (count != target.parameter_count) _ _ k1 in
      let (rest, e3, k3) =
        >>=-eq-ok (require_arguments a.stack target.parameter_types target.parameter_information) _
          k2 in
      let ((values, rest'), e4, k4) =
        >>=-eq-ok (ok_or (split_off (length target.parameter_types) a.stack []) _) _ e3 in
      let (same, k5) = reject_if-eq-ok (not (same_types values target.parameter_types)) _ _ k4 in
      let (e6, k6) = >>-eq-ok (require_labels values target.parameter_information) _ k5 in
      let (e7, k7) =
        reject_if-eq-ok (not (all (λ effect. contains effect function.effects) target.effects)) _ _
          k3 in
      let found = ok_or-eq-ok _ _ e1 in
      let size = eq_of_!= counted ∙ framed index target found in
      let (arguments, left, taken, typed_arguments, below) =
        split_off_lem (length target.parameter_types) f.stack a.stack [] [] typed.0 tt
          (ok_or-eq-ok _ _ e4) in
      let moved = ap (λ n. split_off n f.stack []) size ∙ taken in
      rw moved (
        Ensures-bind _ _ (callee index arguments f.machine) _
          (called index target arguments f.machine found
            (same_types-Typed arguments values target.parameter_types typed_arguments same))
          (λ p hp.
            next_lem function (Instruction.call index count) refl
              (record f { stack = p.0 ∷ left; machine = p.1 }) _ k7
              ((hp, subst (StackTyped left) (ok_inj k6) below), typed.1)))

  request_effect_typed :
      (effect : String) (authority : Option String) (information : Option InformationLabel)
      (count : ℕ)
      → verify_request program function effect authority information count a ≡ ok a'
      → Ensures
          (λ g. FrameTyped function g a')
          (request_effect ids program function effect authority information count f)
  unfolding verify_request request_effect pop_arguments
  request_effect_typed effect authority information count e =
      let (e1, k1) = >>-eq-ok (validate_identifier effect) _ e in
      let (e2, k2) = reject_if-eq-ok (not (contains effect function.effects)) _ _ k1 in
      let ((values, rest), e3, k3) = >>=-eq-ok (ok_or (split_off count a.stack []) _) _ k2 in
      let (present, k4) =
        >>-eq-ok
          (validate_information_presence (is_information_flow program.canonical_ast) information) _
          k3 in
      let (e5, k5) = >>-eq-ok (require_sink values (label_or_public information)) _ k4 in
      let (consumed, e6, k6) =
        >>=-eq-ok
          (consume_authority (is_linear program.canonical_ast) (authority_slots function) effect
            authority a.consumed)
          _ k5 in
      let (arguments, left, taken, typed_arguments, below) =
        split_off_lem count f.stack a.stack [] [] typed.0 tt (ok_or-eq-ok _ _ e3) in
      rw taken (
        Ensures-bind _ _
          (request_id ids program (length f.machine.requests) function.name effect authority
            information arguments)
          _
          (request_id_lem ids program profiled (length f.machine.requests) function.name effect
            authority information arguments (authority_slots function) a.consumed present e6)
          (λ id hid.
            subst
              (λ (b : Abstract).
                StackTyped left b.stack × LocalsTyped f.locals function.local_types b.initialized)
              (ok_inj k6) (below, typed.1)))

  pub execute_request :
      (effect : String) (authority : Option String) (information : Option InformationLabel)
      (count : ℕ)
      → Keeps ids program callee function f a a' typed
          (Instruction.request effect authority information count)
  unfolding verify_instruction execute
  execute_request effect authority information count e =
      Ensures-bind _ _ (request_effect ids program function effect authority information count f) _
        (request_effect_typed effect authority information count e) (λ g hg. (refl, hg))

return_lem :
    (program : BytecodeProgram) (function : BytecodeFunction) (m : Machine) (a : Abstract)
    (stack : List Value) (s : Stack)
    → StackTyped stack s
    → verify_return program function s ≡ ok tt
    → Ensures
        (OutcomeTyped function Instruction.return a)
        (pop stack >>= (λ p. ok (returned p.0 m)))
unfolding verify_return pop
return_lem program function m a stack [] h e = cc
return_lem program function m a stack (x ∷ y ∷ s) h e = cc
return_lem program function m a [] (x ∷ []) h e = absurd h
return_lem program function m a (v ∷ stack) (x ∷ []) h e =
    let (same, e1) = reject_if-eq-ok (x.value_type != function.return_type) _ _ e in
    h.0 ∙ eq_of_!= same

pub execute_return :
    (ids : RequestIds) (program : BytecodeProgram) (callee : Callee) (function : BytecodeFunction)
    (f : Frame) (a a' : Abstract) (typed : FrameTyped function f a)
    → Keeps ids program callee function f a a' typed Instruction.return
unfolding verify_instruction execute
execute_return ids program callee function f a a' typed e =
    let (e1, k1) = >>-eq-ok (verify_return program function a.stack) _ e in
    return_lem program function f.machine a' f.stack a.stack typed.0 e1
