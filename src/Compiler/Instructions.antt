-- ===== src/Compiler/Instructions.antt =====
-- One instruction of a verified function.
use joan.Base.{
  ℕ, ◌≡◌, refl, subst, ◌∙◌, Bool, true, false, not, List, ◌∷◌, Option, none, some, Result, ok,
  ok_or, ◌!=◌, ◌==◌, nat_eq, string_eq, >>=-eq-ok, >>-eq-ok, reject_if-eq-ok, ok_inj, ok_or-eq-ok,
}
use joan.Base.Int.{ℤ, checked_neg}
use joan.Base.Lists.{length, get_elem?, set}
use joan.Base.Order.{string_ord}
use joan.Ast.Types.{ValueType, value_type_eq}
use joan.Ast.Canonical.{is_linear, is_information_flow}
use joan.Bytecode.Model.{
  Value, value_type, Instruction, BytecodeFunction, BytecodeProgram, BytecodeError,
  program_linear_schema, program_information_schema,
}
use joan.Bytecode.Abstract.{
  Stack, pop_type, require_pop, unary_type, binary_type, require_information_flow, join_information,
}
use joan.Bytecode.Verify.{
  Abstract, local_label, label_or_public, authority_slots, consume_authority, is_return,
  verify_load, verify_store, verify_equality, verify_call, verify_request, verify_return,
  verify_instruction,
}
use joan.Bytecode.Verify
use joan.Compiler.Model.{LanguageError, runtime, RequestIds, Machine, negation_overflow}
use joan.Compiler.Stack.{
  pop, pop_i64, pop_bool, integer_binary, boolean_binary, compare_i64, compare_equal,
}
use joan.Compiler.Vm.{Frame, Outcome, next, returned, Callee, on_stack, execute}
use joan.Compiler.Ensures.{Ensures, Ensures-bind}
use joan.Compiler.Typing.{
  StackTyped, Typed, LocalsTyped, require_pop-eq-ok, pop_lem, pop_i64_lem, pop_bool_lem,
  integer_binary_lem, compare_i64_lem, boolean_binary_lem,
}
use joan.Compiler.Frames.{load_lem, store_lem, get_elem?_lem}

-- What the verifier's profile says of a program's two schemas.
abbrev pub Profiled : BytecodeProgram → Type 0
Profiled p =
    ((p.schema == program_information_schema) ≡ is_information_flow p.canonical_ast)
    × ((p.schema == program_linear_schema) ≡ true → is_linear p.canonical_ast ≡ true)

-- The callee returns a value of the function's type.
abbrev pub CalleeTyped : BytecodeProgram → Callee → Type 0
CalleeTyped program callee =
    (index : ℕ) (f : BytecodeFunction) (arguments : List Value) (m : Machine)
    → get_elem? program.functions index ≡ some f
    → Typed arguments f.parameter_types
    → Ensures (λ (p : Value × Machine). value_type p.0 ≡ f.return_type) (callee index arguments m)

abbrev pub Framed : BytecodeProgram → Type 0
Framed program =
    (index : ℕ) (f : BytecodeFunction)
    → get_elem? program.functions index ≡ some f
    → f.parameter_count ≡ length f.parameter_types

abbrev pub FrameTyped : BytecodeFunction → Frame → Abstract → Type 0
FrameTyped function f a =
    StackTyped f.stack a.stack × LocalsTyped f.locals function.local_types a.initialized

-- Only a return ends the function.
abbrev pub OutcomeTyped : BytecodeFunction → Instruction → Abstract → Outcome → Type 0
OutcomeTyped function i a (next g) = (is_return i ≡ false) × FrameTyped function g a
OutcomeTyped function i a (returned v m) = value_type v ≡ function.return_type

module _ (function : BytecodeFunction) (i : Instruction) (continues : is_return i ≡ false) where
  pub next_lem :
      (g : Frame) (b : Abstract) {a' : Abstract}
      → ◌≡◌ {A = Result Abstract BytecodeError} (ok b) (ok a')
      → FrameTyped function g b
      → OutcomeTyped function i a' (next g)
  next_lem g b e h = subst (λ a. OutcomeTyped function i a (next g)) (ok_inj e) (continues, h)

  on_stack_lem :
      (f : Frame) (a : Abstract) (r : Result Stack BytecodeError)
      (r' : Result (List Value) LanguageError) {a' : Abstract}
      → FrameTyped function f a
      → Verify.on_stack a r ≡ ok a'
      → ((s' : Stack) → r ≡ ok s' → Ensures (λ stack. StackTyped stack s') r')
      → Ensures (OutcomeTyped function i a') (on_stack f r')
  on_stack_lem f a r r' h e k =
      let (s', e1, e2) = >>=-eq-ok r _ e in
      Ensures-bind _ _ r' _ (k s' e1)
        (λ stack hs. next_lem (record f { stack = stack }) (record a { stack = s' }) e2 (hs, h.1))

negation_lem : (o : Option ℤ) → Ensures (λ (n : ℤ). Unit {0}) (ok_or o (runtime negation_overflow))
negation_lem none = refl
negation_lem (some n) = tt

-- The instructions that move and compute values.
module _ (ids : RequestIds) (program : BytecodeProgram) (callee : Callee)
    (function : BytecodeFunction) (f : Frame) (a : Abstract) (a' : Abstract)
    (typed : FrameTyped function f a) where
  abbrev pub Keeps : Instruction → Type 0
  Keeps i =
      verify_instruction program function i a ≡ ok a'
      → Ensures (OutcomeTyped function i a') (execute ids program callee function i f)

  pub execute_push : (v : Value) → Keeps (Instruction.push v)
  unfolding verify_instruction execute
  execute_push v e =
      next_lem function (Instruction.push v) refl (record f { stack = v ∷ f.stack }) _ e
        ((refl, typed.0), typed.1)

  pub execute_load : (slot : ℕ) → Keeps (Instruction.load_local slot)
  unfolding verify_instruction verify_load execute
  execute_load slot e =
      let (t, e1, k1) = >>=-eq-ok (ok_or (get_elem? function.local_types slot) _) _ e in
      let (b, e2, k2) = >>=-eq-ok (ok_or (get_elem? a.initialized slot) _) _ k1 in
      let (e3, k3) = reject_if-eq-ok (not b) _ _ k2 in
      let (l, e4, k4) = >>=-eq-ok (local_label function.local_information slot) _ k3 in
      let (v, hv, ht) =
        load_lem f.locals function.local_types a.initialized slot typed.1 (ok_or-eq-ok _ _ e1)
          (ok_or-eq-ok _ _ e2) e3 in
      rw hv (
        next_lem function (Instruction.load_local slot) refl (record f { stack = v ∷ f.stack }) _ k4
          ((ht, typed.0), typed.1))

  pub execute_store : (slot : ℕ) → Keeps (Instruction.store_local slot)
  unfolding verify_instruction verify_store execute
  execute_store slot e =
      let (t, e1, k1) = >>=-eq-ok (ok_or (get_elem? function.local_types slot) _) _ e in
      let (b, e2, k2) = >>=-eq-ok (ok_or (get_elem? a.initialized slot) _) _ k1 in
      let (e3, k3) = reject_if-eq-ok b _ _ k2 in
      let ((top, rest), e4, k4) = >>=-eq-ok (require_pop a.stack t) _ k3 in
      let (l, e5, k5) = >>=-eq-ok (local_label function.local_information slot) _ k4 in
      let (e6, k6) = >>-eq-ok (require_information_flow top.information l) _ k5 in
      let (popped, same) = require_pop-eq-ok a.stack t e4 in
      let (w, hw) =
        get_elem?_lem f.locals function.local_types a.initialized slot typed.1
          (ok_or-eq-ok _ _ e1) in
      Ensures-bind _ _ (pop f.stack) _ (pop_lem f.stack a.stack typed.0 popped) (λ p hp. rw hw (
        next_lem function (Instruction.store_local slot) refl
          (record f { stack = p.1; locals = set f.locals slot p.0 }) _ k6
          (
            hp.1,
            store_lem f.locals function.local_types a.initialized slot p.0 typed.1
                (ok_or-eq-ok _ _ e1) (hp.0 ∙ same),
          )))

  pub execute_pop : Keeps Instruction.pop
  unfolding verify_instruction execute
  execute_pop e =
      let ((top, rest), e1, k1) = >>=-eq-ok (pop_type a.stack) _ e in
      Ensures-bind _ _ (pop f.stack) _ (pop_lem f.stack a.stack typed.0 e1) (λ p hp.
        next_lem function Instruction.pop refl (record f { stack = p.1 }) _ k1 (hp.1, typed.1))

  pub execute_negate : Keeps Instruction.negate
  unfolding verify_instruction unary_type execute
  execute_negate e =
      let (s', e1, k1) = >>=-eq-ok (unary_type a.stack ValueType.i64 ValueType.i64) _ e in
      let ((top, rest), e2, k2) = >>=-eq-ok (require_pop a.stack ValueType.i64) _ e1 in
      Ensures-bind _ _ (pop_i64 f.stack) _ (pop_i64_lem f.stack a.stack typed.0 e2) (λ p hp.
        Ensures-bind (λ (n : ℤ). Unit {0}) _ (ok_or (checked_neg p.0) _) _
          (negation_lem (checked_neg p.0))
          (λ n hn.
            next_lem function Instruction.negate refl (record f { stack = Value.i64 n ∷ p.1 })
              (record a { stack = s' }) k1
              (subst (StackTyped (Value.i64 n ∷ p.1)) (ok_inj k2) (refl, hp), typed.1)))

  pub execute_not : Keeps Instruction.not_
  unfolding verify_instruction unary_type execute
  execute_not e =
      let (s', e1, k1) = >>=-eq-ok (unary_type a.stack ValueType.bool ValueType.bool) _ e in
      let ((top, rest), e2, k2) = >>=-eq-ok (require_pop a.stack ValueType.bool) _ e1 in
      Ensures-bind _ _ (pop_bool f.stack) _ (pop_bool_lem f.stack a.stack typed.0 e2) (λ p hp.
        next_lem function Instruction.not_ refl (record f { stack = Value.bool (not p.0) ∷ p.1 })
          (record a { stack = s' }) k1
          (subst (StackTyped (Value.bool (not p.0) ∷ p.1)) (ok_inj k2) (refl, hp), typed.1))

  pub execute_integer :
      (i : Instruction) (operation : ℤ → ℤ → Option ℤ)
      → is_return i ≡ false
      → Verify.on_stack a (binary_type a.stack ValueType.i64 ValueType.i64) ≡ ok a'
      → Ensures (OutcomeTyped function i a') (on_stack f (integer_binary f.stack operation))
  execute_integer i operation c e =
      on_stack_lem function i c f a (binary_type a.stack ValueType.i64 ValueType.i64)
        (integer_binary f.stack operation) typed e
        (λ s'. integer_binary_lem f.stack a.stack typed.0 operation)

  pub execute_compare :
      (i : Instruction) (operation : ℤ → ℤ → Bool)
      → is_return i ≡ false
      → Verify.on_stack a (binary_type a.stack ValueType.i64 ValueType.bool) ≡ ok a'
      → Ensures (OutcomeTyped function i a') (on_stack f (compare_i64 f.stack operation))
  execute_compare i operation c e =
      on_stack_lem function i c f a (binary_type a.stack ValueType.i64 ValueType.bool)
        (compare_i64 f.stack operation) typed e
        (λ s'. compare_i64_lem f.stack a.stack typed.0 operation)

  pub execute_boolean :
      (i : Instruction) (operation : Bool → Bool → Bool)
      → is_return i ≡ false
      → Verify.on_stack a (binary_type a.stack ValueType.bool ValueType.bool) ≡ ok a'
      → Ensures (OutcomeTyped function i a') (on_stack f (boolean_binary f.stack operation))
  execute_boolean i operation c e =
      on_stack_lem function i c f a (binary_type a.stack ValueType.bool ValueType.bool)
        (boolean_binary f.stack operation) typed e
        (λ s'. boolean_binary_lem f.stack a.stack typed.0 operation)

  pub execute_equality :
      (i : Instruction) (invert : Bool)
      → is_return i ≡ false
      → verify_equality program function a ≡ ok a'
      → Ensures (OutcomeTyped function i a') (on_stack f (compare_equal f.stack invert))
  unfolding verify_equality compare_equal
  execute_equality i invert c e =
      let ((right, below), e1, k1) = >>=-eq-ok (pop_type a.stack) _ e in
      let ((left, rest), e2, k2) = >>=-eq-ok (pop_type below) _ k1 in
      let (same, k3) = reject_if-eq-ok (left.value_type != right.value_type) _ _ k2 in
      let (l, e4, k4) = >>=-eq-ok (join_information left.information right.information) _ k3 in
      let b : Abstract = record a {
        stack = (record { value_type = ValueType.bool; information = l }) ∷ rest;
      } in
      Ensures-bind (λ stack. StackTyped stack b.stack) _ (compare_equal f.stack invert) _
        (Ensures-bind _ _ (pop f.stack) _ (pop_lem f.stack a.stack typed.0 e1)
          (λ p hp. Ensures-bind _ _ (pop p.1) _ (pop_lem p.1 below hp.1 e2) (λ q hq. (refl, hq.1))))
        (λ stack hs. next_lem function i c (record f { stack = stack }) b k4 (hs, typed.1))
