-- ===== src/Compiler/Safety.antt =====
-- The execution of verified functions.
use joan.Base.{
  ℕ, ◌≡◌, refl, true, false, ◌&&◌, List, [], ◌∷◌, ok, nat_eq, arith, >>=-eq-ok, reject_if-eq-ok,
  ltb,
}
use joan.Base.Lists.{length}
use joan.Ast.Types.{value_type_eq}
use joan.Bytecode.Model.{Value, value_type, Instruction, BytecodeFunction, BytecodeProgram}
use joan.Bytecode.Verify.{
  Abstract, is_return, verify_instruction, verify_instructions, last_is_return,
}
use joan.Compiler.Model.{RequestIds, Machine, consume_instruction}
use joan.Compiler.Vm.{Frame, Outcome, next, returned, Callee, execute, run}
use joan.Compiler.Ensures.{Ensures, Ensures-bind}
use joan.Compiler.Instructions.{
  Profiled, CalleeTyped, Framed, FrameTyped, OutcomeTyped, Keeps, execute_push, execute_load,
  execute_store, execute_pop, execute_negate, execute_not, execute_integer, execute_compare,
  execute_boolean, execute_equality,
}
use joan.Compiler.Calls.{execute_call, execute_request, execute_return}

consume_lem : (m : Machine) → Ensures (λ (m' : Machine). Unit {0}) (consume_instruction m)
unfolding consume_instruction
consume_lem m = ground arith

module _ (ids : RequestIds) (program : BytecodeProgram) (profiled : Profiled program)
    (framed : Framed program) (callee : Callee) (function : BytecodeFunction)
    (called : CalleeTyped program callee) where
  execute_typed :
      (i : Instruction) (f : Frame) (a a' : Abstract) (typed : FrameTyped function f a)
      → Keeps ids program callee function f a a' typed i
  unfolding verify_instruction execute
  execute_typed (Instruction.push v) f a a' t e =
      execute_push ids program callee function f a a' t v e
  execute_typed (Instruction.load_local slot) f a a' t e =
      execute_load ids program callee function f a a' t slot e
  execute_typed (Instruction.store_local slot) f a a' t e =
      execute_store ids program callee function f a a' t slot e
  execute_typed Instruction.pop f a a' t e = execute_pop ids program callee function f a a' t e
  execute_typed Instruction.negate f a a' t e =
      execute_negate ids program callee function f a a' t e
  execute_typed Instruction.not_ f a a' t e = execute_not ids program callee function f a a' t e
  execute_typed Instruction.add f a a' t e =
      execute_integer ids program callee function f a a' t Instruction.add _ refl e
  execute_typed Instruction.subtract f a a' t e =
      execute_integer ids program callee function f a a' t Instruction.subtract _ refl e
  execute_typed Instruction.multiply f a a' t e =
      execute_integer ids program callee function f a a' t Instruction.multiply _ refl e
  execute_typed Instruction.divide f a a' t e =
      execute_integer ids program callee function f a a' t Instruction.divide _ refl e
  execute_typed Instruction.remainder f a a' t e =
      execute_integer ids program callee function f a a' t Instruction.remainder _ refl e
  execute_typed Instruction.less f a a' t e =
      execute_compare ids program callee function f a a' t Instruction.less _ refl e
  execute_typed Instruction.less_equal f a a' t e =
      execute_compare ids program callee function f a a' t Instruction.less_equal _ refl e
  execute_typed Instruction.greater f a a' t e =
      execute_compare ids program callee function f a a' t Instruction.greater _ refl e
  execute_typed Instruction.greater_equal f a a' t e =
      execute_compare ids program callee function f a a' t Instruction.greater_equal _ refl e
  execute_typed Instruction.and f a a' t e =
      execute_boolean ids program callee function f a a' t Instruction.and _ refl e
  execute_typed Instruction.or f a a' t e =
      execute_boolean ids program callee function f a a' t Instruction.or _ refl e
  execute_typed Instruction.equal f a a' t e =
      execute_equality ids program callee function f a a' t Instruction.equal false refl e
  execute_typed Instruction.not_equal f a a' t e =
      execute_equality ids program callee function f a a' t Instruction.not_equal true refl e
  execute_typed (Instruction.call index count) f a a' t e =
      execute_call ids program profiled framed callee function f a a' t called index count e
  execute_typed (Instruction.request effect authority information count) f a a' t e =
      execute_request ids program profiled framed callee function f a a' t called effect authority
        information count e
  execute_typed Instruction.return f a a' t e =
      execute_return ids program callee function f a a' t e

  abbrev pub Returns : Value × Machine → Type 0
  Returns p = value_type p.0 ≡ function.return_type

  outcome_lem :
      (i : Instruction) (rest : List Instruction) (a : Abstract) (o : Outcome)
      → OutcomeTyped function i a o
      → ((g : Frame)
          → is_return i ≡ false
          → FrameTyped function g a
          → Ensures Returns (run ids program callee function rest g))
      → Ensures Returns
          (elim o [ next g ↦ run ids program callee function rest g | returned v m ↦ ok (v, m) ])
  outcome_lem i rest a (next g) h k = k g h.0 h.1
  outcome_lem i rest a (returned v m) h k = h

  -- A function that ends with its return runs to a value of its type.
  pub run_typed :
      (code : List Instruction) (f : Frame) (a : Abstract) (depth : ℕ) {r : Abstract × ℕ}
      → FrameTyped function f a
      → last_is_return code ≡ true
      → verify_instructions program function code a depth ≡ ok r
      → Ensures Returns (run ids program callee function code f)
  unfolding verify_instructions run
  run_typed [] f a depth t l e = cc
  run_typed (i ∷ []) f a depth t l e =
      let (e1, k1) = reject_if-eq-ok (is_return i && false) _ _ e in
      let (a', e2, k2) = >>=-eq-ok (verify_instruction program function i a) _ k1 in
      Ensures-bind _ _ (consume_instruction f.machine) _ (consume_lem f.machine) (λ m hm.
        Ensures-bind _ _ (execute ids program callee function i (record f { machine = m })) _
          (execute_typed i (record f { machine = m }) a a' t e2)
          (λ o ho. outcome_lem i [] a' o ho (λ g c hg. cc (l, c))))
  run_typed (i ∷ j ∷ rest) f a depth t l e =
      let (e1, k1) = reject_if-eq-ok (is_return i && true) _ _ e in
      let (a', e2, k2) = >>=-eq-ok (verify_instruction program function i a) _ k1 in
      let (e3, k3) = reject_if-eq-ok (ltb _ (length a'.stack)) _ _ k2 in
      Ensures-bind _ _ (consume_instruction f.machine) _ (consume_lem f.machine) (λ m hm.
        Ensures-bind _ _ (execute ids program callee function i (record f { machine = m })) _
          (execute_typed i (record f { machine = m }) a a' t e2)
          (λ o ho.
            outcome_lem i (j ∷ rest) a' o ho (λ g c hg. run_typed (j ∷ rest) g a' _ hg l k3)))
