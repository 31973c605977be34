-- ===== src/Compiler/Accounting.antt =====
-- The budget and the numbers of the requests, whatever the program.
use joan.Base.{
  ℕ, suc, zero, ◌+◌, ◌≤◌, ◌≡◌, refl, sym, subst, List, [], ◌∷◌, ◌++◌, Result, ok, ok_or, ◌==◌,
  nat_eq, string_eq, arith, >>=-eq-ok, reject_if-eq-ok, ok_inj, ◌!=◌, map_err,
}
use joan.Base.Int.{checked_neg}
use joan.Base.Lists.{length, get_elem?, replicate}
use joan.Bytecode.Model.{Value, Instruction, BytecodeFunction, BytecodeProgram}
use joan.Bytecode.Artifact.{Services, verify_bytecode}
use joan.Compiler.Model.{
  LanguageError, EffectRequest, RequestIds, Machine, consume_instruction, bytecode, max_call_depth,
}
use joan.Compiler.Stack.{pop, pop_i64, pop_bool, pop_arguments}
use joan.Compiler.Vm.{
  Frame, Outcome, next, returned, Callee, on_stack, request_id, request_effect, call_function,
  execute, run, call, fill_locals,
}
use joan.Compiler.Execute.{ExecutionReceipt, execute_bytecode, new_machine}

-- The requests bear their positions, from the number given on.
abbrev pub IsNumbered : ℕ → List EffectRequest → Type 0
IsNumbered n [] = Unit
IsNumbered n (r ∷ requests) = (r.request_index ≡ n) × IsNumbered (suc n) requests

-- Of the budget, what is not left is executed.
abbrev Accounts : ℕ → Machine → Type 0
Accounts budget m = (m.executed + m.remaining ≡ budget) × IsNumbered 0 m.requests

IsNumbered-push :
    (n : ℕ) (requests : List EffectRequest) (r : EffectRequest)
    → IsNumbered n requests
    → r.request_index ≡ n + length requests
    → IsNumbered n (requests ++ (r ∷ []))
IsNumbered-push n [] r h e = (omega arith, tt)
IsNumbered-push n (q ∷ requests) r h e = (h.0, IsNumbered-push (suc n) requests r h.1 (omega arith))

abbrev machine_of : Outcome → Machine
machine_of (next g) = g.machine
machine_of (returned v m) = m

abbrev CalleeAccounts : ℕ → Callee → Type 0
CalleeAccounts budget callee =
    (index : ℕ) (arguments : List Value) (m : Machine) (r : Value × Machine)
    → Accounts budget m
    → callee index arguments m ≡ ok r
    → Accounts budget r.1

consume-Accounts :
    (budget : ℕ) (m : Machine) {m' : Machine}
    → Accounts budget m
    → consume_instruction m ≡ ok m'
    → Accounts budget m'
unfolding consume_instruction
consume-Accounts budget m {m'} h e =
    let (left, k) = reject_if-eq-ok (m.remaining == 0) _ _ e in
    subst (Accounts budget) (ok_inj k) (ground arith, h.1)

module _ (ids : RequestIds) (program : BytecodeProgram) (callee : Callee)
    (function : BytecodeFunction) (budget : ℕ) (called : CalleeAccounts budget callee) where
  kept :
      (f : Frame) (g : Frame) {o : Outcome}
      → g.machine ≡ f.machine
      → Accounts budget f.machine
      → ◌≡◌ {A = Result Outcome LanguageError} (ok (next g)) (ok o)
      → Accounts budget (machine_of o)
  kept f g {o} same h e =
      subst (λ o'. Accounts budget (machine_of o')) (ok_inj e)
        (subst (Accounts budget) (sym same) h)

  on_stack-Accounts :
      (f : Frame) (r : Result (List Value) LanguageError) {o : Outcome}
      → Accounts budget f.machine
      → on_stack f r ≡ ok o
      → Accounts budget (machine_of o)
  on_stack-Accounts f r h e =
      let (s, e1, k1) = >>=-eq-ok r _ e in kept f (record f { stack = s }) refl h k1

  execute-Accounts :
      (i : Instruction) (f : Frame) {o : Outcome}
      → Accounts budget f.machine
      → execute ids program callee function i f ≡ ok o
      → Accounts budget (machine_of o)
  unfolding execute call_function request_effect
  execute-Accounts (Instruction.push v) f h e = kept f _ refl h e
  execute-Accounts (Instruction.load_local slot) f h e =
      let (v, e1, k1) = >>=-eq-ok (ok_or (get_elem? f.locals slot) _) _ e in kept f _ refl h k1
  execute-Accounts (Instruction.store_local slot) f h e =
      let (p, e1, k1) = >>=-eq-ok (pop f.stack) _ e in
      let (v, e2, k2) = >>=-eq-ok (ok_or (get_elem? f.locals slot) _) _ k1 in kept f _ refl h k2
  execute-Accounts Instruction.pop f h e =
      let (p, e1, k1) = >>=-eq-ok (pop f.stack) _ e in kept f _ refl h k1
  execute-Accounts Instruction.negate f h e =
      let (p, e1, k1) = >>=-eq-ok (pop_i64 f.stack) _ e in
      let (v, e2, k2) = >>=-eq-ok (ok_or (checked_neg p.0) _) _ k1 in kept f _ refl h k2
  execute-Accounts Instruction.not_ f h e =
      let (p, e1, k1) = >>=-eq-ok (pop_bool f.stack) _ e in kept f _ refl h k1
  execute-Accounts Instruction.add f h e = on_stack-Accounts f _ h e
  execute-Accounts Instruction.subtract f h e = on_stack-Accounts f _ h e
  execute-Accounts Instruction.multiply f h e = on_stack-Accounts f _ h e
  execute-Accounts Instruction.divide f h e = on_stack-Accounts f _ h e
  execute-Accounts Instruction.remainder f h e = on_stack-Accounts f _ h e
  execute-Accounts Instruction.equal f h e = on_stack-Accounts f _ h e
  execute-Accounts Instruction.not_equal f h e = on_stack-Accounts f _ h e
  execute-Accounts Instruction.less f h e = on_stack-Accounts f _ h e
  execute-Accounts Instruction.less_equal f h e = on_stack-Accounts f _ h e
  execute-Accounts Instruction.greater f h e = on_stack-Accounts f _ h e
  execute-Accounts Instruction.greater_equal f h e = on_stack-Accounts f _ h e
  execute-Accounts Instruction.and f h e = on_stack-Accounts f _ h e
  execute-Accounts Instruction.or f h e = on_stack-Accounts f _ h e
  execute-Accounts (Instruction.call index count) f h e =
      let (p, e1, k1) = >>=-eq-ok (pop_arguments f.stack count) _ e in
      let (r, e2, k2) = >>=-eq-ok (callee index p.0 f.machine) _ k1 in
      subst (λ o. Accounts budget (machine_of o)) (ok_inj k2) (called index p.0 f.machine r h e2)
  execute-Accounts (Instruction.request effect authority information count) f h e =
      let (g, e0, k0) =
        >>=-eq-ok (request_effect ids program function effect authority information count f) _ e in
      let (p, e1, k1) = >>=-eq-ok (pop_arguments f.stack count) _ e0 in
      let (id, e2, k2) =
        >>=-eq-ok
          (request_id ids program (length f.machine.requests) function.name effect authority
            information p.0)
          _ k1 in
      subst (λ o. Accounts budget (machine_of o)) (ok_inj k0)
        (subst (λ (g : Frame). Accounts budget g.machine) (ok_inj k2)
          (h.0, IsNumbered-push 0 f.machine.requests _ h.1 (omega arith)))
  execute-Accounts Instruction.return f h e =
      let (p, e1, k1) = >>=-eq-ok (pop f.stack) _ e in
      subst (λ o. Accounts budget (machine_of o)) (ok_inj k1) h

  outcome_lem :
      (rest : List Instruction) (o : Outcome) (r : Value × Machine)
      → ((g : Frame)
          → Accounts budget g.machine
          → run ids program callee function rest g ≡ ok r
          → Accounts budget r.1)
      → Accounts budget (machine_of o)
      → elim o [ next g ↦ run ids program callee function rest g | returned v m ↦ ok (v, m) ] ≡ ok r
      → Accounts budget r.1
  outcome_lem rest (next g) r ih a k = ih g a k
  outcome_lem rest (returned v m) r ih a k =
      subst (λ (q : Value × Machine). Accounts budget q.1) (ok_inj k) a

  run-Accounts :
      (code : List Instruction) (f : Frame) {r : Value × Machine}
      → Accounts budget f.machine
      → run ids program callee function code f ≡ ok r
      → Accounts budget r.1
  unfolding run
  run-Accounts [] f h e = cc
  run-Accounts (i ∷ rest) f {r} h e =
      let (m, e1, k1) = >>=-eq-ok (consume_instruction f.machine) _ e in
      let (o, e2, k2) =
        >>=-eq-ok (execute ids program callee function i (record f { machine = m })) _ k1 in
      outcome_lem rest o r (λ g a k. run-Accounts rest g a k)
        (execute-Accounts i (record f { machine = m }) (consume-Accounts budget f.machine h e1) e2)
        k2

call-Accounts :
    (ids : RequestIds) (program : BytecodeProgram) (budget left : ℕ)
    → CalleeAccounts budget (call ids program left)
unfolding call
call-Accounts ids program budget zero index arguments m r h e = cc
call-Accounts ids program budget (suc left) index arguments m r h e =
    let (f, e1, k1) = >>=-eq-ok (ok_or (get_elem? program.functions index) _) _ e in
    let (e2, k2) = reject_if-eq-ok (length arguments != f.parameter_count) _ _ k1 in
    let (locals, e3, k3) =
      >>=-eq-ok (fill_locals arguments (replicate f.local_count Value.unit)) _ k2 in
    run-Accounts ids program (call ids program left) f budget
      (call-Accounts ids program budget left) f.instructions
      (record { locals = locals; stack = []; machine = m }) h k3

-- An execution that completes, of any artifact, has executed at most the budget of instructions,
-- and its requests bear the numbers from zero on, in the order in which they were made.
pub execute_bytecode_bounds :
    (services : Services) (ids : RequestIds) (p : BytecodeProgram) (budget : ℕ)
    {receipt : ExecutionReceipt}
    → execute_bytecode services ids p budget ≡ ok receipt
    → (receipt.instructions_executed ≤ budget) × IsNumbered 0 receipt.effect_requests
unfolding execute_bytecode
execute_bytecode_bounds services ids p budget {receipt} h =
    let (v, e1, k1) = >>=-eq-ok (map_err bytecode (verify_bytecode services p)) _ h in
    let (e2, k2) = reject_if-eq-ok (budget == 0) _ _ k1 in
    let (r, e3, k3) =
      >>=-eq-ok (call ids p max_call_depth p.entry_function [] (new_machine budget)) _ k2 in
    let (spent, numbered) =
      call-Accounts ids p budget max_call_depth p.entry_function [] (new_machine budget) r
        (omega arith, tt) e3 in
    subst
      (λ (q : ExecutionReceipt).
        (q.instructions_executed ≤ budget) × IsNumbered 0 q.effect_requests)
      (ok_inj k3) (omega (arith, spent), numbered)
