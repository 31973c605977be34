-- ===== src/Compiler/Vm.antt =====
-- `Machine::call`: the execution of one function.
use joan.Base.{
  ℕ, zero, suc, true, false, not, ◌&&◌, ◌||◌, String, List, [], ◌∷◌, ◌++◌, Option, Result, ok, err,
  ◌>>=◌, ◌>>◌, reject_if, ok_or, map_err, ◌!=◌, ◌==◌, nat_eq, string_eq, if◌then◌else◌,
}
use joan.Base.Int.{
  checked_neg, checked_add_i64, checked_sub_i64, checked_mul_i64, checked_div_i64, checked_rem_i64,
  lt_ℤ,
}
use joan.Base.Lists.{length, get_elem?, set, replicate}
use joan.Ast.Types.{InformationLabel}
use joan.Bytecode.Model.{
  Value, Instruction, BytecodeFunction, BytecodeProgram, program_linear_schema,
  program_information_schema,
}
use joan.Compiler.Model.{
  EffectRequest, LanguageError, canonical, runtime, panicked, RequestIds, Machine,
  consume_instruction, negation_overflow, call_depth_exceeded, outside_table, wrong_argument_count,
  load_outside_frame, store_outside_frame, ended_without_return, no_authority_slot,
  no_information_label,
}
use joan.Compiler.Stack.{
  pop, pop_i64, pop_bool, pop_arguments, integer_binary, boolean_binary, compare_i64, compare_equal,
}

-- The variables of the loop in `Machine::call`.
pub record Frame : Type 0 where
  pub locals : List Value
  pub stack : List Value
  pub machine : Machine

pub data Outcome : Type 0 where
  next : Frame → Outcome
  returned : Value → Machine → Outcome

abbrev pub Callee : Type 0
Callee =
    (function_index : ℕ) (arguments : List Value) → Machine → Result (Value × Machine) LanguageError

-- `locals[slot] = value` for the arguments from the first slot on.
abbrev pub fill_locals : List Value → List Value → Result (List Value) LanguageError
fill_locals [] locals = ok locals
fill_locals (v ∷ arguments) [] = err panicked
fill_locals (v ∷ arguments) (l ∷ locals) = do rest ← fill_locals arguments locals; ok (v ∷ rest)

abbrev pub on_stack : Frame → Result (List Value) LanguageError → Result Outcome LanguageError
on_stack f r = do s ← r; ok (next (record f { stack = s }))

module _ (ids : RequestIds) (program : BytecodeProgram) where
  -- The identifier of a request, by the program's schema.
  unfoldable pub request_id :
      ℕ
      → (function effect : String) → Option String
      → Option InformationLabel
      → List Value
      → Result String LanguageError
  request_id index function effect authority information arguments =
      if program.schema == program_information_schema
      then (do
        authority_slot ← ok_or authority (runtime no_authority_slot)
        label ← ok_or information (runtime no_information_label)
        digest ← map_err canonical (
            ids.information (record {
              semantic_digest = program.semantic_digest;
              request_index = index;
              function = function;
              effect = effect;
              authority_slot = authority_slot;
              information = label;
              arguments = arguments;
            }))
        ok digest.value)
      else (if program.schema == program_linear_schema
          then (do
            authority_slot ← ok_or authority (runtime no_authority_slot)
            digest ← map_err canonical (
                ids.linear (record {
                  semantic_digest = program.semantic_digest;
                  request_index = index;
                  function = function;
                  effect = effect;
                  authority_slot = authority_slot;
                  arguments = arguments;
                }))
            ok digest.value)
          else ok (ids.plain program.semantic_digest.value index))

  unfoldable pub request_effect :
      BytecodeFunction
      → (effect : String) → Option String
      → Option InformationLabel
      → ℕ
      → Frame
      → Result Frame LanguageError
  request_effect function effect authority information count f = do
    (arguments, rest) ← pop_arguments f.stack count
    let request_index = length f.machine.requests
    id ← request_id request_index function.name effect authority information arguments
    let request : EffectRequest = record {
      request_index = request_index;
      request_id = id;
      function = function.name;
      effect = effect;
      authority_slot = authority;
      information = information;
      arguments = arguments;
    }
    ok (record f {
      stack = rest;
      machine = record f.machine { requests = f.machine.requests ++ (request ∷ []) };
    })

  module _ (callee : Callee) (function : BytecodeFunction) where
    unfoldable pub call_function : ℕ → ℕ → Frame → Result Outcome LanguageError
    call_function index count f = do
      (arguments, rest) ← pop_arguments f.stack count
      (result, machine) ← callee index arguments f.machine
      ok (next (record f { stack = result ∷ rest; machine = machine }))

    -- The `match` of the loop.
    unfoldable pub execute : Instruction → Frame → Result Outcome LanguageError
    execute (Instruction.push v) f = ok (next (record f { stack = v ∷ f.stack }))
    execute (Instruction.load_local slot) f = do
      value ← ok_or (get_elem? f.locals slot) (runtime load_outside_frame)
      ok (next (record f { stack = value ∷ f.stack }))
    execute (Instruction.store_local slot) f = do
      (value, rest) ← pop f.stack
      target ← ok_or (get_elem? f.locals slot) (runtime store_outside_frame)
      ok (next (record f { stack = rest; locals = set f.locals slot value }))
    execute Instruction.pop f = do
      (value, rest) ← pop f.stack
      ok (next (record f { stack = rest }))
    execute Instruction.negate f = do
      (value, rest) ← pop_i64 f.stack
      negated ← ok_or (checked_neg value) (runtime negation_overflow)
      ok (next (record f { stack = Value.i64 negated ∷ rest }))
    execute Instruction.not_ f = do
      (value, rest) ← pop_bool f.stack
      ok (next (record f { stack = Value.bool (not value) ∷ rest }))
    execute Instruction.add f = on_stack f (integer_binary f.stack checked_add_i64)
    execute Instruction.subtract f = on_stack f (integer_binary f.stack checked_sub_i64)
    execute Instruction.multiply f = on_stack f (integer_binary f.stack checked_mul_i64)
    execute Instruction.divide f = on_stack f (integer_binary f.stack checked_div_i64)
    execute Instruction.remainder f = on_stack f (integer_binary f.stack checked_rem_i64)
    execute Instruction.equal f = on_stack f (compare_equal f.stack false)
    execute Instruction.not_equal f = on_stack f (compare_equal f.stack true)
    execute Instruction.less f = on_stack f (compare_i64 f.stack lt_ℤ)
    execute Instruction.less_equal f =
        on_stack f (compare_i64 f.stack (λ left right. not (lt_ℤ right left)))
    execute Instruction.greater f = on_stack f (compare_i64 f.stack (λ left right. lt_ℤ right left))
    execute Instruction.greater_equal f =
        on_stack f (compare_i64 f.stack (λ left right. not (lt_ℤ left right)))
    execute Instruction.and f = on_stack f (boolean_binary f.stack ◌&&◌)
    execute Instruction.or f = on_stack f (boolean_binary f.stack ◌||◌)
    execute (Instruction.call index count) f = call_function index count f
    execute (Instruction.request effect authority information count) f = do
      g ← request_effect function effect authority information count f
      ok (next g)
    execute Instruction.return f = do (value, rest) ← pop f.stack; ok (returned value f.machine)

    -- The loop over the instructions.
    unfoldable pub run : List Instruction → Frame → Result (Value × Machine) LanguageError
    run [] f = err (runtime ended_without_return)
    run (i ∷ rest) f = do
      machine ← consume_instruction f.machine
      outcome ← execute i (record f { machine = machine })
      elim outcome [ next g ↦ run rest g | returned v m ↦ ok (v, m) ]

  -- `left` is `MAX_CALL_DEPTH - depth`.
  unfoldable pub call : (left : ℕ) → Callee
  call zero index arguments m = err (runtime call_depth_exceeded)
  call (suc left) index arguments m = do
    function ← ok_or (get_elem? program.functions index) (runtime outside_table)
    reject_if (length arguments != function.parameter_count) (runtime wrong_argument_count)
    locals ← fill_locals arguments (replicate function.local_count Value.unit)
    run (call left) function function.instructions
        (record { locals = locals; stack = []; machine = m })
