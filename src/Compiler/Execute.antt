-- ===== src/Compiler/Execute.antt =====
-- `execute_bytecode` and `execute_bytecode_function`.
use joan.Base.{
  ℕ, suc, Bool, true, false, not, String, List, [], ◌∷◌, Option, none, some, Result, ok, ◌>>=◌,
  ◌>>◌, reject_if, ok_or, map_err, ◌==◌, ◌!=◌, nat_eq, string_eq, if◌then◌else◌,
}
use mathlib.Core.Option
use joan.Base.Lists.{length, get_elem?}
use joan.Canonical.{Digest}
use joan.Ast.Types.{ValueType}
use joan.Bytecode.Model.{
  Value, BytecodeFunction, BytecodeProgram, CanonicalAstIdentity, program_linear_schema,
  program_information_schema,
}
use joan.Bytecode.Artifact.{Services, verify_bytecode}
use joan.Compiler.Model.{
  LanguageError, bytecode, runtime, panicked, RequestIds, Machine, EffectRequest, zero_budget,
  function_not_found, wrong_argument_count, wrong_argument_type, max_call_depth,
}
use joan.Compiler.Vm.{call}

pub record ExecutionReceipt : Type 0 where
  pub schema : String
  pub status : String
  pub semantic_digest : Digest
  pub semantic_identity : CanonicalAstIdentity
  pub bytecode_digest : Digest
  pub result : Value
  pub effect_requests : List EffectRequest
  pub instructions_executed : ℕ

pub record FunctionExecutionReceipt : Type 0 where
  pub schema : String
  pub status : String
  pub semantic_digest : Digest
  pub semantic_identity : CanonicalAstIdentity
  pub bytecode_digest : Digest
  pub function : String
  pub result : Value
  pub effect_requests : List EffectRequest
  pub instructions_executed : ℕ

abbrev pub value_matches_type : Value → ValueType → Bool
value_matches_type (Value.i64 n) ValueType.i64 = true
value_matches_type (Value.bool b) ValueType.bool = true
value_matches_type (Value.string s) ValueType.string = true
value_matches_type Value.unit ValueType.unit = true
value_matches_type _ _ = false

-- The loop over the types zipped with the arguments.
unfoldable pub validate_types : List ValueType → List Value → Result (Unit {0}) LanguageError
validate_types [] arguments = ok tt
validate_types (t ∷ types) [] = ok tt
validate_types (t ∷ types) (v ∷ arguments) =
    reject_if (not (value_matches_type v t)) (runtime wrong_argument_type)
    >> validate_types types arguments

unfoldable pub validate_arguments : BytecodeFunction → List Value → Result (Unit {0}) LanguageError
unfolding validate_types
validate_arguments function arguments = do
  reject_if (length arguments != function.parameter_count) (runtime wrong_argument_count)
  validate_types function.parameter_types arguments

-- `iter().position(|function| function.name == name)`
abbrev pub position : String → List BytecodeFunction → Option ℕ
position name [] = none
position name (f ∷ functions) =
    if f.name == name then some 0 else Option.map suc (position name functions)

abbrev pub receipt_schema : String → String
receipt_schema schema =
    if schema == program_information_schema
    then "joan.execution-receipt.v3"
    else (if schema == program_linear_schema
        then "joan.execution-receipt.v2"
        else "joan.execution-receipt.v1")

abbrev pub new_machine : ℕ → Machine
new_machine budget = record { remaining = budget; executed = 0; requests = [] }

module _ (services : Services) (ids : RequestIds) where
  unfoldable pub execute_bytecode : BytecodeProgram → ℕ → Result ExecutionReceipt LanguageError
  execute_bytecode program instruction_budget = do
    verification ← map_err bytecode (verify_bytecode services program)
    reject_if (instruction_budget == 0) (runtime zero_budget)
    (result, machine) ←
        call ids program max_call_depth program.entry_function [] (new_machine instruction_budget)
    ok (record {
      schema = receipt_schema program.schema;
      status = "completed";
      semantic_digest = program.semantic_digest;
      semantic_identity = program.semantic_identity;
      bytecode_digest = verification.bytecode_digest;
      result = result;
      effect_requests = machine.requests;
      instructions_executed = machine.executed;
    })

  unfoldable pub execute_bytecode_function :
      BytecodeProgram → String → List Value → ℕ → Result FunctionExecutionReceipt LanguageError
  execute_bytecode_function program function_name arguments instruction_budget = do
    verification ← map_err bytecode (verify_bytecode services program)
    reject_if (instruction_budget == 0) (runtime zero_budget)
    function_index ← ok_or (position function_name program.functions) (runtime function_not_found)
    function ← ok_or (get_elem? program.functions function_index) panicked
    validate_arguments function arguments
    (result, machine) ←
        call ids program max_call_depth function_index arguments (new_machine instruction_budget)
    ok (record {
      schema = "joan.function-execution-receipt.v0";
      status = "completed";
      semantic_digest = program.semantic_digest;
      semantic_identity = program.semantic_identity;
      bytecode_digest = verification.bytecode_digest;
      function = function_name;
      result = result;
      effect_requests = machine.requests;
      instructions_executed = machine.executed;
    })
