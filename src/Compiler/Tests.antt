-- ===== src/Compiler/Tests.antt =====
-- A module with two functions, its artifact, and what the theorems give there.
use joan.Base.{
  ◌≡◌, refl, String, [], ◌∷◌, none, some, ok, err, Result, ◌≤◌, string_eq, nat_eq, ==_self,
}
use joan.Base.Decimal.{parse_i64, to_string}
use joan.Base.Int.{pos, negsuc, checked_add_i64, ◌+ℤ◌, fits_i64}
use joan.Base.Map
use joan.Base.Set.{contains, insert}
use joan.Base.Texts.{is_identifier}
use joan.Canonical.{Digest, digest_eq}
use joan.Ast.Types.{
  ValueType, value_type_eq, ValueType-discrete, BinaryOperator, label_eq, can_flow_to, join,
}
use joan.Ast.Canonical.{
  CanonicalExpression, nil, cons, let_, return, request, CanonicalFunction, CanonicalProgram,
  is_linear, is_information_flow, supports_schema,
}
use joan.Bytecode.Model.{
  value_type, Value, Instruction, BytecodeFunction, BytecodeProgram, CanonicalAstIdentity,
}
use joan.Bytecode.Equality.{program_eq, identity_eq}
use joan.Bytecode.Labels.{
  validate_identifier, validate_optional_information, validate_information_presence,
}
use joan.Bytecode.Shape.{
  validate_effects, validate_canonical_authorities, validate_parameters_presence,
  validate_canonical_information, count_expression, validate_integer, validate_expression,
  validate_expressions, validate_authority, validate_statement, validate_statements,
  validate_parameters, validate_functions, validate_canonical_shape,
}
use joan.Bytecode.Abstract.{
  pop_type, require_pop, require_information_flow, join_information, binary_type, require_flows,
  require_arguments, require_sink,
}
use joan.Bytecode.Verify.{
  verify_load, verify_store, verify_call, verify_request, verify_return, verify_instruction,
  verify_instructions, verify_function, consume_authority,
}
use joan.Bytecode.Structure.{
  validate_bytecode_authorities, validate_bytecode_information, verify_frame, verify_entry,
  verify_entries, visit_targets, visit_graph, verify_acyclic, verify_structure,
}
use joan.Bytecode.Emit.{
  independently_emit_expression, independently_emit_arguments, independently_emit_statement,
  independently_emit_statements, parameter_labels, independently_emit_function,
  independently_emit_functions, independently_emit,
}
use joan.Bytecode.Artifact.{
  Services, bytecode_profile, check_canonical_ast, verify_bytecode, BytecodeVerificationReceipt,
}
use joan.Compiler.Model.{RequestIds, consume_instruction, runtime, budget_exhausted}
use joan.Compiler.Ensures.{Ensures}
use joan.Compiler.Outcomes.{execute_bytecode-Typed, execute_bytecode_function-Typed}
use joan.Compiler.Accounting.{IsNumbered, execute_bytecode_bounds}
use joan.Compiler.Compile.{
  compile_expression, compile_arguments, compile_statement, compile_statements, compile_function,
  compile_functions, compile_program,
}
use joan.Compiler.Agree.{compile_program-eq-independently_emit, value_of}
use joan.Compiler.Stack.{pop, pop_i64, pop_arguments, integer_binary}
use joan.Compiler.Vm.{request_id, request_effect, call_function, execute, run, call}
use joan.Compiler.Execute.{
  validate_types, validate_arguments, execute_bytecode, execute_bytecode_function, ExecutionReceipt,
  FunctionExecutionReceipt,
}

abbrev seal : Digest
seal = record { algorithm = "sha256"; profile = "jce1"; domain = "test"; value = "00" }

abbrev semantic : CanonicalAstIdentity
semantic = record {
  schema = "joan.canonical-ast-identity.v1";
  encoding = "JCE1";
  ast_schema = "joan.canonical-ast.v0";
  digest = seal;
}

-- fn double(x: i64) -> i64 { return x + x; }
abbrev double : CanonicalFunction
double = record {
  name = "double";
  parameters = (record { name = "x"; value_type = ValueType.i64; information = none }) ∷ [];
  return_type = ValueType.i64;
  return_information = none;
  effects = [];
  authorities = none;
  body =
      return (
        some (
          CanonicalExpression.binary BinaryOperator.add (CanonicalExpression.variable "x")
            (CanonicalExpression.variable "x")))
      ∷ [];
}

-- fn main() -> i64 ! {log} { request log(21); let y: i64 = double(21); return y; }
abbrev main : CanonicalFunction
main = record {
  name = "main";
  parameters = [];
  return_type = ValueType.i64;
  return_information = none;
  effects = "log" ∷ [];
  authorities = none;
  body =
      request "log" none none (cons (CanonicalExpression.integer "21") nil)
      ∷ let_ "y" ValueType.i64 none
          (CanonicalExpression.call "double" (cons (CanonicalExpression.integer "21") nil))
      ∷ return (some (CanonicalExpression.variable "y"))
      ∷ [];
}

abbrev syntax : CanonicalProgram
syntax = record {
  schema = "joan.canonical-ast.v0";
  module_name = "demo";
  functions = double ∷ main ∷ [];
}

abbrev double_code : BytecodeFunction
double_code = record {
  name = "double";
  parameter_count = 1;
  parameter_types = ValueType.i64 ∷ [];
  parameter_information = none;
  local_count = 1;
  local_types = ValueType.i64 ∷ [];
  local_information = none;
  return_type = ValueType.i64;
  return_information = none;
  effects = [];
  authority_slots = none;
  instructions =
      Instruction.load_local 0
      ∷ Instruction.load_local 0
      ∷ Instruction.add
      ∷ Instruction.return
      ∷ [];
}

abbrev main_code : BytecodeFunction
main_code = record {
  name = "main";
  parameter_count = 0;
  parameter_types = [];
  parameter_information = none;
  local_count = 1;
  local_types = ValueType.i64 ∷ [];
  local_information = none;
  return_type = ValueType.i64;
  return_information = none;
  effects = "log" ∷ [];
  authority_slots = none;
  instructions =
      Instruction.push (Value.i64 (pos 21))
      ∷ Instruction.request "log" none none 1
      ∷ Instruction.push (Value.i64 (pos 21))
      ∷ Instruction.call 0 1
      ∷ Instruction.store_local 0
      ∷ Instruction.load_local 0
      ∷ Instruction.return
      ∷ [];
}

abbrev artifact : BytecodeProgram
artifact = record {
  schema = "joan.bytecode-program.v1";
  module_name = "demo";
  semantic_digest = seal;
  semantic_identity = semantic;
  canonical_ast = syntax;
  entry_function = 1;
  functions = double_code ∷ main_code ∷ [];
}

abbrev encode : CanonicalProgram → Result CanonicalAstIdentity String
encode ast = ok semantic

compiles : compile_program encode syntax ≡ ok artifact
unfolding compile_program compile_functions compile_function compile_statements compile_statement
    compile_expression compile_arguments parse_i64 Map.get Map.insert is_linear is_information_flow
compiles = refl

abbrev services : Services
services = record {
  check = λ ast. ok "demo";
  encode_canonical_ast = λ ast. ok semantic;
  digest = λ domain program. ok seal;
}

abbrev ids : RequestIds
ids = record {
  linear = λ core. ok seal;
  information = λ core. ok seal;
  plain = λ value index. "00:0";
}

abbrev receipt : BytecodeVerificationReceipt
receipt = record {
  schema = "joan.bytecode-verification-receipt.v0";
  status = "verified";
  verifier = "joan-standalone-bytecode-verifier-v0";
  bytecode_digest = seal;
  semantic_digest = seal;
  function_count = 2;
  instruction_count = 11;
  max_stack_depth = 2;
  codegen_binding = "canonical-ast-v0-independent-emitter-exact-match";
  effect_profile = "requests-validated-never-executed";
}

shape_holds : validate_canonical_shape syntax ≡ ok tt
unfolding validate_effects validate_canonical_authorities validate_parameters_presence
    validate_canonical_information count_expression validate_integer validate_expression
    validate_expressions validate_authority validate_statement validate_statements
    validate_parameters validate_functions validate_canonical_shape validate_identifier
    validate_optional_information validate_information_presence is_linear is_information_flow
    supports_schema is_identifier parse_i64 to_string
shape_holds = refl

structure_holds :
    verify_structure artifact ≡ ok (record { instruction_count = 11; max_stack_depth = 2 })
unfolding validate_effects validate_identifier validate_optional_information
    validate_information_presence is_linear is_information_flow is_identifier require_pop
    require_information_flow join_information binary_type require_flows require_arguments
    require_sink verify_load verify_store verify_call verify_request verify_return
    verify_instruction verify_instructions verify_function consume_authority
    validate_bytecode_authorities validate_bytecode_information verify_frame verify_entry
    verify_entries visit_targets visit_graph verify_acyclic verify_structure contains insert
    pop_type value_type_eq ValueType-discrete label_eq can_flow_to join
structure_holds = refl

emitted : independently_emit syntax semantic ≡ ok artifact
unfolding independently_emit independently_emit_functions independently_emit_function
    independently_emit_statements independently_emit_statement independently_emit_expression
    independently_emit_arguments parse_i64 Map.get Map.insert is_linear is_information_flow
    parameter_labels
emitted = refl

verifies : verify_bytecode services artifact ≡ ok receipt
unfolding verify_bytecode check_canonical_ast bytecode_profile
verifies =
    rw
      (
        shape_holds,
        structure_holds,
        emitted,
        ==_self ⦃e = identity_eq⦄ semantic,
        ==_self ⦃e = program_eq⦄ artifact,
        ==_self ⦃e = digest_eq⦄ seal,
      )
      refl

abbrev double_result : FunctionExecutionReceipt
double_result = record {
  schema = "joan.function-execution-receipt.v0";
  status = "completed";
  semantic_digest = seal;
  semantic_identity = semantic;
  bytecode_digest = seal;
  function = "double";
  result = Value.i64 (negsuc 13);
  effect_requests = [];
  instructions_executed = 4;
}

doubles :
    execute_bytecode_function services ids artifact "double" (Value.i64 (negsuc 6) ∷ []) 10
    ≡ ok double_result
unfolding execute_bytecode_function validate_arguments validate_types call run execute
    consume_instruction integer_binary pop_i64 pop checked_add_i64 ◌+ℤ◌ fits_i64
doubles = rw verifies refl

arguments_hold : validate_arguments double_code (Value.i64 (negsuc 6) ∷ []) ≡ ok tt
unfolding validate_arguments validate_types
arguments_hold = refl

abbrev main_result : ExecutionReceipt
main_result = record {
  schema = "joan.execution-receipt.v1";
  status = "completed";
  semantic_digest = seal;
  semantic_identity = semantic;
  bytecode_digest = seal;
  result = Value.i64 (pos 42);
  effect_requests =
      (record {
        request_index = 0;
        request_id = "00:0";
        function = "main";
        effect = "log";
        authority_slot = none;
        information = none;
        arguments = Value.i64 (pos 21) ∷ [];
      })
      ∷ [];
  instructions_executed = 11;
}

main_runs : execute_bytecode services ids artifact 11 ≡ ok main_result
unfolding execute_bytecode call run execute consume_instruction integer_binary pop_i64 pop
    pop_arguments checked_add_i64 ◌+ℤ◌ fits_i64 call_function request_effect request_id
main_runs = rw verifies refl

-- One instruction less, and the budget is exhausted.
budget_short : execute_bytecode services ids artifact 10 ≡ err (runtime budget_exhausted)
unfolding execute_bytecode call run execute consume_instruction integer_binary pop_i64 pop
    pop_arguments checked_add_i64 ◌+ℤ◌ fits_i64 call_function request_effect request_id
budget_short = rw verifies refl

compile_program-eq-independently_emit_example :
    value_of (compile_program encode syntax) ≡ value_of (independently_emit syntax semantic)
compile_program-eq-independently_emit_example =
    compile_program-eq-independently_emit encode syntax semantic refl

execute_bytecode_function-Typed_example :
    Ensures
      (λ (r : FunctionExecutionReceipt). value_type r.result ≡ ValueType.i64)
      (execute_bytecode_function services ids artifact "double" (Value.i64 (negsuc 6) ∷ []) 10)
execute_bytecode_function-Typed_example =
    execute_bytecode_function-Typed services ids artifact "double" (Value.i64 (negsuc 6) ∷ []) 10 0
      double_code verifies refl refl refl arguments_hold

execute_bytecode-Typed_example :
    Ensures
      (λ (r : ExecutionReceipt). value_type r.result ≡ ValueType.i64)
      (execute_bytecode services ids artifact 11)
execute_bytecode-Typed_example =
    execute_bytecode-Typed services ids artifact 11 main_code verifies refl refl

execute_bytecode_bounds_example : (11 ≤ 11) × IsNumbered 0 main_result.effect_requests
execute_bytecode_bounds_example = execute_bytecode_bounds services ids artifact 11 main_runs
