-- ===== src/Bytecode/Tests.antt =====
-- Functions with authority slots and with label tables, and what the theorems give there.
use joan.Base.{
  ◌≡◌, ◌≢◌, refl, String, List, [], ◌∷◌, none, some, ok, err, arith, true, false, string_eq, nat_eq,
}
use joan.Base.Int.{pos}
use joan.Base.Lists.{length}
use joan.Base.Map
use joan.Base.Map.{BTreeMap}
use joan.Base.Set.{contains, insert}
use joan.Base.Order.{string_ord}
use joan.Base.Texts.{is_identifier}
use joan.Canonical.{Digest}
use joan.Ast.Types.{ValueType, value_type_eq, ValueType-discrete, public, label_eq, can_flow_to}
use joan.Ast.Canonical.{is_linear, is_information_flow}
use joan.Bytecode.Model.{
  Value, Instruction, BytecodeFunction, BytecodeProgram, panicked, out_of_fuel, Invalidity, invalid,
  call_cycle, reused_authority,
}
use joan.Bytecode.Labels.{validate_identifier, validate_information_presence}
use joan.Bytecode.Shape.{validate_effects}
use joan.Bytecode.Abstract.{require_information_flow, require_sink}
use joan.Bytecode.Verify.{
  verify_request, verify_return, verify_instruction, verify_instructions, verify_function,
  consume_authority, authority_slots,
}
use joan.Bytecode.Structure.{
  validate_slots, validate_bytecode_authorities, verify_frame, verify_entry, verify_acyclic,
  visit_graph, visit_targets, Observed,
}
use joan.Bytecode.Linear.{Permitted, Distinct, verify_function_linear}
use joan.Bytecode.Panics.{verify_entry-panics}
use joan.Bytecode.Acyclic.{verify_acyclic-ends}
use joan.Bytecode.Grounded.{Grounded, verify_acyclic-Grounded}

abbrev seal : Digest
seal = record { algorithm = "sha256"; profile = "jce1"; domain = "test"; value = "00" }

abbrev program_of : String → List BytecodeFunction → BytecodeProgram
program_of schema functions = record {
  schema = "joan.bytecode-program.v3";
  module_name = "demo";
  semantic_digest = seal;
  semantic_identity = record {
    schema = "joan.canonical-ast-identity.v1";
    encoding = "JCE1";
    ast_schema = schema;
    digest = seal;
  };
  canonical_ast = record { schema = schema; module_name = "demo"; functions = [] };
  entry_function = 0;
  functions = functions;
}

-- It moves its slot `log_slot` into a request of its effect.
abbrev logs : BytecodeFunction
logs = record {
  name = "main";
  parameter_count = 0;
  parameter_types = [];
  parameter_information = none;
  local_count = 0;
  local_types = [];
  local_information = none;
  return_type = ValueType.unit;
  return_information = none;
  effects = "log" ∷ [];
  authority_slots = some ((record { name = "log_slot"; effect = "log" }) ∷ []);
  instructions =
      Instruction.push (Value.i64 (pos 7))
      ∷ Instruction.request "log" (some "log_slot") none 1
      ∷ Instruction.push Value.unit
      ∷ Instruction.return
      ∷ [];
}

abbrev linear_program : BytecodeProgram
linear_program = program_of "joan.canonical-ast.v1" (logs ∷ [])

logs_verified : verify_function linear_program logs ≡ ok (1, [])
unfolding verify_function verify_instructions verify_instruction verify_request verify_return
    consume_authority Map.get Map.insert contains insert validate_identifier is_identifier
    validate_information_presence is_linear is_information_flow require_sink
    require_information_flow can_flow_to label_eq value_type_eq ValueType-discrete
logs_verified = refl

-- A second request with the same slot is refused.
abbrev logs_twice : BytecodeFunction
logs_twice = record logs {
  instructions =
      Instruction.request "log" (some "log_slot") none 0
      ∷ Instruction.request "log" (some "log_slot") none 0
      ∷ Instruction.push Value.unit
      ∷ Instruction.return
      ∷ [];
}

twice_refused : verify_function linear_program logs_twice ≡ err (invalid reused_authority)
unfolding verify_function verify_instructions verify_instruction verify_request verify_return
    consume_authority Map.get Map.insert contains insert validate_identifier is_identifier
    validate_information_presence is_linear is_information_flow require_sink
    require_information_flow can_flow_to label_eq value_type_eq ValueType-discrete
twice_refused = refl

linear_holds : is_linear linear_program.canonical_ast ≡ true
unfolding is_linear
linear_holds = refl

verify_function_linear_example :
    Permitted (authority_slots logs) (("log_slot", "log") ∷ [])
    × Distinct (("log_slot", "log") ∷ [])
    × (1 ≡ length (authority_slots logs))
verify_function_linear_example =
    verify_function_linear linear_program logs linear_holds logs_verified

-- It declares one parameter, with its label, and no locals.
abbrev crafted : BytecodeFunction
crafted = record {
  name = "helper";
  parameter_count = 1;
  parameter_types = ValueType.i64 ∷ [];
  parameter_information = some (public ∷ []);
  local_count = 0;
  local_types = [];
  local_information = some [];
  return_type = ValueType.i64;
  return_information = some public;
  effects = [];
  authority_slots = some [];
  instructions = Instruction.return ∷ [];
}

abbrev flow_program : BytecodeProgram
flow_program = program_of "joan.canonical-ast.v2" (crafted ∷ [])

abbrev nothing : Observed
nothing = record { names = []; graph = []; instruction_count = 0; max_stack_depth = 0 }

flow_holds : is_information_flow flow_program.canonical_ast ≡ true
unfolding is_information_flow
flow_holds = refl

name_holds : validate_identifier "helper" ≡ ok tt
unfolding validate_identifier is_identifier
name_holds = refl

name_is_new : contains {K = String} "helper" [] ≡ false
unfolding contains
name_is_new = refl

effects_hold : validate_effects none [] ≡ ok tt
unfolding validate_effects
effects_hold = refl

slots_hold :
    validate_bytecode_authorities (is_linear flow_program.canonical_ast) [] (some []) ≡ ok tt
unfolding validate_bytecode_authorities validate_slots is_linear
slots_hold = refl

verify_entry-panics_example :
    (verify_entry flow_program crafted nothing ≡ err panicked)
    × ((why : Invalidity) × (verify_frame crafted ≡ err (invalid why)))
verify_entry-panics_example =
    verify_entry-panics crafted (public ∷ []) [] public refl refl refl refl refl (omega arith)
      flow_program nothing flow_holds name_holds name_is_new effects_hold slots_hold

-- Two functions that call each other.
cycle_found : verify_acyclic ((1 ∷ []) ∷ (0 ∷ []) ∷ []) ≡ err (invalid call_cycle)
unfolding verify_acyclic visit_graph visit_targets
cycle_found = refl

verify_acyclic-ends_example : verify_acyclic ((1 ∷ []) ∷ (0 ∷ []) ∷ []) ≢ err out_of_fuel
verify_acyclic-ends_example = verify_acyclic-ends ((1 ∷ []) ∷ (0 ∷ []) ∷ [])

chain_accepted : verify_acyclic ((1 ∷ []) ∷ [] ∷ []) ≡ ok tt
unfolding verify_acyclic visit_graph visit_targets
chain_accepted = refl

verify_acyclic-Grounded_example : Grounded ((1 ∷ []) ∷ [] ∷ []) 0
verify_acyclic-Grounded_example =
    verify_acyclic-Grounded ((1 ∷ []) ∷ [] ∷ []) 0 chain_accepted (omega arith)
