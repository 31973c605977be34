-- ===== src/Bytecode/Structure.antt =====
-- `verify_structure`: the function table, each function, and the graph of the calls.
use joan.Base.{
  ℕ, zero, suc, ◌+◌, Bool, true, false, not, ◌&&◌, ◌||◌, String, List, [], ◌∷◌, Option, none, some,
  Result, ok, err, ◌>>=◌, ◌>>◌, reject_if, ok_or, ◌!=◌, ◌==◌, nat_eq, string_eq, ltb, if◌then◌else◌,
  map,
}
use joan.Base.Lists.{length, is_nil, get_elem?, set, replicate, prefix, any, reverse_onto}
use joan.Base.Order.{string_ord}
use joan.Base.Set.{BTreeSet, contains, insert}
use joan.Ast.Types.{ValueType, value_type_eq, InformationLabel, label_eq}
use joan.Ast.Canonical.{is_linear, is_information_flow}
use joan.Bytecode.Model.{
  BytecodeFunction, BytecodeAuthoritySlot, BytecodeProgram, BytecodeError, invalid, panicked,
  out_of_fuel, function_count, entry_function, duplicate_name, unsorted_names, authority_table,
  undeclared_effect, information_table, frame_counts, parameter_limit, local_limit, frame_prefix,
  unit_local, instruction_count, total_instructions, call_cycle,
}
use joan.Bytecode.Labels.{validate_identifier, validate_optional_information, after_or_equal}
use joan.Bytecode.Shape.{validate_sorted_effects, max_functions, max_parameters}
use joan.Bytecode.Verify.{verify_function}

abbrev pub max_locals_per_function : ℕ
max_locals_per_function = 100_064

abbrev pub max_instructions_per_function : ℕ
max_instructions_per_function = 100_000

abbrev pub max_total_instructions : ℕ
max_total_instructions = 1_000_000

-- The loop of `validate_bytecode_authorities`, after the name given.
unfoldable pub validate_slots :
    List String → Option String → List BytecodeAuthoritySlot → Result (Unit {0}) BytecodeError
validate_slots effects previous [] = ok tt
validate_slots effects previous (slot ∷ slots) = do
  validate_identifier slot.name
  validate_identifier slot.effect
  reject_if (after_or_equal previous slot.name) (invalid unsorted_names)
  reject_if (not (contains slot.effect effects)) (invalid undeclared_effect)
  validate_slots effects (some slot.name) slots

unfoldable pub validate_bytecode_authorities :
    Bool → List String → Option (List BytecodeAuthoritySlot) → Result (Unit {0}) BytecodeError
validate_bytecode_authorities false effects none = ok tt
validate_bytecode_authorities false effects (some slots) = err (invalid authority_table)
validate_bytecode_authorities true effects none = err (invalid authority_table)
validate_bytecode_authorities true effects (some slots) = validate_slots effects none slots

abbrev pub labels_beq : List InformationLabel → List InformationLabel → Bool
labels_beq [] [] = true
labels_beq (a ∷ xs) (b ∷ ys) = a == b && labels_beq xs ys
labels_beq _ _ = false

unfoldable pub validate_labels : List InformationLabel → Result (Unit {0}) BytecodeError
validate_labels [] = ok tt
validate_labels (label ∷ labels) =
    validate_optional_information (some label) >> validate_labels labels

-- The tables of a function of an artifact with information flow. `||` tests the lengths first; then
-- `locals[..parameter_count]` panics if there are fewer locals.
unfoldable pub validate_tables :
    BytecodeFunction
    → List InformationLabel
    → List InformationLabel
    → InformationLabel
    → Result (Unit {0}) BytecodeError
validate_tables function parameters locals return_label = do
  reject_if (length parameters != function.parameter_count || length locals != function.local_count)
      (invalid information_table)
  frame ← ok_or (prefix function.parameter_count locals) panicked
  reject_if (not (labels_beq parameters frame)) (invalid information_table)
  validate_labels parameters
  validate_labels locals
  validate_optional_information (some return_label)

abbrev pub information_tables :
    Bool
    → BytecodeFunction
    → Option (List InformationLabel)
    → Option (List InformationLabel)
    → Option InformationLabel
    → Result (Unit {0}) BytecodeError
information_tables false function none none none = ok tt
information_tables true function (some parameters) (some locals) (some return_label) =
    validate_tables function parameters locals return_label
information_tables _ function _ _ _ = err (invalid information_table)

unfoldable pub validate_bytecode_information :
    Bool → BytecodeFunction → Result (Unit {0}) BytecodeError
unfolding validate_tables
validate_bytecode_information information_flow function =
    information_tables information_flow function function.parameter_information
      function.local_information function.return_information

abbrev pub types_beq : List ValueType → List ValueType → Bool
types_beq [] [] = true
types_beq (a ∷ xs) (b ∷ ys) = a == b && types_beq xs ys
types_beq _ _ = false

-- The tests on the counts and the types of a function's frame, and on its length.
unfoldable pub verify_frame : BytecodeFunction → Result (Unit {0}) BytecodeError
verify_frame function = do
  reject_if (ltb max_locals_per_function function.local_count) (invalid local_limit)
  reject_if
      (function.parameter_count != length function.parameter_types
        || function.local_count != length function.local_types
        || ltb function.local_count function.parameter_count)
      (invalid frame_counts)
  reject_if (ltb max_parameters function.parameter_count) (invalid parameter_limit)
  frame ← ok_or (prefix function.parameter_count function.local_types) panicked
  reject_if (not (types_beq function.parameter_types frame)) (invalid frame_prefix)
  reject_if (any (λ t. t == ValueType.unit) function.local_types) (invalid unit_local)
  reject_if
      (is_nil function.instructions
        || ltb max_instructions_per_function (length function.instructions))
      (invalid instruction_count)

-- The variables of the loop in `verify_structure`; the rows of the graph so far, the last first.
pub record Observed : Type 0 where
  pub names : BTreeSet String
  pub graph : List (List ℕ)
  pub instruction_count : ℕ
  pub max_stack_depth : ℕ

-- One round. The count of the instructions stays below 1 100 000, so its addition does not overflow.
unfoldable pub verify_entry :
    BytecodeProgram → BytecodeFunction → Observed → Result Observed BytecodeError
verify_entry program function o = do
  validate_identifier function.name
  reject_if (contains function.name o.names) (invalid duplicate_name)
  validate_sorted_effects function.effects
  validate_bytecode_authorities (is_linear program.canonical_ast) function.effects
      function.authority_slots
  validate_bytecode_information (is_information_flow program.canonical_ast) function
  verify_frame function
  reject_if (ltb max_total_instructions (o.instruction_count + length function.instructions))
      (invalid total_instructions)
  (depth, calls) ← verify_function program function
  ok (record {
    names = insert function.name o.names;
    graph = calls ∷ o.graph;
    instruction_count = o.instruction_count + length function.instructions;
    max_stack_depth = if ltb o.max_stack_depth depth then depth else o.max_stack_depth;
  })

unfoldable pub verify_entries :
    BytecodeProgram → List BytecodeFunction → Observed → Result Observed BytecodeError
verify_entries program [] o = ok o
verify_entries program (function ∷ functions) o = do
  o' ← verify_entry program function o
  verify_entries program functions o'

-- The loop over the targets of a call, by the visit of one.
unfoldable pub visit_targets :
    (ℕ → List ℕ → Result (List ℕ) BytecodeError) → List ℕ → List ℕ → Result (List ℕ) BytecodeError
visit_targets visit [] state = ok state
visit_targets visit (target ∷ targets) state = do
  state' ← visit target state
  visit_targets visit targets state'

-- `visit_graph`, with fuel for the depth of its recursion: 1 marks a function that is being
-- visited, 2 one that is done.
unfoldable pub visit_graph :
    ℕ → List (List ℕ) → (index : ℕ) → (state : List ℕ) → Result (List ℕ) BytecodeError
unfolding visit_targets
visit_graph zero graph index state = err out_of_fuel
visit_graph (suc fuel) graph index state =
    let visit = (do
      targets ← ok_or (get_elem? graph index) panicked
      state' ← visit_targets (visit_graph fuel graph) targets (set state index 1)
      ok (set state' index 2)) in
    do
      mark ← ok_or (get_elem? state index) panicked
      (if mark == 1 then err (invalid call_cycle) else if mark == 2 then ok state else visit)

-- `0..n`, after the numbers given.
abbrev pub range_onto : ℕ → List ℕ → List ℕ
range_onto zero rest = rest
range_onto (suc n) rest = range_onto n (n ∷ rest)

-- The fuel is one more than the number of functions.
unfoldable pub verify_acyclic : List (List ℕ) → Result (Unit {0}) BytecodeError
unfolding visit_graph visit_targets
verify_acyclic graph = do
  state ←
      visit_targets (visit_graph (suc (length graph)) graph) (range_onto (length graph) [])
        (replicate (length graph) 0)
  ok tt

-- `VerificationObservation`
pub record VerificationObservation : Type 0 where
  pub instruction_count : ℕ
  pub max_stack_depth : ℕ

unfoldable pub verify_structure : BytecodeProgram → Result VerificationObservation BytecodeError
verify_structure program = do
  reject_if (is_nil program.functions || ltb max_functions (length program.functions))
      (invalid function_count)
  entry ← ok_or (get_elem? program.functions program.entry_function) (invalid entry_function)
  reject_if (entry.name != "main" || entry.parameter_count != 0) (invalid entry_function)
  o ←
      verify_entries program program.functions
        (record { names = []; graph = []; instruction_count = 0; max_stack_depth = 0 })
  verify_acyclic (reverse_onto (map (λ calls. reverse_onto calls []) o.graph) [])
  ok (record { instruction_count = o.instruction_count; max_stack_depth = o.max_stack_depth })
