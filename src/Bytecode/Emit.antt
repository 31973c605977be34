-- ===== src/Bytecode/Emit.antt =====
-- `independently_emit`: the verifier's own code generator.
use joan.Base.{
  ℕ, suc, String, List, [], ◌∷◌, ◌++◌, Option, none, some, Result, ok, err, ◌>>=◌, ok_or,
  if◌then◌else◌, map,
}
use joan.Base.Decimal.{parse_i64}
use joan.Base.Lists.{length}
use joan.Base.Map
use joan.Base.Map.{BTreeMap}
use joan.Base.Order.{string_ord}
use mathlib.Core.Option
use joan.Ast.Types.{ValueType, InformationLabel, UnaryOperator, BinaryOperator}
use joan.Ast.Canonical.{
  CanonicalExpression, Arguments, nil, cons, count, CanonicalStatement, let_, return, request,
  expression, CanonicalParameter, CanonicalAuthorityParameter, CanonicalFunction, CanonicalProgram,
  is_linear, is_information_flow,
}
use joan.Bytecode.Model.{
  Value, Instruction, BytecodeAuthoritySlot, BytecodeFunction, BytecodeProgram,
  CanonicalAstIdentity, program_schema, program_linear_schema, program_information_schema,
  BytecodeError, invalid, bad_literal, missing_local, missing_function, missing_main, missing_label,
}

abbrev pub unary_instruction : UnaryOperator → Instruction
unary_instruction UnaryOperator.negate = Instruction.negate
unary_instruction UnaryOperator.not_ = Instruction.not_

abbrev pub binary_instruction : BinaryOperator → Instruction
binary_instruction BinaryOperator.add = Instruction.add
binary_instruction BinaryOperator.subtract = Instruction.subtract
binary_instruction BinaryOperator.multiply = Instruction.multiply
binary_instruction BinaryOperator.divide = Instruction.divide
binary_instruction BinaryOperator.remainder = Instruction.remainder
binary_instruction BinaryOperator.equal = Instruction.equal
binary_instruction BinaryOperator.not_equal = Instruction.not_equal
binary_instruction BinaryOperator.less = Instruction.less
binary_instruction BinaryOperator.less_equal = Instruction.less_equal
binary_instruction BinaryOperator.greater = Instruction.greater
binary_instruction BinaryOperator.greater_equal = Instruction.greater_equal
binary_instruction BinaryOperator.and = Instruction.and
binary_instruction BinaryOperator.or = Instruction.or

module _ (functions : BTreeMap String ℕ) (locals : BTreeMap String ℕ) where
  unfoldable mutual
    pub independently_emit_expression :
        CanonicalExpression → List Instruction → Result (List Instruction) BytecodeError
    independently_emit_expression (CanonicalExpression.integer value) code = do
      n ← ok_or (parse_i64 value) (invalid bad_literal)
      ok (code ++ (Instruction.push (Value.i64 n) ∷ []))
    independently_emit_expression (CanonicalExpression.boolean value) code =
        ok (code ++ (Instruction.push (Value.bool value) ∷ []))
    independently_emit_expression (CanonicalExpression.string value) code =
        ok (code ++ (Instruction.push (Value.string value) ∷ []))
    independently_emit_expression (CanonicalExpression.variable name) code = do
      slot ← ok_or (Map.get name locals) (invalid missing_local)
      ok (code ++ (Instruction.load_local slot ∷ []))
    independently_emit_expression (CanonicalExpression.unary op operand) code = do
      code' ← independently_emit_expression operand code
      ok (code' ++ (unary_instruction op ∷ []))
    independently_emit_expression (CanonicalExpression.binary op left right) code = do
      code_left ← independently_emit_expression left code
      code_right ← independently_emit_expression right code_left
      ok (code_right ++ (binary_instruction op ∷ []))
    independently_emit_expression (CanonicalExpression.call function arguments) code = do
      code' ← independently_emit_arguments arguments code
      target ← ok_or (Map.get function functions) (invalid missing_function)
      ok (code' ++ (Instruction.call target (count arguments) ∷ []))

    pub independently_emit_arguments :
        Arguments → List Instruction → Result (List Instruction) BytecodeError
    independently_emit_arguments nil code = ok code
    independently_emit_arguments (cons e es) code = do
      code' ← independently_emit_expression e code
      independently_emit_arguments es code'

-- The variables of the loop over the statements.
pub record Emission : Type 0 where
  pub locals : BTreeMap String ℕ
  pub local_types : List ValueType
  pub local_information : Option (List InformationLabel)
  pub instructions : List Instruction

abbrev pub push_label :
    Option (List InformationLabel)
    → Option InformationLabel
    → Result (Option (List InformationLabel)) BytecodeError
push_label none label = ok none
push_label (some labels) none = err (invalid missing_label)
push_label (some labels) (some label) = ok (some (labels ++ (label ∷ [])))

unfoldable pub independently_emit_statement :
    BTreeMap String ℕ → CanonicalStatement → Emission → Result Emission BytecodeError
independently_emit_statement functions (let_ name value_type information value) e = do
  code ← independently_emit_expression functions e.locals value e.instructions
  labels ← push_label e.local_information information
  let slot = length e.locals
  ok (record {
    locals = Map.insert name slot e.locals;
    local_types = e.local_types ++ (value_type ∷ []);
    local_information = labels;
    instructions = code ++ (Instruction.store_local slot ∷ []);
  })
independently_emit_statement functions (return none) e = ok (record e {
  instructions = e.instructions ++ (Instruction.push Value.unit ∷ Instruction.return ∷ []);
})
independently_emit_statement functions (return (some value)) e = do
  code ← independently_emit_expression functions e.locals value e.instructions
  ok (record e { instructions = code ++ (Instruction.return ∷ []) })
independently_emit_statement functions (request effect authority information arguments) e = do
  code ← independently_emit_arguments functions e.locals arguments e.instructions
  ok (record e {
    instructions =
        code ++ (Instruction.request effect authority information (count arguments) ∷ []);
  })
independently_emit_statement functions (expression value) e = do
  code ← independently_emit_expression functions e.locals value e.instructions
  ok (record e { instructions = code ++ (Instruction.pop ∷ []) })

unfoldable pub independently_emit_statements :
    BTreeMap String ℕ → List CanonicalStatement → Emission → Result Emission BytecodeError
independently_emit_statements functions [] e = ok e
independently_emit_statements functions (s ∷ statements) e = do
  e' ← independently_emit_statement functions s e
  independently_emit_statements functions statements e'

-- `enumerate()` collected into a map from the names to the positions, from a first one on.
abbrev pub positions : ℕ → List String → BTreeMap String ℕ → BTreeMap String ℕ
positions index [] m = m
positions index (name ∷ names) m = positions (suc index) names (Map.insert name index m)

unfoldable pub parameter_labels :
    List CanonicalParameter → Result (List InformationLabel) BytecodeError
parameter_labels [] = ok []
parameter_labels (p ∷ ps) = do
  label ← ok_or p.information (invalid missing_label)
  labels ← parameter_labels ps
  ok (label ∷ labels)

abbrev pub label_table :
    Option InformationLabel
    → List CanonicalParameter
    → Result (Option (List InformationLabel)) BytecodeError
label_table none parameters = ok none
label_table (some label) parameters = do labels ← parameter_labels parameters; ok (some labels)

abbrev pub emit_slots :
    Option (List CanonicalAuthorityParameter) → Option (List BytecodeAuthoritySlot)
emit_slots authorities =
    Option.map (λ slots. map (λ a. record { name = a.name; effect = a.effect }) slots) authorities

unfoldable pub independently_emit_function :
    BTreeMap String ℕ → CanonicalFunction → Result BytecodeFunction BytecodeError
independently_emit_function functions function = do
  let parameter_types = map (λ (p : CanonicalParameter). p.value_type) function.parameters
  parameter_information ← label_table function.return_information function.parameters
  e ← independently_emit_statements functions function.body (record {
    locals = positions 0 (map (λ (p : CanonicalParameter). p.name) function.parameters) [];
    local_types = parameter_types;
    local_information = parameter_information;
    instructions = [];
  })
  ok (record {
    name = function.name;
    parameter_count = length parameter_types;
    parameter_types = parameter_types;
    parameter_information = parameter_information;
    local_count = length e.local_types;
    local_types = e.local_types;
    local_information = e.local_information;
    return_type = function.return_type;
    return_information = function.return_information;
    effects = function.effects;
    authority_slots = emit_slots function.authorities;
    instructions = e.instructions;
  })

unfoldable pub independently_emit_functions :
    BTreeMap String ℕ → List CanonicalFunction → Result (List BytecodeFunction) BytecodeError
independently_emit_functions indexes [] = ok []
independently_emit_functions indexes (f ∷ functions) = do
  g ← independently_emit_function indexes f
  rest ← independently_emit_functions indexes functions
  ok (g ∷ rest)

abbrev pub schema_of : CanonicalProgram → String
schema_of ast =
    if is_information_flow ast
    then program_information_schema
    else (if is_linear ast then program_linear_schema else program_schema)

unfoldable pub independently_emit :
    CanonicalProgram → CanonicalAstIdentity → Result BytecodeProgram BytecodeError
independently_emit ast identity = do
  let indexes = positions 0 (map (λ (f : CanonicalFunction). f.name) ast.functions) []
  entry_function ← ok_or (Map.get "main" indexes) (invalid missing_main)
  functions ← independently_emit_functions indexes ast.functions
  ok (record {
    schema = schema_of ast;
    module_name = ast.module_name;
    semantic_digest = identity.digest;
    semantic_identity = identity;
    canonical_ast = ast;
    entry_function = entry_function;
    functions = functions;
  })
