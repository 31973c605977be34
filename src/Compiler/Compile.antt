-- ===== src/Compiler/Compile.antt =====
-- `compile_program`: the code generator.
use joan.Base.{
  ℕ, String, List, [], ◌∷◌, ◌++◌, Option, none, some, Result, ok, err, ◌>>=◌, ok_or, map_err, map,
}
use joan.Base.Decimal.{parse_i64}
use joan.Base.Lists.{length}
use joan.Base.Map
use joan.Base.Map.{BTreeMap}
use joan.Base.Order.{string_ord}
use joan.Ast.Types.{InformationLabel, UnaryOperator, BinaryOperator}
use joan.Ast.Canonical.{
  CanonicalExpression, Arguments, nil, cons, count, CanonicalStatement, let_, return, request,
  expression, CanonicalParameter, CanonicalFunction, CanonicalProgram,
}
use joan.Bytecode.Model.{
  Value, Instruction, BytecodeFunction, BytecodeProgram, CanonicalAstIdentity,
}
use joan.Bytecode.Emit.{Emission, positions, emit_slots, schema_of}
use joan.Compiler.Model.{
  LanguageError, compiler, identity, bad_literal, missing_local, missing_function, missing_main,
  missing_label,
}

abbrev pub unary_instruction : UnaryOperator → Instruction
unary_instruction UnaryOperator.negate = Instruction.negate
unary_instruction UnaryOperator.not_ = Instruction.not_

abbrev pub binary_instruction : BinaryOperator → Instruction
binary_instruction BinaryOperator.add = Instruction.add
binary_instruction BinaryOperator.subtract = Instruction.subtract
binary_instruction BinaryOperator.multiply = Instruction.multiply
binary_instruction BinaryOperator.divide = Instruction.divide
binary_instruction BinaryOperator.remainder = Instruction.remainder
binary_instruction BinaryOperator.equal = Instruction.equal
binary_instruction BinaryOperator.not_equal = Instruction.not_equal
binary_instruction BinaryOperator.less = Instruction.less
binary_instruction BinaryOperator.less_equal = Instruction.less_equal
binary_instruction BinaryOperator.greater = Instruction.greater
binary_instruction BinaryOperator.greater_equal = Instruction.greater_equal
binary_instruction BinaryOperator.and = Instruction.and
binary_instruction BinaryOperator.or = Instruction.or

module _ (functions : BTreeMap String ℕ) (locals : BTreeMap String ℕ) where
  unfoldable mutual
    pub compile_expression :
        CanonicalExpression → List Instruction → Result (List Instruction) LanguageError
    compile_expression (CanonicalExpression.integer value) code = do
      n ← ok_or (parse_i64 value) (compiler bad_literal)
      ok (code ++ (Instruction.push (Value.i64 n) ∷ []))
    compile_expression (CanonicalExpression.boolean value) code =
        ok (code ++ (Instruction.push (Value.bool value) ∷ []))
    compile_expression (CanonicalExpression.string value) code =
        ok (code ++ (Instruction.push (Value.string value) ∷ []))
    compile_expression (CanonicalExpression.variable name) code = do
      slot ← ok_or (Map.get name locals) (compiler missing_local)
      ok (code ++ (Instruction.load_local slot ∷ []))
    compile_expression (CanonicalExpression.unary op operand) code = do
      code' ← compile_expression operand code
      ok (code' ++ (unary_instruction op ∷ []))
    compile_expression (CanonicalExpression.binary op left right) code = do
      code_left ← compile_expression left code
      code_right ← compile_expression right code_left
      ok (code_right ++ (binary_instruction op ∷ []))
    compile_expression (CanonicalExpression.call function arguments) code = do
      code' ← compile_arguments arguments code
      target ← ok_or (Map.get function functions) (compiler missing_function)
      ok (code' ++ (Instruction.call target (count arguments) ∷ []))

    pub compile_arguments : Arguments → List Instruction → Result (List Instruction) LanguageError
    compile_arguments nil code = ok code
    compile_arguments (cons e es) code = do
      code' ← compile_expression e code
      compile_arguments es code'

abbrev pub push_label :
    Option (List InformationLabel)
    → Option InformationLabel
    → Result (Option (List InformationLabel)) LanguageError
push_label none label = ok none
push_label (some labels) none = err (compiler missing_label)
push_label (some labels) (some label) = ok (some (labels ++ (label ∷ [])))

unfoldable pub compile_statement :
    BTreeMap String ℕ → CanonicalStatement → Emission → Result Emission LanguageError
compile_statement functions (let_ name value_type information value) e = do
  code ← compile_expression functions e.locals value e.instructions
  labels ← push_label e.local_information information
  let slot = length e.locals
  ok (record {
    locals = Map.insert name slot e.locals;
    local_types = e.local_types ++ (value_type ∷ []);
    local_information = labels;
    instructions = code ++ (Instruction.store_local slot ∷ []);
  })
compile_statement functions (return none) e = ok (record e {
  instructions = e.instructions ++ (Instruction.push Value.unit ∷ Instruction.return ∷ []);
})
compile_statement functions (return (some value)) e = do
  code ← compile_expression functions e.locals value e.instructions
  ok (record e { instructions = code ++ (Instruction.return ∷ []) })
compile_statement functions (request effect authority information arguments) e = do
  code ← compile_arguments functions e.locals arguments e.instructions
  ok (record e {
    instructions =
        code ++ (Instruction.request effect authority information (count arguments) ∷ []);
  })
compile_statement functions (expression value) e = do
  code ← compile_expression functions e.locals value e.instructions
  ok (record e { instructions = code ++ (Instruction.pop ∷ []) })

unfoldable pub compile_statements :
    BTreeMap String ℕ → List CanonicalStatement → Emission → Result Emission LanguageError
compile_statements functions [] e = ok e
compile_statements functions (s ∷ statements) e = do
  e' ← compile_statement functions s e
  compile_statements functions statements e'

unfoldable pub parameter_labels :
    List CanonicalParameter → Result (List InformationLabel) LanguageError
parameter_labels [] = ok []
parameter_labels (p ∷ ps) = do
  label ← ok_or p.information (compiler missing_label)
  labels ← parameter_labels ps
  ok (label ∷ labels)

abbrev pub label_table :
    Option InformationLabel
    → List CanonicalParameter
    → Result (Option (List InformationLabel)) LanguageError
label_table none parameters = ok none
label_table (some label) parameters = do labels ← parameter_labels parameters; ok (some labels)

unfoldable pub compile_function :
    BTreeMap String ℕ → CanonicalFunction → Result BytecodeFunction LanguageError
compile_function functions function = do
  let parameter_types = map (λ (p : CanonicalParameter). p.value_type) function.parameters
  parameter_information ← label_table function.return_information function.parameters
  e ← compile_statements functions function.body (record {
    locals = positions 0 (map (λ (p : CanonicalParameter). p.name) function.parameters) [];
    local_types = parameter_types;
    local_information = parameter_information;
    instructions = [];
  })
  ok (record {
    name = function.name;
    parameter_count = length parameter_types;
    parameter_types = parameter_types;
    parameter_information = parameter_information;
    local_count = length e.local_types;
    local_types = e.local_types;
    local_information = e.local_information;
    return_type = function.return_type;
    return_information = function.return_information;
    effects = function.effects;
    authority_slots = emit_slots function.authorities;
    instructions = e.instructions;
  })

unfoldable pub compile_functions :
    BTreeMap String ℕ → List CanonicalFunction → Result (List BytecodeFunction) LanguageError
compile_functions indexes [] = ok []
compile_functions indexes (f ∷ functions) = do
  g ← compile_function indexes f
  rest ← compile_functions indexes functions
  ok (g ∷ rest)

-- `encode_canonical_ast` gives the identity of the syntax; the canonical syntax of a program is
-- given.
unfoldable pub compile_program :
    (encode_canonical_ast : CanonicalProgram → Result CanonicalAstIdentity String)
    → CanonicalProgram
    → Result BytecodeProgram LanguageError
compile_program encode_canonical_ast ast = do
  let indexes = positions 0 (map (λ (f : CanonicalFunction). f.name) ast.functions) []
  entry_function ← ok_or (Map.get "main" indexes) (compiler missing_main)
  functions ← compile_functions indexes ast.functions
  semantic ← map_err identity (encode_canonical_ast ast)
  ok (record {
    schema = schema_of ast;
    module_name = ast.module_name;
    semantic_digest = semantic.digest;
    semantic_identity = semantic;
    canonical_ast = ast;
    entry_function = entry_function;
    functions = functions;
  })
