-- ===== src/Bytecode/Shape.antt =====
-- `validate_canonical_shape`: the bounds and the form of the embedded syntax.
use joan.Base.{
  ℕ, suc, ◌+◌, Bool, true, false, not, ◌||◌, String, List, [], ◌∷◌, Option, none, some, Result, ok,
  err, ◌>>=◌, ◌>>◌, reject_if, ok_or, ltb,
}
use joan.Base.Decimal.{parse_i64, to_string, codes}
use joan.Base.Lists.{length, is_nil}
use joan.Base.Order.{string_ord}
use joan.Ast.Canonical.{
  CanonicalExpression, Arguments, nil, cons, CanonicalStatement, let_, return, request, expression,
  CanonicalParameter, CanonicalAuthorityParameter, CanonicalFunction, CanonicalProgram,
  supports_schema, is_linear, is_information_flow,
}
use joan.Bytecode.Model.{
  BytecodeError, invalid, unsorted_effects, bad_literal, bad_schema, bad_count,
  unexpected_authority, missing_authority, unsorted_names,
}
use joan.Bytecode.Labels.{
  validate_identifier, validate_optional_information, validate_information_presence, after_or_equal,
  codes_beq,
}

abbrev pub max_functions : ℕ
max_functions = 1_024

abbrev pub max_parameters : ℕ
max_parameters = 64

abbrev pub max_statements : ℕ
max_statements = 100_000

abbrev pub max_expression_nodes : ℕ
max_expression_nodes = 200_000

abbrev pub max_expression_depth : ℕ
max_expression_depth = 256

-- The loop of `validate_sorted_effects`, after the effect given.
unfoldable pub validate_effects : Option String → List String → Result (Unit {0}) BytecodeError
validate_effects previous [] = ok tt
validate_effects previous (effect ∷ effects) = do
  validate_identifier effect
  reject_if (after_or_equal previous effect) (invalid unsorted_effects)
  validate_effects (some effect) effects

abbrev pub validate_sorted_effects : List String → Result (Unit {0}) BytecodeError
validate_sorted_effects effects = validate_effects none effects

unfoldable pub validate_authorities :
    Option String → List CanonicalAuthorityParameter → Result (Unit {0}) BytecodeError
validate_authorities previous [] = ok tt
validate_authorities previous (authority ∷ authorities) = do
  validate_identifier authority.name
  validate_identifier authority.effect
  reject_if (after_or_equal previous authority.name) (invalid unsorted_names)
  validate_authorities (some authority.name) authorities

unfoldable pub validate_canonical_authorities :
    Bool → Option (List CanonicalAuthorityParameter) → Result (Unit {0}) BytecodeError
validate_canonical_authorities false none = ok tt
validate_canonical_authorities false (some authorities) = err (invalid unexpected_authority)
validate_canonical_authorities true none = err (invalid missing_authority)
validate_canonical_authorities true (some authorities) = validate_authorities none authorities

unfoldable pub validate_parameters_presence :
    Bool → List CanonicalParameter → Result (Unit {0}) BytecodeError
validate_parameters_presence flow [] = ok tt
validate_parameters_presence flow (p ∷ ps) =
    validate_information_presence flow p.information >> validate_parameters_presence flow ps

unfoldable pub validate_canonical_information :
    Bool → CanonicalFunction → Result (Unit {0}) BytecodeError
validate_canonical_information flow f =
    validate_information_presence flow f.return_information
    >> validate_parameters_presence flow f.parameters

-- The test of the depth, and the count of the expressions so far, which is passed on.
unfoldable pub count_expression : ℕ → ℕ → Result ℕ BytecodeError
count_expression depth count = do
  reject_if (ltb max_expression_depth depth) (invalid bad_count)
  reject_if (ltb max_expression_nodes (suc count)) (invalid bad_count)
  ok (suc count)

unfoldable pub validate_integer : String → Result (Unit {0}) BytecodeError
validate_integer value = do
  parsed ← ok_or (parse_i64 value) (invalid bad_literal)
  reject_if (not (codes_beq (to_string parsed) (codes value))) (invalid bad_literal)

unfoldable mutual
  pub validate_expression : CanonicalExpression → ℕ → ℕ → Result ℕ BytecodeError
  validate_expression (CanonicalExpression.integer value) depth count = do
    counted ← count_expression depth count
    validate_integer value
    ok counted
  validate_expression (CanonicalExpression.boolean value) depth count = count_expression depth count
  validate_expression (CanonicalExpression.string value) depth count = count_expression depth count
  validate_expression (CanonicalExpression.variable name) depth count = do
    counted ← count_expression depth count
    validate_identifier name
    ok counted
  validate_expression (CanonicalExpression.unary op operand) depth count = do
    counted ← count_expression depth count
    validate_expression operand (suc depth) counted
  validate_expression (CanonicalExpression.binary op left right) depth count = do
    counted ← count_expression depth count
    after_left ← validate_expression left (suc depth) counted
    validate_expression right (suc depth) after_left
  validate_expression (CanonicalExpression.call function arguments) depth count = do
    counted ← count_expression depth count
    validate_identifier function
    validate_expressions arguments (suc depth) counted

  pub validate_expressions : Arguments → ℕ → ℕ → Result ℕ BytecodeError
  validate_expressions nil depth count = ok count
  validate_expressions (cons e es) depth count = do
    after_first ← validate_expression e depth count
    validate_expressions es depth after_first

unfoldable pub validate_authority : Bool → Option String → Result (Unit {0}) BytecodeError
validate_authority false none = ok tt
validate_authority true (some authority) = validate_identifier authority
validate_authority false (some authority) = err (invalid unexpected_authority)
validate_authority true none = err (invalid missing_authority)

unfoldable pub validate_statement : CanonicalStatement → Bool → Bool → ℕ → Result ℕ BytecodeError
validate_statement (let_ name value_type information value) linear flow count = do
  validate_identifier name
  validate_information_presence flow information
  validate_expression value 0 count
validate_statement (return none) linear flow count = ok count
validate_statement (return (some e)) linear flow count = validate_expression e 0 count
validate_statement (request effect authority information arguments) linear flow count = do
  validate_identifier effect
  validate_information_presence flow information
  validate_authority linear authority
  validate_expressions arguments 0 count
validate_statement (expression e) linear flow count = validate_expression e 0 count

unfoldable pub validate_statements :
    List CanonicalStatement → Bool → Bool → ℕ → Result ℕ BytecodeError
validate_statements [] linear flow count = ok count
validate_statements (s ∷ statements) linear flow count = do
  count' ← validate_statement s linear flow count
  validate_statements statements linear flow count'

unfoldable pub validate_parameters : List CanonicalParameter → Result (Unit {0}) BytecodeError
validate_parameters [] = ok tt
validate_parameters (p ∷ ps) = do
  validate_identifier p.name
  validate_optional_information p.information
  validate_parameters ps

-- The loop over the functions, after the name given, with the two counts so far.
unfoldable pub validate_functions :
    Bool → Bool → Option String → ℕ → ℕ → List CanonicalFunction → Result (Unit {0}) BytecodeError
validate_functions linear flow previous statements expressions [] = ok tt
validate_functions linear flow previous statements expressions (f ∷ functions) = do
  validate_identifier f.name
  reject_if (after_or_equal previous f.name) (invalid unsorted_names)
  reject_if (ltb max_parameters (length f.parameters)) (invalid bad_count)
  validate_parameters f.parameters
  validate_optional_information f.return_information
  validate_sorted_effects f.effects
  validate_canonical_authorities linear f.authorities
  validate_canonical_information flow f
  reject_if (ltb max_statements (statements + length f.body)) (invalid bad_count)
  expressions' ← validate_statements f.body linear flow expressions
  validate_functions linear flow (some f.name) (statements + length f.body) expressions' functions

unfoldable pub validate_canonical_shape : CanonicalProgram → Result (Unit {0}) BytecodeError
validate_canonical_shape ast = do
  reject_if (not (supports_schema ast.schema)) (invalid bad_schema)
  validate_identifier ast.module_name
  reject_if (is_nil ast.functions || ltb max_functions (length ast.functions)) (invalid bad_count)
  validate_functions (is_linear ast) (is_information_flow ast) none 0 0 ast.functions
