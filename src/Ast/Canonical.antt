-- ===== src/Ast/Canonical.antt =====
-- The canonical syntax: `CanonicalProgram` and what it is made of.
use joan.Base.{ℕ, suc, Bool, ◌||◌, String, List, Option, ◌==◌, string_eq}
use joan.Ast.Types.{ValueType, InformationLabel, UnaryOperator, BinaryOperator}

-- `Arguments` is the `Vec` of the arguments of a call.
mutual
  pub data CanonicalExpression : Type 0 where
    integer : (value : String) → CanonicalExpression
    boolean : (value : Bool) → CanonicalExpression
    string : (value : String) → CanonicalExpression
    variable : (name : String) → CanonicalExpression
    unary : UnaryOperator → (operand : CanonicalExpression) → CanonicalExpression
    binary : BinaryOperator → (left right : CanonicalExpression) → CanonicalExpression
    call : (function : String) → Arguments → CanonicalExpression

  pub data Arguments : Type 0 where
    nil : Arguments
    cons : CanonicalExpression → Arguments → Arguments

-- `arguments.len()`
abbrev pub count : Arguments → ℕ
count nil = 0
count (cons e es) = suc (count es)

pub data CanonicalStatement : Type 0 where
  let_ :
      (name : String) (value_type : ValueType) (information : Option InformationLabel)
      (value : CanonicalExpression)
      → CanonicalStatement
  return : Option CanonicalExpression → CanonicalStatement
  request :
      (effect : String) (authority : Option String) (information : Option InformationLabel)
      → Arguments
      → CanonicalStatement
  expression : CanonicalExpression → CanonicalStatement

pub record CanonicalParameter : Type 0 where
  pub name : String
  pub value_type : ValueType
  pub information : Option InformationLabel

pub record CanonicalAuthorityParameter : Type 0 where
  pub name : String
  pub effect : String

pub record CanonicalFunction : Type 0 where
  pub name : String
  pub parameters : List CanonicalParameter
  pub return_type : ValueType
  pub return_information : Option InformationLabel
  pub effects : List String
  pub authorities : Option (List CanonicalAuthorityParameter)
  pub body : List CanonicalStatement

pub record CanonicalProgram : Type 0 where
  pub schema : String
  pub module_name : String
  pub functions : List CanonicalFunction

abbrev pub legacy_schema : String
legacy_schema = "joan.canonical-ast.v0"

abbrev pub linear_schema : String
linear_schema = "joan.canonical-ast.v1"

abbrev pub information_schema : String
information_schema = "joan.canonical-ast.v2"

unfoldable pub supports_schema : String → Bool
supports_schema schema =
    schema == legacy_schema || schema == linear_schema || schema == information_schema

unfoldable pub is_linear : CanonicalProgram → Bool
is_linear p = p.schema == linear_schema || p.schema == information_schema

unfoldable pub is_information_flow : CanonicalProgram → Bool
is_information_flow p = p.schema == information_schema
