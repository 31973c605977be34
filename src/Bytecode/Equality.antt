-- ===== src/Bytecode/Equality.antt =====
-- Decisions for the derived `PartialEq` of the artifacts.
use native.Mathlib.Decide.{ℕ_discrete}
use joan.Base.{inl, inr, String, string_cases, Eq, derive_eq}
use joan.Base.Int.{ℤ}
use joan.Canonical.{Digest}
use joan.Ast.Types.{InformationLabel}
use joan.Ast.Canonical.{
  CanonicalExpression, CanonicalStatement, CanonicalFunction, CanonicalProgram,
}
use joan.Bytecode.Model.{
  Value, BytecodeProgram, CanonicalAstIdentity, Instruction, BytecodeFunction,
}

unfoldable pub string-discrete : Discrete String
string-discrete a b = elim (string_cases a b) [ inl p ↦ yes p | inr n ↦ no n ]

unfoldable pub int-discrete : Discrete ℤ
int-discrete = hlevel (ℕ_discrete)

unfoldable pub value-discrete : Discrete Value
unfolding string-discrete int-discrete
value-discrete = hlevel (int-discrete, string-discrete)

unfoldable pub label-discrete : Discrete InformationLabel
unfolding string-discrete
label-discrete = hlevel (string-discrete)

unfoldable pub digest-discrete : Discrete Digest
unfolding string-discrete
digest-discrete = hlevel (string-discrete)

unfoldable pub identity-discrete : Discrete CanonicalAstIdentity
unfolding string-discrete digest-discrete
identity-discrete = hlevel (string-discrete, digest-discrete)

unfoldable pub expression-discrete : Discrete CanonicalExpression
unfolding string-discrete
expression-discrete = hlevel (string-discrete)

unfoldable pub instruction-discrete : Discrete Instruction
unfolding string-discrete value-discrete label-discrete
instruction-discrete = hlevel (value-discrete, string-discrete, ℕ_discrete, label-discrete)

unfoldable pub function-discrete : Discrete BytecodeFunction
unfolding string-discrete label-discrete instruction-discrete
function-discrete = hlevel (string-discrete, ℕ_discrete, label-discrete, instruction-discrete)

unfoldable pub statement-discrete : Discrete CanonicalStatement
unfolding string-discrete label-discrete expression-discrete
statement-discrete = hlevel (string-discrete, label-discrete, expression-discrete)

unfoldable pub syntax_function-discrete : Discrete CanonicalFunction
unfolding string-discrete label-discrete statement-discrete
syntax_function-discrete = hlevel (string-discrete, label-discrete, statement-discrete)

unfoldable pub syntax-discrete : Discrete CanonicalProgram
unfolding string-discrete syntax_function-discrete
syntax-discrete = hlevel (string-discrete, syntax_function-discrete)

unfoldable pub BytecodeProgram-discrete : Discrete BytecodeProgram
unfolding string-discrete digest-discrete identity-discrete function-discrete syntax-discrete
BytecodeProgram-discrete = hlevel (
  string-discrete, ℕ_discrete, digest-discrete, identity-discrete, syntax-discrete,
  function-discrete,
)

unfoldable pub CanonicalAstIdentity-discrete : Discrete CanonicalAstIdentity
unfolding identity-discrete
CanonicalAstIdentity-discrete = identity-discrete

-- The derived `PartialEq`.
instance unfoldable pub program_eq : Eq BytecodeProgram
unfolding BytecodeProgram-discrete
program_eq = derive_eq BytecodeProgram-discrete

instance unfoldable pub identity_eq : Eq CanonicalAstIdentity
unfolding CanonicalAstIdentity-discrete
identity_eq = derive_eq CanonicalAstIdentity-discrete
