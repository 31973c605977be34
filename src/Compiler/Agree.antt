-- ===== src/Compiler/Agree.antt =====
-- The compiler's generator and the verifier's.
use joan.Base.{
  ℕ, ◌≡◌, refl, subst, some_inj, String, List, [], ◌∷◌, Option, none, some, Result, ok, err, ◌>>=◌,
  ok_or, map, arith,
}
use joan.Base.Map
use joan.Base.Map.{BTreeMap}
use joan.Base.Order.{string_ord}
use joan.Base.Decimal.{parse_i64}
use joan.Ast.Types.{UnaryOperator, BinaryOperator, InformationLabel}
use joan.Ast.Canonical.{
  CanonicalExpression, Arguments, nil, cons, CanonicalStatement, let_, return, request, expression,
  CanonicalParameter, CanonicalFunction, CanonicalProgram,
}
use joan.Bytecode.Model.{Instruction, CanonicalAstIdentity}
use joan.Bytecode.Emit
use joan.Bytecode.Emit.{
  Emission, independently_emit_expression, independently_emit_arguments,
  independently_emit_statement, independently_emit_statements, independently_emit_function,
  independently_emit_functions, independently_emit, positions,
}
use joan.Compiler.Compile
use joan.Compiler.Compile.{
  compile_expression, compile_arguments, compile_statement, compile_statements, compile_function,
  compile_functions, compile_program,
}

-- The value of a step, whatever its error.
abbrev pub value_of {ℓ κ} : {A : Type ℓ} {E : Type κ} → Result A E → Option A
value_of (ok a) = some a
value_of (err e) = none

>>=_agree {ℓ κ μ ν} :
    {A : Type ℓ} {B : Type κ} {E : Type μ} {F : Type ν} (r : Result A E) (s : Result A F)
    (f : A → Result B E) (g : A → Result B F)
    → value_of r ≡ value_of s
    → ((a : A) → value_of (f a) ≡ value_of (g a))
    → value_of (r >>= f) ≡ value_of (s >>= g)
>>=_agree (ok a) (ok b) f g h k =
    subst (λ (c : _). value_of (f a) ≡ value_of (g c)) (some_inj h) (k a)
>>=_agree (ok a) (err e) f g h k = cc
>>=_agree (err e) (ok b) f g h k = cc
>>=_agree (err e) (err e') f g h k = refl

ok_or_agrees {ℓ κ μ} :
    {A : Type ℓ} {E : Type κ} {F : Type μ} (o : Option A) (e : E) (f : F)
    → value_of (ok_or o e) ≡ value_of (ok_or o f)
ok_or_agrees none e f = refl
ok_or_agrees (some a) e f = refl

unary_agree : (op : UnaryOperator) → Compile.unary_instruction op ≡ Emit.unary_instruction op
unary_agree UnaryOperator.negate = refl
unary_agree UnaryOperator.not_ = refl

binary_agree : (op : BinaryOperator) → Compile.binary_instruction op ≡ Emit.binary_instruction op
binary_agree op = ground arith

module _ (functions locals : BTreeMap String ℕ) where
  mutual
    unfolding compile_expression compile_arguments independently_emit_expression
        independently_emit_arguments

    pub compile_expression_agrees :
        (e : CanonicalExpression) (code : List Instruction)
        → value_of (compile_expression functions locals e code)
          ≡ value_of (independently_emit_expression functions locals e code)
    compile_expression_agrees (CanonicalExpression.integer value) code =
        >>=_agree (ok_or (parse_i64 value) _) (ok_or (parse_i64 value) _) _ _
          (ok_or_agrees (parse_i64 value) _ _) (λ n. refl)
    compile_expression_agrees (CanonicalExpression.boolean value) code = refl
    compile_expression_agrees (CanonicalExpression.string value) code = refl
    compile_expression_agrees (CanonicalExpression.variable name) code =
        >>=_agree (ok_or (Map.get name locals) _) (ok_or (Map.get name locals) _) _ _
          (ok_or_agrees (Map.get name locals) _ _) (λ n. refl)
    compile_expression_agrees (CanonicalExpression.unary op operand) code =
        >>=_agree (compile_expression functions locals operand code)
          (independently_emit_expression functions locals operand code) _ _
          (compile_expression_agrees operand code) (λ c. rw (unary_agree op))
    compile_expression_agrees (CanonicalExpression.binary op left right) code =
        >>=_agree (compile_expression functions locals left code)
          (independently_emit_expression functions locals left code) _ _
          (compile_expression_agrees left code)
          (λ c.
            >>=_agree (compile_expression functions locals right c)
              (independently_emit_expression functions locals right c) _ _
              (compile_expression_agrees right c) (λ d. rw (binary_agree op)))
    compile_expression_agrees (CanonicalExpression.call function arguments) code =
        >>=_agree (compile_arguments functions locals arguments code)
          (independently_emit_arguments functions locals arguments code) _ _
          (compile_arguments_agree arguments code)
          (λ c.
            >>=_agree (ok_or (Map.get function functions) _) (ok_or (Map.get function functions) _)
              _ _ (ok_or_agrees (Map.get function functions) _ _) (λ n. refl))

    pub compile_arguments_agree :
        (es : Arguments) (code : List Instruction)
        → value_of (compile_arguments functions locals es code)
          ≡ value_of (independently_emit_arguments functions locals es code)
    compile_arguments_agree nil code = refl
    compile_arguments_agree (cons e es) code =
        >>=_agree (compile_expression functions locals e code)
          (independently_emit_expression functions locals e code) _ _
          (compile_expression_agrees e code) (λ c. compile_arguments_agree es c)

push_label_agrees :
    (labels : Option (List InformationLabel)) (label : Option InformationLabel)
    → value_of (Compile.push_label labels label) ≡ value_of (Emit.push_label labels label)
push_label_agrees none label = refl
push_label_agrees (some labels) none = refl
push_label_agrees (some labels) (some label) = refl

compile_statement_agrees :
    (functions : BTreeMap String ℕ) (s : CanonicalStatement) (e : Emission)
    → value_of (compile_statement functions s e)
      ≡ value_of (independently_emit_statement functions s e)
unfolding compile_statement independently_emit_statement
compile_statement_agrees functions (let_ name t information value) e =
    >>=_agree (compile_expression functions e.locals value e.instructions)
      (independently_emit_expression functions e.locals value e.instructions) _ _
      (compile_expression_agrees functions e.locals value e.instructions)
      (λ c.
        >>=_agree (Compile.push_label e.local_information information)
          (Emit.push_label e.local_information information) _ _
          (push_label_agrees e.local_information information) (λ l. refl))
compile_statement_agrees functions (return none) e = refl
compile_statement_agrees functions (return (some value)) e =
    >>=_agree (compile_expression functions e.locals value e.instructions)
      (independently_emit_expression functions e.locals value e.instructions) _ _
      (compile_expression_agrees functions e.locals value e.instructions) (λ c. refl)
compile_statement_agrees functions (request effect authority information arguments) e =
    >>=_agree (compile_arguments functions e.locals arguments e.instructions)
      (independently_emit_arguments functions e.locals arguments e.instructions) _ _
      (compile_arguments_agree functions e.locals arguments e.instructions) (λ c. refl)
compile_statement_agrees functions (expression value) e =
    >>=_agree (compile_expression functions e.locals value e.instructions)
      (independently_emit_expression functions e.locals value e.instructions) _ _
      (compile_expression_agrees functions e.locals value e.instructions) (λ c. refl)

compile_statements_agree :
    (functions : BTreeMap String ℕ) (statements : List CanonicalStatement) (e : Emission)
    → value_of (compile_statements functions statements e)
      ≡ value_of (independently_emit_statements functions statements e)
unfolding compile_statements independently_emit_statements
compile_statements_agree functions [] e = refl
compile_statements_agree functions (s ∷ statements) e =
    >>=_agree (compile_statement functions s e) (independently_emit_statement functions s e) _ _
      (compile_statement_agrees functions s e) (compile_statements_agree functions statements)

parameter_labels_agree :
    (ps : List CanonicalParameter)
    → value_of (Compile.parameter_labels ps) ≡ value_of (Emit.parameter_labels ps)
unfolding Compile.parameter_labels Emit.parameter_labels
parameter_labels_agree [] = refl
parameter_labels_agree (p ∷ ps) =
    >>=_agree (ok_or p.information _) (ok_or p.information _) _ _ (ok_or_agrees p.information _ _)
      (λ l.
        >>=_agree (Compile.parameter_labels ps) (Emit.parameter_labels ps) _ _
          (parameter_labels_agree ps) (λ ls. refl))

label_table_agrees :
    (label : Option InformationLabel) (ps : List CanonicalParameter)
    → value_of (Compile.label_table label ps) ≡ value_of (Emit.label_table label ps)
label_table_agrees none ps = refl
label_table_agrees (some label) ps =
    >>=_agree (Compile.parameter_labels ps) (Emit.parameter_labels ps) _ _
      (parameter_labels_agree ps) (λ ls. refl)

compile_function_agrees :
    (functions : BTreeMap String ℕ) (f : CanonicalFunction)
    → value_of (compile_function functions f) ≡ value_of (independently_emit_function functions f)
unfolding compile_function independently_emit_function
compile_function_agrees functions f =
    >>=_agree (Compile.label_table f.return_information f.parameters)
      (Emit.label_table f.return_information f.parameters) _ _
      (label_table_agrees f.return_information f.parameters)
      (λ labels.
        >>=_agree (compile_statements functions f.body _)
          (independently_emit_statements functions f.body _) _ _
          (compile_statements_agree functions f.body _) (λ e. refl))

compile_functions_agree :
    (indexes : BTreeMap String ℕ) (fs : List CanonicalFunction)
    → value_of (compile_functions indexes fs) ≡ value_of (independently_emit_functions indexes fs)
unfolding compile_functions independently_emit_functions
compile_functions_agree indexes [] = refl
compile_functions_agree indexes (f ∷ fs) =
    >>=_agree (compile_function indexes f) (independently_emit_function indexes f) _ _
      (compile_function_agrees indexes f)
      (λ g.
        >>=_agree (compile_functions indexes fs) (independently_emit_functions indexes fs) _ _
          (compile_functions_agree indexes fs) (λ gs. refl))

-- Where the syntax has an identity, the compiler returns exactly what the verifier's own generator
-- returns for that identity: the same artifact, or none.
pub compile_program-eq-independently_emit :
    (encode_canonical_ast : CanonicalProgram → Result CanonicalAstIdentity String)
    (ast : CanonicalProgram) (semantic : CanonicalAstIdentity)
    → encode_canonical_ast ast ≡ ok semantic
    → value_of (compile_program encode_canonical_ast ast)
      ≡ value_of (independently_emit ast semantic)
unfolding compile_program independently_emit
compile_program-eq-independently_emit encode_canonical_ast ast semantic h =
    let indexes : BTreeMap String ℕ =
      positions 0 (map (λ (f : CanonicalFunction). f.name) ast.functions) [] in
    >>=_agree (ok_or (Map.get "main" indexes) _) (ok_or (Map.get "main" indexes) _) _ _
      (ok_or_agrees (Map.get "main" indexes) _ _)
      (λ entry.
        >>=_agree (compile_functions indexes ast.functions)
          (independently_emit_functions indexes ast.functions) _ _
          (compile_functions_agree indexes ast.functions) (λ gs. rw h))
