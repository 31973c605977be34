-- ===== src/Compiler/Outcomes.antt =====
-- The execution of a verified artifact.
use joan.Base.{
  ℕ, ◌≡◌, refl, sym, ap, subst, ◌∙◌, true, false, not, ◌&&◌, ◌||◌, String, List, [], ◌∷◌, some, ok,
  ◌==◌, ◌!=◌, nat_eq, string_eq, arith, >>=-eq-ok, >>-eq-ok, reject_if-eq-ok, eq_of_!=, Bool-cases,
  inl, inr, some_inj,
}
use joan.Base.Lists.{length, get_elem?}
use joan.Ast.Types.{ValueType}
use joan.Ast.Canonical.{
  legacy_schema, linear_schema, information_schema, is_linear, is_information_flow,
}
use joan.Bytecode.Model.{
  Value, value_type, BytecodeFunction, BytecodeProgram, program_schema, program_linear_schema,
  program_information_schema,
}
use joan.Bytecode.Equality.{program_eq, identity_eq}
use joan.Canonical.{digest_eq}
use joan.Bytecode.Shape.{validate_canonical_shape}
use joan.Bytecode.Structure.{verify_structure}
use joan.Bytecode.Artifact.{
  Services, Profile, bytecode_profile, verify_bytecode, check_canonical_ast,
  BytecodeVerificationReceipt,
}
use joan.Compiler.Model.{RequestIds, max_call_depth}
use joan.Compiler.Vm.{call}
use joan.Compiler.Ensures.{Ensures, Ensures-bind}
use joan.Compiler.Typing.{Typed}
use joan.Compiler.Instructions.{Profiled}
use joan.Compiler.TypeSafety.{
  Verified, verify_frame-IsFrame, verify_structure-Verified, verify_structure-entry,
  call-CalleeTyped,
}
use joan.Compiler.Execute.{
  ExecutionReceipt, FunctionExecutionReceipt, execute_bytecode, execute_bytecode_function,
  validate_arguments, validate_types, value_matches_type, position, new_machine,
}

-- `Profiled` of the two schemas.
abbrev Paired : String → String → Type 0
Paired s t =
    ((s == program_information_schema) ≡ (t == information_schema))
    × ((s == program_linear_schema) ≡ true → (t == linear_schema || t == information_schema) ≡ true)

Paired-at : (s t s0 t0 : String) → (s == s0 && t == t0) ≡ true → Paired s0 t0 → Paired s t
Paired-at s t s0 t0 h k =
    let es : s ≡ s0 = (string_eq.beq_iff s s0).0 (ground arith) in
    let et : t ≡ t0 = (string_eq.beq_iff t t0).0 (ground arith) in
    subst (λ x. Paired x t) (sym es) (subst (λ y. Paired s0 y) (sym et) k)

bytecode_profile-Paired :
    (s t : String) {profile : Profile} → bytecode_profile s t ≡ ok profile → Paired s t
unfolding bytecode_profile
bytecode_profile-Paired s t {profile} h =
    elim (Bool-cases (s == program_schema && t == legacy_schema)) [
      | inl e ↦ Paired-at s t _ _ e (refl, λ q. cc)
      | inr n ↦ elim (Bool-cases (s == program_linear_schema && t == linear_schema)) [
        | inl e ↦ Paired-at s t _ _ e (refl, λ q. refl)
        | inr m ↦ elim (Bool-cases (s == program_information_schema && t == information_schema)) [
          | inl e ↦ Paired-at s t _ _ e (refl, λ q. cc)
          | inr o ↦ absurd (ground (arith, n, m, o, h))
        ]
      ]
    ]

bytecode_profile-Profiled :
    (p : BytecodeProgram) {profile : Profile}
    → bytecode_profile p.schema p.canonical_ast.schema ≡ ok profile
    → Profiled p
unfolding is_linear is_information_flow
bytecode_profile-Profiled p h = bytecode_profile-Paired p.schema p.canonical_ast.schema h

entry_count :
    (p : BytecodeProgram) (f : BytecodeFunction)
    → get_elem? p.functions p.entry_function ≡ some f
    → (entry : BytecodeFunction) × (get_elem? p.functions p.entry_function ≡ some entry)
      × (entry.parameter_count ≡ 0)
    → f.parameter_count ≡ 0
entry_count p f found (entry, e, zero_count) =
    ap (λ (g : BytecodeFunction). g.parameter_count) (some_inj (sym found ∙ e)) ∙ zero_count

Typed-nil : (ts : List ValueType) → length ts ≡ 0 → Typed [] ts
Typed-nil [] h = tt
Typed-nil (t ∷ ts) h = absurd (omega arith)

verify_bytecode-Verified :
    (services : Services) (p : BytecodeProgram) {receipt : BytecodeVerificationReceipt}
    → verify_bytecode services p ≡ ok receipt
    → Profiled p
      × Verified p
      × ((f : BytecodeFunction)
          → get_elem? p.functions p.entry_function ≡ some f
          → f.parameter_count ≡ 0)
unfolding verify_bytecode
verify_bytecode-Verified services p h =
    let (profile, e1, k1) = >>=-eq-ok (bytecode_profile p.schema p.canonical_ast.schema) _ h in
    let (e2, k2) = >>-eq-ok (validate_canonical_shape p.canonical_ast) _ k1 in
    let (m, e3, k3) = >>=-eq-ok (check_canonical_ast services p.canonical_ast) _ k2 in
    let (encoded, e4, k4) = >>=-eq-ok (services.encode_canonical_ast p.canonical_ast) _ k3 in
    let (e5, k5) = reject_if-eq-ok (p.semantic_identity != encoded) _ _ k4 in
    let (e6, k6) = reject_if-eq-ok (p.semantic_digest != p.semantic_identity.digest) _ _ k5 in
    let (e7, k7) =
      reject_if-eq-ok (p.module_name != p.canonical_ast.module_name || p.module_name != m) _ _ k6 in
    let (o, e8, k8) = >>=-eq-ok (verify_structure p) _ k7 in
    (
      bytecode_profile-Profiled p e1,
      verify_structure-Verified p e8,
      λ f found. entry_count p f found (verify_structure-entry p e8),
    )

value_matches_type-eq :
    (v : Value) (t : ValueType) → not (value_matches_type v t) ≡ false → value_type v ≡ t
value_matches_type-eq v t h = ground arith

validate_types-Typed :
    (ts : List ValueType) (vs : List Value)
    → length vs ≡ length ts
    → validate_types ts vs ≡ ok tt
    → Typed vs ts
unfolding validate_types
validate_types-Typed [] [] l h = tt
validate_types-Typed [] (v ∷ vs) l h = absurd (omega arith)
validate_types-Typed (t ∷ ts) [] l h = absurd (omega arith)
validate_types-Typed (t ∷ ts) (v ∷ vs) l h =
    let (e1, k1) = reject_if-eq-ok (not (value_matches_type v t)) _ _ h in
    (value_matches_type-eq v t e1, validate_types-Typed ts vs (omega arith) k1)

validate_arguments-Typed :
    (f : BytecodeFunction) (vs : List Value)
    → f.parameter_count ≡ length f.parameter_types
    → validate_arguments f vs ≡ ok tt
    → Typed vs f.parameter_types
unfolding validate_arguments
validate_arguments-Typed f vs frame h =
    let (e1, k1) = reject_if-eq-ok (length vs != f.parameter_count) _ _ h in
    validate_types-Typed f.parameter_types vs (eq_of_!= e1 ∙ frame) k1

-- A function of an artifact that the verifier accepts, called by its name with arguments that pass
-- `validate_arguments` and a budget above zero, returns a value of its declared type; the only
-- errors are an overflow or a division by zero, the spent budget, the depth of the calls, and a
-- failing digest of a request. So no stack underflows, no value has a wrong type, no local,
-- function, return or argument is missing, and no index panics.
pub execute_bytecode_function-Typed :
    (services : Services) (ids : RequestIds) (p : BytecodeProgram) (name : String)
    (arguments : List Value) (budget index : ℕ) (f : BytecodeFunction)
    {receipt : BytecodeVerificationReceipt}
    → verify_bytecode services p ≡ ok receipt
    → (budget == 0) ≡ false
    → position name p.functions ≡ some index
    → get_elem? p.functions index ≡ some f
    → validate_arguments f arguments ≡ ok tt
    → Ensures
        (λ (r : FunctionExecutionReceipt). value_type r.result ≡ f.return_type)
        (execute_bytecode_function services ids p name arguments budget)
unfolding execute_bytecode_function
execute_bytecode_function-Typed services ids p name arguments budget index f h positive at found
      valid =
    let (profiled, verified, entry) = verify_bytecode-Verified services p h in
    let frame = verify_frame-IsFrame f (verified index f found).0 in
    let run =
      call-CalleeTyped ids p profiled verified max_call_depth index f arguments (new_machine budget)
        found (validate_arguments-Typed f arguments frame.parameters valid) in
    rw (h, positive, at, found, valid)
      (Ensures-bind _ _ (call ids p max_call_depth index arguments (new_machine budget)) _ run
        (λ r hr. hr))

-- The entry function of an artifact that the verifier accepts, run with a budget above zero,
-- returns a value of its declared type; the only errors are an overflow or a division by zero, the
-- spent budget, the depth of the calls, and a failing digest of a request.
pub execute_bytecode-Typed :
    (services : Services) (ids : RequestIds) (p : BytecodeProgram) (budget : ℕ)
    (f : BytecodeFunction) {receipt : BytecodeVerificationReceipt}
    → verify_bytecode services p ≡ ok receipt
    → (budget == 0) ≡ false
    → get_elem? p.functions p.entry_function ≡ some f
    → Ensures
        (λ (r : ExecutionReceipt). value_type r.result ≡ f.return_type)
        (execute_bytecode services ids p budget)
unfolding execute_bytecode
execute_bytecode-Typed services ids p budget f h positive found =
    let (profiled, verified, entry) = verify_bytecode-Verified services p h in
    let frame = verify_frame-IsFrame f (verified p.entry_function f found).0 in
    let run =
      call-CalleeTyped ids p profiled verified max_call_depth p.entry_function f []
        (new_machine budget) found
        (Typed-nil f.parameter_types (sym frame.parameters ∙ entry f found)) in
    rw (h, positive)
      (Ensures-bind _ _ (call ids p max_call_depth p.entry_function [] (new_machine budget)) _ run
        (λ r hr. hr))
