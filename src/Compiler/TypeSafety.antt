-- ===== src/Compiler/TypeSafety.antt =====
-- The calls of a verified program.
use joan.Base.{
  ℕ, zero, suc, ◌+◌, ◌≡◌, refl, sym, ap, subst, ◌∙◌, true, false, not, ◌||◌, List, [], ◌∷◌, some,
  ok, ok_or, ◌!=◌, nat_eq, string_eq, arith, >>=-eq-ok, >>-eq-ok, reject_if-eq-ok, ok_or-eq-ok,
  some_inj, ltb,
}
use joan.Base.Lists.{length, get_elem?, is_nil, prefix, replicate}
use joan.Base.Set.{contains}
use joan.Base.Order.{string_ord}
use joan.Ast.Types.{ValueType, value_type_eq}
use joan.Ast.Canonical.{is_linear, is_information_flow}
use joan.Bytecode.Model.{Value, BytecodeFunction, BytecodeProgram}
use joan.Bytecode.Labels.{validate_identifier}
use joan.Bytecode.Shape.{max_parameters, max_functions, validate_sorted_effects}
use joan.Bytecode.Verify.{verify_instructions, verify_function, last_is_return, initial_locals}
use joan.Bytecode.Structure.{
  verify_frame, types_beq, max_locals_per_function, max_total_instructions, verify_entry,
  verify_entries, Observed, verify_structure, validate_bytecode_authorities,
  validate_bytecode_information, VerificationObservation,
}
use joan.Compiler.Model.{RequestIds}
use joan.Compiler.Vm.{call, fill_locals}
use joan.Compiler.Ensures.{Ensures-bind}
use joan.Compiler.Typing.{LocalsTyped}
use joan.Compiler.Frames.{fill_frame, length-Typed}
use joan.Compiler.Instructions.{Profiled, CalleeTyped, Framed}
use joan.Compiler.Safety.{run_typed}

-- Every function of the table has passed the tests of its frame and its instructions.
abbrev pub Verified : BytecodeProgram → Type 0
Verified program =
    (index : ℕ) (f : BytecodeFunction)
    → get_elem? program.functions index ≡ some f
    → (verify_frame f ≡ ok tt) × ((r : ℕ × List ℕ) × (verify_function program f ≡ ok r))

types_beq-eq : (ts us : List ValueType) → types_beq ts us ≡ true → ts ≡ us
types_beq-eq [] [] h = refl
types_beq-eq [] (u ∷ us) h = cc
types_beq-eq (t ∷ ts) [] h = cc
types_beq-eq (t ∷ ts) (u ∷ us) h = ground (arith, value_type_eq.beq_iff t u, types_beq-eq ts us)

-- What the tests of a frame leave.
pub record IsFrame (f : BytecodeFunction) : Type 0 where
  pub parameters : f.parameter_count ≡ length f.parameter_types
  pub locals : f.local_count ≡ length f.local_types
  pub front : prefix f.parameter_count f.local_types ≡ some f.parameter_types

pub verify_frame-IsFrame : (f : BytecodeFunction) → verify_frame f ≡ ok tt → IsFrame f
unfolding verify_frame
verify_frame-IsFrame f h =
    let (e1, k1) = reject_if-eq-ok (ltb max_locals_per_function f.local_count) _ _ h in
    let (e2, k2) =
      reject_if-eq-ok
        (f.parameter_count != length f.parameter_types
          || f.local_count != length f.local_types
          || ltb f.local_count f.parameter_count)
        _ _ k1 in
    let (e3, k3) = reject_if-eq-ok (ltb max_parameters f.parameter_count) _ _ k2 in
    let (frame, e4, k4) = >>=-eq-ok (ok_or (prefix f.parameter_count f.local_types) _) _ k3 in
    let (e5, k5) = reject_if-eq-ok (not (types_beq f.parameter_types frame)) _ _ k4 in
    record {
      parameters = ground arith;
      locals = ground arith;
      front =
          ok_or-eq-ok _ _ e4 ∙ ap some (sym (types_beq-eq f.parameter_types frame (ground arith)));
    }

module _ (ids : RequestIds) (program : BytecodeProgram) (profiled : Profiled program)
    (verified : Verified program) where
  verified-Framed : Framed program
  verified-Framed index f found = (verify_frame-IsFrame f (verified index f found).0).parameters

  pub call-CalleeTyped : (left : ℕ) → CalleeTyped program (call ids program left)
  unfolding call verify_function
  call-CalleeTyped zero index f arguments m found typed = refl
  call-CalleeTyped (suc left) index f arguments m found typed =
      let (framed, (r, e)) = verified index f found in
      let frame = verify_frame-IsFrame f framed in
      let counted : (length arguments != f.parameter_count) ≡ false =
        ground (arith, length-Typed arguments f.parameter_types typed, frame.parameters) in
      let (bs, e1, k1) = >>=-eq-ok (initial_locals f.parameter_count f.local_count) _ e in
      let (ad, e2, k2) = >>=-eq-ok (verify_instructions program f f.instructions _ 0) _ k1 in
      let (e3, k3) = reject_if-eq-ok (not (last_is_return f.instructions)) _ _ k2 in
      rw (found, counted)
        (Ensures-bind (λ locals. LocalsTyped locals f.local_types bs) _
          (fill_locals arguments (replicate f.local_count Value.unit)) _
          (fill_frame arguments f.parameter_types f.local_types f.parameter_count f.local_count
            typed frame.parameters frame.locals frame.front e1)
          (λ locals hl.
            run_typed ids program profiled verified-Framed (call ids program left) f
              (call-CalleeTyped left) f.instructions
              (record { locals = locals; stack = []; machine = m })
              (record { initialized = bs; stack = []; consumed = []; calls = [] }) 0 (tt, hl)
              (ground arith) e2))

verify_entry-eq-ok :
    (program : BytecodeProgram) (f : BytecodeFunction) (o : Observed) {o' : Observed}
    → verify_entry program f o ≡ ok o'
    → (verify_frame f ≡ ok tt) × ((r : ℕ × List ℕ) × (verify_function program f ≡ ok r))
unfolding verify_entry
verify_entry-eq-ok program f o h =
    let (e1, k1) = >>-eq-ok (validate_identifier f.name) _ h in
    let (e2, k2) = reject_if-eq-ok (contains f.name o.names) _ _ k1 in
    let (e3, k3) = >>-eq-ok (validate_sorted_effects f.effects) _ k2 in
    let (e4, k4) =
      >>-eq-ok
        (validate_bytecode_authorities (is_linear program.canonical_ast) f.effects
          f.authority_slots)
        _ k3 in
    let (e5, k5) =
      >>-eq-ok (validate_bytecode_information (is_information_flow program.canonical_ast) f) _ k4 in
    let (e6, k6) = >>-eq-ok (verify_frame f) _ k5 in
    let (e7, k7) =
      reject_if-eq-ok (ltb max_total_instructions (o.instruction_count + length f.instructions)) _ _
        k6 in
    let (r, e8, k8) = >>=-eq-ok (verify_function program f) _ k7 in (e6, (r, e8))

verify_entries-eq-ok :
    (program : BytecodeProgram) (fs : List BytecodeFunction) (o : Observed) {o' : Observed}
    → verify_entries program fs o ≡ ok o'
    → (index : ℕ) (f : BytecodeFunction) → get_elem? fs index ≡ some f
    → (verify_frame f ≡ ok tt) × ((r : ℕ × List ℕ) × (verify_function program f ≡ ok r))
unfolding verify_entries
verify_entries-eq-ok program [] o h index f e = cc
verify_entries-eq-ok program (g ∷ fs) o h zero f e =
    let (o1, h1, k1) = >>=-eq-ok (verify_entry program g o) _ h in
    subst
      (λ (f' : BytecodeFunction).
        (verify_frame f' ≡ ok tt) × ((r : ℕ × List ℕ) × (verify_function program f' ≡ ok r)))
      (some_inj e) (verify_entry-eq-ok program g o h1)
verify_entries-eq-ok program (g ∷ fs) o h (suc index) f e =
    let (o1, h1, k1) = >>=-eq-ok (verify_entry program g o) _ h in
    verify_entries-eq-ok program fs o1 k1 index f e

pub verify_structure-Verified :
    (program : BytecodeProgram) {observed : VerificationObservation}
    → verify_structure program ≡ ok observed
    → Verified program
unfolding verify_structure
verify_structure-Verified program h index f found =
    let (e1, k1) =
      reject_if-eq-ok (is_nil program.functions || ltb max_functions (length program.functions)) _ _
        h in
    let (entry, e2, k2) =
      >>=-eq-ok (ok_or (get_elem? program.functions program.entry_function) _) _ k1 in
    let (e3, k3) = reject_if-eq-ok (entry.name != "main" || entry.parameter_count != 0) _ _ k2 in
    let (o, e4, k4) = >>=-eq-ok (verify_entries program program.functions _) _ k3 in
    verify_entries-eq-ok program program.functions _ e4 index f found

pub verify_structure-entry :
    (program : BytecodeProgram) {observed : VerificationObservation}
    → verify_structure program ≡ ok observed
    → (entry : BytecodeFunction) × (get_elem? program.functions program.entry_function ≡ some entry)
      × (entry.parameter_count ≡ 0)
unfolding verify_structure
verify_structure-entry program h =
    let (e1, k1) =
      reject_if-eq-ok (is_nil program.functions || ltb max_functions (length program.functions)) _ _
        h in
    let (entry, e2, k2) =
      >>=-eq-ok (ok_or (get_elem? program.functions program.entry_function) _) _ k1 in
    let (e3, k3) = reject_if-eq-ok (entry.name != "main" || entry.parameter_count != 0) _ _ k2 in
    (entry, ok_or-eq-ok _ _ e2, ground arith)
