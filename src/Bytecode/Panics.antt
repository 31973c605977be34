-- ===== src/Bytecode/Panics.antt =====
-- `validate_bytecode_information` on tables that are shorter than the parameters.
use mathlib.Core.Option
use joan.Base.{
  ℕ, suc, zero, ◌<◌, ◌≡◌, refl, ap, inl, inr, true, false, ◌||◌, List, [], ◌∷◌, none, some, ok, err,
  ◌!=◌, nat_eq, arith, ltb, Bool-cases,
}
use joan.Base.Lists.{length, prefix}
use joan.Base.Set.{contains}
use joan.Base.Order.{string_ord}
use joan.Ast.Types.{InformationLabel}
use joan.Ast.Canonical.{is_linear, is_information_flow}
use joan.Bytecode.Model.{
  BytecodeFunction, BytecodeProgram, invalid, panicked, Invalidity, local_limit, frame_counts,
}
use joan.Bytecode.Labels.{validate_identifier}
use joan.Bytecode.Shape.{validate_sorted_effects}
use joan.Bytecode.Structure.{
  validate_bytecode_authorities, validate_bytecode_information, validate_tables, verify_frame,
  verify_entry, Observed, max_locals_per_function,
}

prefix-short {ℓ} : {A : Type ℓ} (n : ℕ) (xs : List A) → length xs < n → prefix n xs ≡ none
prefix-short zero xs h = absurd (omega arith)
prefix-short (suc n) [] h = refl
prefix-short (suc n) (x ∷ xs) h = ap (Option.map (λ r. x ∷ r)) (prefix-short n xs (omega arith))

module _ (f : BytecodeFunction) (parameters locals : List InformationLabel)
    (return_label : InformationLabel) (parameter_table : f.parameter_information ≡ some parameters)
    (local_table : f.local_information ≡ some locals)
    (labelled : f.return_information ≡ some return_label)
    (parameters_counted : length parameters ≡ f.parameter_count)
    (locals_counted : length locals ≡ f.local_count)
    (short : f.local_count < f.parameter_count) where
  tables-panic : validate_bytecode_information true f ≡ err panicked
  unfolding validate_bytecode_information validate_tables
  tables-panic =
      let counted : (length parameters != f.parameter_count || length locals != f.local_count)
          ≡ false =
        ground arith in
      rw (parameter_table, local_table, labelled)
        (rw (counted, prefix-short f.parameter_count locals (omega arith)) refl)

  frame-rejected : (why : Invalidity) × (verify_frame f ≡ err (invalid why))
  unfolding verify_frame
  frame-rejected = elim (Bool-cases (ltb max_locals_per_function f.local_count)) [
    | inl t ↦ (local_limit, rw t refl)
    | inr n ↦
        let bad : (f.parameter_count != length f.parameter_types
              || f.local_count != length f.local_types
              || ltb f.local_count f.parameter_count)
            ≡ true =
          ground arith in
        (frame_counts, rw (n, bad) refl)
  ]

  -- The verifier panics at a function of an artifact with information flow which passes the tests
  -- on its name, its effects and its authority slots, and whose label tables have the lengths that
  -- it declares, with more parameters than locals; the tests of its frame, which come later,
  -- refuse such a function with an error.
  pub verify_entry-panics :
      (program : BytecodeProgram) (o : Observed)
      → is_information_flow program.canonical_ast ≡ true
      → validate_identifier f.name ≡ ok tt
      → contains f.name o.names ≡ false
      → validate_sorted_effects f.effects ≡ ok tt
      → validate_bytecode_authorities (is_linear program.canonical_ast) f.effects f.authority_slots
        ≡ ok tt
      → (verify_entry program f o ≡ err panicked)
        × ((why : Invalidity) × (verify_frame f ≡ err (invalid why)))
  unfolding verify_entry
  verify_entry-panics program o flow name fresh effects slots =
      (rw (name, fresh, effects, slots, flow, tables-panic) refl, frame-rejected)
