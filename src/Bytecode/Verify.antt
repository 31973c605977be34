-- ===== src/Bytecode/Verify.antt =====
-- `verify_function`: the abstract execution of one function.
use joan.Base.{
  ℕ, zero, suc, Bool, true, false, not, ◌&&◌, String, List, [], ◌∷◌, Option, none, some, Result, ok,
  err, ◌>>=◌, ◌>>◌, reject_if, ok_or, ◌!=◌, nat_eq, string_eq, ltb, if◌then◌else◌,
}
use joan.Base.Lists.{length, is_nil, all, get_elem?, set, replicate, split_off}
use joan.Base.Map
use joan.Base.Map.{BTreeMap}
use joan.Base.Order.{string_ord}
use joan.Base.Set.{BTreeSet, contains, insert}
use joan.Ast.Types.{ValueType, value_type_eq, InformationLabel, public}
use joan.Ast.Canonical.{is_linear, is_information_flow}
use joan.Bytecode.Model.{
  value_type, Instruction, BytecodeFunction, BytecodeAuthoritySlot, BytecodeProgram, BytecodeError,
  invalid, panicked, outside_frame, uninitialized_local, immutable_local, outside_table,
  argument_count, stack_underflow, effect_propagation, undeclared_effect, different_operands,
  unknown_authority, wrong_authority_effect, reused_authority, unexpected_authority,
  missing_authority, return_shape, after_return, no_return, unconsumed_authority, stack_depth,
}
use joan.Bytecode.Labels.{validate_identifier, validate_information_presence}
use joan.Bytecode.Abstract.{
  public_value, Stack, pop_type, require_pop, unary_type, binary_type, require_information_flow,
  join_information, require_arguments, require_sink,
}

abbrev pub max_stack_depth : ℕ
max_stack_depth = 65_536

-- The variables of the loop in `verify_function`, with the calls that it records.
pub record Abstract : Type 0 where
  pub initialized : List Bool
  pub stack : Stack
  pub consumed : BTreeSet String
  pub calls : List ℕ

-- `labels[slot]`, or the public label where there is no table.
abbrev pub local_label : Option (List InformationLabel) → ℕ → Result InformationLabel BytecodeError
local_label none slot = ok public
local_label (some labels) slot = ok_or (get_elem? labels slot) panicked

abbrev pub label_or_public : Option InformationLabel → InformationLabel
label_or_public none = public
label_or_public (some label) = label

-- `collect` into a map from the slots' names to their effects.
abbrev pub slot_map : BTreeMap String String → List BytecodeAuthoritySlot → BTreeMap String String
slot_map m [] = m
slot_map m (s ∷ slots) = slot_map (Map.insert s.name s.effect m) slots

abbrev pub authority_slots : BytecodeFunction → BTreeMap String String
authority_slots f = elim f.authority_slots [ none ↦ [] | some slots ↦ slot_map [] slots ]

-- The `match` of a request on the profile and its authority.
unfoldable pub consume_authority :
    Bool
    → BTreeMap String String
    → String
    → Option String
    → BTreeSet String
    → Result (BTreeSet String) BytecodeError
consume_authority false slots effect none consumed = ok consumed
consume_authority true slots effect (some authority) consumed = do
  allowed ← ok_or (Map.get authority slots) (invalid unknown_authority)
  reject_if (allowed != effect) (invalid wrong_authority_effect)
  reject_if (contains authority consumed) (invalid reused_authority)
  ok (insert authority consumed)
consume_authority false slots effect (some authority) consumed = err (invalid unexpected_authority)
consume_authority true slots effect none consumed = err (invalid missing_authority)

abbrev pub is_return : Instruction → Bool
is_return Instruction.return = true
is_return _ = false

abbrev pub on_stack : Abstract → Result Stack BytecodeError → Result Abstract BytecodeError
on_stack a r = do s ← r; ok (record a { stack = s })

module _ (program : BytecodeProgram) (function : BytecodeFunction) where
  unfoldable pub verify_load : ℕ → Abstract → Result Abstract BytecodeError
  verify_load slot a = do
    value_type ← ok_or (get_elem? function.local_types slot) (invalid outside_frame)
    initialized ← ok_or (get_elem? a.initialized slot) panicked
    reject_if (not initialized) (invalid uninitialized_local)
    information ← local_label function.local_information slot
    ok (record a {
      stack = (record { value_type = value_type; information = information }) ∷ a.stack;
    })

  unfoldable pub verify_store : ℕ → Abstract → Result Abstract BytecodeError
  verify_store slot a = do
    expected ← ok_or (get_elem? function.local_types slot) (invalid outside_frame)
    initialized ← ok_or (get_elem? a.initialized slot) panicked
    reject_if initialized (invalid immutable_local)
    (actual, rest) ← require_pop a.stack expected
    destination ← local_label function.local_information slot
    require_information_flow actual.information destination
    ok (record a { stack = rest; initialized = set a.initialized slot true })

  unfoldable pub verify_equality : Abstract → Result Abstract BytecodeError
  verify_equality a = do
    (right, rest) ← pop_type a.stack
    (left, rest') ← pop_type rest
    reject_if (left.value_type != right.value_type) (invalid different_operands)
    information ← join_information left.information right.information
    ok (record a {
      stack = (record { value_type = ValueType.bool; information = information }) ∷ rest';
    })

  unfoldable pub verify_call : ℕ → ℕ → Abstract → Result Abstract BytecodeError
  verify_call index count a = do
    target ← ok_or (get_elem? program.functions index) (invalid outside_table)
    reject_if (count != target.parameter_count) (invalid argument_count)
    rest ← require_arguments a.stack target.parameter_types target.parameter_information
    reject_if (not (all (λ effect. contains effect function.effects) target.effects))
        (invalid effect_propagation)
    ok (record a {
      stack =
          (record {
            value_type = target.return_type;
            information = label_or_public target.return_information;
          })
          ∷ rest;
      calls = index ∷ a.calls;
    })

  unfoldable pub verify_request :
      String
      → Option String
      → Option InformationLabel
      → ℕ
      → Abstract
      → Result Abstract BytecodeError
  verify_request effect authority information count a = do
    validate_identifier effect
    reject_if (not (contains effect function.effects)) (invalid undeclared_effect)
    (values, rest) ← ok_or (split_off count a.stack []) (invalid stack_underflow)
    validate_information_presence (is_information_flow program.canonical_ast) information
    require_sink values (label_or_public information)
    consumed ←
        consume_authority (is_linear program.canonical_ast) (authority_slots function) effect
          authority a.consumed
    ok (record a { stack = rest; consumed = consumed })

  -- A return wants one value, of the function's type.
  unfoldable pub verify_return : Stack → Result (Unit {0}) BytecodeError
  verify_return (value ∷ []) = do
    reject_if (value.value_type != function.return_type) (invalid return_shape)
    require_information_flow value.information (label_or_public function.return_information)
  verify_return [] = err (invalid return_shape)
  verify_return (value ∷ other ∷ rest) = err (invalid return_shape)

  -- The `match` of the loop.
  unfoldable pub verify_instruction : Instruction → Abstract → Result Abstract BytecodeError
  verify_instruction (Instruction.push v) a =
      ok (record a { stack = public_value (value_type v) ∷ a.stack })
  verify_instruction (Instruction.load_local slot) a = verify_load slot a
  verify_instruction (Instruction.store_local slot) a = verify_store slot a
  verify_instruction Instruction.pop a = do
    (v, rest) ← pop_type a.stack
    ok (record a { stack = rest })
  verify_instruction Instruction.negate a =
      on_stack a (unary_type a.stack ValueType.i64 ValueType.i64)
  verify_instruction Instruction.not_ a =
      on_stack a (unary_type a.stack ValueType.bool ValueType.bool)
  verify_instruction Instruction.add a =
      on_stack a (binary_type a.stack ValueType.i64 ValueType.i64)
  verify_instruction Instruction.subtract a =
      on_stack a (binary_type a.stack ValueType.i64 ValueType.i64)
  verify_instruction Instruction.multiply a =
      on_stack a (binary_type a.stack ValueType.i64 ValueType.i64)
  verify_instruction Instruction.divide a =
      on_stack a (binary_type a.stack ValueType.i64 ValueType.i64)
  verify_instruction Instruction.remainder a =
      on_stack a (binary_type a.stack ValueType.i64 ValueType.i64)
  verify_instruction Instruction.less a =
      on_stack a (binary_type a.stack ValueType.i64 ValueType.bool)
  verify_instruction Instruction.less_equal a =
      on_stack a (binary_type a.stack ValueType.i64 ValueType.bool)
  verify_instruction Instruction.greater a =
      on_stack a (binary_type a.stack ValueType.i64 ValueType.bool)
  verify_instruction Instruction.greater_equal a =
      on_stack a (binary_type a.stack ValueType.i64 ValueType.bool)
  verify_instruction Instruction.and a =
      on_stack a (binary_type a.stack ValueType.bool ValueType.bool)
  verify_instruction Instruction.or a =
      on_stack a (binary_type a.stack ValueType.bool ValueType.bool)
  verify_instruction Instruction.equal a = verify_equality a
  verify_instruction Instruction.not_equal a = verify_equality a
  verify_instruction (Instruction.call index count) a = verify_call index count a
  verify_instruction (Instruction.request effect authority information count) a =
      verify_request effect authority information count a
  verify_instruction Instruction.return a = do verify_return a.stack; ok (record a { stack = [] })

  -- The loop, which also keeps the largest depth of the stack.
  unfoldable pub verify_instructions :
      List Instruction → Abstract → ℕ → Result (Abstract × ℕ) BytecodeError
  verify_instructions [] a depth = ok (a, depth)
  verify_instructions (i ∷ rest) a depth = do
    reject_if (is_return i && not (is_nil rest)) (invalid after_return)
    next ← verify_instruction i a
    reject_if (ltb max_stack_depth (length next.stack)) (invalid stack_depth)
    verify_instructions rest next
        (if ltb depth (length next.stack) then length next.stack else depth)

abbrev pub last_is_return : List Instruction → Bool
last_is_return [] = false
last_is_return (i ∷ []) = is_return i
last_is_return (i ∷ j ∷ rest) = last_is_return (j ∷ rest)

-- `initialized[..parameter_count].fill(true)` on `local_count` times `false`.
abbrev pub initial_locals : ℕ → ℕ → Result (List Bool) BytecodeError
initial_locals zero locals = ok (replicate locals false)
initial_locals (suc n) zero = err panicked
initial_locals (suc n) (suc m) = do rest ← initial_locals n m; ok (true ∷ rest)

-- The depth of the stack, and the functions called.
unfoldable pub verify_function :
    BytecodeProgram → BytecodeFunction → Result (ℕ × List ℕ) BytecodeError
verify_function program function = do
  initialized ← initial_locals function.parameter_count function.local_count
  (a, depth) ←
      verify_instructions program function function.instructions
        (record { initialized = initialized; stack = []; consumed = []; calls = [] }) 0
  reject_if (not (last_is_return function.instructions)) (invalid no_return)
  reject_if (length a.consumed != length (authority_slots function)) (invalid unconsumed_authority)
  ok (depth, a.calls)
