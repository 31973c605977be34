-- ===== src/Bytecode/Model.antt =====
-- Values, instructions, functions and programs, and the errors.
use joan.Base.{ℕ, Bool, true, false, String, List, Option, ◌==◌, string_eq}
use joan.Base.Int.{ℤ, int_beq}
use joan.Canonical.{Digest}
use joan.Ast.Types.{ValueType, InformationLabel}
use joan.Ast.Canonical.{CanonicalProgram}

pub data Value : Type 0 where
  i64 : ℤ → Value
  bool : Bool → Value
  string : String → Value
  unit : Value

abbrev pub value_type : Value → ValueType
value_type (i64 n) = ValueType.i64
value_type (bool b) = ValueType.bool
value_type (string s) = ValueType.string
value_type unit = ValueType.unit

abbrev pub bool_beq : Bool → Bool → Bool
bool_beq true b = b
bool_beq false true = false
bool_beq false false = true

-- The derived `PartialEq`.
abbrev pub value_beq : Value → Value → Bool
value_beq (i64 a) (i64 b) = int_beq a b
value_beq (bool a) (bool b) = bool_beq a b
value_beq (string s) (string t) = s == t
value_beq unit unit = true
value_beq _ _ = false

pub data Instruction : Type 0 where
  push : Value → Instruction
  load_local store_local : (slot : ℕ) → Instruction
  pop negate not_ : Instruction
  add subtract multiply divide remainder : Instruction
  equal not_equal less less_equal greater greater_equal : Instruction
  and or : Instruction
  call : (function argument_count : ℕ) → Instruction
  request :
      (effect : String) (authority : Option String) (information : Option InformationLabel)
      (argument_count : ℕ)
      → Instruction
  return : Instruction

pub record BytecodeAuthoritySlot : Type 0 where
  pub name : String
  pub effect : String

pub record BytecodeFunction : Type 0 where
  pub name : String
  pub parameter_count : ℕ
  pub parameter_types : List ValueType
  pub parameter_information : Option (List InformationLabel)
  pub local_count : ℕ
  pub local_types : List ValueType
  pub local_information : Option (List InformationLabel)
  pub return_type : ValueType
  pub return_information : Option InformationLabel
  pub effects : List String
  pub authority_slots : Option (List BytecodeAuthoritySlot)
  pub instructions : List Instruction

-- `CanonicalAstIdentity` of crates/joan-identity/src/lib.rs.
pub record CanonicalAstIdentity : Type 0 where
  pub schema : String
  pub encoding : String
  pub ast_schema : String
  pub digest : Digest

pub record BytecodeProgram : Type 0 where
  pub schema : String
  pub module_name : String
  pub semantic_digest : Digest
  pub semantic_identity : CanonicalAstIdentity
  pub canonical_ast : CanonicalProgram
  pub entry_function : ℕ
  pub functions : List BytecodeFunction

abbrev pub program_schema : String
program_schema = "joan.bytecode-program.v1"

abbrev pub program_linear_schema : String
program_linear_schema = "joan.bytecode-program.v2"

abbrev pub program_information_schema : String
program_information_schema = "joan.bytecode-program.v3"

-- `Invalid` holds a formatted text; here each text is a constructor.
pub data Invalidity : Type 0 where
  stack_underflow wrong_type different_operands outside_frame uninitialized_local : Invalidity
  immutable_local outside_table argument_count argument_types effect_propagation : Invalidity
  undeclared_effect flow_violation incompatible_labels unknown_authority : Invalidity
  wrong_authority_effect reused_authority unexpected_authority missing_authority : Invalidity
  return_shape after_return no_return unconsumed_authority stack_depth : Invalidity
  bad_identifier missing_information unexpected_information : Invalidity
  function_count entry_function duplicate_name unsorted_effects authority_table : Invalidity
  information_table frame_counts parameter_limit local_limit frame_prefix : Invalidity
  unit_local instruction_count total_instructions call_cycle : Invalidity
  bad_literal missing_local missing_function missing_main missing_label : Invalidity
  bad_schema bad_count unsorted_names schema_pair identity_mismatch digest_mismatch : Invalidity
  module_mismatch : Invalidity

pub data BytecodeError : Type 0 where
  invalid : Invalidity → BytecodeError
  codegen_mismatch : BytecodeError
  -- `Jce1`, `Identity` and `Static`, with the text of the error.
  canonical identity static : String → BytecodeError
  -- The process panics: an index or a range outside a slice.
  panicked : BytecodeError
  -- The fuel that stands for the recursion of `visit_graph` is spent.
  out_of_fuel : BytecodeError
