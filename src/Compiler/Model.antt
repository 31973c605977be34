-- ===== src/Compiler/Model.antt =====
-- The machine, its requests and its errors.
use joan.Base.{ℕ, ◌+◌, ◌-◌, String, List, Option, Result, ok, ◌>>◌, reject_if, ◌==◌, nat_eq}
use joan.Canonical.{Digest}
use joan.Ast.Types.{InformationLabel}
use joan.Bytecode.Model.{Value, BytecodeError}

pub record EffectRequest : Type 0 where
  pub request_index : ℕ
  pub request_id : String
  pub function : String
  pub effect : String
  pub authority_slot : Option String
  pub information : Option InformationLabel
  pub arguments : List Value

pub record LinearEffectRequestCore : Type 0 where
  pub semantic_digest : Digest
  pub request_index : ℕ
  pub function : String
  pub effect : String
  pub authority_slot : String
  pub arguments : List Value

pub record InformationEffectRequestCore : Type 0 where
  pub semantic_digest : Digest
  pub request_index : ℕ
  pub function : String
  pub effect : String
  pub authority_slot : String
  pub information : InformationLabel
  pub arguments : List Value

-- The texts of `Runtime`.
pub data RuntimeFault : Type 0 where
  value_stack_underflow argument_stack_underflow expected_i64 expected_bool : RuntimeFault
  negation_overflow integer_failed : RuntimeFault
  call_depth_exceeded outside_table wrong_argument_count wrong_argument_type : RuntimeFault
  load_outside_frame store_outside_frame ended_without_return : RuntimeFault
  no_authority_slot no_information_label : RuntimeFault
  budget_exhausted zero_budget function_not_found : RuntimeFault

-- The texts of `Compiler`.
pub data CompilerFault : Type 0 where
  bad_literal missing_local missing_function missing_main missing_label : CompilerFault

-- `canonical` is `Jce1`, an error of the digest of a request, `identity` one of the encoding of the
-- syntax.
pub data LanguageError : Type 0 where
  canonical identity : String → LanguageError
  compiler : CompilerFault → LanguageError
  bytecode : BytecodeError → LanguageError
  runtime : RuntimeFault → LanguageError
  -- The process panics: an index outside a slice.
  panicked : LanguageError

-- `digest_serializable_v1(RegisteredDomainV1::EffectApplication, …)` at the two types of requests,
-- with the error's text, and the `format!` of a request's number: sixteen hexadecimal digits.
pub record RequestIds : Type 0 where
  pub linear : LinearEffectRequestCore → Result Digest String
  pub information : InformationEffectRequestCore → Result Digest String
  pub plain : (value : String) (request_index : ℕ) → String

pub record Machine : Type 0 where
  pub remaining : ℕ
  pub executed : ℕ
  pub requests : List EffectRequest

unfoldable pub consume_instruction : Machine → Result Machine LanguageError
consume_instruction m = do
  reject_if (m.remaining == 0) (runtime budget_exhausted)
  ok (record m { remaining = m.remaining - 1; executed = m.executed + 1 })

abbrev pub max_call_depth : ℕ
max_call_depth = 1_024
