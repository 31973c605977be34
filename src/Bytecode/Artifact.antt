-- ===== src/Bytecode/Artifact.antt =====
-- `verify_bytecode`: the whole artifact.
use joan.Base.{
  ℕ, ◌||◌, ◌&&◌, String, Result, ok, err, ◌>>=◌, ◌>>◌, reject_if, ◌==◌, ◌!=◌, string_eq,
  if◌then◌else◌,
}
use joan.Base.Lists.{length}
use joan.Canonical.{Digest, digest_eq}
use joan.Ast.Canonical.{CanonicalProgram, legacy_schema, linear_schema, information_schema}
use joan.Bytecode.Model.{
  BytecodeProgram, CanonicalAstIdentity, BytecodeError, invalid, codegen_mismatch, program_schema,
  program_linear_schema, program_information_schema, schema_pair, identity_mismatch,
  digest_mismatch, module_mismatch,
}
use joan.Bytecode.Shape.{validate_canonical_shape}
use joan.Bytecode.Equality.{program_eq, identity_eq}
use joan.Bytecode.Structure.{verify_structure}
use joan.Bytecode.Emit.{independently_emit}

-- The three of `RegisteredDomainV1` that name an artifact.
pub data BytecodeDomain : Type 0 where
  legacy linear information : BytecodeDomain

pub record Profile : Type 0 where
  pub digest_domain : BytecodeDomain
  pub receipt_schema : String
  pub effect_profile : String
  pub codegen_binding : String

unfoldable pub bytecode_profile : String → String → Result Profile BytecodeError
bytecode_profile program ast =
    if program == program_schema && ast == legacy_schema
    then ok (record {
      digest_domain = legacy;
      receipt_schema = "joan.bytecode-verification-receipt.v0";
      effect_profile = "requests-validated-never-executed";
      codegen_binding = "canonical-ast-v0-independent-emitter-exact-match";
    })
    else (if program == program_linear_schema && ast == linear_schema
        then ok (record {
          digest_domain = linear;
          receipt_schema = "joan.bytecode-verification-receipt.v1";
          effect_profile = "linear-authority-validated-never-executed";
          codegen_binding = "canonical-ast-v1-independent-emitter-exact-match";
        })
        else (if program == program_information_schema && ast == information_schema
            then ok (record {
              digest_domain = information;
              receipt_schema = "joan.bytecode-verification-receipt.v2";
              effect_profile = "tenant-purpose-flow-and-linear-authority-validated-never-executed";
              codegen_binding = "canonical-ast-v2-independent-emitter-exact-match";
            })
            else err (invalid schema_pair)))

-- What the verifier calls that is not modelled: the static checker of crates/joan-check, with the name
-- of the module that its receipt bears, the identity of the syntax of crates/joan-identity, and the
-- digest of an artifact, `digest_serializable_v1`.
pub record Services : Type 0 where
  pub check : CanonicalProgram → Result String BytecodeError
  pub encode_canonical_ast : CanonicalProgram → Result CanonicalAstIdentity BytecodeError
  pub digest : BytecodeDomain → BytecodeProgram → Result Digest BytecodeError

pub record BytecodeVerificationReceipt : Type 0 where
  pub schema : String
  pub status : String
  pub verifier : String
  pub bytecode_digest : Digest
  pub semantic_digest : Digest
  pub function_count : ℕ
  pub instruction_count : ℕ
  pub max_stack_depth : ℕ
  pub codegen_binding : String
  pub effect_profile : String

module _ (services : Services) where
  unfoldable pub check_canonical_ast : CanonicalProgram → Result String BytecodeError
  check_canonical_ast ast = validate_canonical_shape ast >> services.check ast

  unfoldable pub verify_bytecode :
      BytecodeProgram → Result BytecodeVerificationReceipt BytecodeError
  verify_bytecode program = do
    profile ← bytecode_profile program.schema program.canonical_ast.schema
    validate_canonical_shape program.canonical_ast
    checked_module ← check_canonical_ast program.canonical_ast
    encoded ← services.encode_canonical_ast program.canonical_ast
    reject_if (program.semantic_identity != encoded) (invalid identity_mismatch)
    reject_if (program.semantic_digest != program.semantic_identity.digest)
        (invalid digest_mismatch)
    reject_if
        (program.module_name != program.canonical_ast.module_name
          || program.module_name != checked_module)
        (invalid module_mismatch)
    observation ← verify_structure program
    expected ← independently_emit program.canonical_ast encoded
    reject_if (program != expected) codegen_mismatch
    bytecode_digest ← services.digest profile.digest_domain program
    ok (record {
      schema = profile.receipt_schema;
      status = "verified";
      verifier = "joan-standalone-bytecode-verifier-v0";
      bytecode_digest = bytecode_digest;
      semantic_digest = program.semantic_digest;
      function_count = length program.functions;
      instruction_count = observation.instruction_count;
      max_stack_depth = observation.max_stack_depth;
      codegen_binding = profile.codegen_binding;
      effect_profile = profile.effect_profile;
    })
