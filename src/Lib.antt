-- ===== src/Lib.antt =====
-- JOAN: the machine-only dispute core, and the bytecode of its language. A case moves through a
-- lifecycle, an evidence graph is collected and locked, adjudicators' findings are counted into an
-- automatic decision, and a ledger of simulated holds reserves value and applies decisions to it.
-- Programs are compiled to bytecode artifacts, which a verifier checks and a bounded machine runs;
-- the effects that they request are recorded, never performed.
--
-- The parts, each a crate with one file, and the modules that model it:
--
-- crates/joan-canonical/src/lib.rs: `Canonical`. `Canonical.Types` has `Digest` and
-- `CanonicalError`. `digest_serializable` composes a generated serializer and a third party's
-- SHA-256, so `Canonical.Interface` makes it a record, `Digests T`, that each client takes as a
-- parameter at the types that it hashes. It may fail, and nothing is assumed of its values.
-- crates/joan-case/src/lib.rs: `Case`. `Case.State` has `CaseState` and `is_allowed`, `Case.Model`
-- the records and errors, `Case.Transition` `create_case`, `verify_case` and `transition_case`,
-- whose checks are `admit_transition` and whose change is `commit_transition`.
-- crates/joan-evidence/src/lib.rs: `Evidence`. `Evidence.Model` has the data, `Evidence.Graph`
-- `create_evidence_graph`, `verify_evidence_graph`, `apply_mutation` and `mutate_evidence`, split
-- into `admit_mutation` and `commit_mutation` around `apply_mutation`.
-- crates/joan-dispute/src/lib.rs: `Dispute`. `Dispute.Model` has the data, `Dispute.Remedy`
-- `validate_profile`, `fallback_kind` and `allocation_for`, `Dispute.Findings` `evaluate_findings`,
-- `Dispute.Evaluate` `validate_inputs`, `evaluate` with its choice `outcome` and its rest `decide`,
-- `evaluate_bundle` and `verify_decision`. It reads cases and evidence through `verify_case` and
-- `verify_evidence_graph`.
-- crates/joan-mock-ledger/src/lib.rs: `Ledger`. `Ledger.Model` has the data, `Ledger.Ops`
-- `create_ledger`, `verify_ledger`, `reserve`, `apply_decision` and `finish_mutation`. It reads
-- decisions through `verify_decision`.
-- crates/joan-ast/src/lib.rs: `Ast`. `Ast.Types` has the types, the labels and the operators,
-- `Ast.Canonical` the canonical syntax, `CanonicalProgram`.
-- crates/joan-bytecode/src/lib.rs: `Bytecode`. `Bytecode.Model` has values, instructions and
-- artifacts, `Bytecode.Shape` `validate_canonical_shape`, `Bytecode.Abstract` the abstract stack,
-- `Bytecode.Verify` `verify_function` (one function for each group of instructions, then
-- `verify_instruction` and the loop `verify_instructions`), `Bytecode.Structure` `verify_structure`
-- and `verify_acyclic`, `Bytecode.Emit` `independently_emit`, `Bytecode.Artifact`
-- `verify_bytecode`. Its record `Services` holds the static checker, the identity of the syntax and
-- the digest of an artifact, which are not modelled.
-- crates/joan-compiler/src/lib.rs: `Compiler`. `Compiler.Compile` has `compile_program`,
-- `Compiler.Model` the machine and its errors, `Compiler.Stack` the operations on values,
-- `Compiler.Vm` `Machine::call`: `execute` is its `match`, `run` its loop and `call` the entry. It
-- takes the identifiers of requests, which are digests or formatted numbers, as the record
-- `RequestIds`. `Compiler.Execute` has `execute_bytecode` and `execute_bytecode_function`.
-- crates/joan-guardian/src/lib.rs: `Guardian`. `Guardian.Gate` has `evaluate_candidate`, whose loop
-- is `count_votes`; `Guardian.Approval` is about its outcome.
-- crates/joan-lattice/src/lib.rs: `Lattice`. `Lattice.Frame` has `encode` and `decode` on lists of
-- bytes; a single bit is tested by division, and the bits of the level map are added, since they
-- differ. `Lattice.Unread` and `Lattice.Decoded` are about what `decode` reads, `Lattice.RoundTrip`
-- and `Lattice.Canonicity` about both.
--
-- The other modules of these trees are about what they are named for: `Case.Lifecycle` the graph of
-- states, `Atomic` one call, `History` any number of calls from a start, `Case.Stages` what such a
-- history passes, `Dispute.Quorum` and `Dispute.Count` the findings, `Dispute.Decision`,
-- `Dispute.Verdict` and `Dispute.Ruling` the decision, `Dispute.Bundle` the first decision and its
-- appeal, `Ledger.Totals` and `Ledger.Conservation` the sums, `Ledger.Stored` the holds that the
-- mutations store, `Ledger.Holds`, `Ledger.Credits` and `Ledger.Settlement` the two mutations,
-- `Ledger.Open` the holds of a history, `Ledger.Progress`, `Ledger.Payout` and `Ledger.Finality`
-- when mutations go through, `Ledger.Resolution` where decisions meet holds. `Base` has what they
-- share: results, Boolean equality, orders, `BTreeMap` and `BTreeSet` as sorted lists, checked
-- 64-bit arithmetic, signed and unsigned, and decimal texts. `Ast.Flow` is about labels,
-- `Bytecode.Equality` decides equality of artifacts, `Bytecode.Linear` is about authority slots,
-- `Bytecode.Panics` about its errors, `Bytecode.Acyclic` and `Bytecode.Grounded` about the call
-- graph, `Compiler.Agree` about the two generators; `Compiler.Ensures`, `Typing`, `Frames`,
-- `Instructions`, `Calls`, `Safety` and `TypeSafety` lead to `Compiler.Outcomes`, and
-- `Compiler.Accounting` is about the machine's counters. `Tests` modules run the code on small
-- inputs.
--
-- How code becomes definitions: a function of the program that returns a new value is a function
-- into `Result`, with `?` as `>>=` and an early return as `reject_if`, in the order of the code. A
-- clone that is changed and returned is a record update. A `u64` is a native number; every addition
-- or subtraction that the code checks is checked here at 2 ^ 64. `usize` has 64 bits, so
-- `u64::try_from` of a length succeeds. Loops over maps, sets and vectors are structural recursion,
-- so no fuel is needed there. A call of the machine recurs on the depth that is left below its
-- limit of 1 024, where the code fails too; `visit_graph` takes fuel, one more than the number of
-- functions. An `i64` is an integer, and the checked operations give none outside 64 bits. A stack
-- is a list whose head is the top. An index outside a slice, where the process panics, is the error
-- `panicked`. A formatted text of an error is a constructor. The numeric limits are the program's
-- own.
--
-- Not modelled: the other crates (the parser and the static checker, the native back end, packages,
-- host control and command line), the functions that start from source text, the serialized form of
-- the records, the texts of errors, and the hash function.
pub mod Base
pub mod Canonical
pub mod Ast
pub mod Bytecode
pub mod Compiler
pub mod Guardian
pub mod Lattice
pub mod Case
pub mod Evidence
pub mod Dispute
pub mod Ledger
