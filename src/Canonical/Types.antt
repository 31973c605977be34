-- ===== src/Canonical/Types.antt =====
-- `Digest` and `CanonicalError`.
use joan.Base.{ℕ, ◌≡◌, ◌↔◌, Bool, true, ◌&&◌, String, arith, Eq, ◌==◌, string_eq}

pub record Digest : Type 0 where
  pub algorithm : String
  pub profile : String
  pub domain : String
  pub value : String

-- The derived `PartialEq`.
abbrev pub digest_beq : Digest → Digest → Bool
digest_beq a b =
    a.algorithm == b.algorithm
    && a.profile == b.profile
    && a.domain == b.domain
    && a.value == b.value

pub digest_beq_iff : (a b : Digest) → (digest_beq a b ≡ true) ↔ (a ≡ b)
digest_beq_iff a b = ground (
  arith,
  string_eq.beq_iff a.algorithm b.algorithm,
  string_eq.beq_iff a.profile b.profile,
  string_eq.beq_iff a.domain b.domain,
  string_eq.beq_iff a.value b.value,
)

instance unfoldable pub digest_eq : Eq Digest
digest_eq = record { beq = digest_beq; beq_iff = digest_beq_iff }

-- `placeholder_digest`, which four crates define for themselves.
abbrev pub placeholder_digest : Digest
placeholder_digest = record { algorithm = ""; profile = ""; domain = ""; value = "" }

pub data CanonicalError : Type 0 where
  input_too_large : (actual limit : ℕ) → CanonicalError
  json : String → CanonicalError
  depth_exceeded : (actual limit : ℕ) → CanonicalError
  node_count_exceeded : (actual limit : ℕ) → CanonicalError
  string_too_large : (actual limit : ℕ) → CanonicalError
  serialization : String → CanonicalError
  invalid_domain : CanonicalError
  digest_mismatch : CanonicalError
