-- ===== src/Canonical/Interface.antt =====
-- What a client of the crate uses at one type `T: Serialize`: `digest_serializable::<T>`. Its
-- serializer is generated by a macro and its hash is a third party's, so clients take it as a
-- parameter.
use joan.Base.{String, Result}
use joan.Canonical.Types.{Digest, CanonicalError}

pub record Digests (T : Type 0) : Type 0 where
  pub digest_serializable : String → T → Result Digest CanonicalError
