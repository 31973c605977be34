-- ===== src/Dispute/Remedy.antt =====
-- `fallback_kind`, `allocation_for` and `validate_profile`.
use joan.Base.{
  ℕ, ◌*◌, ◌/◌, Bool, not, ◌||◌, Option, none, some, Result, ok, err, ◌>>=◌, ◌>>◌, reject_if, ok_or,
  ◌==◌, ◌!=◌, string_eq, nat_eq, ltb, if◌then◌else◌,
}
use joan.Base.Lists.{length}
use joan.Base.Order.{string_ord}
use joan.Base.Set.{contains, is_disjoint}
use joan.Base.Words.{checked_sub, u64_end}
use joan.Dispute.Model.{
  RemedyKind, remedy_kind_ord, AmbiguityFallback, RemedyAllocation, AutomaticResolutionProfile,
  DisputeError, unsupported_schema, automatic_finality_required, adjudicator_overlap,
  invalid_threshold, remedy_not_allowed, amount_overflow,
}

unfoldable pub fallback_kind : AmbiguityFallback → RemedyKind
fallback_kind AmbiguityFallback.full_refund = RemedyKind.full_refund
fallback_kind AmbiguityFallback.release_provider = RemedyKind.release_provider
fallback_kind (AmbiguityFallback.split _) = RemedyKind.split
fallback_kind AmbiguityFallback.repair = RemedyKind.repair
fallback_kind AmbiguityFallback.quarantine = RemedyKind.quarantine

-- `u64::try_from` on a `u128`.
abbrev pub u64_try_from : ℕ → Option ℕ
u64_try_from n = if ltb n u64_end then some n else none

-- `let AmbiguityFallback::Split {buyer_refund_bps } = fallback else {return Err(..) }`
abbrev pub split_bps : AmbiguityFallback → Result ℕ DisputeError
split_bps (AmbiguityFallback.split bps) = ok bps
split_bps AmbiguityFallback.full_refund = err remedy_not_allowed
split_bps AmbiguityFallback.release_provider = err remedy_not_allowed
split_bps AmbiguityFallback.repair = err remedy_not_allowed
split_bps AmbiguityFallback.quarantine = err remedy_not_allowed

-- The product is taken in `u128`, where a `u64` times a `u16` cannot overflow.
unfoldable pub allocation_for :
    RemedyKind → AmbiguityFallback → ℕ → Result RemedyAllocation DisputeError
allocation_for RemedyKind.full_refund fallback value = ok (record {
  kind = RemedyKind.full_refund;
  buyer_refund_microunits = value;
  provider_release_microunits = 0;
  retained_microunits = 0;
})
allocation_for RemedyKind.release_provider fallback value = ok (record {
  kind = RemedyKind.release_provider;
  buyer_refund_microunits = 0;
  provider_release_microunits = value;
  retained_microunits = 0;
})
allocation_for RemedyKind.split fallback value = do
  buyer_refund_bps ← split_bps fallback
  refund ← ok_or (u64_try_from (value * buyer_refund_bps / 10_000)) amount_overflow
  release ← ok_or (checked_sub value refund) amount_overflow
  ok (record {
    kind = RemedyKind.split;
    buyer_refund_microunits = refund;
    provider_release_microunits = release;
    retained_microunits = 0;
  })
allocation_for RemedyKind.repair fallback value = ok (record {
  kind = RemedyKind.repair;
  buyer_refund_microunits = 0;
  provider_release_microunits = 0;
  retained_microunits = value;
})
allocation_for RemedyKind.quarantine fallback value = ok (record {
  kind = RemedyKind.quarantine;
  buyer_refund_microunits = 0;
  provider_release_microunits = 0;
  retained_microunits = value;
})

-- `if let AmbiguityFallback::Split {buyer_refund_bps } = .. && buyer_refund_bps > 10_000`
abbrev pub exceeds_whole : AmbiguityFallback → Bool
exceeds_whole (AmbiguityFallback.split bps) = ltb 10_000 bps
exceeds_whole AmbiguityFallback.full_refund = Bool.false
exceeds_whole AmbiguityFallback.release_provider = Bool.false
exceeds_whole AmbiguityFallback.repair = Bool.false
exceeds_whole AmbiguityFallback.quarantine = Bool.false

-- `usize` has 64 bits, so `u64::try_from` of a length always succeeds.
unfoldable pub validate_profile : AutomaticResolutionProfile → Result (Unit {0}) DisputeError
validate_profile profile = do
  reject_if (profile.schema != "joan.automatic-resolution-profile.v0")
      (unsupported_schema profile.schema)
  reject_if (not profile.automatic_finality) automatic_finality_required
  reject_if (not (is_disjoint profile.primary_adjudicators profile.appeal_adjudicators))
      adjudicator_overlap
  reject_if
      (profile.primary_threshold == 0
        || profile.appeal_threshold == 0
        || ltb (length profile.primary_adjudicators) profile.primary_threshold
        || ltb (length profile.appeal_adjudicators) profile.appeal_threshold)
      invalid_threshold
  reject_if
      (not (contains (fallback_kind profile.ambiguity_fallback) profile.allowed_remedies)
        || not (contains RemedyKind.release_provider profile.allowed_remedies))
      remedy_not_allowed
  reject_if (exceeds_whole profile.ambiguity_fallback) remedy_not_allowed
