-- ===== src/Dispute/Allocation.antt =====
-- `allocation_for`: the parts of a case's value.
use joan.Base.{ℕ, ◌+◌, ◌-◌, ◌*◌, ◌/◌, ◌≤◌, ◌<◌, ◌≡◌, refl, false, arith, ok, err}
use joan.Base.Words.{checked_sub, checked_sub_fits, u64_end}
use joan.Dispute.Model.{RemedyKind, AmbiguityFallback, RemedyAllocation, remedy_not_allowed}
use joan.Dispute.Remedy.{allocation_for, fallback_kind, exceeds_whole}

abbrev pub allocated : RemedyAllocation → ℕ
allocated a = a.buyer_refund_microunits + a.provider_release_microunits + a.retained_microunits

-- The three parts of an allocation add up to the value, and it is of the kind asked for.
pub allocation_for_sums :
    (kind : RemedyKind) (fallback : AmbiguityFallback) (value : ℕ) (a : RemedyAllocation)
    → allocation_for kind fallback value ≡ ok a
    → (allocated a ≡ value) × (a.kind ≡ kind)
unfolding allocation_for checked_sub
allocation_for_sums RemedyKind.split fallback value a h = ground arith
allocation_for_sums RemedyKind.full_refund fallback value a h = ground arith
allocation_for_sums RemedyKind.release_provider fallback value a h = ground arith
allocation_for_sums RemedyKind.repair fallback value a h = ground arith
allocation_for_sums RemedyKind.quarantine fallback value a h = ground arith

share_le : (value bps : ℕ) → bps ≤ 10_000 → value * bps / 10_000 ≤ value
share_le value bps h =
    let product : value * bps ≤ value * 10_000 = grind arith in omega (arith, product)

-- Under a fallback of at most 10,000 basis points every 64-bit value is divided, whatever the
-- remedy, provided that a split is asked only under a fallback that is a split.
pub allocation_for_total :
    (kind : RemedyKind) (fallback : AmbiguityFallback) (value : ℕ)
    → exceeds_whole fallback ≡ false
    → value < u64_end
    → (kind ≡ RemedyKind.split → fallback_kind fallback ≡ RemedyKind.split)
    → (a : RemedyAllocation) × (allocation_for kind fallback value ≡ ok a)
unfolding allocation_for fallback_kind
allocation_for_total RemedyKind.full_refund fallback value h v s = (_, refl)
allocation_for_total RemedyKind.release_provider fallback value h v s = (_, refl)
allocation_for_total RemedyKind.repair fallback value h v s = (_, refl)
allocation_for_total RemedyKind.quarantine fallback value h v s = (_, refl)
allocation_for_total RemedyKind.split (AmbiguityFallback.split bps) value h v s =
    let share = share_le value bps (ground arith) in
    (
      record {
        kind = RemedyKind.split;
        buyer_refund_microunits = value * bps / 10_000;
        provider_release_microunits = value - value * bps / 10_000;
        retained_microunits = 0;
      },
      ground (arith, share, checked_sub_fits value (value * bps / 10_000)),
    )
allocation_for_total RemedyKind.split AmbiguityFallback.full_refund value h v s = cc (s refl)
allocation_for_total RemedyKind.split AmbiguityFallback.release_provider value h v s = cc (s refl)
allocation_for_total RemedyKind.split AmbiguityFallback.repair value h v s = cc (s refl)
allocation_for_total RemedyKind.split AmbiguityFallback.quarantine value h v s = cc (s refl)

-- If a split of a value succeeds, the buyer's refund is the value's share in basis points rounded
-- down, the provider is released the rest, and nothing is retained.
pub split_rounds_down :
    (bps value : ℕ) (a : RemedyAllocation)
    → allocation_for RemedyKind.split (AmbiguityFallback.split bps) value ≡ ok a
    → (a.buyer_refund_microunits * 10_000 ≤ value * bps)
      × (value * bps < (a.buyer_refund_microunits + 1) * 10_000)
      × (a.provider_release_microunits + a.buyer_refund_microunits ≡ value)
      × (a.retained_microunits ≡ 0)
unfolding allocation_for checked_sub
split_rounds_down bps value a h = ground arith

-- A split under any other fallback is refused.
pub split_needs_split :
    (fallback : AmbiguityFallback) (value : ℕ)
    → (fallback_kind fallback ≡ RemedyKind.split → ⊥)
    → allocation_for RemedyKind.split fallback value ≡ err remedy_not_allowed
unfolding allocation_for fallback_kind
split_needs_split (AmbiguityFallback.split bps) value h = absurd (h refl)
split_needs_split AmbiguityFallback.full_refund value h = refl
split_needs_split AmbiguityFallback.release_provider value h = refl
split_needs_split AmbiguityFallback.repair value h = refl
split_needs_split AmbiguityFallback.quarantine value h = refl
