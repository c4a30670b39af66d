-- ===== src/Guards/Tier/Tests.antt =====
-- Runs of the observer of keeper/src/shared/tier_observer.ts, and the theorems at concrete inputs.
use claimrush.Prelude.{◌+◌, ◌*◌, ◌≤◌, ◌<◌, ◌-◌, ◌≡◌, refl, List, [], ◌∷◌, length, drop}
use claimrush.Guards.Tier.{
  Tier, Sample, record_tiers, current_tier, primaries, fallbacks, record_tiers-newest,
  current_tier-fallback,
}

abbrev seen : List Sample
seen = Sample.primary ∷ Sample.fallback ∷ Sample.absent ∷ Sample.fallback ∷ []

-- A tie picks the faster cadence.
tie : current_tier (Sample.fallback ∷ Sample.primary ∷ []) ≡ Tier.primary
unfolding current_tier
tie = refl

record_tiers-newest_example : record_tiers 3 [] seen ≡ drop (length seen - 3) seen
record_tiers-newest_example = record_tiers-newest 3 seen

is_fallback : current_tier seen ≡ Tier.fallback
unfolding current_tier
is_fallback = refl

current_tier-fallback_example :
    (primaries seen < fallbacks seen) × (length seen ≤ 2 * (primaries seen + fallbacks seen))
current_tier-fallback_example = current_tier-fallback seen is_fallback
