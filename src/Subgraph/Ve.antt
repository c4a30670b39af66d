-- ===== src/Subgraph/Ve.antt =====
-- subgraph/src/utils/ve.ts: the voting power of a lock at a moment. Amounts and times are uint256
-- values of events, so they are not negative, and the two subtractions stand under a test.
pub mod Bounds
use claimrush.Prelude.{
  ℕ, ◌+◌, ◌-◌, ◌*◌, ◌/◌, ◌≤◌, ◌<◌, ◌≡◌, refl, Bool, true, false, arith, leb, if◌then◌else◌,
}

unfoldable pub max_lock_duration_seconds : ℕ
max_lock_duration_seconds = 31536000

unfoldable pub current_ve_wei : ℕ → ℕ → ℕ → Bool → ℕ
unfolding max_lock_duration_seconds
current_ve_wei amount_wei lock_end now auto_max =
    if auto_max
    then amount_wei
    else if leb lock_end now
    then 0
    else (amount_wei * (lock_end - now)) / max_lock_duration_seconds
