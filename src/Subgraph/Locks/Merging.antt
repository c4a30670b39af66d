-- ===== src/Subgraph/Locks/Merging.antt =====
-- The power of two locks against that of the lock they are merged into.
use claimrush.Prelude.{
  ℕ, ◌+◌, ◌≤◌, ◌≡◌, refl, max, Bool, true, false, ◌||◌, arith, ltb, if◌then◌else◌,
}
use claimrush.Subgraph.Schema.{VeLock}
use claimrush.Subgraph.Users.{or_zero}
use claimrush.Subgraph.Ve.{current_ve_wei, max_lock_duration_seconds}
use claimrush.Subgraph.Ve.Bounds.{current_ve_wei_bounded, merged_ends}
use claimrush.Subgraph.Locks.Closing.{merged_into}

-- The lock's power at a moment.
abbrev pub power_at : ℕ → VeLock → ℕ
power_at now l = current_ve_wei l.amount_wei l.lock_end now l.auto_max

later_end : (e e' : ℕ) → (if ltb e' e then e else e') ≡ max e e'
later_end e e' = ground arith

auto_power : (amount lock_end now : ℕ) → current_ve_wei amount lock_end now true ≡ amount
unfolding current_ve_wei max_lock_duration_seconds
auto_power amount lock_end now = refl

merged_power :
    (a b e e' now : ℕ) (auto auto' : Bool)
    → e ≤ now + max_lock_duration_seconds
    → e' ≤ now + max_lock_duration_seconds
    → current_ve_wei a e now auto + current_ve_wei b e' now auto'
      ≤ current_ve_wei
          (b + a)
          (if auto' || auto then now + max_lock_duration_seconds else if ltb e' e then e else e')
          now
          (auto' || auto)
merged_power a b e e' now auto true p q = omega (
  arith,
  auto_power (b + a) (now + max_lock_duration_seconds) now,
  current_ve_wei_bounded a e now auto p,
  current_ve_wei_bounded b e' now true q,
)
merged_power a b e e' now true false p q = omega (
  arith,
  auto_power (b + a) (now + max_lock_duration_seconds) now,
  current_ve_wei_bounded a e now true p,
  current_ve_wei_bounded b e' now false q,
)
merged_power a b e e' now false false p q = rw (later_end e e', swapped) (merged_ends a b e e' now)
  where
    swapped : b + a ≡ a + b
    swapped = omega arith

-- A merge of the whole source lock loses no power: the destination's stored power is at least the power that
-- the two locks have at that moment, when neither end is farther away than the longest duration.
pub merge_keeps_power :
    (now user : ℕ) (from into : VeLock)
    → from.lock_end ≤ now + max_lock_duration_seconds
    → into.lock_end ≤ now + max_lock_duration_seconds
    → power_at now from + power_at now into
      ≤ or_zero (merged_into now user from.amount_wei from into).stored_ve_wei
unfolding merged_into
merge_keeps_power now user from into p q =
    merged_power from.amount_wei into.amount_wei from.lock_end into.lock_end now from.auto_max
      into.auto_max p q
