-- ===== src/Subgraph/Ve/Bounds.antt =====
-- Bounds of the voting power of subgraph/src/utils/ve.ts, over time and over merged locks.
use native.Mathlib.Nat.{mul-le-mul}
use claimrush.Prelude.{ℕ, ◌+◌, ◌-◌, ◌*◌, ◌/◌, ◌≤◌, ◌≡◌, max, Bool, false, arith}
use claimrush.Subgraph.Ve.{current_ve_wei, max_lock_duration_seconds}

longer : (a b m n : ℕ) → a ≤ b → m ≤ n → a * m ≤ b * n
longer a b m n p q = mul-le-mul p q

share_le : (amount left : ℕ) → left ≤ 31536000 → (amount * left) / 31536000 ≤ amount
share_le amount left h = omega (arith, longer amount amount left 31536000 (omega arith) h)

share_mono : (a b m n : ℕ) → a ≤ b → m ≤ n → (a * m) / 31536000 ≤ (b * n) / 31536000
share_mono a b m n p q = omega (arith, longer a b m n p q)

share_add : (a b m n : ℕ) → (a * m) / 31536000 + (b * n) / 31536000 ≤ ((a + b) * max m n) / 31536000
share_add a b m n = omega (
  arith,
  longer a a m (max m n) (omega arith) (omega arith),
  longer b b n (max m n) (omega arith) (omega arith),
  grown,
)
  where
    grown : (a + b) * max m n ≡ a * max m n + b * max m n
    grown = omega arith

pub current_ve_wei_bounded :
    (amount lock_end now : ℕ) (auto_max : Bool)
    → lock_end ≤ now + max_lock_duration_seconds
    → current_ve_wei amount lock_end now auto_max ≤ amount
unfolding current_ve_wei max_lock_duration_seconds
current_ve_wei_bounded amount lock_end now auto_max h =
    ground (arith, share_le amount (lock_end - now) (omega arith))

current_ve_wei_mono :
    (a b lock_end lock_end' now later : ℕ) (auto_max : Bool)
    → a ≤ b
    → lock_end ≤ lock_end'
    → now ≤ later
    → current_ve_wei a lock_end later auto_max ≤ current_ve_wei b lock_end' now auto_max
unfolding current_ve_wei max_lock_duration_seconds
current_ve_wei_mono a b lock_end lock_end' now later auto_max p q h =
    ground (arith, share_mono a b (lock_end - later) (lock_end' - now) p (omega arith))

pub merged_ends :
    (a b e e' now : ℕ)
    → current_ve_wei a e now false + current_ve_wei b e' now false
      ≤ current_ve_wei (a + b) (max e e') now false
unfolding current_ve_wei max_lock_duration_seconds
merged_ends a b e e' now = ground (
  arith,
  share_add a b (e - now) (e' - now),
  same_max,
  share_mono a (a + b) (e - now) (max e e' - now) (omega arith) (omega arith),
  share_mono b (a + b) (e' - now) (max e e' - now) (omega arith) (omega arith),
)
  where
    same_max : max (e - now) (e' - now) ≡ max e e' - now
    same_max = omega arith

-- A lock whose end is at most the longest duration away never counts for more than its amount, and
-- later, with no larger amount and no later end, it counts for no more than now.
pub current_ve_wei_bounds :
    (a b lock_end lock_end' now later : ℕ) (auto_max : Bool)
    → lock_end' ≤ now + max_lock_duration_seconds
    → a ≤ b
    → lock_end ≤ lock_end'
    → now ≤ later
    → (current_ve_wei a lock_end later auto_max ≤ current_ve_wei b lock_end' now auto_max)
      × (current_ve_wei b lock_end' now auto_max ≤ b)
current_ve_wei_bounds a b lock_end lock_end' now later auto_max near p q h = (
  current_ve_wei_mono a b lock_end lock_end' now later auto_max p q h,
  current_ve_wei_bounded b lock_end' now auto_max near,
)
