-- ===== src/Subgraph/Locks/Sold.antt =====
-- The part of `handleLockSoldToFurnace` (subgraph/src/mappings/furnace.ts) that burns the lock in the
-- store, where the transfer to zero has not done so already.
use claimrush.Prelude.{ℕ, ◌&&◌, none, some, ◌==◌, if◌then◌else◌}
use claimrush.Subgraph.Table.{load, save}
use claimrush.Subgraph.Schema.{User, VeLock, Store, Meta, zero_address}
use claimrush.Subgraph.Users.{or_zero, load_or_create_user}
use claimrush.Subgraph.Locks.{minus_clamped, lock_ve_snapshot}
use claimrush.Subgraph.Locks.Transfer.{burnt_lock}

-- The Furnace's row without the lock's share.
abbrev pub sold_row : ℕ → VeLock → User → User
sold_row now l u = record u {
  total_locked_claim_wei = some (minus_clamped (or_zero u.total_locked_claim_wei) l.amount_wei);
  ve_balance_wei = some (minus_clamped (or_zero u.ve_balance_wei) (lock_ve_snapshot l now));
}

unfoldable pub sell_lock : ℕ → ℕ → ℕ → VeLock → Store → Store
sell_lock now furnace token_id l s =
    let (_, users) = load_or_create_user zero_address s.users in
    let (u, users') = load_or_create_user furnace users in
    if (l.amount_wei == 0) && (l.owner == zero_address)
    then record s { users = users }
    else record s {
      users = save furnace (sold_row now l u) users';
      locks = save token_id (burnt_lock now l) s.locks;
    }

unfoldable pub burn_sold_lock : Meta → ℕ → ℕ → Store → Store
burn_sold_lock m furnace token_id s = elim (load token_id s.locks) [
  | none ↦ s
  | some l ↦ sell_lock m.timestamp furnace token_id l s
]
