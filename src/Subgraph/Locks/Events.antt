-- ===== src/Subgraph/Locks/Events.antt =====
-- The events of the lock contract and the Furnace's sale of a lock, with their handlers as subgraph.yaml
-- pairs them, and what the contracts promise of an event they emit.
use claimrush.Prelude.{ℕ, ◌≡◌, ◌≢◌, ◌⊎◌, Bool, All, none, some, List, [], ◌∷◌}
use claimrush.Subgraph.Table.{load}
use claimrush.Subgraph.Schema.{VeLock, Store, Meta, zero_address}
use claimrush.Subgraph.Locks.{Chain}
use claimrush.Subgraph.Locks.Lifecycle.{
  handle_lock_created, handle_lock_extended, handle_lock_amount_increased, handle_auto_max_set,
}
use claimrush.Subgraph.Locks.Closing.{handle_lock_merged, handle_lock_unlocked}
use claimrush.Subgraph.Locks.Transfer.{handle_transfer}
use claimrush.Subgraph.Locks.Sold.{burn_sold_lock}
use claimrush.Subgraph.Locks.Wiring.{handle_furnace_changed, handle_mine_market_changed}
use claimrush.Subgraph.Locks.Notices.{
  handle_slope_drift_clamped, handle_shareholder_checkpoint_failed,
}

pub data LockEvent : Type 0 where
  lock_created : (user token_id amount lock_end : ℕ) → Bool → LockEvent
  lock_extended : (user token_id new_end : ℕ) → LockEvent
  lock_amount_increased : (user token_id amount_added : ℕ) → LockEvent
  lock_merged : (user from_token_id into_token_id amount_moved : ℕ) → LockEvent
  lock_unlocked : (user token_id amount_returned : ℕ) → LockEvent
  auto_max_changed : (user token_id : ℕ) → Bool → LockEvent
  transfer : (from to token_id : ℕ) → LockEvent
  lock_sold_to_furnace : (furnace token_id : ℕ) → LockEvent
  slope_drift_clamped : LockEvent
  shareholder_checkpoint_failed : (user : ℕ) → LockEvent
  furnace_changed mine_market_changed : (new_address : ℕ) → LockEvent

unfoldable pub handle : Chain → Meta → LockEvent → Store → Store
handle c m (LockEvent.lock_created u t x end auto) s = handle_lock_created c m u t x end auto s
handle c m (LockEvent.lock_extended u t end) s = handle_lock_extended c m u t end s
handle c m (LockEvent.lock_amount_increased u t x) s = handle_lock_amount_increased c m u t x s
handle c m (LockEvent.lock_merged u t k x) s = handle_lock_merged c m u t k x s
handle c m (LockEvent.lock_unlocked u t x) s = handle_lock_unlocked c m u t x s
handle c m (LockEvent.auto_max_changed u t auto) s = handle_auto_max_set c m u t auto s
handle c m (LockEvent.transfer from to t) s = handle_transfer c m from to t s
handle c m (LockEvent.lock_sold_to_furnace f t) s = burn_sold_lock m f t s
handle c m LockEvent.slope_drift_clamped s = handle_slope_drift_clamped m s
handle c m (LockEvent.shareholder_checkpoint_failed u) s =
    handle_shareholder_checkpoint_failed m u s
handle c m (LockEvent.furnace_changed a) s = handle_furnace_changed c m a s
handle c m (LockEvent.mine_market_changed a) s = handle_mine_market_changed c m a s

unfoldable pub run : Chain → List (Meta × LockEvent) → Store → Store
run c [] s = s
run c ((m, e) ∷ es) s = run c es (handle c m e s)

-- The address has the lock in the store.
abbrev pub Owns : ℕ → ℕ → Store → Type 0
Owns a t s = (l : VeLock) × (load t s.locks ≡ some l) × (l.owner ≡ a)

-- The address has the lock in the store, and the lock's principal is the amount.
abbrev pub OwnsAll : ℕ → ℕ → ℕ → Store → Type 0
OwnsAll a t x s = (l : VeLock) × (load t s.locks ≡ some l) × (l.owner ≡ a) × (l.amount_wei ≡ x)

-- The lock is the Furnace's, or the burn has emptied it already.
abbrev pub IsSellable : ℕ → VeLock → Type 0
IsSellable furnace l = (l.owner ≡ furnace) ⊎ ((l.amount_wei ≡ 0) × (l.owner ≡ zero_address))

-- The store has the lock as burnt: no principal, no power, and the zero address as its owner.
abbrev pub IsBurnt : ℕ → Store → Type 0
IsBurnt t s =
    (l : VeLock) × (load t s.locks ≡ some l)
    × (l.amount_wei ≡ 0)
    × (l.owner ≡ zero_address)
    × (l.stored_ve_wei ≡ some 0)

-- No lock of the store is the address's.
abbrev pub OwnsNone : ℕ → Store → Type 0
OwnsNone a s = All (λ (row : ℕ × VeLock). row.1.owner ≢ a) s.locks

-- What the contracts promise of the next event, seen from the store that indexed the ones before: a new
-- lock has a new id, the user of an event owns the lock, an unlock and a merge move all of the principal,
-- who sends a lock to another address owns it, and a lock that is sold to the Furnace is the Furnace's or
-- burnt. The sale is reported before the burn, so its transfer to zero and its unlock find the lock burnt.
-- A lock reaches the Furnace only to be sold in the same transaction, so the Furnace owns none at that
-- unlock.
abbrev pub IsEmitted : LockEvent → Store → Type 0
IsEmitted (LockEvent.lock_created u t x end auto) s = load t s.locks ≡ none
IsEmitted (LockEvent.lock_extended u t end) s = Owns u t s
IsEmitted (LockEvent.lock_amount_increased u t x) s = Owns u t s
IsEmitted (LockEvent.lock_merged u t k x) s = (t ≢ k) × OwnsAll u t x s × Owns u k s
IsEmitted (LockEvent.lock_unlocked u t x) s = OwnsAll u t x s ⊎ (IsBurnt t s × OwnsNone u s)
IsEmitted (LockEvent.auto_max_changed u t auto) s = Owns u t s
IsEmitted (LockEvent.transfer from to t) s =
    from ≢ zero_address → from ≢ to → Owns from t s ⊎ ((to ≡ zero_address) × IsBurnt t s)
IsEmitted (LockEvent.lock_sold_to_furnace f t) s =
    (l : VeLock) → load t s.locks ≡ some l → IsSellable f l
IsEmitted LockEvent.slope_drift_clamped s = Unit
IsEmitted (LockEvent.shareholder_checkpoint_failed u) s = Unit
IsEmitted (LockEvent.furnace_changed a) s = Unit
IsEmitted (LockEvent.mine_market_changed a) s = Unit

unfoldable pub IsEmittedRun : Chain → List (Meta × LockEvent) → Store → Type 0
IsEmittedRun c [] s = Unit
IsEmittedRun c ((m, e) ∷ es) s = IsEmitted e s × IsEmittedRun c es (handle c m e s)
