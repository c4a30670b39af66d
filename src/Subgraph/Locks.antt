-- ===== src/Subgraph/Locks.antt =====
-- subgraph/src/mappings/veClaimNFT.ts: what its handlers share. A row that a handler has loaded is a
-- copy; the store changes where the handler saves it.
pub mod Lifecycle
pub mod Closing
pub mod Transfer
pub mod Sold
pub mod Wiring
pub mod Notices
pub mod Events
pub mod Merging
pub mod Balance
use claimrush.Prelude.{
  ℕ, ◌+◌, ◌-◌, Bool, true, false, Option, none, some, arith, ◌==◌, leb, if◌then◌else◌,
}
use claimrush.Subgraph.Table.{Table, load, save}
use claimrush.Subgraph.Schema.{User, VeLock, MarketListing, Store, Network, Meta}
use claimrush.Subgraph.Users.{or_zero, ensure_user_ve_fields, load_or_create_user}
use claimrush.Subgraph.Ve.{current_ve_wei}

-- What a handler reads outside the store: the network's name, and what a call of `furnace()` on a
-- lock contract at a block returns, `none` where it reverts.
pub record Chain : Type 0 where
  pub network : Network
  pub try_furnace : ℕ → ℕ → Option ℕ

-- `x.ge(y) ? x.minus(y) : ZERO`, as the handlers write it out.
abbrev pub minus_clamped : ℕ → ℕ → ℕ
minus_clamped x y = if leb y x then x - y else 0

abbrev pub stored_or : Option ℕ → ℕ → ℕ
stored_or none computed = computed
stored_or (some ve) computed = ve

-- The lock's power as last stored, or now where none is stored.
abbrev pub lock_ve_snapshot : VeLock → ℕ → ℕ
lock_ve_snapshot l now =
    stored_or l.stored_ve_wei (current_ve_wei l.amount_wei l.lock_end now l.auto_max)

abbrev pub replaced_ve : ℕ → ℕ → ℕ → ℕ
replaced_ve agg old_ve new_ve =
    if leb old_ve new_ve then agg + (new_ve - old_ve) else minus_clamped agg (old_ve - new_ve)

abbrev pub replace_user_ve_contribution : ℕ → ℕ → User → User
replace_user_ve_contribution old_ve new_ve u = record (ensure_user_ve_fields u) {
  ve_balance_wei = some (replaced_ve (or_zero u.ve_balance_wei) old_ve new_ve);
}

abbrev pub add_locked : ℕ → User → User
add_locked amount u = record u {
  total_locked_claim_wei = some (or_zero u.total_locked_claim_wei + amount);
}

abbrev pub take_locked : ℕ → User → User
take_locked amount u = record u {
  total_locked_claim_wei = some (minus_clamped (or_zero u.total_locked_claim_wei) amount);
}

-- The user of an event with its two aggregates filled in, and the users as they are left.
unfoldable pub fetch_user : ℕ → Table User → User × Table User
fetch_user addr users =
    let (u, users') = load_or_create_user addr users in (ensure_user_ve_fields u, users')

abbrev empty_lock : ℕ → ℕ → ℕ → VeLock
empty_lock token owner now = record {
  token_id = token;
  owner = owner;
  amount_wei = 0;
  lock_end = 0;
  auto_max = false;
  listed = false;
  created_at = now;
  updated_at = now;
  stored_ve_wei = some 0;
}

-- The lock, the users and the locks. A lock that is not in the store is saved empty, and its owner
-- is then loaded or created too.
unfoldable pub load_or_create_ve_lock :
    ℕ → ℕ → ℕ → Table User → Table VeLock → VeLock × Table User × Table VeLock
load_or_create_ve_lock token owner now users locks = elim (load token locks) [
  | none ↦
      let l = empty_lock token owner now in
      (l, (load_or_create_user owner users).1, save token l locks)
  | some l ↦ (l, users, locks)
]

-- The listing is closed, where there is one and it is active.
unfoldable pub close_active : ℕ → ℕ → Table MarketListing → Table MarketListing
close_active token now listings = elim (load token listings) [
  | none ↦ listings
  | some row ↦
      if row.active
      then save token (record row { active = false; updated_at = now }) listings
      else listings
]

-- The listing of a lock that is marked as listed is closed.
unfoldable pub close_listing : ℕ → VeLock → ℕ → Table MarketListing → Table MarketListing
close_listing token l now listings = if l.listed then close_active token now listings else listings
