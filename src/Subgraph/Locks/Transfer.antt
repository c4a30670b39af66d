-- ===== src/Subgraph/Locks/Transfer.antt =====
-- `handleTransfer`: a mint and a transfer to oneself change nothing more, a burn counts only when the
-- Furnace burns, and any other transfer moves the lock from user to user.
use claimrush.Prelude.{
  ℕ, Bool, true, false, ◌||◌, ◌&&◌, not, Option, none, some, ◌∷◌, ◌==◌, if◌then◌else◌,
}
use claimrush.Subgraph.Table.{save}
use claimrush.Subgraph.Schema.{User, VeLock, Store, Meta, LockRow, Network, Protocol, zero_address}
use claimrush.Subgraph.Users.{load_or_create_user, note_ve_claim_nft, set_bytes_if_zero}
use claimrush.Subgraph.Locks.{
  Chain, lock_ve_snapshot, replace_user_ve_contribution, add_locked, take_locked, fetch_user,
  load_or_create_ve_lock, close_listing,
}
use claimrush.Subgraph.Locks.Lifecycle.{with_ve}

abbrev pub is_local_network : Network → Bool
is_local_network Network.local = true
is_local_network other = false

-- What the lock contract's `furnace()` gives, zero where it reverts.
abbrev furnace_or_zero : Option ℕ → ℕ
furnace_or_zero none = zero_address
furnace_or_zero (some f) = f

abbrev with_furnace : ℕ → Protocol → Protocol
with_furnace found p = record p {
  furnace = if found == zero_address then p.furnace else set_bytes_if_zero p.furnace found;
}

abbrev asks_for_furnace : Chain → Protocol → Bool
asks_for_furnace chain p = (p.furnace == zero_address) && not (is_local_network chain.network)

-- The Furnace's address as the burn branch resolves it.
abbrev pub furnace_address : Chain → Meta → Protocol → ℕ
furnace_address chain m p =
    let found = furnace_or_zero (chain.try_furnace m.emitter m.block_number) in
    if asks_for_furnace chain p then found else p.furnace

-- The store with the address filled in.
abbrev pub fill_furnace : Chain → Meta → Protocol → Store → Store
fill_furnace chain m p s = record s {
  protocol =
      if asks_for_furnace chain p
      then some (with_furnace (furnace_address chain m p) p)
      else s.protocol;
}

-- `fromIsFurnace`
unfoldable pub from_is_furnace : Chain → Meta → Protocol → ℕ → Bool
from_is_furnace chain m p from =
    let furnace = furnace_address chain m p in not (furnace == zero_address) && (furnace == from)

-- The lock after the Furnace burnt it.
abbrev pub burnt_lock : ℕ → VeLock → VeLock
burnt_lock now l = record l {
  owner = zero_address;
  amount_wei = 0;
  listed = false;
  updated_at = now;
  stored_ve_wei = some 0;
}

-- The burn once `from` is known to be the Furnace, whose row is `u`.
unfoldable pub burn_by_furnace : Meta → ℕ → ℕ → User → Store → Store
burn_by_furnace m from token_id u s =
    let now = m.timestamp in
    let (l, users, locks) = load_or_create_ve_lock token_id from now s.users s.locks in
    let old_ve = lock_ve_snapshot l now in
    if (l.owner == zero_address) || (l.amount_wei == 0)
    then record s { users = users; locks = locks }
    else record s {
      users = save from (replace_user_ve_contribution old_ve 0 (take_locked l.amount_wei u)) users;
      locks = save token_id (burnt_lock now l) locks;
      history =
          (m, LockRow.transferred token_id from none l.amount_wei l.lock_end l.auto_max)
          ∷ s.history;
      refreshes = m ∷ s.refreshes;
    }

unfoldable pub burn : Chain → Meta → ℕ → ℕ → Protocol → Store → Store
burn chain m from token_id p s =
    let (u, users) = fetch_user from s.users in
    let (_, users1) = load_or_create_user zero_address users in
    let s1 = fill_furnace chain m p (record s { users = users1 }) in
    let burnt = burn_by_furnace m from token_id u s1 in
    if from_is_furnace chain m p from then burnt else s1

-- A transfer between two different users.
unfoldable pub move_lock : Meta → ℕ → ℕ → ℕ → Store → Store
move_lock m from to token_id s =
    let now = m.timestamp in
    let (from_user, users0) = fetch_user from s.users in
    let (to_user, users1) = fetch_user to users0 in
    let (l, users2, locks) = load_or_create_ve_lock token_id from now users1 s.locks in
    let new = with_ve now (record l { owner = to; listed = false }) in
    let old_ve = lock_ve_snapshot l now in
    let new_ve = lock_ve_snapshot new now in
    let from' = replace_user_ve_contribution old_ve 0 (take_locked l.amount_wei from_user) in
    let to' = replace_user_ve_contribution 0 new_ve (add_locked l.amount_wei to_user) in
    record s {
      users = save to to' (save from from' users2);
      locks = save token_id new locks;
      listings = close_listing token_id l now s.listings;
      history =
          (m, LockRow.transferred token_id from (some to) l.amount_wei l.lock_end l.auto_max)
          ∷ s.history;
    }

unfoldable pub handle_transfer : Chain → Meta → ℕ → ℕ → ℕ → Store → Store
handle_transfer chain m from to token_id s =
    let (p, s1) = note_ve_claim_nft chain.network m s in
    let burnt = burn chain m from token_id p s1 in
    let moved = move_lock m from to token_id s1 in
    if from == zero_address
    then s1
    else if from == to
    then s1
    else if to == zero_address
    then burnt
    else moved
