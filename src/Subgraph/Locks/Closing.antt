-- ===== src/Subgraph/Locks/Closing.antt =====
-- The handlers that close a lock: `handleLockMerged` and `handleLockUnlocked`.
use claimrush.Prelude.{ℕ, ◌+◌, false, ◌||◌, ◌∷◌, ◌==◌, ltb, if◌then◌else◌}
use claimrush.Subgraph.Table.{save}
use claimrush.Subgraph.Schema.{VeLock, Store, Meta, LockRow, zero_address}
use claimrush.Subgraph.Users.{load_or_create_user, note_ve_claim_nft}
use claimrush.Subgraph.Ve.{max_lock_duration_seconds}
use claimrush.Subgraph.Locks.{
  Chain, minus_clamped, lock_ve_snapshot, replace_user_ve_contribution, take_locked, fetch_user,
  load_or_create_ve_lock, close_listing,
}
use claimrush.Subgraph.Locks.Lifecycle.{with_ve}

-- The schedule of a lock is cleared once no principal remains.
abbrev pub clear_schedule : VeLock → VeLock
clear_schedule l = record l {
  lock_end = if l.amount_wei == 0 then 0 else l.lock_end;
  auto_max = if l.amount_wei == 0 then false else l.auto_max;
}

-- The source lock after a merge; its power is computed before the schedule is cleared.
abbrev pub merged_from : ℕ → ℕ → VeLock → VeLock
merged_from now moved l = clear_schedule (
    with_ve now (record l {
      owner = zero_address;
      amount_wei = minus_clamped l.amount_wei moved;
      listed = false;
    }))

-- The destination lock after a merge, given the source lock.
unfoldable pub merged_into : ℕ → ℕ → ℕ → VeLock → VeLock → VeLock
unfolding max_lock_duration_seconds
merged_into now user moved from into =
    let auto = into.auto_max || from.auto_max in
    with_ve now (record into {
      owner = user;
      amount_wei = into.amount_wei + moved;
      auto_max = auto;
      lock_end =
          if auto
          then now + max_lock_duration_seconds
          else if ltb into.lock_end from.lock_end
          then from.lock_end
          else into.lock_end;
    })

unfoldable pub handle_lock_merged : Chain → Meta → ℕ → ℕ → ℕ → ℕ → Store → Store
handle_lock_merged chain m user from_token into_token moved s =
    let (_, s1) = note_ve_claim_nft chain.network m s in
    let now = m.timestamp in
    let (u, users) = fetch_user user s1.users in
    let (from, users1, locks1) = load_or_create_ve_lock from_token user now users s1.locks in
    let (into, users2, locks2) = load_or_create_ve_lock into_token user now users1 locks1 in
    let from' = merged_from now moved from in
    let into' = merged_into now user moved from into in
    let (_, users3) = load_or_create_user zero_address users2 in
    let old_total = lock_ve_snapshot from now + lock_ve_snapshot into now in
    let new_total = lock_ve_snapshot from' now + lock_ve_snapshot into' now in
    record s1 {
      users = save user (replace_user_ve_contribution old_total new_total u) users3;
      locks = save into_token into' (save from_token from' locks2);
      listings = close_listing from_token from now s1.listings;
      history =
          (m, LockRow.merged user from_token into_token moved from'.amount_wei into'.amount_wei)
          ∷ s1.history;
    }

abbrev pub unlocked_lock : ℕ → ℕ → VeLock → VeLock
unlocked_lock now returned l = with_ve now (
    clear_schedule (record l {
      owner = zero_address;
      amount_wei = minus_clamped l.amount_wei returned;
      listed = false;
    }))

unfoldable pub handle_lock_unlocked : Chain → Meta → ℕ → ℕ → ℕ → Store → Store
handle_lock_unlocked chain m user token_id returned s =
    let (_, s1) = note_ve_claim_nft chain.network m s in
    let now = m.timestamp in
    let (u, users) = fetch_user user s1.users in
    let (l, users1, locks) = load_or_create_ve_lock token_id user now users s1.locks in
    let new = unlocked_lock now returned l in
    let (_, users2) = load_or_create_user zero_address users1 in
    let old_ve = lock_ve_snapshot l now in
    let new_ve = lock_ve_snapshot new now in
    record s1 {
      users =
          save user (replace_user_ve_contribution old_ve new_ve (take_locked returned u)) users2;
      locks = save token_id new locks;
      listings = close_listing token_id l now s1.listings;
      history = (m, LockRow.unlocked user token_id returned new.amount_wei) ∷ s1.history;
      refreshes = m ∷ s1.refreshes;
    }
