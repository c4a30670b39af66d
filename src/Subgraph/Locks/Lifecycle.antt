-- ===== src/Subgraph/Locks/Lifecycle.antt =====
-- The handlers of the lock's own events: created, extended, increased, merged, unlocked, AutoMax.
use claimrush.Prelude.{ℕ, ◌+◌, Bool, false, some, ◌∷◌}
use claimrush.Subgraph.Table.{save}
use claimrush.Subgraph.Schema.{User, VeLock, Store, Meta, LockRow}
use claimrush.Subgraph.Users.{note_ve_claim_nft}
use claimrush.Subgraph.Ve.{current_ve_wei, max_lock_duration_seconds}
use claimrush.Subgraph.Locks.{
  Chain, lock_ve_snapshot, replace_user_ve_contribution, add_locked, fetch_user,
  load_or_create_ve_lock,
}

-- The lock with the time of its last change and its power at that time.
abbrev pub with_ve : ℕ → VeLock → VeLock
with_ve now l = record l {
  updated_at = now;
  stored_ve_wei = some (current_ve_wei l.amount_wei l.lock_end now l.auto_max);
}

abbrev pub created_lock : ℕ → ℕ → ℕ → ℕ → ℕ → Bool → VeLock
created_lock now user token_id amount lock_end auto_max = record {
  token_id = token_id;
  owner = user;
  amount_wei = amount;
  lock_end = lock_end;
  auto_max = auto_max;
  listed = false;
  created_at = now;
  updated_at = now;
  stored_ve_wei = some (current_ve_wei amount lock_end now auto_max);
}

unfoldable pub handle_lock_created : Chain → Meta → ℕ → ℕ → ℕ → ℕ → Bool → Store → Store
handle_lock_created chain m user token_id amount lock_end auto_max s =
    let (_, s1) = note_ve_claim_nft chain.network m s in
    let (u, users) = fetch_user user s1.users in
    let l = created_lock m.timestamp user token_id amount lock_end auto_max in
    let ve = lock_ve_snapshot l m.timestamp in
    record s1 {
      users = save user (replace_user_ve_contribution 0 ve (add_locked amount u)) users;
      locks = save token_id l s1.locks;
      history = (m, LockRow.created user token_id amount lock_end auto_max) ∷ s1.history;
      refreshes = m ∷ s1.refreshes;
    }

-- The three handlers that change one lock of the user and leave it the user's: what they save.
unfoldable pub resave_lock :
    Meta → ℕ → ℕ → (User → User) → (VeLock → VeLock) → Store → VeLock × VeLock × Store
resave_lock m user token_id on_user on_lock s =
    let (u, users) = fetch_user user s.users in
    let (l, users', locks) = load_or_create_ve_lock token_id user m.timestamp users s.locks in
    let new = with_ve m.timestamp (on_lock l) in
    let old_ve = lock_ve_snapshot l m.timestamp in
    let new_ve = lock_ve_snapshot new m.timestamp in
    (
      l,
      new,
      record s {
        users = save user (replace_user_ve_contribution old_ve new_ve (on_user u)) users';
        locks = save token_id new locks;
      },
    )

unfoldable pub handle_lock_extended : Chain → Meta → ℕ → ℕ → ℕ → Store → Store
handle_lock_extended chain m user token_id new_end s =
    let (_, s1) = note_ve_claim_nft chain.network m s in
    let (old, _, s2) =
      resave_lock m user token_id (λ u. u) (λ l. record l { owner = user; lock_end = new_end })
        s1 in
    record s2 { history = (m, LockRow.extended user token_id old.lock_end new_end) ∷ s2.history }

unfoldable pub handle_lock_amount_increased : Chain → Meta → ℕ → ℕ → ℕ → Store → Store
handle_lock_amount_increased chain m user token_id added s =
    let (_, s1) = note_ve_claim_nft chain.network m s in
    let (_, new, s2) =
      resave_lock m user token_id (add_locked added)
        (λ l. record l { owner = user; amount_wei = l.amount_wei + added }) s1 in
    record s2 {
      history = (m, LockRow.amount_increased user token_id added new.amount_wei) ∷ s2.history;
      refreshes = m ∷ s2.refreshes;
    }

-- Both turning AutoMax on and off put the end at the longest duration from now.
unfoldable pub handle_auto_max_set : Chain → Meta → ℕ → ℕ → Bool → Store → Store
unfolding max_lock_duration_seconds
handle_auto_max_set chain m user token_id auto_max s =
    let (_, s1) = note_ve_claim_nft chain.network m s in
    let (_, _, s2) =
      resave_lock m user token_id (λ u. u)
        (λ l. record l { auto_max = auto_max; lock_end = m.timestamp + max_lock_duration_seconds })
        s1 in
    record s2 { history = (m, LockRow.auto_max_set user token_id auto_max) ∷ s2.history }
