-- ===== src/Subgraph/Tests/Books.antt =====
-- Locks and listings of two users, and a sale to the Furnace.
use claimrush.Prelude.{
  ℕ, ◌+◌, ◌≤◌, ◌≡◌, refl, true, false, none, some, List, [], ◌∷◌, arith, inl, inr,
}
use claimrush.Subgraph.Table.{load}
use claimrush.Subgraph.Schema.{Store, VeLock, Meta}
use claimrush.Subgraph.Users.{
  or_zero, load_or_create_protocol, note_ve_claim_nft, load_or_create_user,
}
use claimrush.Subgraph.Ve.{current_ve_wei, max_lock_duration_seconds}
use claimrush.Subgraph.Ve.Bounds.{current_ve_wei_bounds}
use claimrush.Subgraph.Locks.{fetch_user, load_or_create_ve_lock}
use claimrush.Subgraph.Locks.Lifecycle.{
  created_lock, handle_lock_created, handle_lock_extended, resave_lock,
}
use claimrush.Subgraph.Locks.Closing.{merged_into, handle_lock_unlocked}
use claimrush.Subgraph.Locks.Transfer.{
  from_is_furnace, burn_by_furnace, burn, move_lock, handle_transfer,
}
use claimrush.Subgraph.Locks.Sold.{sell_lock, burn_sold_lock}
use claimrush.Subgraph.Locks.Events.{LockEvent, handle, run, IsEmittedRun}
use claimrush.Subgraph.Locks.Merging.{merge_keeps_power, power_at}
use claimrush.Subgraph.Locks.Balance.{principal, power, held, IsAccounted}
use claimrush.Subgraph.Locks.Balance.Run.{run-IsAccounted}
use claimrush.Subgraph.Tests.{empty_store, test_chain, at_time}

-- User 7 locks 1000 and 500, gives the first lock to 8, and the second is sold to the Furnace at 99, in the
-- order in which the contracts report the sale, the burn and the unlock.
abbrev lock_run : List (Meta × LockEvent)
lock_run =
    (at_time 100, LockEvent.lock_created 7 1 1000 31536100 false)
    ∷ (at_time 101, LockEvent.lock_created 7 2 500 31536101 true)
    ∷ (at_time 102, LockEvent.transfer 7 8 1)
    ∷ (at_time 103, LockEvent.lock_extended 8 1 31536103)
    ∷ (at_time 104, LockEvent.transfer 7 99 2)
    ∷ (at_time 105, LockEvent.lock_sold_to_furnace 99 2)
    ∷ (at_time 105, LockEvent.transfer 99 0 2)
    ∷ (at_time 105, LockEvent.lock_unlocked 99 2 500)
    ∷ []

abbrev lock_of : ℕ → Store → VeLock
lock_of t s = elim (load t s.locks) [ none ↦ created_lock 0 0 0 0 0 false | some l ↦ l ]

lock_run-IsEmittedRun : IsEmittedRun test_chain lock_run empty_store
unfolding IsEmittedRun handle handle_lock_unlocked handle_lock_created handle_lock_extended
    resave_lock handle_transfer burn burn_by_furnace from_is_furnace move_lock burn_sold_lock
    sell_lock note_ve_claim_nft load_or_create_protocol load_or_create_user fetch_user
    load_or_create_ve_lock current_ve_wei max_lock_duration_seconds
lock_run-IsEmittedRun = (
  refl,
  (
    refl,
    (
      (λ given differ. inl (_, refl, refl)),
      (
        (_, refl, refl),
        (
          (λ given differ. inl (_, refl, refl)),
          (
            (λ l e. inl (ap_owner e)),
            (
              (λ given differ. inr (refl, (_, refl, refl, refl, refl))),
              (
                inr (
                  (_, refl, refl, refl, refl),
                  ((λ p. omega (arith, p)), ((λ p. omega (arith, p)), tt)),
                ),
                tt,
              ),
            ),
          ),
        ),
      ),
    ),
  ),
)
  where
    ap_owner : {x l : VeLock} → some x ≡ some l → l.owner ≡ x.owner
    ap_owner e = cc

empty-IsAccounted : IsAccounted empty_store
unfolding IsAccounted
empty-IsAccounted = ((λ q u. refl), (λ k l e. cc))

run-IsAccounted_example : IsAccounted (run test_chain lock_run empty_store)
run-IsAccounted_example =
    run-IsAccounted test_chain lock_run empty_store lock_run-IsEmittedRun empty-IsAccounted

-- What the run leaves: 1000 with user 8, nothing with 7 and with the Furnace.
lock_run_leaves :
    (held principal 7 (run test_chain lock_run empty_store).users ≡ 0)
    × (held principal 8 (run test_chain lock_run empty_store).users ≡ 1000)
    × (held power 8 (run test_chain lock_run empty_store).users ≡ 1000)
    × (held principal 99 (run test_chain lock_run empty_store).users ≡ 0)
unfolding run handle handle_lock_unlocked handle_lock_created handle_lock_extended resave_lock
    handle_transfer burn burn_by_furnace from_is_furnace move_lock burn_sold_lock sell_lock
    note_ve_claim_nft load_or_create_protocol load_or_create_user fetch_user load_or_create_ve_lock
    current_ve_wei max_lock_duration_seconds
lock_run_leaves = (refl, refl, refl, refl)

abbrev half : VeLock
half = created_lock 100 7 1 1000 15768100 false

abbrev longest : VeLock
longest = created_lock 100 7 2 300 31536100 false

half_is_near : half.lock_end ≤ 100 + max_lock_duration_seconds
unfolding max_lock_duration_seconds
half_is_near = omega arith

longest_is_near : longest.lock_end ≤ 100 + max_lock_duration_seconds
unfolding max_lock_duration_seconds
longest_is_near = omega arith

merge_keeps_power_example :
    power_at 100 half + power_at 100 longest
    ≤ or_zero (merged_into 100 7 half.amount_wei half longest).stored_ve_wei
merge_keeps_power_example = merge_keeps_power 100 7 half longest half_is_near longest_is_near

current_ve_wei_bounds_example :
    (current_ve_wei 300 15768100 200 false ≤ current_ve_wei 1000 31536100 100 false)
    × (current_ve_wei 1000 31536100 100 false ≤ 1000)
current_ve_wei_bounds_example =
    current_ve_wei_bounds 300 1000 15768100 31536100 100 200 false longest_is_near (omega arith)
      (omega arith) (omega arith)
