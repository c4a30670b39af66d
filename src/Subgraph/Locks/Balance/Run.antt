-- ===== src/Subgraph/Locks/Balance/Run.antt =====
-- The books over a whole run of events.
use claimrush.Prelude.{subst, inl, inr, ◌∙◌, List, [], ◌∷◌}
use claimrush.Subgraph.Schema.{Store, Meta}
use claimrush.Subgraph.Locks.{Chain}
use claimrush.Subgraph.Locks.Closing.{handle_lock_merged, handle_lock_unlocked}
use claimrush.Subgraph.Locks.Wiring.{handle_furnace_changed, handle_mine_market_changed}
use claimrush.Subgraph.Locks.Notices.{
  handle_slope_drift_clamped, handle_shareholder_checkpoint_failed,
}
use claimrush.Subgraph.Locks.Balance.Rows.{held-loaded}
use claimrush.Subgraph.Locks.Events.{LockEvent, handle, run, IsEmitted, IsEmittedRun}
use claimrush.Subgraph.Locks.Balance.{IsAccounted}
use claimrush.Subgraph.Locks.Balance.Handlers.{
  handle_lock_created-IsAccounted, handle_lock_extended-IsAccounted,
  handle_lock_amount_increased-IsAccounted, handle_auto_max_set-IsAccounted, note-IsAccounted,
}
use claimrush.Subgraph.Locks.Balance.Closing.{
  handle_lock_merged-IsAccounted, handle_lock_unlocked-IsAccounted,
}
use claimrush.Subgraph.Locks.Balance.Transfers.{handle_transfer-IsAccounted}
use claimrush.Subgraph.Locks.Balance.Burnt.{unlock_burnt-IsAccounted}
use claimrush.Subgraph.Locks.Balance.Sold.{burn_sold_lock-IsAccounted}

handle-IsAccounted :
    (c : Chain) (m : Meta) (e : LockEvent) (s : Store)
    → IsEmitted e s
    → IsAccounted s
    → IsAccounted (handle c m e s)
unfolding handle handle_slope_drift_clamped handle_shareholder_checkpoint_failed
    handle_furnace_changed handle_mine_market_changed IsAccounted
handle-IsAccounted c m (LockEvent.lock_created u t x end auto) s new h =
    handle_lock_created-IsAccounted c m u t x end auto s h new
handle-IsAccounted c m (LockEvent.lock_extended u t end) s (l, e, own) h =
    handle_lock_extended-IsAccounted c m u t end s l h e own
handle-IsAccounted c m (LockEvent.lock_amount_increased u t x) s (l, e, own) h =
    handle_lock_amount_increased-IsAccounted c m u t x s l h e own
handle-IsAccounted c m (LockEvent.lock_merged u t k x) s (ne, (l, e, own, all), (l', e', own')) h =
    subst (λ n. IsAccounted (handle_lock_merged c m u t k n s)) all
      (handle_lock_merged-IsAccounted c m u t k s l l' h ne e e' own own')
handle-IsAccounted c m (LockEvent.lock_unlocked u t x) s (inr (burnt, free)) h =
    unlock_burnt-IsAccounted c m u t x s h burnt free
handle-IsAccounted c m (LockEvent.lock_unlocked u t x) s (inl (l, e, own, all)) h =
    subst (λ n. IsAccounted (handle_lock_unlocked c m u t n s)) all
      (handle_lock_unlocked-IsAccounted c m u t s l h e own)
handle-IsAccounted c m (LockEvent.auto_max_changed u t auto) s (l, e, own) h =
    handle_auto_max_set-IsAccounted c m u t auto s l h e own
handle-IsAccounted c m (LockEvent.transfer from to t) s owns h =
    handle_transfer-IsAccounted c m from to t s h owns
handle-IsAccounted c m (LockEvent.lock_sold_to_furnace f t) s sellable h =
    burn_sold_lock-IsAccounted m f t s h sellable
handle-IsAccounted c m LockEvent.slope_drift_clamped s _ h = h
handle-IsAccounted c m (LockEvent.shareholder_checkpoint_failed a) s _ (balanced, stored) =
    ((λ q u. held-loaded q u a s.users ∙ balanced q u), stored)
handle-IsAccounted c m (LockEvent.furnace_changed a) s _ h = note-IsAccounted c m s h
handle-IsAccounted c m (LockEvent.mine_market_changed a) s _ h = note-IsAccounted c m s h

-- After any run of events that the contracts can emit, every address's `totalLockedClaimWei` is the
-- sum of the amounts of the locks it owns and its `veBalanceWei` the sum of their stored powers, and
-- every lock has its power stored, when all this held before the run.
pub run-IsAccounted :
    (c : Chain) (es : List (Meta × LockEvent)) (s : Store)
    → IsEmittedRun c es s
    → IsAccounted s
    → IsAccounted (run c es s)
unfolding run IsEmittedRun
run-IsAccounted c [] s _ h = h
run-IsAccounted c ((m, e) ∷ es) s (ok, oks) h =
    run-IsAccounted c es (handle c m e s) oks (handle-IsAccounted c m e s ok h)
