-- ===== src/Subgraph/Locks/Notices.antt =====
-- The two events of the lock contract that only add an item to the activity feed.
use claimrush.Prelude.{ℕ, ◌∷◌}
use claimrush.Subgraph.Schema.{Store, Meta, LockActivity}
use claimrush.Subgraph.Users.{load_or_create_user}

unfoldable pub handle_slope_drift_clamped : Meta → Store → Store
handle_slope_drift_clamped m s = record s {
  lock_activity = (m, LockActivity.slope_drift_clamped) ∷ s.lock_activity;
}

-- The user's row is created where there is none.
unfoldable pub handle_shareholder_checkpoint_failed : Meta → ℕ → Store → Store
handle_shareholder_checkpoint_failed m user s = record s {
  users = (load_or_create_user user s.users).1;
  lock_activity = (m, LockActivity.shareholder_checkpoint_failed user) ∷ s.lock_activity;
}
