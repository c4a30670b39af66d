-- ===== src/Settlement/Types.antt =====
-- The settlement state of keeper/src/run/types.ts, and the settings of keeper/src/shared/config.ts
-- that the scheduler reads. Times are milliseconds since the epoch; texts are lists of character codes.
use claimrush.Prelude.{ℕ, ◌*◌, Bool, Option, List, [], ◌∷◌, Text, codes}

abbrev pub day_ms : ℕ
day_ms = 24 * 60 * 60 * 1000

abbrev pub week_secs : ℕ
week_secs = 7 * 24 * 60 * 60

abbrev pub immediate_tasks : List Text
immediate_tasks = codes "compound-lp" ∷ codes "automax-bonus" ∷ []

pub record KeeperConfig : Type 0 where
  pub settlement_period_secs : ℕ
  pub settlement_day_utc : ℕ
  pub settlement_hour_utc : ℕ
  pub settlement_window_duration_secs : ℕ

pub data SettlementPhase : Type 0 where
  idle immediate spread : SettlementPhase

pub record BatchEntry : Type 0 where
  pub task_name : Text
  pub users : List Text
  pub scheduled_at_ms : ℕ
  pub completed : Bool

-- `cycle_id` is the UTC date of the window, as its number of days since the epoch, and the baseline is the
-- number that its decimal text gives, `none` for an absent or empty text.
pub record SettlementCycleState : Type 0 where
  pub cycle_id : ℕ
  pub window_open_ms : ℕ
  pub window_close_ms : ℕ
  pub phase : SettlementPhase
  pub immediate_tasks_completed : List Text
  pub harvest_completed : Bool
  pub spread_batches_completed : List BatchEntry
  pub spread_batches_pending : List Text
  pub spread_baseline_claim_out_1_weth : Option ℕ
  pub priority_queue : List Text
  pub failed_tasks : List Text
  pub attempt_count : ℕ
  pub last_attempt_ms : ℕ

pub record SettlementState : Type 0 where
  pub version : ℕ
  pub next_window_ms : ℕ
  pub current : Option SettlementCycleState
  pub pending_priority_queue : List Text
