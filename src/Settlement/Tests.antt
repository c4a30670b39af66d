-- ===== src/Settlement/Tests.antt =====
-- Runs of the settlement scheduler of keeper/src/run/settlement.ts, and the theorems at concrete inputs.
use claimrush.Prelude.{
  same_text, ℕ, ◌+◌, ◌*◌, ◌%◌, ◌≤◌, ◌<◌, ◌≡◌, inl, inr, refl, Bool, true, false, none, some, Option,
  if◌then◌else◌, [], ◌∷◌, Text, codes, arith, has_address, same_address, lower,
}
use claimrush.Settlement.Types.{
  day_ms, week_secs, KeeperConfig, SettlementPhase, BatchEntry, SettlementCycleState,
  SettlementState,
}
use claimrush.Settlement.Window.{
  utc_day, compute_next_window_ms, compute_next_window_weekly, compute_next_window_daily,
  is_window_due,
}
use claimrush.Settlement.Cycle.{advance, close_cycle, open_cycle, tick, close_due, open_due}
use claimrush.Settlement.Catchup.{IsFirstLive, close_cycle_schedule, IsLiveAt, tick-IsLiveAt}
use claimrush.Settlement.Progress.{
  is_spread_phase_complete, get_next_due_batch, find_due, mark_batch, complete_at,
}
use claimrush.Settlement.Round.{
  TaskRun, Round, SpreadState, not_before, settle_due, settle_found, settle_batch, after_task,
  is_paused_for_drift,
}
use claimrush.Settlement.Rounds.{IsSmoothRun, settle_rounds, settle_rounds_end}
use claimrush.Settlement.Batches.{IsCovered, IsAccountedFor, settle_due-IsCovered}

abbrev daily : KeeperConfig
daily = record {
  settlement_period_secs = 86_400;
  settlement_day_utc = 4;
  settlement_hour_utc = 6;
  settlement_window_duration_secs = 86_400;
}

-- Friday, 2 January 1970, 03:00 UTC.
abbrev friday : ℕ
friday = day_ms + 10_800_000

compute_next_window_weekly_example :
    let next = compute_next_window_ms week_secs 4 6 friday in
    (friday < next)
    × (next ≤ friday + 7 * day_ms)
    × (utc_day next ≡ 4)
    × (next % day_ms ≡ 6 * 3_600_000)
compute_next_window_weekly_example =
    compute_next_window_weekly 4 6 friday (omega arith) (omega arith)

compute_next_window_daily_example :
    let next = compute_next_window_ms 86_400 4 6 friday in
    (friday < next) × (next ≤ friday + 1 * day_ms) × (next % day_ms ≡ 6 * 3_600_000)
compute_next_window_daily_example =
    compute_next_window_daily 1 4 6 friday (omega arith) (omega arith)

abbrev batch : Bool → Text → BatchEntry
batch done user = record {
  task_name = codes "compound-shareholders";
  users = user ∷ [];
  scheduled_at_ms = friday;
  completed = done;
}

abbrev cycle : SettlementCycleState
cycle = record {
  cycle_id = 0;
  window_open_ms = 21_600_000;
  window_close_ms = day_ms + 21_600_000;
  phase = SettlementPhase.spread;
  immediate_tasks_completed = [];
  harvest_completed = true;
  spread_batches_completed =
      batch true (codes "0xaa") ∷ batch false (codes "0xBb") ∷ batch false (codes "0xcc") ∷ [];
  spread_batches_pending = codes "0xbB" ∷ codes "0xcc" ∷ [];
  spread_baseline_claim_out_1_weth = none;
  priority_queue = [];
  failed_tasks = [];
  attempt_count = 1;
  last_attempt_ms = 0;
}

abbrev running : SettlementState
running = record {
  version = 1;
  next_window_ms = 21_600_000;
  current = some cycle;
  pending_priority_queue = [];
}

-- The window is over: it closes and the next one opens at once, with the users that were left.
tick_rolls_over : (tick running daily (day_ms + 21_600_000)).next_window_ms ≡ day_ms + 21_600_000
unfolding tick close_due open_due close_cycle is_window_due open_cycle advance
tick_rolls_over = refl

close_cycle_schedule_example :
    ((k : ℕ) × IsFirstLive
        (21_600_000 + 86_400 * 1000)
        (86_400 * 1000)
        (86_400 * 1000)
        (10 * day_ms)
        (close_cycle running daily (10 * day_ms)).next_window_ms
        k)
    × ((close_cycle running daily (10 * day_ms)).current ≡ none)
    × ((close_cycle running daily (10 * day_ms)).pending_priority_queue
        ≡ codes "0xbB" ∷ codes "0xcc" ∷ [])
close_cycle_schedule_example =
    close_cycle_schedule running daily (10 * day_ms) cycle (omega arith) refl

tick-IsLiveAt_example :
    IsLiveAt
      (10 * day_ms)
      (tick running daily (10 * day_ms)).next_window_ms
      (tick running daily (10 * day_ms)).current
tick-IsLiveAt_example = tick-IsLiveAt running daily (10 * day_ms) (omega arith) (omega arith)

cycle-IsCovered : IsCovered cycle
unfolding has_address same_address lower same_text
cycle-IsCovered = (inr (inl (refl, refl)), (inr (inr (inl (refl, refl))), tt))

-- A round in which all goes well, and one in which the vault's quote has fallen by half.
abbrev quiet_round : Round
quiet_round = record {
  now_ms = friday;
  has_task = λ name. true;
  has_vault = true;
  quote = some 1_000;
  max_drift_bps = 300;
  retry_window_secs = 3_600;
  backoff_ms = λ attempt. 5_000;
  run_task = λ b. TaskRun.succeeded friday;
}

abbrev fallen_round : Round
fallen_round = record quiet_round { quote = some 500 }

abbrev failing_round : Round
failing_round = record quiet_round { run_task = λ b. TaskRun.failed friday }

abbrev started : SpreadState
started = record { cycle = cycle; retries = λ name i. none }

settle_due-IsCovered_example :
    IsCovered (settle_due quiet_round started).cycle
    × IsAccountedFor cycle (settle_due quiet_round started).cycle
settle_due-IsCovered_example = settle_due-IsCovered quiet_round started cycle-IsCovered

abbrev is_left : Option (BatchEntry × ℕ) → ℕ
is_left none = 0
is_left (some (b, i)) = i

-- A fallen quote pauses the batch, and a failed one waits for its retry.
guarded :
    (is_left
        (get_next_due_batch (settle_due fallen_round (settle_due quiet_round started)).cycle friday)
      ≡ 2)
    × (is_left (get_next_due_batch (settle_due failing_round started).cycle friday) ≡ 1)
    × (not_before ((settle_due failing_round started).retries (codes "compound-shareholders") 1)
        ≡ friday + 5_000)
unfolding settle_due settle_found settle_batch after_task is_paused_for_drift get_next_due_batch
    find_due mark_batch complete_at same_text
guarded = (refl, refl, refl)

none_waits : (b c : Bool) → not_before (if b then none else (if c then none else none)) ≤ friday
none_waits true c = omega arith
none_waits false true = omega arith
none_waits false false = omega arith

three_quiet-IsSmoothRun : IsSmoothRun (quiet_round ∷ quiet_round ∷ quiet_round ∷ []) started
unfolding IsSmoothRun settle_due settle_found settle_batch after_task is_paused_for_drift
    get_next_due_batch find_due mark_batch complete_at same_text
three_quiet-IsSmoothRun = (
  record {
    scheduled = (omega arith, (omega arith, (omega arith, tt)));
    defined = λ name. refl;
    steady = refl;
    no_retry = λ name i. omega arith;
    succeeds = λ b. (friday, refl);
  },
  (
    record {
      scheduled = (omega arith, (omega arith, (omega arith, tt)));
      defined = λ name. refl;
      steady = refl;
      no_retry = λ name i. none_waits false _;
      succeeds = λ b. (friday, refl);
    },
    (
      record {
        scheduled = (omega arith, (omega arith, (omega arith, tt)));
        defined = λ name. refl;
        steady = refl;
        no_retry = λ name i. none_waits _ _;
        succeeds = λ b. (friday, refl);
      },
      tt,
    ),
  ),
)

settle_rounds_end_example :
    is_spread_phase_complete
      (settle_rounds (quiet_round ∷ quiet_round ∷ quiet_round ∷ []) started).cycle
    ≡ true
settle_rounds_end_example =
    settle_rounds_end (quiet_round ∷ quiet_round ∷ quiet_round ∷ []) started cycle-IsCovered refl
      (omega arith) three_quiet-IsSmoothRun
