-- ===== src/Settlement/Round.antt =====
-- The part of the daemon's loop (keeper/src/run/daemon.ts) that works on the due batch of the spread phase.
use claimrush.Prelude.{
  ℕ, ◌+◌, ◌-◌, ◌*◌, min, Bool, false, not, ◌&&◌, Option, none, some, Text, ltb, leb, ◌==◌,
  if◌then◌else◌, same_text,
}
use claimrush.Settlement.Types.{BatchEntry, SettlementCycleState}
use claimrush.Settlement.Progress.{mark_batch, fail_task, get_next_due_batch}

-- How the run of a batch's task ends, and when.
pub data TaskRun : Type 0 where
  succeeded failed : (at_ms : ℕ) → TaskRun

-- What a round of the loop finds outside its own state: the time, the tasks that are defined, whether the
-- vault has an address, the vault's quote for one WETH (`none` where it is unavailable), the settings, the
-- backoff for an attempt (`computeSpreadBackoffMs`, whose jitter is random), and the run of the task.
pub record Round : Type 0 where
  pub now_ms : ℕ
  pub has_task : Text → Bool
  pub has_vault : Bool
  pub quote : Option ℕ
  pub max_drift_bps : ℕ
  pub retry_window_secs : ℕ
  pub backoff_ms : ℕ → ℕ
  pub run_task : BatchEntry → TaskRun

-- An entry of `spreadBatchRetryAttempt` and of `spreadBatchRetryAtMs`, which are set and deleted together.
pub record Retry : Type 0 where
  pub attempt : ℕ
  pub not_before_ms : ℕ

-- The maps by task name and index, which make up `spreadBatchKey`.
abbrev pub Retries : Type 0
Retries = Text → ℕ → Option Retry

pub record SpreadState : Type 0 where
  pub cycle : SettlementCycleState
  pub retries : Retries

abbrev pub set_retry : Text → ℕ → Option Retry → Retries → Retries
set_retry name index entry retries name' index' =
    if same_text name name' && (index == index') then entry else retries name' index'

abbrev attempt_of : Option Retry → ℕ
attempt_of none = 0
attempt_of (some r) = r.attempt

abbrev pub not_before : Option Retry → ℕ
not_before none = 0
not_before (some r) = r.not_before_ms

abbrev pub baseline_or : ℕ → Option ℕ → ℕ
baseline_or quote none = quote
baseline_or quote (some baseline) = baseline

abbrev pub distance : ℕ → ℕ → ℕ
distance a b = if ltb b a then a - b else b - a

-- The vault is asked only once the harvest is done.
abbrev pub quoted : Round → SettlementCycleState → Option ℕ
quoted r cycle = if cycle.harvest_completed && r.has_vault then r.quote else none

abbrev pub drifts : ℕ → Option ℕ → Option ℕ → Bool
drifts max_bps baseline none = false
drifts max_bps baseline (some quote) =
    let base = baseline_or quote baseline in
    ltb 0 base && ltb (base * max_bps) (distance base quote * 10000)

-- `skipBatchForDrift`
unfoldable pub is_paused_for_drift : Round → SettlementCycleState → Bool
is_paused_for_drift r cycle =
    drifts r.max_drift_bps cycle.spread_baseline_claim_out_1_weth (quoted r cycle)

abbrev pub baseline_after : Option ℕ → Option ℕ → Option ℕ
baseline_after (some baseline) quote = some baseline
baseline_after none quote = quote

-- The first quote becomes the baseline.
abbrev pub note_baseline : Round → SettlementCycleState → SettlementCycleState
note_baseline r cycle = record cycle {
  spread_baseline_claim_out_1_weth =
      baseline_after cycle.spread_baseline_claim_out_1_weth (quoted r cycle);
}

-- After the task has run. A CircuitBreakerStateError is thrown on after the same changes.
unfoldable pub after_task : Round → SpreadState → BatchEntry → ℕ → TaskRun → SpreadState
after_task r st batch index (TaskRun.succeeded at) = record {
  cycle = mark_batch index batch.users at st.cycle;
  retries = set_retry batch.task_name index none st.retries;
}
after_task r st batch index (TaskRun.failed at) =
    let until = batch.scheduled_at_ms + r.retry_window_secs * 1000 in
    let attempt = attempt_of (st.retries batch.task_name index) + 1 in
    let next_at = min (at + r.backoff_ms attempt) until in
    let entry : Retry = record { attempt = attempt; not_before_ms = next_at } in
    if leb until at
    then record {
      cycle = fail_task batch.task_name st.cycle;
      retries = set_retry batch.task_name index none st.retries;
    }
    else record st { retries = set_retry batch.task_name index (some entry) st.retries }

-- A batch whose retry is not due yet is left for a later round.
unfoldable pub settle_batch : Round → SpreadState → BatchEntry → ℕ → SpreadState
settle_batch r st batch index =
    let ran = after_task r st batch index (r.run_task batch) in
    if ltb r.now_ms (not_before (st.retries batch.task_name index)) then st else ran

unfoldable pub settle_found : Round → SpreadState → Option (BatchEntry × ℕ) → SpreadState
settle_found r st none = st
settle_found r st (some (batch, index)) =
    let noted = record st { cycle = note_baseline r st.cycle } in
    let settled = settle_batch r noted batch index in
    if not (r.has_task batch.task_name)
    then st
    else if is_paused_for_drift r st.cycle
    then noted
    else settled

unfoldable pub settle_due : Round → SpreadState → SpreadState
settle_due r st = settle_found r st (get_next_due_batch st.cycle r.now_ms)
