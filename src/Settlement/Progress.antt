-- ===== src/Settlement/Progress.antt =====
-- Progress inside an open cycle: the immediate phase, the batches of the spread phase, and the queries, of
-- keeper/src/run/settlement.ts. A change of the cycle leaves a state without a cycle as it is.
use mathlib.Core.Option
use claimrush.Prelude.{
  ℕ, zero, suc, ◌+◌, Bool, true, false, not, ◌&&◌, Option, none, some, List, [], ◌∷◌, ◌++◌, Text,
  leb, if◌then◌else◌, every, keep, includes, has_address,
}
use claimrush.Settlement.Types.{
  immediate_tasks, SettlementPhase, BatchEntry, SettlementCycleState, SettlementState,
}

abbrev pub with_cycle :
    SettlementState → (SettlementCycleState → SettlementCycleState) → SettlementState
with_cycle state change = record state { current = Option.map change state.current }

unfoldable pub is_immediate_phase_complete : SettlementCycleState → Bool
is_immediate_phase_complete cycle = every (includes cycle.immediate_tasks_completed) immediate_tasks

unfoldable pub mark_immediate_task_done : SettlementState → Text → SettlementState
mark_immediate_task_done state task = with_cycle state λ cycle.
    if includes cycle.immediate_tasks_completed task
    then cycle
    else record cycle { immediate_tasks_completed = cycle.immediate_tasks_completed ++ task ∷ [] }

unfoldable pub transition_to_spread : SettlementState → SettlementState
transition_to_spread state =
    with_cycle state λ cycle. record cycle { phase = SettlementPhase.spread }

unfoldable pub populate_spread_batches :
    SettlementState → List BatchEntry → List Text → SettlementState
populate_spread_batches state batches all_users = with_cycle state λ cycle. record cycle {
  spread_batches_pending = all_users;
  spread_batches_completed = cycle.spread_batches_completed ++ batches;
}

unfoldable pub mark_harvest_done : SettlementState → SettlementState
mark_harvest_done state = with_cycle state λ cycle. record cycle { harvest_completed = true }

-- `batches.map((b, i) => i === batchIndex ? { ...b, completed: true } : b)`
unfoldable pub complete_at : ℕ → List BatchEntry → List BatchEntry
complete_at i [] = []
complete_at zero (b ∷ bs) = record b { completed = true } ∷ bs
complete_at (suc i) (b ∷ bs) = b ∷ complete_at i bs

unfoldable pub mark_batch : ℕ → List Text → ℕ → SettlementCycleState → SettlementCycleState
unfolding complete_at
mark_batch index processed now cycle = record cycle {
  spread_batches_completed = complete_at index cycle.spread_batches_completed;
  spread_batches_pending = keep (λ u. not (has_address processed u)) cycle.spread_batches_pending;
  attempt_count = cycle.attempt_count + 1;
  last_attempt_ms = now;
}

unfoldable pub mark_batch_completed : SettlementState → ℕ → List Text → ℕ → SettlementState
unfolding mark_batch
mark_batch_completed state index processed now = with_cycle state (mark_batch index processed now)

unfoldable pub fail_task : Text → SettlementCycleState → SettlementCycleState
fail_task task cycle = record cycle {
  failed_tasks =
      if includes cycle.failed_tasks task
      then cycle.failed_tasks
      else cycle.failed_tasks ++ task ∷ [];
}

unfoldable pub mark_task_failed : SettlementState → Text → SettlementState
unfolding fail_task
mark_task_failed state task = with_cycle state (fail_task task)

abbrev pub is_due : ℕ → BatchEntry → Bool
is_due now b = not b.completed && leb b.scheduled_at_ms now

-- The loop of `getNextDueBatch` from index `i` on.
unfoldable pub find_due : ℕ → ℕ → List BatchEntry → Option (BatchEntry × ℕ)
find_due now i [] = none
find_due now i (b ∷ bs) = if is_due now b then some (b, i) else find_due now (suc i) bs

unfoldable pub get_next_due_batch : SettlementCycleState → ℕ → Option (BatchEntry × ℕ)
unfolding find_due
get_next_due_batch cycle now = find_due now 0 cycle.spread_batches_completed

abbrev pub is_empty : List Text → Bool
is_empty [] = true
is_empty (u ∷ us) = false

unfoldable pub is_spread_phase_complete : SettlementCycleState → Bool
is_spread_phase_complete cycle =
    cycle.harvest_completed
    && (is_empty cycle.spread_batches_pending
        && every (λ (b : BatchEntry). b.completed) cycle.spread_batches_completed)
