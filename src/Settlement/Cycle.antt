-- ===== src/Settlement/Cycle.antt =====
-- Opening and closing a cycle: `initState`, `loadSettlementState`, `openCycle` and `closeCycle` of
-- keeper/src/run/settlement.ts, and the part of the loop of keeper/src/run/daemon.ts that calls them.
-- The `while` of `closeCycle` runs on fuel, `now + 1` rounds.
use claimrush.Prelude.{
  ℕ, zero, suc, ◌+◌, ◌*◌, false, Option, none, some, [], ltb, leb, ◌==◌, if◌then◌else◌,
}
use claimrush.Settlement.Types.{
  KeeperConfig, SettlementPhase, SettlementCycleState, SettlementState,
}
use claimrush.Settlement.Window.{compute_next_window_ms, is_window_due, cycle_id_from_window_ms}

abbrev pub next_window : KeeperConfig → ℕ → ℕ
next_window config now =
    compute_next_window_ms config.settlement_period_secs config.settlement_day_utc
      config.settlement_hour_utc now

abbrev pub init_state : ℕ → SettlementState
init_state next = record {
  version = 1;
  next_window_ms = next;
  current = none;
  pending_priority_queue = [];
}

-- `persisted` is what `loadJsonDetailed` read, `none` if the file is missing, unreadable or null.
unfoldable pub load_settlement_state : Option SettlementState → KeeperConfig → ℕ → SettlementState
load_settlement_state none config now = init_state (next_window config now)
load_settlement_state (some persisted) config now =
    if persisted.version == 1
    then reanchor persisted.current
    else init_state (next_window config now)
  where
    reanchor : Option SettlementCycleState → SettlementState
    reanchor (some cycle) = persisted
    reanchor none =
        if ltb (now + config.settlement_period_secs * 1000) persisted.next_window_ms
        then record persisted { next_window_ms = next_window config now }
        else persisted

unfoldable pub open_cycle : SettlementState → ℕ → KeeperConfig → SettlementState
unfolding cycle_id_from_window_ms
open_cycle state now config = record state { current = some cycle; pending_priority_queue = [] }
  where
    cycle : SettlementCycleState
    cycle = record {
      cycle_id = cycle_id_from_window_ms state.next_window_ms;
      window_open_ms = state.next_window_ms;
      window_close_ms = state.next_window_ms + config.settlement_window_duration_secs * 1000;
      phase = SettlementPhase.immediate;
      immediate_tasks_completed = [];
      harvest_completed = false;
      spread_batches_completed = [];
      spread_batches_pending = [];
      spread_baseline_claim_out_1_weth = none;
      priority_queue = state.pending_priority_queue;
      failed_tasks = [];
      attempt_count = 0;
      last_attempt_ms = now;
    }

-- `while (nextWindowMs + windowDurationMs <= nowMs) nextWindowMs += periodMs;`
unfoldable pub advance : ℕ → ℕ → ℕ → ℕ → ℕ → ℕ
advance zero next duration period now = next
advance (suc fuel) next duration period now =
    let rest = advance fuel (next + period) duration period now in
    if leb (next + duration) now then rest else next

-- The body of `closeCycle`, by whether `state.current` holds a cycle.
unfoldable pub close_current :
    SettlementState → KeeperConfig → ℕ → Option SettlementCycleState → SettlementState
close_current state config now none = record state {
  next_window_ms = next_window config now;
  current = none;
  pending_priority_queue = [];
}
close_current state config now (some cycle) = record state {
  next_window_ms =
      advance (now + 1) (cycle.window_open_ms + config.settlement_period_secs * 1000)
        (config.settlement_window_duration_secs * 1000) (config.settlement_period_secs * 1000) now;
  current = none;
  pending_priority_queue = cycle.spread_batches_pending;
}

unfoldable pub close_cycle : SettlementState → KeeperConfig → ℕ → SettlementState
unfolding close_current
close_cycle state config now = close_current state config now state.current

-- "Window close check" of the daemon's loop.
unfoldable pub close_due :
    SettlementState → KeeperConfig → ℕ → Option SettlementCycleState → SettlementState
close_due state config now none = state
close_due state config now (some cycle) =
    if leb cycle.window_close_ms now then close_cycle state config now else state

-- "Window open trigger" of the daemon's loop.
unfoldable pub open_due :
    SettlementState → KeeperConfig → ℕ → Option SettlementCycleState → SettlementState
open_due state config now (some cycle) = state
open_due state config now none =
    if is_window_due state.next_window_ms now then open_cycle state now config else state

unfoldable pub tick : SettlementState → KeeperConfig → ℕ → SettlementState
tick state config now =
    let closed = close_due state config now state.current in
    open_due closed config now closed.current
