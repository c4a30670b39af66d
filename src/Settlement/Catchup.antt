-- ===== src/Settlement/Catchup.antt =====
-- What closing a cycle makes of the schedule and of the users that it did not reach
-- (`closeCycle`, `openCycle` of keeper/src/run/settlement.ts).
use claimrush.Prelude.{
  Option-cases, inl, inr, ◌⊎◌, ℕ, zero, suc, ◌+◌, ◌*◌, ◌≤◌, ◌<◌, ◌≡◌, ◌⊎◌, inl, inr, refl, sym,
  subst, Option, none, some, arith, leb, Bool-cases,
}
use claimrush.Settlement.Types.{KeeperConfig, SettlementCycleState, SettlementState}
use claimrush.Settlement.Window.{is_window_due}
use claimrush.Settlement.Cycle.{
  advance, close_current, close_cycle, open_cycle, close_due, open_due, tick,
}

-- The boundary `k` periods after `start` is the first whose window has not fully elapsed.
abbrev pub IsFirstLive : (start duration period now next : ℕ) → ℕ → Type 0
IsFirstLive start duration period now next k =
    (next ≡ start + k * period)
    × (now < next + duration)
    × ((k ≡ 0) ⊎ (next + duration ≤ now + period))

advance-IsFirstLive :
    (fuel next duration period now : ℕ)
    → 0 < period
    → now < next + duration + fuel
    → (k : ℕ) × IsFirstLive next duration period now (advance fuel next duration period now) k
unfolding advance
advance-IsFirstLive zero next duration period now p f = (0, (omega arith, omega arith, inl refl))
advance-IsFirstLive (suc fuel) next duration period now p f =
    elim (Bool-cases (leb (next + duration) now)) [
      | inl elapsed ↦
          let (k, (at, live, first)) =
            advance-IsFirstLive fuel (next + period) duration period now p (ground arith) in
          rw elapsed (suc k, (omega arith, live, inr (ground arith)))
      | inr alive ↦ rw alive (0, (omega arith, ground arith, inl refl))
    ]

advance_live :
    (next duration period now : ℕ)
    → 0 < period
    → now < advance (now + 1) next duration period now + duration
advance_live next duration period now p =
    (advance-IsFirstLive (now + 1) next duration period now p (omega arith)).1.1

-- Closing a cycle under a positive period puts the next window one or more whole periods after the one that
-- closes: the first of these whose duration has not fully elapsed. The cycle is gone, and the users that it
-- did not reach are queued for the next one.
pub close_cycle_schedule :
    (state : SettlementState) (config : KeeperConfig) (now : ℕ) (cycle : SettlementCycleState)
    → 0 < config.settlement_period_secs
    → state.current ≡ some cycle
    → let period = config.settlement_period_secs * 1000 in
      let duration = config.settlement_window_duration_secs * 1000 in
      let closed = close_cycle state config now in
      ((k : ℕ) × IsFirstLive
          (cycle.window_open_ms + period)
          duration
          period
          now
          closed.next_window_ms
          k)
      × (closed.current ≡ none)
      × (closed.pending_priority_queue ≡ cycle.spread_batches_pending)
unfolding close_cycle open_cycle
close_cycle_schedule state config now cycle p e =
    let period = config.settlement_period_secs * 1000 in
    let duration = config.settlement_window_duration_secs * 1000 in
    subst
      (λ (c : Option SettlementCycleState).
        ((k : ℕ) × IsFirstLive (cycle.window_open_ms + period) duration period now
            (close_current state config now c).next_window_ms k)
        × ((close_current state config now c).current ≡ none)
        × ((close_current state config now c).pending_priority_queue
            ≡ cycle.spread_batches_pending))
      (sym e)
      (
        advance-IsFirstLive (now + 1) (cycle.window_open_ms + period) duration period now
            (omega arith) (omega arith),
        refl,
        refl,
      )

-- Idle before its next window, or inside the window of the open cycle.
abbrev pub IsLiveAt : ℕ → ℕ → Option SettlementCycleState → Type 0
IsLiveAt now next none = now < next
IsLiveAt now next (some cycle) = (cycle.window_open_ms ≤ now) × (now < cycle.window_close_ms)

-- The open cycle's window has opened, or, with no cycle open, the next window is not over.
abbrev pub IsReached : KeeperConfig → ℕ → ℕ → Option SettlementCycleState → Type 0
IsReached config now next none = now < next + config.settlement_window_duration_secs * 1000
IsReached config now next (some cycle) = cycle.window_open_ms ≤ now

tick_open :
    (state : SettlementState) (config : KeeperConfig) (now : ℕ) (cycle : SettlementCycleState)
    → 0 < config.settlement_period_secs
    → state.current ≡ some cycle
    → cycle.window_open_ms ≤ now
    → IsLiveAt now (tick state config now).next_window_ms (tick state config now).current
unfolding tick close_due open_due close_cycle close_current open_cycle is_window_due
tick_open state config now cycle p e o = ground (
  arith,
  advance_live (cycle.window_open_ms + config.settlement_period_secs * 1000)
      (config.settlement_window_duration_secs * 1000) (config.settlement_period_secs * 1000) now
      (omega arith),
)

tick_idle :
    (state : SettlementState) (config : KeeperConfig) (now : ℕ)
    → state.current ≡ none
    → now < state.next_window_ms + config.settlement_window_duration_secs * 1000
    → IsLiveAt now (tick state config now).next_window_ms (tick state config now).current
unfolding tick close_due open_due open_cycle is_window_due
tick_idle state config now e o = ground arith

-- For a positive period, a loop step of the daemon leaves the scheduler either inside the window of an open
-- cycle or idle before the next one, if it found a cycle open whose window opened no later than now, or
-- found none open and the next window not over. A step that finds the scheduler idle after a window that
-- went by unseen is not covered: it opens that window.
pub tick-IsLiveAt :
    (state : SettlementState) (config : KeeperConfig) (now : ℕ)
    → 0 < config.settlement_period_secs
    → IsReached config now state.next_window_ms state.current
    → IsLiveAt now (tick state config now).next_window_ms (tick state config now).current
tick-IsLiveAt state config now p reached = by_cycle (Option-cases state.current)
  where
    by_cycle :
        (state.current ≡ none) ⊎ ((cycle : SettlementCycleState) × (state.current ≡ some cycle))
        → IsLiveAt now (tick state config now).next_window_ms (tick state config now).current
    by_cycle (inl e) =
        tick_idle state config now e (subst (IsReached config now state.next_window_ms) e reached)
    by_cycle (inr (cycle, e)) =
        tick_open state config now cycle p e
          (subst (IsReached config now state.next_window_ms) e reached)
