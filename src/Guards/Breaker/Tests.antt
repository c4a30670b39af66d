-- ===== src/Guards/Breaker/Tests.antt =====
-- Runs of the circuit breaker of keeper/src/shared/circuit_breaker.ts, and the theorems at concrete inputs.
use claimrush.Prelude.{ℕ, ◌≡◌, refl, true, false, none, some, [], ◌∷◌, codes}
use claimrush.Guards.Breaker.{
  CircuitBreakerState, BreakerConfig, StateFile, init_state, is_paused, record_tx_failure,
  cooldown_expired, get_effective_paused_until,
}
use claimrush.Guards.Breaker.Trip.{
  Failure, closed, fail, fail_all, holds, fail_all-trips, fail-probe,
}

abbrev config : BreakerConfig
config = record {
  circuit_breaker_enabled = true;
  circuit_breaker_max_failures = 3;
  circuit_breaker_cooldown_ms = 60_000;
}

abbrev failure : ℕ → Failure
failure at = (at, codes "reverted", none)

abbrev tripped : CircuitBreakerState
tripped = record init_state {
  consecutive_failures = 3;
  tripped_at = some 1_000;
  paused_until = some 61_000;
}

-- A state file that cannot be read stops the keeper.
unreadable_stops : record_tx_failure config StateFile.unreadable 5 (codes "reverted") none ≡ none
unfolding record_tx_failure
unreadable_stops = refl

fail_all-trips_example :
    (before : CircuitBreakerState) × (after : CircuitBreakerState) × (fail_all config
        (some (closed 0 init_state, false))
        (failure 10 ∷ failure 20 ∷ [])
      ≡ some (before, false))
    × ((t : ℕ) → is_paused config before t ≡ false)
    × (fail config before (failure 30) ≡ some (after, true))
    × ((t : ℕ) → is_paused config after t ≡ holds config 30 t)
fail_all-trips_example =
    fail_all-trips config init_state (failure 10 ∷ failure 20 ∷ []) (failure 30) refl refl

is_over_61 : cooldown_expired config tripped 61_000 ≡ true
unfolding get_effective_paused_until
is_over_61 = refl

fail-probe_example :
    (after : CircuitBreakerState) × (fail config tripped (failure 61_000) ≡ some (after, false))
    × (after.consecutive_failures ≡ 1)
    × ((t : ℕ) → is_paused config after t ≡ false)
fail-probe_example = fail-probe config tripped (failure 61_000) refl is_over_61
