-- ===== src/Guards/Breaker.antt =====
-- The circuit breaker of keeper/src/shared/circuit_breaker.ts. A timestamp is its milliseconds, and each
-- operation reads the clock once. What the state file holds, and whether the pause file could be written, are
-- arguments.
use claimrush.Prelude.{
  ℕ, zero, suc, ◌+◌, Bool, true, false, not, ◌&&◌, Option, none, some, List, [], ◌∷◌, ◌++◌, Text,
  codes, ltb, leb, if◌then◌else◌, min, max,
}
use mathlib.Core.Option
pub mod Trip
mod Tests

pub record CircuitBreakerState : Type 0 where
  pub consecutive_failures : ℕ
  pub last_failure_at : Option ℕ
  pub last_success_at : Option ℕ
  pub tripped_at : Option ℕ
  pub paused_until : Option ℕ
  pub last_error : Option Text

-- The fields of the keeper's configuration that the breaker reads; a cooldown that is no positive integer
-- is 0.
pub record BreakerConfig : Type 0 where
  pub circuit_breaker_enabled : Bool
  pub circuit_breaker_max_failures : ℕ
  pub circuit_breaker_cooldown_ms : ℕ

pub data StateFile : Type 0 where
  missing unreadable : StateFile
  stored : CircuitBreakerState → StateFile

abbrev pub init_state : CircuitBreakerState
init_state = record {
  consecutive_failures = 0;
  last_failure_at = none;
  last_success_at = none;
  tripped_at = none;
  paused_until = none;
  last_error = none;
}

-- `none` is a CircuitBreakerStateError.
abbrev pub load_circuit_breaker_state : StateFile → Option CircuitBreakerState
load_circuit_breaker_state StateFile.missing = some init_state
load_circuit_breaker_state StateFile.unreadable = none
load_circuit_breaker_state (StateFile.stored state) = some state

abbrev pub compute_paused_until : ℕ → ℕ → Option ℕ
compute_paused_until tripped_at cooldown =
    if ltb 0 cooldown then some (tripped_at + cooldown) else none

abbrev pub effective_until : Option ℕ → Option ℕ → ℕ → Option ℕ
effective_until (some until) tripped cooldown = some until
effective_until none none cooldown = none
effective_until none (some at) cooldown = compute_paused_until at cooldown

unfoldable pub get_effective_paused_until : CircuitBreakerState → ℕ → Option ℕ
get_effective_paused_until state cooldown =
    effective_until state.paused_until state.tripped_at cooldown

-- `untilMs != null && untilMs <= now`
abbrev pub is_over : Option ℕ → ℕ → Bool
is_over none now = false
is_over (some until) now = leb until now

abbrev pub is_tripped : Option ℕ → Bool
is_tripped none = false
is_tripped (some at) = true

-- The field `paused` of `getCircuitBreakerPauseInfo`.
unfoldable pub is_paused : BreakerConfig → CircuitBreakerState → ℕ → Bool
unfolding get_effective_paused_until
is_paused config state now =
    config.circuit_breaker_enabled
    && (is_tripped state.tripped_at
        && not (is_over (get_effective_paused_until state config.circuit_breaker_cooldown_ms) now))

unfoldable pub record_tx_success : BreakerConfig → StateFile → ℕ → Option CircuitBreakerState
record_tx_success config file now =
    if config.circuit_breaker_enabled
    then Option.map {A = CircuitBreakerState}
        (λ cur. record cur {
          consecutive_failures = 0;
          last_success_at = some now;
          tripped_at = none;
          paused_until = none;
          last_error = none;
        })
        (load_circuit_breaker_state file)
    else some init_state

-- `error.slice(0, limit)`
abbrev pub cut : ℕ → Text → Text
cut zero cs = []
cut (suc limit) [] = []
cut (suc limit) (c ∷ cs) = c ∷ cut limit cs

module _ (config : BreakerConfig) where
  abbrev pub max_failures : ℕ
  max_failures = max config.circuit_breaker_max_failures 1

  abbrev pub cooldown_expired : CircuitBreakerState → ℕ → Bool
  cooldown_expired state now =
      is_over (get_effective_paused_until state config.circuit_breaker_cooldown_ms) now

  -- The state that a failure is counted on.
  abbrev after_cooldown : Bool → CircuitBreakerState → CircuitBreakerState
  after_cooldown true state = record state {
    consecutive_failures = 0;
    tripped_at = none;
    paused_until = none;
  }
  after_cooldown false state = state

  abbrev pub effective_threshold : Bool → ℕ
  effective_threshold true = max max_failures 2
  effective_threshold false = max_failures

  -- A failed write of the pause file is noted in the error, and the trip stands.
  abbrev pub trip_error : Option Text → Text → Text
  trip_error none error = error
  trip_error (some msg) error =
      error ++ (codes " (circuit breaker pause write failed: " ++ (msg ++ codes ")"))

  abbrev pub counted : Bool → CircuitBreakerState → ℕ
  counted expired state =
      min ((after_cooldown expired state).consecutive_failures + 1) (max_failures + 10)

  unfoldable pub count_failure :
      Bool → CircuitBreakerState → ℕ → Text → Option Text → CircuitBreakerState × Bool
  count_failure expired state now error write_error =
      let next = record (after_cooldown expired state) {
        consecutive_failures = counted expired state;
        last_failure_at = some now;
        last_error = some error;
      } in
      if leb (effective_threshold expired) (counted expired state)
      then (
        record next {
          tripped_at = some now;
          paused_until = compute_paused_until now config.circuit_breaker_cooldown_ms;
          last_error = some (trip_error write_error error);
        },
        true,
      )
      else (next, false)

  unfoldable pub record_tx_failure :
      StateFile → ℕ → Text → Option Text → Option (CircuitBreakerState × Bool)
  unfolding count_failure
  record_tx_failure file now error write_error =
      if config.circuit_breaker_enabled
      then Option.map {A = CircuitBreakerState}
          (λ cur. count_failure (cooldown_expired cur now) cur now (cut 2_048 error) write_error)
          (load_circuit_breaker_state file)
      else some (init_state, false)
