-- ===== src/Guards/Breaker/Trip.antt =====
-- When the circuit breaker of keeper/src/shared/circuit_breaker.ts trips, and when it lets go.
use claimrush.Prelude.{
  ℕ, zero, suc, ◌+◌, ◌<◌, ◌≡◌, refl, ap, ◌∙◌, Bool, true, false, not, ◌||◌, ◌==◌, Option, none,
  some, List, [], ◌∷◌, Text, ltb, leb, min, max, length, arith,
}
use claimrush.Guards.Breaker.{
  CircuitBreakerState, BreakerConfig, StateFile, cut, get_effective_paused_until, is_paused,
  record_tx_failure, record_tx_success, count_failure, cooldown_expired, max_failures,
  compute_paused_until, effective_until, is_over, trip_error,
}

-- A failure: the time, the error and, if the pause file could not be written, why.
abbrev pub Failure : Type 0
Failure = ℕ × Text × Option Text

-- A state with no trip and `n` failures in a row.
abbrev pub closed : ℕ → CircuitBreakerState → CircuitBreakerState
closed n s = record s { consecutive_failures = n; tripped_at = none; paused_until = none }

abbrev noted : CircuitBreakerState → Failure → CircuitBreakerState
noted s f = record s { last_failure_at = some f.0; last_error = some (cut 2_048 f.1) }

-- The state after a failure that does not trip, of failures in a row.
abbrev pub fail :
    BreakerConfig → CircuitBreakerState → Failure → Option (CircuitBreakerState × Bool)
fail config s f = record_tx_failure config (StateFile.stored s) f.0 f.1 f.2

-- The failures one after the other, as long as none trips.
abbrev pub fail_all :
    BreakerConfig
    → Option (CircuitBreakerState × Bool)
    → List Failure
    → Option (CircuitBreakerState × Bool)
fail_all config (some (s, false)) (f ∷ fs) = fail_all config (fail config s f) fs
fail_all config result fs = result

module _ (config : BreakerConfig) where
  abbrev tripped : ℕ → CircuitBreakerState → Failure → CircuitBreakerState
  tripped n s f = record s {
    consecutive_failures = n;
    last_failure_at = some f.0;
    tripped_at = some f.0;
    paused_until = compute_paused_until f.0 config.circuit_breaker_cooldown_ms;
    last_error = some (trip_error config f.2 (cut 2_048 f.1));
  }

  -- A trip lasts for the cooldown, and for good where there is none.
  abbrev pub holds : ℕ → ℕ → Bool
  holds at t =
      config.circuit_breaker_cooldown_ms == 0 || ltb t (at + config.circuit_breaker_cooldown_ms)

  tripped_until :
      (cooldown at t : ℕ)
      → not (is_over (effective_until (compute_paused_until at cooldown) (some at) cooldown) t)
        ≡ (cooldown == 0 || ltb t (at + cooldown))
  tripped_until zero at t = ground arith
  tripped_until (suc c) at t = ground arith

module _ (config : BreakerConfig) (on : config.circuit_breaker_enabled ≡ true) where
  fail_below :
      (n : ℕ) (s : CircuitBreakerState) (f : Failure)
      → suc n < max_failures config
      → fail config (closed n s) f ≡ some (closed (suc n) (noted s f), false)
  unfolding record_tx_failure count_failure get_effective_paused_until
  fail_below n s f few = rw on (rw below (rw one_more refl))
    where
      one_more : min (n + 1) (max config.circuit_breaker_max_failures 1 + 10) ≡ suc n
      one_more = omega (arith, few)

      below :
          leb
            (max config.circuit_breaker_max_failures 1)
            (min (n + 1) (max config.circuit_breaker_max_failures 1 + 10))
          ≡ false
      below = ground arith

  fail_at :
      (n : ℕ) (s : CircuitBreakerState) (f : Failure)
      → suc n ≡ max_failures config
      → fail config (closed n s) f ≡ some (tripped config (suc n) s f, true)
  unfolding record_tx_failure count_failure get_effective_paused_until
  fail_at n s f enough = rw on (rw reached (rw one_more refl))
    where
      one_more : min (n + 1) (max config.circuit_breaker_max_failures 1 + 10) ≡ suc n
      one_more = omega (arith, enough)

      reached :
          leb
            (max config.circuit_breaker_max_failures 1)
            (min (n + 1) (max config.circuit_breaker_max_failures 1 + 10))
          ≡ true
      reached = ground arith

  closed-unpaused :
      (n : ℕ) (s : CircuitBreakerState) (t : ℕ) → is_paused config (closed n s) t ≡ false
  unfolding is_paused
  closed-unpaused n s t = rw on refl

  tripped-paused :
      (n : ℕ) (s : CircuitBreakerState) (f : Failure) (t : ℕ)
      → is_paused config (tripped config n s f) t ≡ holds config f.0 t
  unfolding is_paused get_effective_paused_until
  tripped-paused n s f t = rw on (tripped_until config config.circuit_breaker_cooldown_ms f.0 t)

  fail_all-closed :
      (n : ℕ) (s : CircuitBreakerState) (fs : List Failure)
      → n + length fs < max_failures config
      → (s' : CircuitBreakerState) × (fail_all config (some (closed n s, false)) fs
          ≡ some (closed (n + length fs) s', false))
  fail_all-closed n s [] few = (s, ap (λ m. some (closed m s, false)) (omega arith))
  fail_all-closed n s (f ∷ fs) few =
      let rest = fail_all-closed (suc n) (noted s f) fs (omega arith) in
      (
        rest.0,
        ap (λ r. fail_all config r fs) (fail_below n s f (omega arith))
            ∙ (rest.1 ∙ ap (λ m. some (closed m rest.0, false)) (omega arith)),
      )

-- With the breaker enabled, from a state without failures and without a trip, fewer failures in a row
-- than the maximum never trip the breaker or pause the keeper; the one that makes the maximum trips it,
-- and then the keeper is paused up to the end of the cooldown, or at all times where there is no
-- cooldown.
pub fail_all-trips :
    (config : BreakerConfig) (s : CircuitBreakerState) (fs : List Failure) (f : Failure)
    → config.circuit_breaker_enabled ≡ true
    → suc (length fs) ≡ max_failures config
    → (before : CircuitBreakerState) × (after : CircuitBreakerState) × (fail_all config
          (some (closed 0 s, false))
          fs
        ≡ some (before, false))
      × ((t : ℕ) → is_paused config before t ≡ false)
      × (fail config before f ≡ some (after, true))
      × ((t : ℕ) → is_paused config after t ≡ holds config f.0 t)
fail_all-trips config s fs f on enough = (
  closed (0 + length fs) run.0,
  tripped config (suc (0 + length fs)) run.0 f,
  run.1,
  closed-unpaused config on (0 + length fs) run.0,
  fail_at config on (0 + length fs) run.0 f (omega arith),
  tripped-paused config on (suc (0 + length fs)) run.0 f,
)
  where
    few : 0 + length fs < max_failures config
    few = omega arith

    run :
        (s' : CircuitBreakerState) × (fail_all config (some (closed 0 s, false)) fs
          ≡ some (closed (0 + length fs) s', false))
    run = fail_all-closed config on 0 s fs few

-- With the breaker enabled, the first failure after a cooldown is a probe: it does not trip the breaker,
-- whatever the maximum, and it leaves one failure and no pause.
pub fail-probe :
    (config : BreakerConfig) (s : CircuitBreakerState) (f : Failure)
    → config.circuit_breaker_enabled ≡ true
    → cooldown_expired config s f.0 ≡ true
    → (after : CircuitBreakerState) × (fail config s f ≡ some (after, false))
      × (after.consecutive_failures ≡ 1)
      × ((t : ℕ) → is_paused config after t ≡ false)
unfolding record_tx_failure count_failure
fail-probe config s f on over = (
  closed 1 (noted s f),
  rw on (rw over (rw low (rw one refl))),
  refl,
  closed-unpaused config on 1 (noted s f),
)
  where
    one : min 1 (max config.circuit_breaker_max_failures 1 + 10) ≡ 1
    one = omega arith

    low :
        leb
          (max (max config.circuit_breaker_max_failures 1) 2)
          (min 1 (max config.circuit_breaker_max_failures 1 + 10))
        ≡ false
    low = ground arith

-- With the breaker enabled, a success clears the failures and the pause.
record_tx_success-clears :
    (config : BreakerConfig) (s : CircuitBreakerState) (now : ℕ)
    → config.circuit_breaker_enabled ≡ true
    → (after : CircuitBreakerState) × (record_tx_success config (StateFile.stored s) now
        ≡ some after)
      × (after.consecutive_failures ≡ 0)
      × ((t : ℕ) → is_paused config after t ≡ false)
unfolding record_tx_success
record_tx_success-clears config s now on = (
  closed 0 (record s { last_success_at = some now; last_error = none }),
  rw on refl,
  refl,
  closed-unpaused config on 0 (record s { last_success_at = some now; last_error = none }),
)
