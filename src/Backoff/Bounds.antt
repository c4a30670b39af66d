-- ===== src/Backoff/Bounds.antt =====
-- How long the controller of agents/sdk/src/agent/backoff.ts holds the agent back.
use claimrush.Prelude.{ℕ, ◌+◌, ◌≤◌, max, List, [], ◌∷◌, arith}
use claimrush.Backoff.{
  kind_of, infer_error_info, BackoffConfig, BackoffState, ActionResult, initial, remaining_ms,
  maybe_clear, on_success, count_error, next_cooldown, enter, on_error, on_action_result,
}

-- A call of the agent's loop (runner.ts): the tick, or the result of an action.
pub data Call : Type 0 where
  tick : Call
  result : ActionResult → Call

module _ (cfg : BackoffConfig) where
  unfoldable pub step : BackoffState → ℕ × Call → BackoffState
  step s (now, tick) = (maybe_clear cfg s now).0
  step s (now, result res) = (on_action_result cfg s res now).0

  unfoldable pub run : BackoffState → List (ℕ × Call) → BackoffState
  run s [] = s
  run s (c ∷ cs) = run (step s c) cs

  -- The longest cooldown that the configuration allows.
  abbrev pub longest : ℕ
  longest = max 1 cfg.max_cooldown_ms

  -- Neither the cooldown nor the end of the pause is further away than the longest cooldown.
  abbrev pub IsBounded : ℕ → BackoffState → Type 0
  IsBounded now s = (s.cooldown_ms ≤ longest) × (s.cooldown_until_ms ≤ now + longest)

module _ (cfg : BackoffConfig) (ordered : cfg.base_cooldown_ms ≤ cfg.max_cooldown_ms) where
  next_cooldown-le : (prev : ℕ) → next_cooldown cfg prev ≤ longest cfg
  unfolding next_cooldown
  next_cooldown-le prev = ground arith

  maybe_clear-IsBounded :
      (s : BackoffState) (now : ℕ)
      → IsBounded cfg now s
      → IsBounded cfg now (maybe_clear cfg s now).0
  unfolding maybe_clear
  maybe_clear-IsBounded s now h = ground arith

  on_success-IsBounded :
      (s : BackoffState) (now : ℕ) → IsBounded cfg now s → IsBounded cfg now (on_success cfg s)
  unfolding on_success
  on_success-IsBounded s now h = ground arith

  count_error-IsBounded :
      (s : BackoffState) (kind : _) (info : _) (action : _) (now : ℕ)
      → IsBounded cfg now s
      → IsBounded cfg now (count_error cfg s kind info action now)
  unfolding count_error
  count_error-IsBounded s kind info action now h = ground arith

  enter-IsBounded : (s : BackoffState) (now : ℕ) → IsBounded cfg now (enter cfg s now)
  unfolding enter
  enter-IsBounded s now = ground (arith, next_cooldown-le s.cooldown_ms)

  on_error-IsBounded :
      (s : BackoffState) (kind : _) (info : _) (action : _) (now : ℕ)
      → IsBounded cfg now s
      → IsBounded cfg now (on_error cfg s kind info action now).0
  unfolding on_error
  on_error-IsBounded s kind info action now h = ground (
    arith,
    count_error-IsBounded s kind info action now h,
    enter-IsBounded (count_error cfg s kind info action now) now,
  )

  on_action_result-IsBounded :
      (s : BackoffState) (res : ActionResult) (now : ℕ)
      → IsBounded cfg now s
      → IsBounded cfg now (on_action_result cfg s res now).0
  unfolding on_action_result
  on_action_result-IsBounded s res now h = ground (
    arith,
    on_success-IsBounded s now h,
    on_error-IsBounded s (kind_of (infer_error_info res)) (infer_error_info res) res.action_kind now
        h,
  )

  step-IsBounded :
      (s : BackoffState) (before : ℕ) (c : ℕ × Call)
      → before ≤ c.0
      → IsBounded cfg before s
      → IsBounded cfg c.0 (step cfg s c)
  unfolding step
  step-IsBounded s before (now, tick) le h = maybe_clear-IsBounded s now (omega arith)
  step-IsBounded s before (now, result res) le h =
      on_action_result-IsBounded s res now (omega arith)

-- The calls come in the order of time, none before `now` and none after `end`.
abbrev pub InOrder : ℕ → ℕ → List (ℕ × Call) → Type 0
InOrder now end [] = now ≤ end
InOrder now end (c ∷ cs) = (now ≤ c.0) × InOrder c.0 end cs

run-IsBounded :
    (cfg : BackoffConfig)
    → cfg.base_cooldown_ms ≤ cfg.max_cooldown_ms
    → (s : BackoffState) (now end : ℕ) (cs : List (ℕ × Call)) → InOrder now end cs
    → IsBounded cfg now s
    → IsBounded cfg end (run cfg s cs)
unfolding run
run-IsBounded cfg b s now end [] o h = omega arith
run-IsBounded cfg b s now end (c ∷ cs) o h =
    run-IsBounded cfg b (step cfg s c) c.0 end cs o.1 (step-IsBounded cfg b s now c o.0 h)

-- With a base cooldown of at most the maximum, whatever ticks and results the loop hands over in the
-- order of time, the controller never asks to wait longer than the maximum cooldown (or than one
-- millisecond, if the maximum is zero), also when it is asked later than the last call.
pub remaining_ms-run :
    (cfg : BackoffConfig) (end : ℕ) (cs : List (ℕ × Call))
    → cfg.base_cooldown_ms ≤ cfg.max_cooldown_ms
    → InOrder 0 end cs
    → remaining_ms cfg (run cfg initial cs) end ≤ max 1 cfg.max_cooldown_ms
unfolding remaining_ms
remaining_ms-run cfg end cs b o =
    ground (arith, run-IsBounded cfg b initial 0 end cs o (omega arith))
