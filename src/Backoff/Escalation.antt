-- ===== src/Backoff/Escalation.antt =====
-- The cooldowns of agents/sdk/src/agent/backoff.ts under repeated errors.
use native.Mathlib.Nat.{pow-suc, pow-zero, mul_assoc}
use claimrush.Prelude.{
  ℕ, zero, suc, ◌+◌, ◌*◌, ◌/◌, ◌≤◌, ◌<◌, min, ◌≡◌, true, false, none, some, List, [], ◌∷◌, arith,
  ◌^◌, length, ap, ◌∙◌, refl,
}
use claimrush.Backoff.{
  BackoffConfig, BackoffState, ActionResult, initial, clamp, is_truthy, infer_error_info,
  is_timeout, kind_of, count_error, hits_threshold, next_cooldown, enter, on_error,
  on_action_result,
}

-- The state after the same failing result at each of the times, the newest time first.
pub repeat : BackoffConfig → ActionResult → List ℕ → BackoffState
repeat cfg res [] = initial
repeat cfg res (t ∷ ts) = (on_action_result cfg (repeat cfg res ts) res t).0

-- The failures follow one another faster than the streaks go stale.
abbrev pub Close : ℕ → List ℕ → Type 0
Close gap [] = Unit {0}
Close gap (t ∷ []) = Unit {0}
Close gap (t ∷ u ∷ ts) = (t < u + gap) × Close gap (u ∷ ts)

le_mul : (x m : ℕ) → 1 ≤ m → x ≤ x * m
le_mul x m h = grind arith

-- Multiplying the capped cooldown and capping again is capping the product.
clamp_step : (b M m q : ℕ) → 1 ≤ m → b ≤ q → b ≤ M → clamp (min M q * m) b M ≡ min M (q * m)
unfolding clamp
clamp_step b M m q h hq hM = ground (arith, le_mul q m h, le_mul M m h, le_mul (min M q) m h)

pow_pos : (m n : ℕ) → 1 ≤ m → 1 ≤ m ^ n
pow_pos m zero h = rw pow-zero (omega arith)
pow_pos m (suc n) h = rw (pow-suc m n) (grind (arith, pow_pos m n h))

-- What the theorem below asks of the configuration and of the failing result.
abbrev pub IsGeometric : BackoffConfig → ℕ → Type 0
IsGeometric cfg m =
    (cfg.enabled ≡ true)
    × (cfg.multiplier_num ≡ m)
    × (cfg.multiplier_den ≡ 1)
    × (1 ≤ m)
    × (1 ≤ cfg.base_cooldown_ms)
    × (cfg.base_cooldown_ms ≤ cfg.max_cooldown_ms)
    × (cfg.max_consecutive_timeouts ≤ 1)

abbrev pub IsTimeout : ActionResult → Type 0
IsTimeout res =
    (res.simulated ≡ false)
    × (is_truthy res.error ≡ true)
    × (is_timeout (kind_of (infer_error_info res)) ≡ true)

module _ (cfg : BackoffConfig) (m : ℕ) (g : IsGeometric cfg m) (res : ActionResult)
    (to : IsTimeout res) where
  scaled : (prev : ℕ) → prev * cfg.multiplier_num / cfg.multiplier_den ≡ prev * m
  scaled prev = rw (g.1, g.2) (omega arith)

  next_cooldown_step :
      (q : ℕ)
      → cfg.base_cooldown_ms ≤ q
      → next_cooldown cfg (min cfg.max_cooldown_ms q) ≡ min cfg.max_cooldown_ms (q * m)
  unfolding next_cooldown
  next_cooldown_step q h =
      rw (scaled (min cfg.max_cooldown_ms q))
        (ground (arith, clamp_step cfg.base_cooldown_ms cfg.max_cooldown_ms m q g.3 h g.5))

  first_timeout :
      (t : ℕ) (s : BackoffState)
      → s.last_error_at_ms ≡ none
      → s.cooldown_ms ≡ 0
      → let s' = (on_action_result cfg s res t).0 in
        (s'.cooldown_ms ≡ next_cooldown cfg 0) × (s'.last_error_at_ms ≡ some t)
  unfolding on_action_result on_error count_error hits_threshold enter
  first_timeout t s h k = ground arith

  next_timeout :
      (t u : ℕ) (s : BackoffState)
      → t < u + cfg.reset_after_ms
      → s.last_error_at_ms ≡ some u
      → let s' = (on_action_result cfg s res t).0 in
        (s'.cooldown_ms ≡ next_cooldown cfg s.cooldown_ms) × (s'.last_error_at_ms ≡ some t)
  unfolding on_action_result on_error count_error hits_threshold enter
  next_timeout t u s h k = ground arith

  -- The cooldown after one failure more than there are times in `ts`.
  abbrev expected : List ℕ → ℕ
  expected ts = min cfg.max_cooldown_ms (cfg.base_cooldown_ms * m ^ length ts)

  first_cooldown : next_cooldown cfg 0 ≡ expected []
  unfolding next_cooldown
  first_cooldown = rw pow-zero (ground arith)

  next_expected :
      (ts : List ℕ)
      → next_cooldown cfg (expected ts)
        ≡ min cfg.max_cooldown_ms (cfg.base_cooldown_ms * m ^ suc (length ts))
  next_expected ts =
      rw (pow-suc, ← mul_assoc)
        (next_cooldown_step (cfg.base_cooldown_ms * m ^ length ts)
          (le_mul cfg.base_cooldown_ms (m ^ length ts) (pow_pos m (length ts) g.3)))

  repeat_state :
      (t : ℕ) (ts : List ℕ)
      → Close cfg.reset_after_ms (t ∷ ts)
      → ((repeat cfg res (t ∷ ts)).cooldown_ms ≡ expected ts)
        × ((repeat cfg res (t ∷ ts)).last_error_at_ms ≡ some t)
  unfolding repeat
  repeat_state t [] c =
      let (cool, at) = first_timeout t initial refl refl in (cool ∙ first_cooldown, at)
  repeat_state t (u ∷ ts) c =
      let (cool, at) = repeat_state u ts c.1 in
      let (cool', at') = next_timeout t u (repeat cfg res (u ∷ ts)) c.0 at in
      (cool' ∙ ap (next_cooldown cfg) cool ∙ next_expected ts, at')

-- Under a whole multiplier `m`, after k + 1 timeouts, each within the reset time of the one before it, the
-- cooldown is the base cooldown times `m` to the power k, and never above the maximum.
pub cooldown_ms-repeat :
    (cfg : BackoffConfig) (m : ℕ) (res : ActionResult) (t : ℕ) (ts : List ℕ)
    → IsGeometric cfg m
    → IsTimeout res
    → Close cfg.reset_after_ms (t ∷ ts)
    → (repeat cfg res (t ∷ ts)).cooldown_ms
      ≡ min cfg.max_cooldown_ms (cfg.base_cooldown_ms * m ^ length ts)
cooldown_ms-repeat cfg m res t ts g to c = (repeat_state cfg m g res to t ts c).0
