-- ===== src/Backoff.antt =====
-- `class BackoffController` of agents/sdk/src/agent/backoff.ts. A method takes the configuration and
-- the state, and returns the new state with the transition that it reports. `Date.now()` is the
-- argument `now`.
mod Types
pub mod Streak
pub mod Bounds
pub mod Escalation
mod Tests
pub use Types.*
use claimrush.Prelude.{
  ℕ, suc, ◌+◌, ◌-◌, ◌*◌, ◌/◌, min, max, Bool, true, false, not, ◌&&◌, ◌||◌, Option, none, some,
  List, [], ◌∷◌, ltb, leb, ◌==◌, if◌then◌else◌, some_of, String,
}

unfoldable pub clamp : ℕ → ℕ → ℕ → ℕ
clamp n lo hi = max lo (min hi n)

abbrev pub infer_error_info : ActionResult → Option ErrorInfo
infer_error_info res = elim res.error_info [ some direct ↦ some direct | none ↦ res.nested_info ]

-- `info?.kind ?? 'unknown'`
abbrev pub kind_of : Option ErrorInfo → ErrorKind
kind_of none = unknown
kind_of (some i) = i.kind

abbrev pub should_count_error_kind : ErrorKind → Option (List ErrorKind) → Bool
should_count_error_kind kind none = true
should_count_error_kind kind (some []) = true
should_count_error_kind kind (some (k ∷ ks)) = some_of (same_kind kind) (k ∷ ks)

abbrev pub default_config : BackoffConfig
default_config = record {
  enabled = true;
  base_cooldown_ms = 15_000;
  max_cooldown_ms = 300_000;
  multiplier_num = 2;
  multiplier_den = 1;
  max_consecutive_timeouts = 1;
  max_consecutive_errors = 3;
  reset_after_ms = 120_000;
  count_error_kinds = none;
}

-- The state that the constructor makes.
abbrev pub initial : BackoffState
initial = record {
  active = false;
  cooldown_until_ms = 0;
  cooldown_ms = 0;
  consecutive_errors = 0;
  consecutive_timeouts = 0;
  last_error_at_ms = none;
  last_error_kind = none;
  last_error_name = none;
  last_action_kind = none;
}

-- `this.state.lastErrorAtMs && nowMs - this.state.lastErrorAtMs >= this.cfg.resetAfterMs`
abbrev pub is_stale : ℕ → ℕ → Option ℕ → Bool
is_stale reset_after now none = false
is_stale reset_after now (some at) = not (at == 0) && leb (at + reset_after) now

-- The four fields that describe the last error, set to `undefined`.
abbrev forget_last_error : BackoffState → BackoffState
forget_last_error s = record s {
  last_error_at_ms = none;
  last_error_kind = none;
  last_error_name = none;
  last_action_kind = none;
}

module _ (cfg : BackoffConfig) where
  open cfg use {
    enabled, base_cooldown_ms, max_cooldown_ms, multiplier_num, multiplier_den,
    max_consecutive_timeouts, max_consecutive_errors, reset_after_ms, count_error_kinds,
  }

  unfoldable pub is_active : BackoffState → ℕ → Bool
  is_active s now = enabled && (s.active && ltb now s.cooldown_until_ms)

  unfoldable pub remaining_ms : BackoffState → ℕ → ℕ
  unfolding is_active
  remaining_ms s now = if is_active s now then s.cooldown_until_ms - now else 0

  pub maybe_clear : BackoffState → ℕ → BackoffState × Option Transition
  maybe_clear s now =
      if not enabled
      then (s, none)
      else (if s.active && leb s.cooldown_until_ms now
          then (lifted, some (cleared lifted))
          else (if is_stale reset_after_ms now s.last_error_at_ms
              then (decayed, none)
              else (s, none)))
    where
      lifted : BackoffState
      lifted = record s { active = false; cooldown_until_ms = 0 }

      decayed : BackoffState
      decayed = record (forget_last_error s) {
        consecutive_errors = 0;
        consecutive_timeouts = 0;
        cooldown_ms = 0;
      }

  -- A success clears the streaks and leaves the cooldown as it is.
  on_success : BackoffState → BackoffState
  on_success s = record (forget_last_error s) { consecutive_errors = 0; consecutive_timeouts = 0 }

  -- The streaks after an error of this kind.
  pub count_error : BackoffState → ErrorKind → Option ErrorInfo → Option String → ℕ → BackoffState
  count_error s kind info action now = record fresh {
    consecutive_errors =
        if should_count_error_kind kind count_error_kinds
        then fresh.consecutive_errors + 1
        else fresh.consecutive_errors;
    consecutive_timeouts =
        if is_timeout kind then fresh.consecutive_timeouts + 1 else fresh.consecutive_timeouts;
    last_error_at_ms = some now;
    last_error_kind = some kind;
    last_error_name = elim info [ none ↦ none | some i ↦ i.error_name ];
    last_action_kind = action;
  }
    where
      fresh : BackoffState
      fresh =
          if is_stale reset_after_ms now s.last_error_at_ms
          then record s { consecutive_errors = 0; consecutive_timeouts = 0; cooldown_ms = 0 }
          else s

  pub hits_threshold : BackoffState → Bool
  hits_threshold s =
      leb (max 1 max_consecutive_timeouts) s.consecutive_timeouts
      || leb (max 1 max_consecutive_errors) s.consecutive_errors

  unfoldable pub next_cooldown : ℕ → ℕ
  unfolding clamp
  next_cooldown prev =
      if ltb 0 prev
      then clamp (prev * multiplier_num / multiplier_den) base_cooldown_ms max_cooldown_ms
      else clamp base_cooldown_ms 1 max_cooldown_ms

  enter : BackoffState → ℕ → BackoffState
  enter s now = record s {
    active = true;
    cooldown_ms = next_cooldown s.cooldown_ms;
    cooldown_until_ms = now + next_cooldown s.cooldown_ms;
  }

  on_error :
      BackoffState
      → ErrorKind
      → Option ErrorInfo
      → Option String
      → ℕ
      → BackoffState × Option Transition
  on_error s kind info action now =
      if hits_threshold counted
      then (enter counted now, some (entered (enter counted now) why))
      else (counted, none)
    where
      counted : BackoffState
      counted = count_error s kind info action now

      why : Reason
      why = record {
        error_kind = kind;
        error_name = elim info [ none ↦ none | some i ↦ i.error_name ];
        message = elim info [ none ↦ none | some i ↦ some i.message ];
        action_kind = action;
      }

  pub on_action_result : BackoffState → ActionResult → ℕ → BackoffState × Option Transition
  on_action_result s res now =
      if not enabled || res.simulated
      then (s, none)
      else (if is_truthy res.error
          then on_error s (kind_of (infer_error_info res)) (infer_error_info res) res.action_kind
              now
          else (on_success s, none))
