-- ===== src/Backoff/Types.antt =====
-- agents/sdk/src/agent/backoff.ts: configuration, state, and the action results that it reads.
-- Times are milliseconds since the epoch. The multiplier is a fraction, `multiplier_num` over
-- `multiplier_den`, whose product with a cooldown is rounded down as `Math.floor` does.
use claimrush.Prelude.{ℕ, Bool, true, false, Option, none, some, List, String, ◌==◌}

-- `ClaimRushErrorKind` of errors.ts.
pub data ErrorKind : Type 0 where
  tx_timeout not_authorized paused slippage deadline : ErrorKind
  insufficient_balance insufficient_allowance unknown : ErrorKind

pub record ErrorInfo : Type 0 where
  pub kind : ErrorKind
  pub error_name : Option String
  pub message : String

-- The part of `AgentActionResult` that the controller reads: `nested_info` is `details.errorInfo`
-- and `action_kind` is `action.kind`.
pub record ActionResult : Type 0 where
  pub action_kind : Option String
  pub simulated : Bool
  pub error_info : Option ErrorInfo
  pub nested_info : Option ErrorInfo
  pub error : Option String

pub record BackoffConfig : Type 0 where
  pub enabled : Bool
  pub base_cooldown_ms : ℕ
  pub max_cooldown_ms : ℕ
  pub multiplier_num : ℕ
  pub multiplier_den : ℕ
  pub max_consecutive_timeouts : ℕ
  pub max_consecutive_errors : ℕ
  pub reset_after_ms : ℕ
  pub count_error_kinds : Option (List ErrorKind)

pub record BackoffState : Type 0 where
  pub active : Bool
  pub cooldown_until_ms : ℕ
  pub cooldown_ms : ℕ
  pub consecutive_errors : ℕ
  pub consecutive_timeouts : ℕ
  pub last_error_at_ms : Option ℕ
  pub last_error_kind : Option ErrorKind
  pub last_error_name : Option String
  pub last_action_kind : Option String

pub record Reason : Type 0 where
  pub error_kind : ErrorKind
  pub error_name : Option String
  pub message : Option String
  pub action_kind : Option String

pub data Transition : Type 0 where
  entered : BackoffState → Reason → Transition
  cleared : BackoffState → Transition

-- A text is truthy when it is not empty.
abbrev pub is_truthy : Option String → Bool
is_truthy none = false
is_truthy (some String.[]) = false
is_truthy (some (String.◌∷◌ c s)) = true

abbrev pub is_timeout : ErrorKind → Bool
is_timeout ErrorKind.tx_timeout = true
is_timeout k = false

abbrev pub kind_index : ErrorKind → ℕ
kind_index ErrorKind.tx_timeout = 0
kind_index ErrorKind.not_authorized = 1
kind_index ErrorKind.paused = 2
kind_index ErrorKind.slippage = 3
kind_index ErrorKind.deadline = 4
kind_index ErrorKind.insufficient_balance = 5
kind_index ErrorKind.insufficient_allowance = 6
kind_index ErrorKind.unknown = 7

-- `a === b` on the kinds.
abbrev pub same_kind : ErrorKind → ErrorKind → Bool
same_kind a b = kind_index a == kind_index b
