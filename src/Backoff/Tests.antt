-- ===== src/Backoff/Tests.antt =====
-- Runs of the controller of agents/sdk/src/agent/backoff.ts, and the theorems at concrete inputs.
use claimrush.Prelude.{
  ℕ, ◌*◌, ◌^◌, ◌≤◌, ◌≡◌, refl, false, none, some, List, [], ◌∷◌, arith, max, min,
}
use claimrush.Backoff.{
  ActionResult, ErrorKind, initial, default_config, remaining_ms, maybe_clear, on_action_result,
  on_error, count_error, hits_threshold, enter, should_count_error_kind, is_timeout, next_cooldown,
}
use claimrush.Backoff.Bounds.{Call, tick, result, run, step, remaining_ms-run}
use claimrush.Backoff.Escalation.{repeat, cooldown_ms-repeat}
use claimrush.Backoff.Streak.{after, streak, History, consecutive_errors-after}

abbrev failing : ErrorKind → ActionResult
failing kind = record {
  action_kind = some "mineCore.takeover";
  simulated = false;
  error_info = some (record { kind = kind; error_name = none; message = "failed" });
  nested_info = none;
  error = some "failed";
}

abbrev timed_out : ActionResult
timed_out = failing ErrorKind.tx_timeout

abbrev slipped : ActionResult
slipped = failing ErrorKind.slippage

abbrev succeeded : ActionResult
succeeded = record slipped { error_info = none; error = none }

-- A timeout pauses at once; two slippage errors do not.
first_timeout_pauses :
    (on_action_result default_config initial timed_out 1_000).0.cooldown_until_ms ≡ 16_000
unfolding on_action_result on_error count_error hits_threshold enter next_cooldown
first_timeout_pauses = refl

abbrev calls : List (ℕ × Call)
calls =
    (1_000, result slipped) ∷ (2_000, result slipped) ∷ (3_000, tick) ∷ (4_000, result slipped) ∷ []

paused_after_three : remaining_ms default_config (run default_config initial calls) 5_000 ≡ 14_000
unfolding remaining_ms run step maybe_clear on_action_result on_error count_error hits_threshold
    enter next_cooldown
paused_after_three = refl

remaining_ms-run_example :
    remaining_ms default_config (run default_config initial calls) 5_000 ≤ max 1 300_000
remaining_ms-run_example = remaining_ms-run default_config 5_000 calls (omega arith) (omega arith)

cooldown_ms-repeat_example :
    (repeat default_config timed_out (90_000 ∷ 40_000 ∷ 1_000 ∷ [])).cooldown_ms
    ≡ min 300_000 (15_000 * 2 ^ 2)
cooldown_ms-repeat_example =
    cooldown_ms-repeat default_config 2 timed_out 90_000 (40_000 ∷ 1_000 ∷ [])
      (refl, refl, refl, omega arith, omega arith, omega arith, omega arith) (refl, refl, refl)
      (omega arith)

-- A success, two errors close together, and one error after a long pause.
abbrev history : History
history = (400_000, timed_out) ∷ (20_000, slipped) ∷ (10_000, slipped) ∷ (5_000, succeeded) ∷ []

consecutive_errors-after_example :
    ((after default_config history).consecutive_errors
      ≡ streak 120_000 (λ k. should_count_error_kind k none) history)
    × ((after default_config history).consecutive_timeouts ≡ streak 120_000 is_timeout history)
consecutive_errors-after_example =
    consecutive_errors-after default_config history refl (omega arith)
