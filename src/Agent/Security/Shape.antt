-- ===== src/Agent/Security/Shape.antt =====
-- `validateActionShape` of agents/sdk/src/agent/actionSecurity.ts. `is_address` is viem's test of an
-- address. The fields come in the order of the declared types.
use claimrush.Prelude.{
  Bool, true, false, not, ◌&&◌, Option, some, List, [], ◌∷◌, Text, if◌then◌else◌,
}
use claimrush.Prelude.Int.{ℤ, pos, ltb_ℤ, eqb_ℤ}
use claimrush.Agent.Actions.{AgentAction, Num}
use claimrush.Agent.Addresses.{AddressKey, address_entries}
use claimrush.Agent.Bigints.{BigintKey, bigint_entries}
use claimrush.Agent.Security.Types.{
  AgentExecutionSecurity, Reason, CheckResult, and_then, reject_if, is_false, is_on,
}

-- `k.endsWith('Bps')`
abbrev pub ends_with_bps : BigintKey → Bool
ends_with_bps BigintKey.slippage_bps = true
ends_with_bps BigintKey.target_bonus_bps = true
ends_with_bps other = false

-- `k.includes('Seconds')`
abbrev pub has_seconds : BigintKey → Bool
has_seconds BigintKey.duration_seconds = true
has_seconds BigintKey.min_cadence_seconds = true
has_seconds BigintKey.deadline_seconds = true
has_seconds BigintKey.ttl_seconds = true
has_seconds BigintKey.escrow_ttl_seconds = true
has_seconds BigintKey.ttl_seconds_from_now = true
has_seconds other = false

abbrev pub uint32_max : ℤ
uint32_max = pos 4_294_967_295

abbrev configured_bps : Option ℤ → BigintKey → ℤ
configured_bps (some max) BigintKey.slippage_bps = max
configured_bps limit other = pos 10_000

-- The largest rate that a field may have.
abbrev pub max_bps : Option ℤ → BigintKey → ℤ
max_bps limit key =
    let configured = configured_bps limit key in
    if ltb_ℤ (pos 10_000) configured then pos 10_000 else configured

unfoldable pub check_addresses : (Text → Bool) → List (AddressKey × Text) → CheckResult
check_addresses is_address [] = CheckResult.ok
check_addresses is_address (e ∷ es) =
    and_then (reject_if (not (is_address e.1)) (Reason.invalid_address e.0))
      (check_addresses is_address es)

abbrev pub check_bigint : AgentExecutionSecurity → BigintKey → ℤ → CheckResult
check_bigint sec key v = and_then (reject_if (ltb_ℤ v (pos 0)) (Reason.negative key)) (
    and_then
      (reject_if (ends_with_bps key && ltb_ℤ (max_bps sec.max_slippage_bps key) v)
        (Reason.too_large_bps key))
      (reject_if (not (is_on sec.allow_large_seconds) && (has_seconds key && ltb_ℤ uint32_max v))
        (Reason.too_large_seconds key)))

unfoldable pub check_bigints : AgentExecutionSecurity → List (BigintKey × ℤ) → CheckResult
check_bigints sec [] = CheckResult.ok
check_bigints sec (e ∷ es) = and_then (check_bigint sec e.0 e.1) (check_bigints sec es)

abbrev pub check_mode : Num → CheckResult
check_mode Num.not_integer = CheckResult.rejected Reason.invalid_number
check_mode (Num.int n) =
    reject_if (not (eqb_ℤ n (pos 0)) && not (eqb_ℤ n (pos 1))) Reason.invalid_mode

-- The fields of type `number`, which only the two claims have, and their bounds.
unfoldable pub check_numbers : AgentAction → CheckResult
check_numbers (AgentAction.claim_all_helper_claim_shareholder_for_user _ _ mode _ _ _ _) =
    check_mode mode
check_numbers (AgentAction.claim_all_helper_claim_all_for _ _ mode _ _ _ _) = check_mode mode
check_numbers other = CheckResult.ok

unfoldable pub validate_action_shape :
    (Text → Bool) → AgentAction → AgentExecutionSecurity → CheckResult
unfolding check_addresses check_bigints check_numbers
validate_action_shape is_address action sec =
    if is_false sec.validate_inputs
    then CheckResult.ok
    else and_then (check_addresses is_address (address_entries action))
        (and_then (check_bigints sec (bigint_entries action)) (check_numbers action))
