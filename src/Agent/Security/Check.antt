-- ===== src/Agent/Security/Check.antt =====
-- `checkAgentActionSecurity` of agents/sdk/src/agent/actionSecurity.ts, one definition for each group of
-- checks. `contracts` are the addresses of the manifest, `is_address` is viem's test of an address. The
-- parameter `execute` is not read.
use claimrush.Prelude.{
  Bool, false, not, ◌&&◌, ◌||◌, Option, none, some, List, [], Text, codes, if◌then◌else◌,
  same_address, has_address,
}
use claimrush.Prelude.Int.{ℤ, ltb_ℤ}
use claimrush.Agent.Actions.{AgentAction, kind_name}
use claimrush.Agent.Security.Types.{
  AgentExecutionSecurity, Reason, CheckResult, and_then, reject_if, is_false, is_on, is_empty,
  list_or, is_action_kind_allowed, call_value_for_action, derive_manifest_contract_allowlist,
}
use claimrush.Agent.Requirements.{DelegationRequirement, delegation_requirement}
use claimrush.Agent.Security.Shape.{validate_action_shape}

abbrev pub zero_address : Text
zero_address = codes "0x0000000000000000000000000000000000000000"

-- `max !== undefined && v > max`
abbrev pub exceeds : ℤ → Option ℤ → Bool
exceeds v none = false
exceeds v (some max) = ltb_ℤ max v

abbrev pub value_exceeds : Option ℤ → Option ℤ → Bool
value_exceeds none limit = false
value_exceeds (some v) limit = exceeds v limit

module _ (sec : AgentExecutionSecurity) where
  -- An empty text counts as no user.
  unfoldable pub check_scope : Option Text → CheckResult
  check_scope none = CheckResult.ok
  check_scope (some user) =
      let allowed = list_or sec.delegated_user_allowlist [] in
      reject_if
        (not (is_on sec.allow_any_delegated_user)
          && (not (is_empty user) && (is_empty allowed || not (has_address allowed user))))
        Reason.out_of_scope

  unfoldable pub check_call_value : AgentAction → CheckResult
  check_call_value action =
      reject_if (value_exceeds (call_value_for_action action) sec.max_call_value_wei)
        Reason.value_above_cap

  abbrev pub spender_allow : List Text → List Text
  spender_allow contracts =
      list_or sec.approval_spender_allowlist (derive_manifest_contract_allowlist contracts)

  abbrev pub nft_allow : List Text → List Text
  nft_allow contracts = list_or sec.nft_operator_allowlist (spender_allow contracts)

  abbrev check_approval : List Text → Text → ℤ → CheckResult
  check_approval contracts spender amount =
      and_then
        (reject_if
          (not (is_on sec.allow_any_approval_spender)
            && not (has_address (spender_allow contracts) spender))
          Reason.spender_not_allowed)
        (reject_if (exceeds amount sec.max_approval_amount) Reason.approval_above_cap)

  abbrev check_operator : List Text → Text → CheckResult
  check_operator contracts operator =
      reject_if
        (not (is_on sec.allow_any_nft_operator) && not (has_address (nft_allow contracts) operator))
        Reason.operator_not_allowed

  unfoldable pub check_approvals : List Text → AgentAction → CheckResult
  check_approvals contracts (AgentAction.erc20_approve _ spender amount) =
      check_approval contracts spender amount
  check_approvals contracts (AgentAction.erc20_ensure_allowance _ spender _ approve_amount) =
      check_approval contracts spender approve_amount
  check_approvals contracts (AgentAction.ve_approve spender _) = check_operator contracts spender
  check_approvals contracts (AgentAction.ve_set_approval_for_all operator _) =
      check_operator contracts operator
  check_approvals contracts other = CheckResult.ok

  -- `normAddr(to)` throws where the action has no `to`.
  abbrev check_recipient : Text → Option Text → CheckResult
  check_recipient signer none = CheckResult.throws
  check_recipient signer (some to) =
      let extra = list_or sec.withdrawal_recipient_allowlist [] in
      and_then (reject_if (same_address to zero_address) Reason.zero_recipient) (
        reject_if
          (not (is_on sec.allow_third_party_withdrawals)
            && not (same_address to signer || (not (is_empty extra) && has_address extra to)))
          Reason.recipient_not_allowed)

  -- An action of the first kind has no field `to`.
  unfoldable pub check_withdrawals : Text → AgentAction → CheckResult
  check_withdrawals signer (AgentAction.mine_core_withdraw_king_balance _) =
      check_recipient signer none
  check_withdrawals signer (AgentAction.mine_core_withdraw_refund_balance _ to) =
      check_recipient signer (some to)
  check_withdrawals signer other = CheckResult.ok

unfoldable pub check_agent_action_security :
    (Text → Bool)
    → AgentAction
    → List Text
    → Text
    → AgentExecutionSecurity
    → Option Text
    → CheckResult
unfolding check_scope check_call_value check_approvals check_withdrawals
check_agent_action_security is_address action contracts signer sec delegated_user =
    if is_false sec.enabled
    then CheckResult.ok
    else and_then (is_action_kind_allowed (kind_name action) sec) (
        and_then (validate_action_shape is_address action sec) (
          and_then (check_scope sec delegated_user) (
            and_then (check_call_value sec action) (
              and_then (check_approvals sec contracts action)
                (check_withdrawals sec signer action)))))

abbrev pub user_of : Option DelegationRequirement → Option Text
user_of none = none
user_of (some req) = some req.user

-- The check as `executeAgentAction` of agents/sdk/src/agent/executorImpl.ts makes it: the delegated user is
-- that of the session that the action needs.
unfoldable pub executor_check :
    (Text → Bool) → AgentAction → List Text → Text → AgentExecutionSecurity → CheckResult
unfolding check_agent_action_security
executor_check is_address action contracts signer sec =
    check_agent_action_security is_address action contracts signer sec
      (user_of (delegation_requirement action))
