-- ===== src/Agent/Requirements.antt =====
-- agents/sdk/src/agent/delegationRequirements.ts: the session that an action needs.
use claimrush.Prelude.{ℕ, Text, Option, none, some}
use claimrush.Agent.Actions.{AgentAction}
use claimrush.Agent.Permissions.{
  p_claim_all_for, p_claim_shareholder_for, p_furnace_enter_claim_for, p_furnace_enter_eth_for,
  p_furnace_enter_token_for, p_set_king_auto_lock_config_for, p_set_lp_autocompound_config_for,
  p_set_shareholder_autocompound_config_for, p_takeover_for, p_ve_extend_lock_for,
  p_ve_merge_locks_for, p_ve_unlock_expired_for, p_withdraw_king_bucket_for,
}

pub record DelegationRequirement : Type 0 where
  pub user : Text
  pub required_perms : ℕ

abbrev needs : Text → ℕ → Option DelegationRequirement
needs user perms = some (record { user = user; required_perms = perms })

-- The actions that a wallet takes for itself need no session.
unfoldable pub delegation_requirement : AgentAction → Option DelegationRequirement
delegation_requirement (AgentAction.furnace_enter_with_eth_for user _ _ _ _ _) =
    needs user p_furnace_enter_eth_for
delegation_requirement (AgentAction.furnace_enter_with_claim_from_caller_for user _ _ _ _ _) =
    needs user p_furnace_enter_claim_for
delegation_requirement (AgentAction.furnace_enter_with_token_from_caller_for user _ _ _ _ _ _) =
    needs user p_furnace_enter_token_for
delegation_requirement (AgentAction.mine_core_takeover_for new_king _) =
    needs new_king p_takeover_for
delegation_requirement (AgentAction.claim_all_helper_claim_shareholder_for_user user _ _ _ _ _ _) =
    needs user p_claim_shareholder_for
delegation_requirement (AgentAction.claim_all_helper_withdraw_king_balance_for_user user _) =
    needs user p_withdraw_king_bucket_for
delegation_requirement (AgentAction.claim_all_helper_claim_all_for user _ _ _ _ _ _) =
    needs user p_claim_all_for
delegation_requirement (AgentAction.furnace_extend_with_bonus_for user _ _ _) =
    needs user p_ve_extend_lock_for
delegation_requirement (AgentAction.furnace_merge_locks_with_bonus_for user _ _ _) =
    needs user p_ve_merge_locks_for
delegation_requirement (AgentAction.ve_unlock_expired_for_user user _) =
    needs user p_ve_unlock_expired_for
delegation_requirement (AgentAction.mine_core_set_king_auto_lock_config_for_user user _ _ _ _ _) =
    needs user p_set_king_auto_lock_config_for
delegation_requirement (AgentAction.royalties_set_auto_compound_config_for_user user _ _ _ _ _) =
    needs user p_set_shareholder_autocompound_config_for
delegation_requirement (AgentAction.lp_vault_set_auto_compound_config_for_user user _ _ _) =
    needs user p_set_lp_autocompound_config_for
delegation_requirement (AgentAction.furnace_enter_with_eth _ _ _ _ _) = none
delegation_requirement (AgentAction.furnace_enter_with_claim _ _ _ _ _) = none
delegation_requirement (AgentAction.furnace_enter_with_token _ _ _ _ _ _) = none
delegation_requirement (AgentAction.mine_core_takeover _) = none
delegation_requirement (AgentAction.mine_core_takeover_with_token _ _ _) = none
delegation_requirement (AgentAction.mine_core_set_current_reign_recipients _ _) = none
delegation_requirement (AgentAction.mine_core_set_king_auto_lock_config _ _ _ _ _) = none
delegation_requirement (AgentAction.royalties_claim_shareholder_eth _) = none
delegation_requirement (AgentAction.royalties_claim_shareholder_lock _ _ _ _) = none
delegation_requirement (AgentAction.royalties_set_auto_compound_config _ _ _ _ _) = none
delegation_requirement (AgentAction.mine_core_withdraw_king_balance _) = none
delegation_requirement (AgentAction.mine_core_withdraw_refund_balance _ _) = none
delegation_requirement (AgentAction.market_router_sell_lock_to_furnace _ _ _) = none
delegation_requirement (AgentAction.market_router_sell_listed_lock_to_furnace _ _) = none
delegation_requirement (AgentAction.market_router_list_lock _ _ _) = none
delegation_requirement (AgentAction.market_router_delist_lock _) = none
delegation_requirement (AgentAction.market_router_cancel_expired_listing _) = none
delegation_requirement
      (AgentAction.market_router_create_bonus_target_escrow_with_target _ _ _ _ _ _ _) =
    none
delegation_requirement (AgentAction.market_router_cancel_bonus_target_escrow _) = none
delegation_requirement (AgentAction.market_router_extend_bonus_target_escrow_expiry _ _) = none
delegation_requirement (AgentAction.market_router_cancel_expired_bonus_target_escrow _) = none
delegation_requirement (AgentAction.market_router_execute_auto_furnace _) = none
delegation_requirement (AgentAction.erc20_approve _ _ _) = none
delegation_requirement (AgentAction.erc20_ensure_allowance _ _ _ _) = none
delegation_requirement (AgentAction.ve_approve _ _) = none
delegation_requirement (AgentAction.ve_set_approval_for_all _ _) = none
delegation_requirement (AgentAction.furnace_extend_with_bonus _ _ _) = none
delegation_requirement (AgentAction.furnace_merge_locks_with_bonus _ _ _) = none
delegation_requirement (AgentAction.ve_unlock _) = none
delegation_requirement (AgentAction.ve_set_auto_max _ _) = none
delegation_requirement AgentAction.ve_checkpoint_global_state = none
delegation_requirement AgentAction.ve_checkpoint_total_ve = none
