-- ===== src/Agent/Actions.antt =====
-- The actions of the agent: `AgentAction` of agents/sdk/src/agent/types.ts, with the source's kinds and
-- fields. A `bigint` is an integer, an address is a text.
use claimrush.Prelude.{Bool, Text, codes}
use claimrush.Prelude.Int.{ℤ}

-- A JavaScript number: an integer, or one of the values that are none (fractions, NaN, infinities).
pub data Num : Type 0 where
  int : ℤ → Num
  not_integer : Num

pub data AgentAction : Type 0 where
  furnace_enter_with_eth :
      (eth_in target_token_id duration_seconds : ℤ) (create_auto_max : Bool) (slippage_bps : ℤ)
      → AgentAction
  furnace_enter_with_eth_for :
      (user : Text) (eth_in target_token_id duration_seconds : ℤ) (create_auto_max : Bool)
      (slippage_bps : ℤ)
      → AgentAction
  furnace_enter_with_claim :
      (claim_in target_token_id duration_seconds : ℤ) (create_auto_max : Bool) (slippage_bps : ℤ)
      → AgentAction
  furnace_enter_with_claim_from_caller_for :
      (user : Text) (claim_in target_token_id duration_seconds : ℤ) (create_auto_max : Bool)
      (slippage_bps : ℤ)
      → AgentAction
  furnace_enter_with_token :
      (token_in : Text) (amount_in target_token_id duration_seconds : ℤ) (create_auto_max : Bool)
      (slippage_bps : ℤ)
      → AgentAction
  furnace_enter_with_token_from_caller_for :
      (user token_in : Text) (amount_in target_token_id duration_seconds : ℤ)
      (create_auto_max : Bool) (slippage_bps : ℤ)
      → AgentAction
  mine_core_takeover : (price : ℤ) → AgentAction
  mine_core_takeover_for : (new_king : Text) (price : ℤ) → AgentAction
  mine_core_takeover_with_token : (token_in : Text) (amount_in slippage_bps : ℤ) → AgentAction
  mine_core_set_current_reign_recipients : (eth_recipient claim_recipient : Text) → AgentAction
  mine_core_set_king_auto_lock_config :
      (enabled : Bool) (target_token_id duration_seconds : ℤ) (create_auto_max : Bool)
      (min_ve_out : ℤ)
      → AgentAction
  royalties_claim_shareholder_eth : (claimable : ℤ) → AgentAction
  royalties_claim_shareholder_lock :
      (target_token_id duration_seconds : ℤ) (create_auto_max : Bool) (slippage_bps : ℤ)
      → AgentAction
  royalties_set_auto_compound_config :
      (enabled : Bool) (token_id duration_seconds min_cadence_seconds min_eth_to_compound : ℤ)
      → AgentAction
  claim_all_helper_claim_shareholder_for_user :
      (user : Text) (claimable : ℤ) (mode : Num) (target_token_id duration_seconds : ℤ)
      (create_auto_max : Bool) (min_ve_out : ℤ)
      → AgentAction
  claim_all_helper_withdraw_king_balance_for_user : (user : Text) (amount : ℤ) → AgentAction
  claim_all_helper_claim_all_for :
      (user : Text) (claimable : ℤ) (mode : Num) (target_token_id duration_seconds : ℤ)
      (create_auto_max : Bool) (min_ve_out : ℤ)
      → AgentAction
  mine_core_withdraw_king_balance : (amount : ℤ) → AgentAction
  mine_core_withdraw_refund_balance : (amount : ℤ) (to : Text) → AgentAction
  market_router_sell_lock_to_furnace : (token_id slippage_bps deadline_seconds : ℤ) → AgentAction
  market_router_sell_listed_lock_to_furnace : (token_id deadline_seconds : ℤ) → AgentAction
  market_router_list_lock : (token_id min_claim_out ttl_seconds : ℤ) → AgentAction
  market_router_delist_lock : (token_id : ℤ) → AgentAction
  market_router_cancel_expired_listing : (token_id : ℤ) → AgentAction
  market_router_create_bonus_target_escrow_with_target :
      (target_bonus_bps budget_claim duration_seconds : ℤ) (create_auto_max : Bool)
      (escrow_ttl_seconds destination_lock_id slippage_bps : ℤ)
      → AgentAction
  market_router_cancel_bonus_target_escrow : (offer_id : ℤ) → AgentAction
  market_router_extend_bonus_target_escrow_expiry :
      (offer_id ttl_seconds_from_now : ℤ) → AgentAction
  market_router_cancel_expired_bonus_target_escrow : (offer_id : ℤ) → AgentAction
  market_router_execute_auto_furnace : (offer_id : ℤ) → AgentAction
  erc20_approve : (token spender : Text) (amount : ℤ) → AgentAction
  erc20_ensure_allowance : (token spender : Text) (min_allowance approve_amount : ℤ) → AgentAction
  ve_approve : (spender : Text) (token_id : ℤ) → AgentAction
  ve_set_approval_for_all : (operator : Text) (approved : Bool) → AgentAction
  furnace_extend_with_bonus : (token_id duration_seconds min_bonus_out : ℤ) → AgentAction
  furnace_extend_with_bonus_for :
      (user : Text) (token_id duration_seconds min_bonus_out : ℤ) → AgentAction
  furnace_merge_locks_with_bonus : (from_token_id into_token_id min_bonus_out : ℤ) → AgentAction
  ve_unlock : (token_id : ℤ) → AgentAction
  ve_set_auto_max : (token_id : ℤ) (enabled : Bool) → AgentAction
  ve_checkpoint_global_state : AgentAction
  ve_checkpoint_total_ve : AgentAction
  furnace_merge_locks_with_bonus_for :
      (user : Text) (from_token_id into_token_id min_bonus_out : ℤ) → AgentAction
  ve_unlock_expired_for_user : (user : Text) (token_id : ℤ) → AgentAction
  mine_core_set_king_auto_lock_config_for_user :
      (user : Text) (enabled : Bool) (target_token_id duration_seconds : ℤ) (create_auto_max : Bool)
      (min_ve_out : ℤ)
      → AgentAction
  royalties_set_auto_compound_config_for_user :
      (user : Text) (enabled : Bool)
      (token_id duration_seconds min_cadence_seconds min_eth_to_compound : ℤ)
      → AgentAction
  lp_vault_set_auto_compound_config_for_user :
      (user : Text) (enabled : Bool) (token_id duration_seconds : ℤ) → AgentAction

-- `action.kind`.
unfoldable pub kind_name : AgentAction → Text
kind_name (furnace_enter_with_eth _ _ _ _ _) = codes "furnace.enterWithEth"
kind_name (furnace_enter_with_eth_for _ _ _ _ _ _) = codes "furnace.enterWithEthFor"
kind_name (furnace_enter_with_claim _ _ _ _ _) = codes "furnace.enterWithClaim"
kind_name (furnace_enter_with_claim_from_caller_for _ _ _ _ _ _) =
    codes "furnace.enterWithClaimFromCallerFor"
kind_name (furnace_enter_with_token _ _ _ _ _ _) = codes "furnace.enterWithToken"
kind_name (furnace_enter_with_token_from_caller_for _ _ _ _ _ _ _) =
    codes "furnace.enterWithTokenFromCallerFor"
kind_name (mine_core_takeover _) = codes "mineCore.takeover"
kind_name (mine_core_takeover_for _ _) = codes "mineCore.takeoverFor"
kind_name (mine_core_takeover_with_token _ _ _) = codes "mineCore.takeoverWithToken"
kind_name (mine_core_set_current_reign_recipients _ _) = codes "mineCore.setCurrentReignRecipients"
kind_name (mine_core_set_king_auto_lock_config _ _ _ _ _) = codes "mineCore.setKingAutoLockConfig"
kind_name (royalties_claim_shareholder_eth _) = codes "royalties.claimShareholderEth"
kind_name (royalties_claim_shareholder_lock _ _ _ _) = codes "royalties.claimShareholderLock"
kind_name (royalties_set_auto_compound_config _ _ _ _ _) = codes "royalties.setAutoCompoundConfig"
kind_name (claim_all_helper_claim_shareholder_for_user _ _ _ _ _ _ _) =
    codes "claimAllHelper.claimShareholderForUser"
kind_name (claim_all_helper_withdraw_king_balance_for_user _ _) =
    codes "claimAllHelper.withdrawKingBalanceForUser"
kind_name (claim_all_helper_claim_all_for _ _ _ _ _ _ _) = codes "claimAllHelper.claimAllFor"
kind_name (mine_core_withdraw_king_balance _) = codes "mineCore.withdrawKingBalance"
kind_name (mine_core_withdraw_refund_balance _ _) = codes "mineCore.withdrawRefundBalance"
kind_name (market_router_sell_lock_to_furnace _ _ _) = codes "marketRouter.sellLockToFurnace"
kind_name (market_router_sell_listed_lock_to_furnace _ _) =
    codes "marketRouter.sellListedLockToFurnace"
kind_name (market_router_list_lock _ _ _) = codes "marketRouter.listLock"
kind_name (market_router_delist_lock _) = codes "marketRouter.delistLock"
kind_name (market_router_cancel_expired_listing _) = codes "marketRouter.cancelExpiredListing"
kind_name (market_router_create_bonus_target_escrow_with_target _ _ _ _ _ _ _) =
    codes "marketRouter.createBonusTargetEscrowWithTarget"
kind_name (market_router_cancel_bonus_target_escrow _) =
    codes "marketRouter.cancelBonusTargetEscrow"
kind_name (market_router_extend_bonus_target_escrow_expiry _ _) =
    codes "marketRouter.extendBonusTargetEscrowExpiry"
kind_name (market_router_cancel_expired_bonus_target_escrow _) =
    codes "marketRouter.cancelExpiredBonusTargetEscrow"
kind_name (market_router_execute_auto_furnace _) = codes "marketRouter.executeAutoFurnace"
kind_name (erc20_approve _ _ _) = codes "erc20.approve"
kind_name (erc20_ensure_allowance _ _ _ _) = codes "erc20.ensureAllowance"
kind_name (ve_approve _ _) = codes "ve.approve"
kind_name (ve_set_approval_for_all _ _) = codes "ve.setApprovalForAll"
kind_name (furnace_extend_with_bonus _ _ _) = codes "furnace.extendWithBonus"
kind_name (furnace_extend_with_bonus_for _ _ _ _) = codes "furnace.extendWithBonusFor"
kind_name (furnace_merge_locks_with_bonus _ _ _) = codes "furnace.mergeLocksWithBonus"
kind_name (ve_unlock _) = codes "ve.unlock"
kind_name (ve_set_auto_max _ _) = codes "ve.setAutoMax"
kind_name ve_checkpoint_global_state = codes "ve.checkpointGlobalState"
kind_name ve_checkpoint_total_ve = codes "ve.checkpointTotalVe"
kind_name (furnace_merge_locks_with_bonus_for _ _ _ _) = codes "furnace.mergeLocksWithBonusFor"
kind_name (ve_unlock_expired_for_user _ _) = codes "ve.unlockExpiredForUser"
kind_name (mine_core_set_king_auto_lock_config_for_user _ _ _ _ _ _) =
    codes "mineCore.setKingAutoLockConfigForUser"
kind_name (royalties_set_auto_compound_config_for_user _ _ _ _ _ _) =
    codes "royalties.setAutoCompoundConfigForUser"
kind_name (lp_vault_set_auto_compound_config_for_user _ _ _ _) =
    codes "lpVault.setAutoCompoundConfigForUser"
