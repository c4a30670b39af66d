-- ===== src/Agent/Bigints.antt =====
-- The `bigint` fields of an action as agents/sdk/src/agent/actionSecurity.ts reads them by name, in the
-- order of the declared types.
use claimrush.Prelude.{List, [], ◌∷◌}
use claimrush.Prelude.Int.{ℤ}
use claimrush.Agent.Actions.{AgentAction}

-- The fields of type `bigint`.
pub data BigintKey : Type 0 where
  eth_in target_token_id duration_seconds slippage_bps : BigintKey
  claim_in amount_in price min_ve_out : BigintKey
  claimable token_id min_cadence_seconds min_eth_to_compound : BigintKey
  amount deadline_seconds min_claim_out ttl_seconds : BigintKey
  target_bonus_bps budget_claim escrow_ttl_seconds destination_lock_id : BigintKey
  offer_id ttl_seconds_from_now min_allowance approve_amount : BigintKey
  min_bonus_out from_token_id into_token_id : BigintKey

unfoldable pub bigint_entries : AgentAction → List (BigintKey × ℤ)
bigint_entries
      (AgentAction.furnace_enter_with_eth eth_in' target_token_id' duration_seconds' _
        slippage_bps') =
    (BigintKey.eth_in, eth_in')
    ∷ (BigintKey.target_token_id, target_token_id')
    ∷ (BigintKey.duration_seconds, duration_seconds')
    ∷ (BigintKey.slippage_bps, slippage_bps')
    ∷ []
bigint_entries
      (AgentAction.furnace_enter_with_eth_for _ eth_in' target_token_id' duration_seconds' _
        slippage_bps') =
    (BigintKey.eth_in, eth_in')
    ∷ (BigintKey.target_token_id, target_token_id')
    ∷ (BigintKey.duration_seconds, duration_seconds')
    ∷ (BigintKey.slippage_bps, slippage_bps')
    ∷ []
bigint_entries
      (AgentAction.furnace_enter_with_claim claim_in' target_token_id' duration_seconds' _
        slippage_bps') =
    (BigintKey.claim_in, claim_in')
    ∷ (BigintKey.target_token_id, target_token_id')
    ∷ (BigintKey.duration_seconds, duration_seconds')
    ∷ (BigintKey.slippage_bps, slippage_bps')
    ∷ []
bigint_entries
      (AgentAction.furnace_enter_with_claim_from_caller_for _ claim_in' target_token_id'
        duration_seconds' _ slippage_bps') =
    (BigintKey.claim_in, claim_in')
    ∷ (BigintKey.target_token_id, target_token_id')
    ∷ (BigintKey.duration_seconds, duration_seconds')
    ∷ (BigintKey.slippage_bps, slippage_bps')
    ∷ []
bigint_entries
      (AgentAction.furnace_enter_with_token _ amount_in' target_token_id' duration_seconds' _
        slippage_bps') =
    (BigintKey.amount_in, amount_in')
    ∷ (BigintKey.target_token_id, target_token_id')
    ∷ (BigintKey.duration_seconds, duration_seconds')
    ∷ (BigintKey.slippage_bps, slippage_bps')
    ∷ []
bigint_entries
      (AgentAction.furnace_enter_with_token_from_caller_for _ _ amount_in' target_token_id'
        duration_seconds' _ slippage_bps') =
    (BigintKey.amount_in, amount_in')
    ∷ (BigintKey.target_token_id, target_token_id')
    ∷ (BigintKey.duration_seconds, duration_seconds')
    ∷ (BigintKey.slippage_bps, slippage_bps')
    ∷ []
bigint_entries (AgentAction.mine_core_takeover price') = (BigintKey.price, price') ∷ []
bigint_entries (AgentAction.mine_core_takeover_for _ price') = (BigintKey.price, price') ∷ []
bigint_entries (AgentAction.mine_core_takeover_with_token _ amount_in' slippage_bps') =
    (BigintKey.amount_in, amount_in') ∷ (BigintKey.slippage_bps, slippage_bps') ∷ []
bigint_entries (AgentAction.mine_core_set_current_reign_recipients _ _) = []
bigint_entries
      (AgentAction.mine_core_set_king_auto_lock_config _ target_token_id' duration_seconds' _
        min_ve_out') =
    (BigintKey.target_token_id, target_token_id')
    ∷ (BigintKey.duration_seconds, duration_seconds')
    ∷ (BigintKey.min_ve_out, min_ve_out')
    ∷ []
bigint_entries (AgentAction.royalties_claim_shareholder_eth claimable') =
    (BigintKey.claimable, claimable') ∷ []
bigint_entries
      (AgentAction.royalties_claim_shareholder_lock target_token_id' duration_seconds' _
        slippage_bps') =
    (BigintKey.target_token_id, target_token_id')
    ∷ (BigintKey.duration_seconds, duration_seconds')
    ∷ (BigintKey.slippage_bps, slippage_bps')
    ∷ []
bigint_entries
      (AgentAction.royalties_set_auto_compound_config _ token_id' duration_seconds'
        min_cadence_seconds' min_eth_to_compound') =
    (BigintKey.token_id, token_id')
    ∷ (BigintKey.duration_seconds, duration_seconds')
    ∷ (BigintKey.min_cadence_seconds, min_cadence_seconds')
    ∷ (BigintKey.min_eth_to_compound, min_eth_to_compound')
    ∷ []
bigint_entries
      (AgentAction.claim_all_helper_claim_shareholder_for_user _ claimable' _ target_token_id'
        duration_seconds' _ min_ve_out') =
    (BigintKey.claimable, claimable')
    ∷ (BigintKey.target_token_id, target_token_id')
    ∷ (BigintKey.duration_seconds, duration_seconds')
    ∷ (BigintKey.min_ve_out, min_ve_out')
    ∷ []
bigint_entries (AgentAction.claim_all_helper_withdraw_king_balance_for_user _ amount') =
    (BigintKey.amount, amount') ∷ []
bigint_entries
      (AgentAction.claim_all_helper_claim_all_for _ claimable' _ target_token_id' duration_seconds'
        _ min_ve_out') =
    (BigintKey.claimable, claimable')
    ∷ (BigintKey.target_token_id, target_token_id')
    ∷ (BigintKey.duration_seconds, duration_seconds')
    ∷ (BigintKey.min_ve_out, min_ve_out')
    ∷ []
bigint_entries (AgentAction.mine_core_withdraw_king_balance amount') =
    (BigintKey.amount, amount') ∷ []
bigint_entries (AgentAction.mine_core_withdraw_refund_balance amount' _) =
    (BigintKey.amount, amount') ∷ []
bigint_entries
      (AgentAction.market_router_sell_lock_to_furnace token_id' slippage_bps' deadline_seconds') =
    (BigintKey.token_id, token_id')
    ∷ (BigintKey.slippage_bps, slippage_bps')
    ∷ (BigintKey.deadline_seconds, deadline_seconds')
    ∷ []
bigint_entries (AgentAction.market_router_sell_listed_lock_to_furnace token_id' deadline_seconds') =
    (BigintKey.token_id, token_id') ∷ (BigintKey.deadline_seconds, deadline_seconds') ∷ []
bigint_entries (AgentAction.market_router_list_lock token_id' min_claim_out' ttl_seconds') =
    (BigintKey.token_id, token_id')
    ∷ (BigintKey.min_claim_out, min_claim_out')
    ∷ (BigintKey.ttl_seconds, ttl_seconds')
    ∷ []
bigint_entries (AgentAction.market_router_delist_lock token_id') =
    (BigintKey.token_id, token_id') ∷ []
bigint_entries (AgentAction.market_router_cancel_expired_listing token_id') =
    (BigintKey.token_id, token_id') ∷ []
bigint_entries
      (AgentAction.market_router_create_bonus_target_escrow_with_target target_bonus_bps'
        budget_claim' duration_seconds' _ escrow_ttl_seconds' destination_lock_id' slippage_bps') =
    (BigintKey.target_bonus_bps, target_bonus_bps')
    ∷ (BigintKey.budget_claim, budget_claim')
    ∷ (BigintKey.duration_seconds, duration_seconds')
    ∷ (BigintKey.escrow_ttl_seconds, escrow_ttl_seconds')
    ∷ (BigintKey.destination_lock_id, destination_lock_id')
    ∷ (BigintKey.slippage_bps, slippage_bps')
    ∷ []
bigint_entries (AgentAction.market_router_cancel_bonus_target_escrow offer_id') =
    (BigintKey.offer_id, offer_id') ∷ []
bigint_entries
      (AgentAction.market_router_extend_bonus_target_escrow_expiry offer_id'
        ttl_seconds_from_now') =
    (BigintKey.offer_id, offer_id') ∷ (BigintKey.ttl_seconds_from_now, ttl_seconds_from_now') ∷ []
bigint_entries (AgentAction.market_router_cancel_expired_bonus_target_escrow offer_id') =
    (BigintKey.offer_id, offer_id') ∷ []
bigint_entries (AgentAction.market_router_execute_auto_furnace offer_id') =
    (BigintKey.offer_id, offer_id') ∷ []
bigint_entries (AgentAction.erc20_approve _ _ amount') = (BigintKey.amount, amount') ∷ []
bigint_entries (AgentAction.erc20_ensure_allowance _ _ min_allowance' approve_amount') =
    (BigintKey.min_allowance, min_allowance') ∷ (BigintKey.approve_amount, approve_amount') ∷ []
bigint_entries (AgentAction.ve_approve _ token_id') = (BigintKey.token_id, token_id') ∷ []
bigint_entries (AgentAction.ve_set_approval_for_all _ _) = []
bigint_entries (AgentAction.furnace_extend_with_bonus token_id' duration_seconds' min_bonus_out') =
    (BigintKey.token_id, token_id')
    ∷ (BigintKey.duration_seconds, duration_seconds')
    ∷ (BigintKey.min_bonus_out, min_bonus_out')
    ∷ []
bigint_entries
      (AgentAction.furnace_extend_with_bonus_for _ token_id' duration_seconds' min_bonus_out') =
    (BigintKey.token_id, token_id')
    ∷ (BigintKey.duration_seconds, duration_seconds')
    ∷ (BigintKey.min_bonus_out, min_bonus_out')
    ∷ []
bigint_entries
      (AgentAction.furnace_merge_locks_with_bonus from_token_id' into_token_id' min_bonus_out') =
    (BigintKey.from_token_id, from_token_id')
    ∷ (BigintKey.into_token_id, into_token_id')
    ∷ (BigintKey.min_bonus_out, min_bonus_out')
    ∷ []
bigint_entries (AgentAction.ve_unlock token_id') = (BigintKey.token_id, token_id') ∷ []
bigint_entries (AgentAction.ve_set_auto_max token_id' _) = (BigintKey.token_id, token_id') ∷ []
bigint_entries AgentAction.ve_checkpoint_global_state = []
bigint_entries AgentAction.ve_checkpoint_total_ve = []
bigint_entries
      (AgentAction.furnace_merge_locks_with_bonus_for _ from_token_id' into_token_id'
        min_bonus_out') =
    (BigintKey.from_token_id, from_token_id')
    ∷ (BigintKey.into_token_id, into_token_id')
    ∷ (BigintKey.min_bonus_out, min_bonus_out')
    ∷ []
bigint_entries (AgentAction.ve_unlock_expired_for_user _ token_id') =
    (BigintKey.token_id, token_id') ∷ []
bigint_entries
      (AgentAction.mine_core_set_king_auto_lock_config_for_user _ _ target_token_id'
        duration_seconds' _ min_ve_out') =
    (BigintKey.target_token_id, target_token_id')
    ∷ (BigintKey.duration_seconds, duration_seconds')
    ∷ (BigintKey.min_ve_out, min_ve_out')
    ∷ []
bigint_entries
      (AgentAction.royalties_set_auto_compound_config_for_user _ _ token_id' duration_seconds'
        min_cadence_seconds' min_eth_to_compound') =
    (BigintKey.token_id, token_id')
    ∷ (BigintKey.duration_seconds, duration_seconds')
    ∷ (BigintKey.min_cadence_seconds, min_cadence_seconds')
    ∷ (BigintKey.min_eth_to_compound, min_eth_to_compound')
    ∷ []
bigint_entries
      (AgentAction.lp_vault_set_auto_compound_config_for_user _ _ token_id' duration_seconds') =
    (BigintKey.token_id, token_id') ∷ (BigintKey.duration_seconds, duration_seconds') ∷ []
