-- ===== src/Agent/Addresses.antt =====
-- The address fields of an action as agents/sdk/src/agent/actionSecurity.ts reads them by name, in the
-- order of the declared types.
use claimrush.Prelude.{Text, List, [], ◌∷◌}
use claimrush.Agent.Actions.{AgentAction}

-- The fields of type `Address`, those of `addressKeys`.
pub data AddressKey : Type 0 where
  user token_in new_king eth_recipient : AddressKey
  claim_recipient to token spender : AddressKey
  operator : AddressKey

unfoldable pub address_entries : AgentAction → List (AddressKey × Text)
address_entries (AgentAction.furnace_enter_with_eth_for user' _ _ _ _ _) =
    (AddressKey.user, user') ∷ []
address_entries (AgentAction.furnace_enter_with_claim_from_caller_for user' _ _ _ _ _) =
    (AddressKey.user, user') ∷ []
address_entries (AgentAction.furnace_enter_with_token token_in' _ _ _ _ _) =
    (AddressKey.token_in, token_in') ∷ []
address_entries (AgentAction.furnace_enter_with_token_from_caller_for user' token_in' _ _ _ _ _) =
    (AddressKey.user, user') ∷ (AddressKey.token_in, token_in') ∷ []
address_entries (AgentAction.mine_core_takeover_for new_king' _) =
    (AddressKey.new_king, new_king') ∷ []
address_entries (AgentAction.mine_core_takeover_with_token token_in' _ _) =
    (AddressKey.token_in, token_in') ∷ []
address_entries
      (AgentAction.mine_core_set_current_reign_recipients eth_recipient' claim_recipient') =
    (AddressKey.eth_recipient, eth_recipient') ∷ (AddressKey.claim_recipient, claim_recipient') ∷ []
address_entries (AgentAction.claim_all_helper_claim_shareholder_for_user user' _ _ _ _ _ _) =
    (AddressKey.user, user') ∷ []
address_entries (AgentAction.claim_all_helper_withdraw_king_balance_for_user user' _) =
    (AddressKey.user, user') ∷ []
address_entries (AgentAction.claim_all_helper_claim_all_for user' _ _ _ _ _ _) =
    (AddressKey.user, user') ∷ []
address_entries (AgentAction.mine_core_withdraw_refund_balance _ to') = (AddressKey.to, to') ∷ []
address_entries (AgentAction.erc20_approve token' spender' _) =
    (AddressKey.token, token') ∷ (AddressKey.spender, spender') ∷ []
address_entries (AgentAction.erc20_ensure_allowance token' spender' _ _) =
    (AddressKey.token, token') ∷ (AddressKey.spender, spender') ∷ []
address_entries (AgentAction.ve_approve spender' _) = (AddressKey.spender, spender') ∷ []
address_entries (AgentAction.ve_set_approval_for_all operator' _) =
    (AddressKey.operator, operator') ∷ []
address_entries (AgentAction.furnace_extend_with_bonus_for user' _ _ _) =
    (AddressKey.user, user') ∷ []
address_entries (AgentAction.furnace_merge_locks_with_bonus_for user' _ _ _) =
    (AddressKey.user, user') ∷ []
address_entries (AgentAction.ve_unlock_expired_for_user user' _) = (AddressKey.user, user') ∷ []
address_entries (AgentAction.mine_core_set_king_auto_lock_config_for_user user' _ _ _ _ _) =
    (AddressKey.user, user') ∷ []
address_entries (AgentAction.royalties_set_auto_compound_config_for_user user' _ _ _ _ _) =
    (AddressKey.user, user') ∷ []
address_entries (AgentAction.lp_vault_set_auto_compound_config_for_user user' _ _ _) =
    (AddressKey.user, user') ∷ []
address_entries other = []
