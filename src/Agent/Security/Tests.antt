-- ===== src/Agent/Security/Tests.antt =====
-- Runs of the checks of agents/sdk/src/agent/actionSecurity.ts, and the theorems at concrete inputs.
use claimrush.Prelude.{
  ◌≡◌, ◌≢◌, refl, Bool, true, false, none, some, [], ◌∷◌, Text, codes, All, lower, same_text,
  same_address, has_address, includes, ◌==◌, ◌&&◌,
}
use claimrush.Prelude.Int.{ℤ, pos}
use claimrush.Agent.Actions.{AgentAction, kind_name}
use claimrush.Agent.Addresses.{address_entries}
use claimrush.Agent.Bigints.{BigintKey, bigint_entries}
use claimrush.Agent.Requirements.{delegation_requirement}
use claimrush.Agent.Security.Types.{
  AgentExecutionSecurity, Reason, CheckResult, is_action_kind_allowed, call_value_for_action,
  derive_manifest_contract_allowlist,
}
use claimrush.Agent.Security.Shape.{validate_action_shape}
use claimrush.Agent.Security.Check.{executor_check, check_agent_action_security}
use claimrush.Agent.Security.Sound.{
  IsCapped, IsInScope, IsApproval, IsPayout, executor_check-IsSafe,
}
use claimrush.Agent.Security.Inputs.{IsInRange, HasMode, executor_check-fields}
use claimrush.Agent.Security.KingBucket.{Contains, own_king_withdrawal-blocked}
use claimrush.Agent.Policy.Types.{PolicyConfig, PolicyState, UserSnapshot, Snapshot}
use claimrush.Agent.Policy.Plan.{plan_with_user}

abbrev alice : Text
alice = codes "0xA11ce"

abbrev bot : Text
bot = codes "0xB0b"

abbrev furnace : Text
furnace = codes "0xF00d"

-- Accepts what begins with `0x`.
abbrev is_address : Text → Bool
is_address (a ∷ b ∷ rest) = a == b'0' && b == b'x'
is_address other = false

abbrev policy : AgentExecutionSecurity
policy = record {
  enabled = none;
  allowed_action_kinds = none;
  denied_action_kinds = none;
  delegated_user_allowlist = some (alice ∷ []);
  allow_any_delegated_user = none;
  approval_spender_allowlist = none;
  allow_any_approval_spender = none;
  nft_operator_allowlist = none;
  allow_any_nft_operator = none;
  allow_third_party_withdrawals = none;
  withdrawal_recipient_allowlist = none;
  max_call_value_wei = some (pos 100);
  max_approval_amount = some (pos 1_000);
  max_slippage_bps = some (pos 100);
  validate_inputs = none;
  allow_large_seconds = none;
}

abbrev entry : ℤ → AgentAction
entry slippage =
    AgentAction.furnace_enter_with_eth_for alice (pos 90) (pos 0) (pos 86_400) false slippage

abbrev approve : Text → AgentAction
approve spender = AgentAction.erc20_approve (codes "0xC1a1") spender (pos 1_000)

entry_passes : executor_check is_address (entry (pos 50)) (furnace ∷ []) bot policy ≡ CheckResult.ok
unfolding executor_check check_agent_action_security is_action_kind_allowed validate_action_shape
    kind_name address_entries bigint_entries delegation_requirement call_value_for_action
    has_address same_address same_text lower includes
entry_passes = refl

entry_rejected :
    executor_check is_address (entry (pos 101)) (furnace ∷ []) bot policy
    ≡ CheckResult.rejected (Reason.too_large_bps BigintKey.slippage_bps)
unfolding executor_check check_agent_action_security is_action_kind_allowed validate_action_shape
    kind_name address_entries bigint_entries delegation_requirement call_value_for_action
    has_address same_address same_text lower includes
entry_rejected = refl

approve_passes :
    executor_check is_address (approve furnace) (furnace ∷ []) bot policy ≡ CheckResult.ok
unfolding executor_check check_agent_action_security is_action_kind_allowed validate_action_shape
    kind_name address_entries bigint_entries delegation_requirement call_value_for_action
    has_address same_address same_text lower includes derive_manifest_contract_allowlist
approve_passes = refl

executor_check-IsSafe_example :
    IsCapped policy (call_value_for_action (approve furnace))
    × IsInScope policy (delegation_requirement (approve furnace))
    × IsApproval policy (furnace ∷ []) (approve furnace)
    × IsPayout policy bot (approve furnace)
executor_check-IsSafe_example =
    executor_check-IsSafe is_address (approve furnace) (furnace ∷ []) bot policy refl approve_passes

executor_check-fields_example :
    All (λ e. is_address e.1 ≡ true) (address_entries (entry (pos 50)))
    × All (IsInRange policy) (bigint_entries (entry (pos 50)))
    × HasMode (entry (pos 50))
executor_check-fields_example =
    executor_check-fields is_address (entry (pos 50)) (furnace ∷ []) bot policy refl refl
      entry_passes

abbrev config : PolicyConfig
config = record {
  enable_furnace_entry = false;
  enable_takeovers = true;
  enable_royalties_claim = true;
  enable_withdrawals = true;
  furnace_eth_in = pos 0;
  lock_duration_seconds = pos 0;
  target_token_id = pos 0;
  create_auto_max = false;
  slippage_bps = pos 50;
  max_takeover_eth = pos 100;
  takeover_cooldown_seconds = 60;
  min_royalties_eth_to_claim = pos 1;
  min_king_eth_to_withdraw = pos 1;
  min_refund_eth_to_withdraw = pos 1;
  king_auto_lock_desired = none;
  royalties_auto_compound_desired = none;
  lp_auto_compound_desired = none;
}

abbrev user : UserSnapshot
user = record {
  address = alice;
  eth_balance = pos 500;
  king_eth_balance = pos 7;
  refund_eth_balance = pos 0;
  king_auto_lock_config = record {
    enabled = false;
    target_token_id = pos 0;
    duration_seconds = pos 0;
    create_auto_max = false;
    min_ve_out = pos 0;
  };
  claimable = pos 9;
  royalties_config = record {
    enabled = false;
    token_id = pos 0;
    duration_seconds = pos 0;
    min_cadence_seconds = pos 0;
    min_eth_to_compound = pos 0;
  };
  royalties_paused = false;
  nft_balance = pos 1;
  ve_balance = pos 10;
  lp_config = record { enabled = false; token_id = pos 0; duration_seconds = pos 0 };
  lp_paused = false;
}

abbrev snapshot : Snapshot
snapshot = record {
  block_timestamp = 1_000;
  takeovers_paused = false;
  current_king = bot;
  current_takeover_price = pos 40;
  locking_paused = false;
  user = some user;
}

abbrev state : PolicyState
state = record { last_takeover_at_ms = some 1_000 }

own_king_withdrawal-blocked_example :
    Contains
      (AgentAction.mine_core_withdraw_king_balance (pos 7))
      (plan_with_user snapshot config state 100_000 none none (some user))
    × (executor_check is_address
          (AgentAction.mine_core_withdraw_king_balance (pos 7))
          (furnace ∷ [])
          alice
          policy
        ≢ CheckResult.ok)
own_king_withdrawal-blocked_example =
    own_king_withdrawal-blocked snapshot config state 100_000 none user is_address (furnace ∷ [])
      alice policy refl refl refl refl
