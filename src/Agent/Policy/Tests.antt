-- ===== src/Agent/Policy/Tests.antt =====
-- Plans of agents/sdk/src/agent/policy.ts, and the theorems at concrete inputs.
use claimrush.Prelude.{
  ◌≡◌, refl, true, false, none, some, List, [], ◌∷◌, Text, codes, All, arith, lower, same_text,
  same_address,
}
use claimrush.Prelude.Int.{pos, ◌≤ℤ◌}
use claimrush.Agent.Actions.{AgentAction}
use claimrush.Agent.Permissions.{has_perm}
use claimrush.Agent.Policy.Types.{
  PolicyConfig, PolicyState, CallerContext, DelegationContext, UserSnapshot, Snapshot,
}
use claimrush.Agent.Policy.Plan.{
  claim_all, plan_with_user, build_action_plan, is_delegated, is_delegation_active,
}
use claimrush.Agent.Policy.Authorised.{IsAuthorised}
use claimrush.Agent.Policy.Authority.{plan_with_user-IsAuthorised}
use claimrush.Agent.Policy.Value.{total_value}
use claimrush.Agent.Policy.Budget.{plan_with_user-total}

abbrev alice : Text
alice = codes "0xA11ce"

abbrev bot : Text
bot = codes "0xB0b"

abbrev king : Text
king = codes "0xC1d"

abbrev config : PolicyConfig
config = record {
  enable_furnace_entry = false;
  enable_takeovers = true;
  enable_royalties_claim = true;
  enable_withdrawals = true;
  furnace_eth_in = pos 0;
  lock_duration_seconds = pos 0;
  target_token_id = pos 0;
  create_auto_max = false;
  slippage_bps = pos 50;
  max_takeover_eth = pos 100;
  takeover_cooldown_seconds = 60;
  min_royalties_eth_to_claim = pos 1;
  min_king_eth_to_withdraw = pos 1;
  min_refund_eth_to_withdraw = pos 1;
  king_auto_lock_desired = none;
  royalties_auto_compound_desired = none;
  lp_auto_compound_desired = none;
}

abbrev user : UserSnapshot
user = record {
  address = alice;
  eth_balance = pos 500;
  king_eth_balance = pos 7;
  refund_eth_balance = pos 0;
  king_auto_lock_config = record {
    enabled = false;
    target_token_id = pos 0;
    duration_seconds = pos 0;
    create_auto_max = false;
    min_ve_out = pos 0;
  };
  claimable = pos 9;
  royalties_config = record {
    enabled = false;
    token_id = pos 0;
    duration_seconds = pos 0;
    min_cadence_seconds = pos 0;
    min_eth_to_compound = pos 0;
  };
  royalties_paused = false;
  nft_balance = pos 1;
  ve_balance = pos 10;
  lp_config = record { enabled = false; token_id = pos 0; duration_seconds = pos 0 };
  lp_paused = false;
}

abbrev snapshot : Snapshot
snapshot = record {
  block_timestamp = 1_000;
  takeovers_paused = false;
  current_king = king;
  current_takeover_price = pos 40;
  locking_paused = false;
  user = some user;
}

abbrev caller : CallerContext
caller = record {
  address = bot;
  eth_balance = pos 50;
  mine_core_king_eth_balance = pos 3;
  mine_core_refund_eth_balance = pos 0;
}

abbrev session : DelegationContext
session = record { user = alice; delegate = bot; perms = 257; expiry = 2_000 }

abbrev state : PolicyState
state = record { last_takeover_at_ms = some 1_000 }

-- The session grants the takeover and `claimAllFor`.
abbrev delegated_plan : List AgentAction
delegated_plan =
    claim_all user
    ∷ AgentAction.mine_core_withdraw_king_balance (pos 3)
    ∷ AgentAction.mine_core_takeover_for alice (pos 40)
    ∷ []

build_action_plan-delegated :
    build_action_plan snapshot config state 100_000 (some caller) (some session) ≡ delegated_plan
unfolding build_action_plan is_delegation_active same_address same_text lower has_perm
build_action_plan-delegated = refl

-- Without a session only the bot's own bucket is left.
build_action_plan-no_session :
    build_action_plan snapshot config state 100_000 (some caller) none
    ≡ AgentAction.mine_core_withdraw_king_balance (pos 3) ∷ []
unfolding build_action_plan is_delegation_active same_address same_text lower has_perm
build_action_plan-no_session = refl

plan_with_user-IsAuthorised_example :
    All
      (IsAuthorised user caller (is_delegated user caller) (some session) 1_000)
      (plan_with_user snapshot config state 100_000 (some caller) (some session) (some user))
plan_with_user-IsAuthorised_example =
    plan_with_user-IsAuthorised snapshot config state 100_000 (some caller) (some session) user

plan_with_user-total_example :
    total_value
      (plan_with_user snapshot config state 100_000 (some caller) (some session) (some user))
    ≤ℤ pos 50
plan_with_user-total_example =
    plan_with_user-total snapshot config state 100_000 (some caller) (some session) user
      (omega arith)
