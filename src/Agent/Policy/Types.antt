-- ===== src/Agent/Policy/Types.antt =====
-- The inputs of the planner: agents/sdk/src/agent/policy.ts, and the fields of `ClaimRushSnapshot` of
-- agents/sdk/src/snapshot.ts that it reads. A `bigint` is an integer; masks, times, cooldowns and the
-- session's expiry are natural numbers.
use claimrush.Prelude.{ℕ, Bool, Option, Text}
use claimrush.Prelude.Int.{ℤ}

pub record KingAutoLock : Type 0 where
  pub enabled : Bool
  pub target_token_id : ℤ
  pub duration_seconds : ℤ
  pub create_auto_max : Bool
  pub min_ve_out : ℤ

pub record RoyaltiesAutoCompound : Type 0 where
  pub enabled : Bool
  pub token_id : ℤ
  pub duration_seconds : ℤ
  pub min_cadence_seconds : ℤ
  pub min_eth_to_compound : ℤ

pub record LpAutoCompound : Type 0 where
  pub enabled : Bool
  pub token_id : ℤ
  pub duration_seconds : ℤ

pub record PolicyConfig : Type 0 where
  pub enable_furnace_entry : Bool
  pub enable_takeovers : Bool
  pub enable_royalties_claim : Bool
  pub enable_withdrawals : Bool
  pub furnace_eth_in : ℤ
  pub lock_duration_seconds : ℤ
  pub target_token_id : ℤ
  pub create_auto_max : Bool
  pub slippage_bps : ℤ
  pub max_takeover_eth : ℤ
  pub takeover_cooldown_seconds : ℕ
  pub min_royalties_eth_to_claim : ℤ
  pub min_king_eth_to_withdraw : ℤ
  pub min_refund_eth_to_withdraw : ℤ
  pub king_auto_lock_desired : Option KingAutoLock
  pub royalties_auto_compound_desired : Option RoyaltiesAutoCompound
  pub lp_auto_compound_desired : Option LpAutoCompound

pub record PolicyState : Type 0 where
  pub last_takeover_at_ms : Option ℕ

pub record CallerContext : Type 0 where
  pub address : Text
  pub eth_balance : ℤ
  pub mine_core_king_eth_balance : ℤ
  pub mine_core_refund_eth_balance : ℤ

pub record DelegationContext : Type 0 where
  pub user : Text
  pub delegate : Text
  pub perms : ℕ
  pub expiry : ℕ

-- The managed user in the snapshot; `royalties_paused` and `lp_paused` are the `paused` flags of the two
-- auto-compound settings.
pub record UserSnapshot : Type 0 where
  pub address : Text
  pub eth_balance : ℤ
  pub king_eth_balance : ℤ
  pub refund_eth_balance : ℤ
  pub king_auto_lock_config : KingAutoLock
  pub claimable : ℤ
  pub royalties_config : RoyaltiesAutoCompound
  pub royalties_paused : Bool
  pub nft_balance : ℤ
  pub ve_balance : ℤ
  pub lp_config : LpAutoCompound
  pub lp_paused : Bool

pub record Snapshot : Type 0 where
  pub block_timestamp : ℕ
  pub takeovers_paused : Bool
  pub current_king : Text
  pub current_takeover_price : ℤ
  pub locking_paused : Bool
  pub user : Option UserSnapshot
