-- ===== src/Agent/Policy/Spending.antt =====
-- What the plans of agents/sdk/src/agent/policy.ts spend.
use claimrush.Prelude.{
  ℕ, ◌≡◌, refl, Bool, true, false, not, ◌&&◌, Option, none, some, [], ◌++◌, Text, if◌then◌else◌,
  All, All-append, arith,
}
use claimrush.Prelude.Int.{ℤ, pos, ◌≤ℤ◌, ltb_ℤ, leb_ℤ}
use claimrush.Agent.Actions.{AgentAction}
use claimrush.Agent.Security.Types.{call_value_for_action}
use claimrush.Agent.Policy.Types.{
  PolicyConfig, KingAutoLock, RoyaltiesAutoCompound, LpAutoCompound, PolicyState, CallerContext,
  UserSnapshot, Snapshot,
}
use claimrush.Agent.Policy.Maintenance.{
  maintenance, king_auto_lock_sync, royalties_sync, lp_sync, set_royalties, set_lp,
  desired_royalties, desired_lp,
}
use claimrush.Agent.Policy.Plan.{
  can_furnace, collect_royalties, withdraw_user_king, withdraw_own, withdraw_balances, takeover,
  cooldown_ok, base_checks, enter_furnace,
}
use claimrush.Agent.Policy.Value.{IsCooledDown, IsBid, IsEntry, IsSpending, IsFree}
use claimrush.Agent.Policy.Authorised.{All-when, All-if, and_left, and_right}

module _ (snapshot : Snapshot) (config : PolicyConfig) (subject : UserSnapshot)
    (caller : CallerContext) (delegated : Bool) (perms : ℕ) where
  king_auto_lock_sync-IsFree :
      (desired : Option KingAutoLock) → All IsFree (king_auto_lock_sync subject perms desired)
  unfolding king_auto_lock_sync call_value_for_action
  king_auto_lock_sync-IsFree none = tt
  king_auto_lock_sync-IsFree (some desired) = All-when IsFree _ _ (λ _. refl)

  set_royalties-IsFree :
      (desired : Option RoyaltiesAutoCompound) → All IsFree (set_royalties subject perms desired)
  unfolding set_royalties call_value_for_action
  set_royalties-IsFree none = tt
  set_royalties-IsFree (some desired) = All-when IsFree _ _ (λ _. refl)

  set_lp-IsFree : (desired : Option LpAutoCompound) → All IsFree (set_lp subject perms desired)
  unfolding set_lp call_value_for_action
  set_lp-IsFree none = tt
  set_lp-IsFree (some desired) = All-when IsFree _ _ (λ _. refl)

  pub maintenance-IsFree : All IsFree (maintenance subject perms config)
  unfolding maintenance royalties_sync lp_sync
  maintenance-IsFree =
      let royalties = royalties_sync subject perms config.royalties_auto_compound_desired in
      let lp = lp_sync subject perms config.lp_auto_compound_desired in
      All-append IsFree (king_auto_lock_sync subject perms config.king_auto_lock_desired)
        (royalties ++ lp) (king_auto_lock_sync-IsFree config.king_auto_lock_desired)
        (All-append IsFree royalties lp
          (set_royalties-IsFree
            (desired_royalties subject perms config.royalties_auto_compound_desired))
          (set_lp-IsFree (desired_lp subject perms config.lp_auto_compound_desired)))

  pub collect_royalties-IsFree :
      All IsFree (collect_royalties snapshot config subject caller delegated perms).0
  unfolding collect_royalties call_value_for_action
  collect_royalties-IsFree = ground arith

  withdraw_own-IsFree :
      (refund king : ℤ) (to : Text)
      → All IsFree (withdraw_own snapshot config subject caller delegated perms refund king to)
  unfolding withdraw_own call_value_for_action
  withdraw_own-IsFree refund king to = ground arith

  withdraw_user_king-IsFree :
      (planned : Bool)
      → All IsFree (withdraw_user_king snapshot config subject caller delegated perms planned)
  unfolding withdraw_user_king call_value_for_action
  withdraw_user_king-IsFree planned = ground arith

  pub withdraw_balances-IsFree :
      (planned : Bool)
      → All IsFree (withdraw_balances snapshot config subject caller delegated perms planned)
  unfolding withdraw_balances
  withdraw_balances-IsFree planned =
      let own = withdraw_own snapshot config subject caller delegated perms in
      let user_king = withdraw_user_king snapshot config subject caller delegated perms planned in
      let refund = caller.mine_core_refund_eth_balance in
      let king = caller.mine_core_king_eth_balance in
      All-if IsFree config.enable_withdrawals _ []
        (All-if IsFree delegated _ _
          (All-append IsFree user_king (own refund king caller.address)
            (withdraw_user_king-IsFree planned) (withdraw_own-IsFree refund king caller.address))
          (withdraw_own-IsFree subject.refund_eth_balance subject.king_eth_balance subject.address))
        tt

  bid_parts :
      (cool paused king : Bool) (max price balance : ℤ)
      → (cool
          && (not paused
              && (not king
                  && (ltb_ℤ (pos 0) max
                      && (ltb_ℤ (pos 0) price && (leb_ℤ price max && leb_ℤ price balance))))))
        ≡ true
      → (cool ≡ true)
        × (pos 1 ≤ℤ price)
        × (price ≤ℤ max)
        × (price ≤ℤ balance)
        × (paused ≡ false)
        × (king ≡ false)
  bid_parts cool paused king max price balance h = ground arith

  cooldown-IsCooledDown :
      (last : Option ℕ) (now : ℕ)
      → cooldown_ok snapshot config subject caller delegated perms
          (record { last_takeover_at_ms = last })
          now
        ≡ true
      → IsCooledDown config.takeover_cooldown_seconds last now
  cooldown-IsCooledDown none now h = tt
  cooldown-IsCooledDown (some last) now h = ground arith

  pub base_checks-IsBid :
      (state : PolicyState) (now : ℕ)
      → base_checks snapshot config subject caller delegated perms state now ≡ true
      → IsBid snapshot config subject caller.eth_balance state now snapshot.current_takeover_price
  base_checks-IsBid state now h =
      let parts =
        bid_parts _ _ _ config.max_takeover_eth snapshot.current_takeover_price caller.eth_balance
          h in
      (
        refl,
        parts.1,
        parts.2,
        parts.3,
        parts.4,
        parts.5,
        cooldown-IsCooledDown state.last_takeover_at_ms now parts.0,
      )

  pub takeover-IsSpending :
      (state : PolicyState) (now : ℕ)
      → All
          (IsSpending snapshot config subject caller.eth_balance state now)
          (takeover snapshot config subject caller delegated perms state now)
  unfolding takeover
  takeover-IsSpending state now =
      All-when (IsSpending snapshot config subject caller.eth_balance state now) _ _ (λ h.
        bid_action delegated
          (base_checks-IsBid state now (and_left _ _ (and_right config.enable_takeovers _ h))))
    where
      bid_action :
          (b : Bool)
          → IsBid snapshot config subject caller.eth_balance state now
              snapshot.current_takeover_price
          → IsSpending snapshot config subject caller.eth_balance state now (
              if b
              then AgentAction.mine_core_takeover_for subject.address
                  snapshot.current_takeover_price
              else AgentAction.mine_core_takeover snapshot.current_takeover_price)
      bid_action true h = (refl, h)
      bid_action false h = h

  pub can_furnace-IsEntry :
      can_furnace snapshot config subject caller delegated perms ≡ true
      → IsEntry snapshot config caller.eth_balance config.furnace_eth_in
  can_furnace-IsEntry h = ground arith

  pub enter_furnace-IsSpending :
      (state : PolicyState) (now : ℕ)
      → can_furnace snapshot config subject caller delegated perms ≡ true
      → IsSpending snapshot config subject caller.eth_balance state now
          (enter_furnace snapshot config subject caller delegated perms)
  unfolding enter_furnace
  enter_furnace-IsSpending state now h = entry_action delegated (can_furnace-IsEntry h)
    where
      entry_action :
          (b : Bool)
          → IsEntry snapshot config caller.eth_balance config.furnace_eth_in
          → IsSpending snapshot config subject caller.eth_balance state now (
              if b
              then AgentAction.furnace_enter_with_eth_for subject.address config.furnace_eth_in
                  config.target_token_id config.lock_duration_seconds config.create_auto_max
                  config.slippage_bps
              else AgentAction.furnace_enter_with_eth config.furnace_eth_in config.target_token_id
                  config.lock_duration_seconds config.create_auto_max config.slippage_bps)
      entry_action true h = (refl, h)
      entry_action false h = h
