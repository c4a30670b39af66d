-- ===== src/Agent/Policy/Budget.antt =====
-- The plans of agents/sdk/src/agent/policy.ts stay within the balance of the account that signs.
use claimrush.Prelude.{
  ℕ, ◌≡◌, inl, inr, refl, Bool, true, false, ◌&&◌, Option, some, List, [], ◌∷◌, ◌++◌, if◌then◌else◌,
  All, Bool-cases,
}
use claimrush.Prelude.Int.{pos, ◌≤ℤ◌}
use claimrush.Agent.Actions.{AgentAction}
use claimrush.Agent.Security.Types.{call_value_for_action}
use claimrush.Agent.Policy.Types.{
  PolicyConfig, PolicyState, CallerContext, DelegationContext, UserSnapshot, Snapshot,
}
use claimrush.Agent.Policy.Maintenance.{maintenance, has_desired_config}
use claimrush.Agent.Policy.Plan.{
  or_else, can_furnace, needs_ve, collect_royalties, withdraw_balances, takeover, enter_furnace,
  collect_and_play, play, plan_for, plan_with_user, caller_of, is_delegated, session_perms,
  is_delegation_active,
}
use claimrush.Agent.Policy.Authorised.{All-if, and_left, and_right}
use claimrush.Agent.Policy.Value.{
  IsFree, IsSpending, total_value, total-append, total-free, when_fits,
}
use claimrush.Agent.Policy.Spending.{
  maintenance-IsFree, collect_royalties-IsFree, withdraw_balances-IsFree, can_furnace-IsEntry,
  base_checks-IsBid,
}

module _ (snapshot : Snapshot) (config : PolicyConfig) (subject : UserSnapshot)
    (caller : CallerContext) (state : PolicyState) (now : ℕ) where
  module _ (delegated : Bool) (perms : ℕ) where
    abbrev Spending : AgentAction → Type 0
    Spending = IsSpending snapshot config subject caller.eth_balance state now

    abbrev FitsBudget : List AgentAction → Type 0
    FitsBudget xs = total_value xs ≤ℤ caller.eth_balance

    takeover-FitsBudget :
        pos 0 ≤ℤ caller.eth_balance
        → FitsBudget (takeover snapshot config subject caller delegated perms state now)
    unfolding takeover call_value_for_action
    takeover-FitsBudget h =
        when_fits caller.eth_balance snapshot.current_takeover_price _ _ h (bid_value delegated)
          (λ e.
            (base_checks-IsBid snapshot config subject caller delegated perms state now
              (and_left _ _ (and_right config.enable_takeovers _ e))).3)
      where
        bid_value :
            (b : Bool)
            → call_value_for_action (
                if b
                then AgentAction.mine_core_takeover_for subject.address
                    snapshot.current_takeover_price
                else AgentAction.mine_core_takeover snapshot.current_takeover_price)
              ≡ some snapshot.current_takeover_price
        bid_value true = refl
        bid_value false = refl

    enter_furnace-FitsBudget :
        pos 0 ≤ℤ caller.eth_balance
        → can_furnace snapshot config subject caller delegated perms ≡ true
        → FitsBudget (enter_furnace snapshot config subject caller delegated perms ∷ [])
    unfolding enter_furnace call_value_for_action
    enter_furnace-FitsBudget h can =
        when_fits caller.eth_balance config.furnace_eth_in true
          (enter_furnace snapshot config subject caller delegated perms) h (entry_value delegated)
          (λ _. (can_furnace-IsEntry snapshot config subject caller delegated perms can).3)
      where
        entry_value :
            (b : Bool)
            → call_value_for_action (
                if b
                then AgentAction.furnace_enter_with_eth_for subject.address config.furnace_eth_in
                    config.target_token_id config.lock_duration_seconds config.create_auto_max
                    config.slippage_bps
                else AgentAction.furnace_enter_with_eth config.furnace_eth_in config.target_token_id
                    config.lock_duration_seconds config.create_auto_max config.slippage_bps)
              ≡ some config.furnace_eth_in
        entry_value true = refl
        entry_value false = refl

    play-FitsBudget :
        pos 0 ≤ℤ caller.eth_balance
        → FitsBudget (play snapshot config subject caller delegated perms state now)
    unfolding play collect_and_play
    play-FitsBudget h =
        let royalties = collect_royalties snapshot config subject caller delegated perms in
        let balances =
          withdraw_balances snapshot config subject caller delegated perms royalties.1 in
        let bid = takeover snapshot config subject caller delegated perms state now in
        elim (Bool-cases (
          needs_ve snapshot config subject caller delegated perms
          && can_furnace snapshot config subject caller delegated perms)) [
            | inl enter ↦ rw enter (
                enter_furnace-FitsBudget h
                  (and_right (needs_ve snapshot config subject caller delegated perms) _ enter))
            | inr stay ↦ rw stay (
                rw
                  (total-append royalties.0 (balances ++ bid)
                    (collect_royalties-IsFree snapshot config subject caller delegated perms))
                  (rw
                    (total-append balances bid (
                      withdraw_balances-IsFree snapshot config subject caller delegated perms
                        royalties.1))
                    (takeover-FitsBudget h)))
          ]

    or_else-FitsBudget :
        (xs ys : List AgentAction)
        → pos 0 ≤ℤ caller.eth_balance
        → All IsFree xs
        → FitsBudget ys
        → FitsBudget (or_else xs ys)
    or_else-FitsBudget [] ys h free fits = fits
    or_else-FitsBudget (x ∷ xs) ys h free fits = rw (total-free (x ∷ xs) free) h

    plan_for-FitsBudget :
        (active : Bool)
        → pos 0 ≤ℤ caller.eth_balance
        → FitsBudget (plan_for snapshot config subject caller delegated perms state now active)
    unfolding plan_for
    plan_for-FitsBudget active h =
        or_else-FitsBudget _ (play snapshot config subject caller delegated perms state now) h
          (All-if IsFree (has_desired_config config && (delegated && active))
            (maintenance subject perms config) []
            (maintenance-IsFree snapshot config subject caller delegated perms) tt)
          (play-FitsBudget h)

-- The wei that the actions of a plan send, together, are within the signer's balance, where that balance is
-- not negative.
pub plan_with_user-total :
    (snapshot : Snapshot) (config : PolicyConfig) (state : PolicyState) (now : ℕ)
    (caller : Option CallerContext) (delegation : Option DelegationContext) (subject : UserSnapshot)
    → pos 0 ≤ℤ (caller_of subject caller).eth_balance
    → total_value (plan_with_user snapshot config state now caller delegation (some subject))
      ≤ℤ (caller_of subject caller).eth_balance
unfolding plan_with_user
plan_with_user-total snapshot config state now caller delegation subject h =
    let c = caller_of subject caller in
    plan_for-FitsBudget snapshot config subject c state now (is_delegated subject c)
      (session_perms (is_delegated subject c) delegation snapshot.block_timestamp)
      (is_delegation_active delegation snapshot.block_timestamp) h
