-- ===== src/Agent/Security/KingBucket.antt =====
-- The withdrawal of the king's bucket: planned by agents/sdk/src/agent/policy.ts, and stopped by
-- agents/sdk/src/agent/actionSecurity.ts, which reads a recipient that the action has not.
use claimrush.Prelude.{
  ℕ, ◌≡◌, ◌≢◌, ◌⊎◌, inl, inr, refl, Bool, true, false, ◌&&◌, Option, none, some, List, [], ◌∷◌,
  ◌++◌, Text, same_address_refl,
}
use claimrush.Prelude.Int.{ℤ}
use claimrush.Agent.Actions.{AgentAction}
use claimrush.Agent.Security.Types.{AgentExecutionSecurity, CheckResult, is_false}
use claimrush.Agent.Security.Check.{executor_check}
use claimrush.Agent.Security.Sound.{executor_check-IsSafe}
use claimrush.Agent.Policy.Types.{
  PolicyConfig, PolicyState, CallerContext, DelegationContext, UserSnapshot, Snapshot,
}
use claimrush.Agent.Policy.Maintenance.{when, has_desired_config}
use claimrush.Agent.Policy.Plan.{
  is_worth, can_furnace, needs_ve, collect_royalties, withdraw_own, withdraw_balances, takeover,
  collect_and_play, play, plan_for, plan_with_user, caller_of, session_perms, is_delegation_active,
}

abbrev pub Contains : AgentAction → List AgentAction → Type 0
Contains action [] = ⊥
Contains action (x ∷ xs) = (action ≡ x) ⊎ Contains action xs

Contains-left :
    (action : AgentAction) (xs ys : List AgentAction)
    → Contains action xs
    → Contains action (xs ++ ys)
Contains-left action [] ys h = absurd h
Contains-left action (x ∷ xs) ys (inl e) = inl e
Contains-left action (x ∷ xs) ys (inr h) = inr (Contains-left action xs ys h)

Contains-right :
    (action : AgentAction) (xs ys : List AgentAction)
    → Contains action ys
    → Contains action (xs ++ ys)
Contains-right action [] ys h = h
Contains-right action (x ∷ xs) ys h = inr (Contains-right action xs ys h)

and_false : (b : Bool) → (b && false) ≡ false
and_false true = refl
and_false false = refl

module _ (snapshot : Snapshot) (config : PolicyConfig) (subject : UserSnapshot)
    (caller : CallerContext) (perms : ℕ) (state : PolicyState) (now : ℕ)
    (on : config.enable_withdrawals ≡ true)
    (worth : is_worth subject.king_eth_balance config.min_king_eth_to_withdraw ≡ true) where
  abbrev withdrawal : AgentAction
  withdrawal = AgentAction.mine_core_withdraw_king_balance subject.king_eth_balance

  withdraw_own-Contains :
      (refund : ℤ) (to : Text)
      → Contains withdrawal (
          withdraw_own snapshot config subject caller false perms refund subject.king_eth_balance
            to)
  unfolding withdraw_own
  withdraw_own-Contains refund to =
      Contains-right withdrawal
        (when (is_worth refund config.min_refund_eth_to_withdraw)
          (AgentAction.mine_core_withdraw_refund_balance refund to))
        _ (rw worth (inl refl))

  withdraw_balances-Contains :
      (planned : Bool)
      → Contains withdrawal (withdraw_balances snapshot config subject caller false perms planned)
  unfolding withdraw_balances
  withdraw_balances-Contains planned =
      rw on (withdraw_own-Contains subject.refund_eth_balance subject.address)

  collect_and_play-Contains :
      Contains withdrawal (collect_and_play snapshot config subject caller false perms state now)
  unfolding collect_and_play
  collect_and_play-Contains =
      let royalties = collect_royalties snapshot config subject caller false perms in
      Contains-right withdrawal royalties.0 _ (
        Contains-left withdrawal
          (withdraw_balances snapshot config subject caller false perms royalties.1)
          (takeover snapshot config subject caller false perms state now)
          (withdraw_balances-Contains royalties.1))

  plan_for-Contains :
      (active : Bool)
      → (needs_ve snapshot config subject caller false perms
          && can_furnace snapshot config subject caller false perms)
        ≡ false
      → Contains withdrawal (plan_for snapshot config subject caller false perms state now active)
  unfolding plan_for play
  plan_for-Contains active stay =
      rw (and_false (has_desired_config config)) (rw stay collect_and_play-Contains)

-- A user who plans for itself, with withdrawals on, a king's bucket worth withdrawing and no furnace entry to
-- make, gets the withdrawal of the bucket in the plan, and no execution policy that is not switched off lets
-- that action pass.
pub own_king_withdrawal-blocked :
    (snapshot : Snapshot) (config : PolicyConfig) (state : PolicyState) (now : ℕ)
    (delegation : Option DelegationContext) (subject : UserSnapshot) (is_address : Text → Bool)
    (contracts : List Text) (signer : Text) (sec : AgentExecutionSecurity)
    → config.enable_withdrawals ≡ true
    → is_worth subject.king_eth_balance config.min_king_eth_to_withdraw ≡ true
    → (needs_ve snapshot config subject (caller_of subject none) false 0
        && can_furnace snapshot config subject (caller_of subject none) false 0)
      ≡ false
    → is_false sec.enabled ≡ false
    → let action = AgentAction.mine_core_withdraw_king_balance subject.king_eth_balance in
      Contains action (plan_with_user snapshot config state now none delegation (some subject))
      × (executor_check is_address action contracts signer sec ≢ CheckResult.ok)
unfolding plan_with_user
own_king_withdrawal-blocked snapshot config state now delegation subject is_address contracts signer
      sec on worth stay enabled =
    (
      rw (same_address_refl subject.address) (
          plan_for-Contains snapshot config subject (caller_of subject none)
            (session_perms false delegation snapshot.block_timestamp) state now on worth
            (is_delegation_active delegation snapshot.block_timestamp) stay),
      λ passed.
          (executor_check-IsSafe is_address
            (AgentAction.mine_core_withdraw_king_balance subject.king_eth_balance) contracts signer
            sec enabled passed).3,
    )
