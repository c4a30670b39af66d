-- ===== src/Agent/Policy/Delegated.antt =====
-- Each section of the plan that agents/sdk/src/agent/policy.ts makes for another user is allowed by the
-- session's activity and permissions, or is the signer's own withdrawal.
use claimrush.Prelude.{
  ℕ, ◌≡◌, inl, inr, Bool, true, false, ◌&&◌, List, [], ◌∷◌, ◌++◌, if◌then◌else◌, All, All-append,
  Bool-cases,
}
use claimrush.Agent.Actions.{AgentAction}
use claimrush.Agent.Policy.Types.{PolicyConfig, PolicyState, CallerContext, UserSnapshot, Snapshot}
use claimrush.Agent.Policy.Maintenance.{maintenance, has_desired_config}
use claimrush.Agent.Policy.Plan.{
  can_furnace, needs_ve, collect_royalties, withdraw_user_king, withdraw_balances, takeover,
  collect_and_play, play, plan_for,
}
use claimrush.Agent.Policy.Authorised.{
  IsOwnWithdrawal, IsAllowedBy, All-or_else, All-left, and_right,
}
use claimrush.Agent.Policy.Sections.{
  maintenance-IsGranted, collect_royalties-IsGranted, withdraw_user_king-IsGranted,
  withdraw_own-IsOwn, takeover-IsGranted, enter_furnace-IsGranted,
}

All-own :
    (subject : UserSnapshot) (caller : CallerContext) (active : Bool) (perms : ℕ)
    (xs : List AgentAction)
    → All (IsOwnWithdrawal caller) xs
    → All (IsAllowedBy subject caller true active perms) xs
All-own subject caller active perms [] h = tt
All-own subject caller active perms (x ∷ xs) h =
    (inr h.0, All-own subject caller active perms xs h.1)

module _ (subject : UserSnapshot) (active : Bool) (perms : ℕ) (scoped : active ≡ false → perms ≡ 0)
    (snapshot : Snapshot) (config : PolicyConfig) (caller : CallerContext) (state : PolicyState)
    (now : ℕ) where
  abbrev Authorised : AgentAction → Type 0
  Authorised = IsAllowedBy subject caller true active perms

  withdraw_balances-Authorised :
      (planned : Bool)
      → All Authorised (withdraw_balances snapshot config subject caller true perms planned)
  unfolding withdraw_balances
  withdraw_balances-Authorised planned = elim (Bool-cases config.enable_withdrawals) [
    | inr off ↦ rw off tt
    | inl on ↦ rw on (
        All-append Authorised (withdraw_user_king snapshot config subject caller true perms planned)
          _
          (All-left subject caller active perms _ (
            withdraw_user_king-IsGranted subject active perms scoped snapshot config caller
              planned))
          (All-own subject caller active perms _
            (withdraw_own-IsOwn subject active perms scoped snapshot config caller)))
  ]

  collect_and_play-Authorised :
      All Authorised (collect_and_play snapshot config subject caller true perms state now)
  unfolding collect_and_play
  collect_and_play-Authorised =
      let royalties = collect_royalties snapshot config subject caller true perms in
      let balances = withdraw_balances snapshot config subject caller true perms royalties.1 in
      let bid = takeover snapshot config subject caller true perms state now in
      All-append Authorised royalties.0 (balances ++ bid)
        (All-left subject caller active perms royalties.0
          (collect_royalties-IsGranted subject active perms scoped snapshot config caller))
        (All-append Authorised balances bid (withdraw_balances-Authorised royalties.1) (
          All-left subject caller active perms bid
            (takeover-IsGranted subject active perms scoped snapshot config caller state now)))

  play-Authorised : All Authorised (play snapshot config subject caller true perms state now)
  unfolding play
  play-Authorised =
      elim (Bool-cases (
        needs_ve snapshot config subject caller true perms
        && can_furnace snapshot config subject caller true perms)) [
          | inr stay ↦ rw stay collect_and_play-Authorised
          | inl enter ↦ rw enter (
            inl (
                enter_furnace-IsGranted subject active perms scoped snapshot config caller
                  (and_right (needs_ve snapshot config subject caller true perms) _ enter)),
            tt,
          )
        ]

  pub delegated_plan-Authorised :
      All Authorised (plan_for snapshot config subject caller true perms state now active)
  unfolding plan_for
  delegated_plan-Authorised =
      All-or_else Authorised _ (play snapshot config subject caller true perms state now) maintained
        play-Authorised
    where
      maintained : All Authorised (
          if has_desired_config config && (true && active)
          then maintenance subject perms config
          else [])
      maintained = elim (Bool-cases (has_desired_config config && (true && active))) [
        | inr off ↦ rw off tt
        | inl on ↦ rw on (
            All-left subject caller active perms (maintenance subject perms config)
              (maintenance-IsGranted subject active perms scoped config))
      ]
