-- ===== src/Agent/Policy/Sections.antt =====
-- Which actions each section of the planner of agents/sdk/src/agent/policy.ts can propose.
use claimrush.Prelude.{
  ℕ, ◌≡◌, inl, inr, refl, Bool, true, false, not, ◌&&◌, Option, none, some, ◌++◌, All, All-append,
  arith, Bool-cases,
}
use claimrush.Agent.Actions.{AgentAction}
use claimrush.Agent.Permissions.{
  has_perm, p_takeover_for, p_withdraw_king_bucket_for, p_claim_shareholder_for, p_claim_all_for,
  p_furnace_enter_eth_for, p_set_king_auto_lock_config_for,
  p_set_shareholder_autocompound_config_for, p_set_lp_autocompound_config_for,
}
use claimrush.Agent.Requirements.{delegation_requirement}
use claimrush.Agent.Policy.Types.{
  PolicyConfig, PolicyState, CallerContext, UserSnapshot, Snapshot, KingAutoLock,
  RoyaltiesAutoCompound, LpAutoCompound,
}
use claimrush.Agent.Policy.Maintenance.{
  when, maintenance, king_auto_lock_sync, desired_royalties, desired_lp, set_royalties,
  royalties_sync, set_lp, lp_sync,
}
use claimrush.Agent.Policy.Plan.{
  can_furnace, is_worth, claim_all, collect_royalties, withdraw_user_king, withdraw_own, takeover,
  enter_furnace,
}
use claimrush.Agent.Policy.Authorised.{IsGranted, IsOwnWithdrawal, All-when, and_left, and_right}

module _ (subject : UserSnapshot) (active : Bool) (perms : ℕ)
    (scoped : active ≡ false → perms ≡ 0) where
  abbrev Granted : AgentAction → Type 0
  Granted = IsGranted subject active perms

  granted :
      (action : AgentAction) (bit : ℕ)
      → delegation_requirement action
        ≡ some (record { user = subject.address; required_perms = bit })
      → has_perm 0 bit ≡ false
      → has_perm perms bit ≡ true
      → Granted action
  granted action bit needs z held = (bit, needs, active_of_perm, held)
    where
      active_of_perm : active ≡ true
      active_of_perm = elim (Bool-cases active) [ inl on ↦ on | inr off ↦ cc (z, scoped off, held) ]

  when-Granted :
      (b : Bool) (action : AgentAction) (bit : ℕ)
      → delegation_requirement action
        ≡ some (record { user = subject.address; required_perms = bit })
      → has_perm 0 bit ≡ false
      → (b ≡ true → has_perm perms bit ≡ true)
      → All Granted (when b action)
  when-Granted b action bit needs z h =
      All-when Granted b action (λ e. granted action bit needs z (h e))

  king_auto_lock_sync-IsGranted :
      (desired : Option KingAutoLock) → All Granted (king_auto_lock_sync subject perms desired)
  unfolding king_auto_lock_sync delegation_requirement has_perm
  king_auto_lock_sync-IsGranted none = tt
  king_auto_lock_sync-IsGranted (some desired) =
      when-Granted _ _ p_set_king_auto_lock_config_for refl refl (and_left _ _)

  set_royalties-IsGranted :
      (desired : Option RoyaltiesAutoCompound) → All Granted (set_royalties subject perms desired)
  unfolding set_royalties delegation_requirement has_perm
  set_royalties-IsGranted none = tt
  set_royalties-IsGranted (some desired) =
      when-Granted _ _ p_set_shareholder_autocompound_config_for refl refl (and_left _ _)

  set_lp-IsGranted : (desired : Option LpAutoCompound) → All Granted (set_lp subject perms desired)
  unfolding set_lp delegation_requirement has_perm
  set_lp-IsGranted none = tt
  set_lp-IsGranted (some desired) =
      when-Granted _ _ p_set_lp_autocompound_config_for refl refl (and_left _ _)

  royalties_sync-IsGranted :
      (desired : Option RoyaltiesAutoCompound) → All Granted (royalties_sync subject perms desired)
  unfolding royalties_sync
  royalties_sync-IsGranted desired =
      set_royalties-IsGranted (desired_royalties subject perms desired)

  lp_sync-IsGranted :
      (desired : Option LpAutoCompound) → All Granted (lp_sync subject perms desired)
  unfolding lp_sync
  lp_sync-IsGranted desired = set_lp-IsGranted (desired_lp subject perms desired)

  pub maintenance-IsGranted :
      (config : PolicyConfig) → All Granted (maintenance subject perms config)
  unfolding maintenance
  maintenance-IsGranted config =
      let royalties = royalties_sync subject perms config.royalties_auto_compound_desired in
      let lp = lp_sync subject perms config.lp_auto_compound_desired in
      All-append Granted (king_auto_lock_sync subject perms config.king_auto_lock_desired)
        (royalties ++ lp) (king_auto_lock_sync-IsGranted config.king_auto_lock_desired)
        (All-append Granted royalties lp
          (royalties_sync-IsGranted config.royalties_auto_compound_desired)
          (lp_sync-IsGranted config.lp_auto_compound_desired))

  module _ (snapshot : Snapshot) (config : PolicyConfig) (caller : CallerContext) where
    pub collect_royalties-IsGranted :
        All Granted (collect_royalties snapshot config subject caller true perms).0
    unfolding collect_royalties delegation_requirement has_perm
    collect_royalties-IsGranted =
        elim (Bool-cases (
          config.enable_royalties_claim
          && is_worth subject.claimable config.min_royalties_eth_to_claim)) [
            | inr e ↦ rw e tt
            | inl e ↦ rw e (elim (Bool-cases (has_perm perms p_claim_all_for)) [
              | inl held ↦ rw held (granted (claim_all subject) p_claim_all_for refl refl held, tt)
              | inr lacking ↦
                  rw lacking (when-Granted _ _ p_claim_shareholder_for refl refl (λ h. h))
            ])
          ]

    pub withdraw_user_king-IsGranted :
        (planned : Bool)
        → All Granted (withdraw_user_king snapshot config subject caller true perms planned)
    unfolding withdraw_user_king delegation_requirement has_perm
    withdraw_user_king-IsGranted planned =
        elim (Bool-cases (is_worth subject.king_eth_balance config.min_king_eth_to_withdraw)) [
          | inr little ↦ rw little tt
          | inl worth ↦
              rw worth (elim (Bool-cases (has_perm perms p_claim_all_for && not planned)) [
                | inl held ↦
                    rw held (
                      granted (claim_all subject) p_claim_all_for refl refl (and_left _ _ held),
                      tt,
                    )
                | inr lacking ↦
                    rw lacking (when-Granted _ _ p_withdraw_king_bucket_for refl refl (λ h. h))
              ])
        ]

    pub takeover-IsGranted :
        (state : PolicyState) (now : ℕ)
        → All Granted (takeover snapshot config subject caller true perms state now)
    unfolding takeover delegation_requirement has_perm
    takeover-IsGranted state now =
        when-Granted _ _ p_takeover_for refl refl (λ h. and_right _ _ (and_right _ _ h))

    pub withdraw_own-IsOwn : All (IsOwnWithdrawal caller) (
        withdraw_own snapshot config subject caller true perms caller.mine_core_refund_eth_balance
          caller.mine_core_king_eth_balance caller.address)
    unfolding withdraw_own
    withdraw_own-IsOwn = ground arith

    can_furnace_perm :
        can_furnace snapshot config subject caller true perms ≡ true
        → has_perm perms p_furnace_enter_eth_for ≡ true
    can_furnace_perm h = ground arith

    pub enter_furnace-IsGranted :
        can_furnace snapshot config subject caller true perms ≡ true
        → Granted (enter_furnace snapshot config subject caller true perms)
    unfolding enter_furnace delegation_requirement has_perm
    enter_furnace-IsGranted h =
        granted (enter_furnace snapshot config subject caller true perms) p_furnace_enter_eth_for
          refl refl (can_furnace_perm h)
