-- ===== src/Agent/Policy/Maintenance.antt =====
-- The delegated maintenance of agents/sdk/src/agent/policy.ts: bringing the user's on-chain settings in
-- line with the desired ones. Each part yields no action or one.
use claimrush.Prelude.{
  ℕ, Bool, true, false, not, ◌&&◌, ◌||◌, Option, none, some, List, [], ◌∷◌, ◌++◌, if◌then◌else◌,
}
use claimrush.Prelude.Int.{ℤ, pos, ltb_ℤ, eqb_ℤ}
use claimrush.Agent.Actions.{AgentAction}
use claimrush.Agent.Permissions.{
  has_perm, p_set_king_auto_lock_config_for, p_set_shareholder_autocompound_config_for,
  p_set_lp_autocompound_config_for,
}
use claimrush.Agent.Policy.Types.{
  KingAutoLock, RoyaltiesAutoCompound, LpAutoCompound, PolicyConfig, UserSnapshot,
}

abbrev pub differs : ℤ → ℤ → Bool
differs a b = not (eqb_ℤ a b)

-- `a !== b` on flags.
abbrev pub flags_differ : Bool → Bool → Bool
flags_differ true b = not b
flags_differ false b = b

abbrev pub when : Bool → AgentAction → List AgentAction
when b action = if b then action ∷ [] else []

abbrev pub resolve_lock_token_id : ℤ → ℤ
resolve_lock_token_id spec = if ltb_ℤ (pos 0) spec then spec else pos 0

abbrev pub check_resolved_lock_usable : ℤ → Bool
check_resolved_lock_usable id = ltb_ℤ (pos 0) id

-- `desired.enabled ? resolveLockTokenId(desired.tokenId) : desired.tokenId`
abbrev pub resolved_token_id : Bool → ℤ → ℤ
resolved_token_id enabled spec = if enabled then resolve_lock_token_id spec else spec

abbrev pub can_enable : Bool → ℤ → Bool
can_enable wants id = not wants || (ltb_ℤ (pos 0) id && check_resolved_lock_usable id)

abbrev is_some {ℓ} : {A : Type ℓ} → Option A → Bool
is_some none = false
is_some (some a) = true

abbrev pub has_desired_config : PolicyConfig → Bool
has_desired_config config =
    is_some config.king_auto_lock_desired
    || (is_some config.royalties_auto_compound_desired || is_some config.lp_auto_compound_desired)

abbrev king_mismatch : KingAutoLock → KingAutoLock → Bool
king_mismatch cur desired =
    flags_differ cur.enabled desired.enabled
    || (differs cur.target_token_id desired.target_token_id
        || (differs cur.duration_seconds desired.duration_seconds
            || (flags_differ cur.create_auto_max desired.create_auto_max
                || differs cur.min_ve_out desired.min_ve_out)))

module _ (subject : UserSnapshot) (perms : ℕ) where
  unfoldable pub king_auto_lock_sync : Option KingAutoLock → List AgentAction
  king_auto_lock_sync none = []
  king_auto_lock_sync (some desired) =
      when
        (has_perm perms p_set_king_auto_lock_config_for
          && king_mismatch subject.king_auto_lock_config desired)
        (AgentAction.mine_core_set_king_auto_lock_config_for_user subject.address desired.enabled
          desired.target_token_id desired.duration_seconds desired.create_auto_max
          desired.min_ve_out)

  -- The configured setting or, if the current one is enabled and paused, that one again.
  abbrev pub desired_royalties : Option RoyaltiesAutoCompound → Option RoyaltiesAutoCompound
  desired_royalties (some desired) = some desired
  desired_royalties none =
      if subject.royalties_config.enabled && subject.royalties_paused
      then some (record subject.royalties_config { enabled = true })
      else none

  abbrev royalties_mismatch : RoyaltiesAutoCompound → Bool
  royalties_mismatch desired =
      let cur = subject.royalties_config in
      flags_differ cur.enabled desired.enabled
      || (desired.enabled
          && (subject.royalties_paused
              || (differs cur.token_id (resolved_token_id desired.enabled desired.token_id)
                  || (differs cur.duration_seconds desired.duration_seconds
                      || (differs cur.min_cadence_seconds desired.min_cadence_seconds
                          || differs cur.min_eth_to_compound desired.min_eth_to_compound)))))

  unfoldable pub set_royalties : Option RoyaltiesAutoCompound → List AgentAction
  set_royalties none = []
  set_royalties (some desired) =
      when
        (has_perm perms p_set_shareholder_autocompound_config_for
          && (can_enable desired.enabled (resolved_token_id desired.enabled desired.token_id)
              && royalties_mismatch desired))
        (AgentAction.royalties_set_auto_compound_config_for_user subject.address desired.enabled
          (resolved_token_id desired.enabled desired.token_id) desired.duration_seconds
          desired.min_cadence_seconds desired.min_eth_to_compound)

  unfoldable pub royalties_sync : Option RoyaltiesAutoCompound → List AgentAction
  unfolding set_royalties
  royalties_sync desired = set_royalties (desired_royalties desired)

  abbrev pub desired_lp : Option LpAutoCompound → Option LpAutoCompound
  desired_lp (some desired) = some desired
  desired_lp none =
      if subject.lp_config.enabled && subject.lp_paused
      then some (record subject.lp_config { enabled = true })
      else none

  abbrev lp_mismatch : LpAutoCompound → Bool
  lp_mismatch desired =
      let cur = subject.lp_config in
      flags_differ cur.enabled desired.enabled
      || (desired.enabled
          && (subject.lp_paused
              || (differs cur.token_id (resolved_token_id desired.enabled desired.token_id)
                  || differs cur.duration_seconds desired.duration_seconds)))

  unfoldable pub set_lp : Option LpAutoCompound → List AgentAction
  set_lp none = []
  set_lp (some desired) =
      when
        (has_perm perms p_set_lp_autocompound_config_for
          && (can_enable desired.enabled (resolved_token_id desired.enabled desired.token_id)
              && lp_mismatch desired))
        (AgentAction.lp_vault_set_auto_compound_config_for_user subject.address desired.enabled
          (resolved_token_id desired.enabled desired.token_id) desired.duration_seconds)

  unfoldable pub lp_sync : Option LpAutoCompound → List AgentAction
  unfolding set_lp
  lp_sync desired = set_lp (desired_lp desired)

  unfoldable pub maintenance : PolicyConfig → List AgentAction
  unfolding king_auto_lock_sync royalties_sync lp_sync
  maintenance config =
      king_auto_lock_sync config.king_auto_lock_desired
      ++ (royalties_sync config.royalties_auto_compound_desired
          ++ lp_sync config.lp_auto_compound_desired)
