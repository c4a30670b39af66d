-- ===== src/Agent/Policy/Plan.antt =====
-- `buildActionPlan` of agents/sdk/src/agent/policy.ts. Each section of the function is a definition that
-- returns the actions it pushes; `now_ms` and the caller's context are given.
use claimrush.Prelude.{
  ℕ, ◌+◌, ◌*◌, Bool, true, false, not, ◌&&◌, ◌||◌, Option, none, some, List, [], ◌∷◌, ◌++◌, Text,
  leb, ◌==◌, if◌then◌else◌, same_address,
}
use claimrush.Prelude.Int.{ℤ, pos, ltb_ℤ, leb_ℤ, eqb_ℤ}
use claimrush.Agent.Actions.{AgentAction, int}
use claimrush.Agent.Permissions.{
  has_perm, p_takeover_for, p_withdraw_king_bucket_for, p_claim_shareholder_for, p_claim_all_for,
  p_furnace_enter_eth_for,
}
use claimrush.Agent.Policy.Types.{
  PolicyConfig, PolicyState, CallerContext, DelegationContext, UserSnapshot, Snapshot,
}
use claimrush.Agent.Policy.Maintenance.{when, has_desired_config, maintenance}

unfoldable pub is_delegation_active : Option DelegationContext → ℕ → Bool
is_delegation_active none now = false
is_delegation_active (some d) now = not (d.expiry == 0) && leb now d.expiry

-- `x > 0n && x >= least`
abbrev pub is_worth : ℤ → ℤ → Bool
is_worth x least = ltb_ℤ (pos 0) x && leb_ℤ least x

abbrev pub claim_all : UserSnapshot → AgentAction
claim_all subject =
    AgentAction.claim_all_helper_claim_all_for subject.address subject.claimable (int (pos 0))
      (pos 0) (pos 0) false (pos 0)

abbrev pub claim_shareholder : UserSnapshot → AgentAction
claim_shareholder subject =
    AgentAction.claim_all_helper_claim_shareholder_for_user subject.address subject.claimable
      (int (pos 0)) (pos 0) (pos 0) false (pos 0)

-- `if (actions.length > 0) return actions;`
abbrev pub or_else : List AgentAction → List AgentAction → List AgentAction
or_else [] rest = rest
or_else (a ∷ actions) rest = a ∷ actions

module _ (snapshot : Snapshot) (config : PolicyConfig) (subject : UserSnapshot)
    (caller : CallerContext) (delegated : Bool) (perms : ℕ) where
  abbrev pub needs_ve : Bool
  needs_ve = eqb_ℤ subject.ve_balance (pos 0) || eqb_ℤ subject.nft_balance (pos 0)

  abbrev pub can_furnace : Bool
  can_furnace =
      config.enable_furnace_entry
      && (not snapshot.locking_paused
          && (ltb_ℤ (pos 0) config.furnace_eth_in
              && (leb_ℤ config.furnace_eth_in caller.eth_balance
                  && (not delegated || has_perm perms p_furnace_enter_eth_for))))

  unfoldable pub enter_furnace : AgentAction
  enter_furnace =
      if delegated
      then AgentAction.furnace_enter_with_eth_for subject.address config.furnace_eth_in
          config.target_token_id config.lock_duration_seconds config.create_auto_max
          config.slippage_bps
      else AgentAction.furnace_enter_with_eth config.furnace_eth_in config.target_token_id
          config.lock_duration_seconds config.create_auto_max config.slippage_bps

  -- The claims, and whether `claimAllFor` is among them.
  unfoldable pub collect_royalties : List AgentAction × Bool
  collect_royalties =
      if config.enable_royalties_claim
        && is_worth subject.claimable config.min_royalties_eth_to_claim
      then (if delegated
          then (if has_perm perms p_claim_all_for then (claim_all subject ∷ [], true) else (
            when (has_perm perms p_claim_shareholder_for) (claim_shareholder subject),
            false,
          ))
          else (AgentAction.royalties_claim_shareholder_eth subject.claimable ∷ [], false))
      else ([], false)

  -- 2a) The user's king bucket, through the helper contract.
  unfoldable pub withdraw_user_king : Bool → List AgentAction
  withdraw_user_king planned_claim_all =
      if is_worth subject.king_eth_balance config.min_king_eth_to_withdraw
      then (if has_perm perms p_claim_all_for && not planned_claim_all
          then claim_all subject ∷ []
          else when (has_perm perms p_withdraw_king_bucket_for) (
              AgentAction.claim_all_helper_withdraw_king_balance_for_user subject.address
                subject.king_eth_balance))
      else []

  -- The refund and king buckets of the account that signs, to itself.
  unfoldable pub withdraw_own : ℤ → ℤ → Text → List AgentAction
  withdraw_own refund king to =
      when (is_worth refund config.min_refund_eth_to_withdraw)
        (AgentAction.mine_core_withdraw_refund_balance refund to)
      ++ when (is_worth king config.min_king_eth_to_withdraw)
          (AgentAction.mine_core_withdraw_king_balance king)

  unfoldable pub withdraw_balances : Bool → List AgentAction
  unfolding withdraw_user_king withdraw_own
  withdraw_balances planned_claim_all =
      if config.enable_withdrawals
      then (if delegated
          then withdraw_user_king planned_claim_all
            ++ withdraw_own caller.mine_core_refund_eth_balance caller.mine_core_king_eth_balance
                caller.address
          else withdraw_own subject.refund_eth_balance subject.king_eth_balance subject.address)
      else []

  abbrev pub cooldown_ok : PolicyState → ℕ → Bool
  cooldown_ok state now = elim state.last_takeover_at_ms [
    | none ↦ true
    | some last ↦ leb (last + config.takeover_cooldown_seconds * 1000) now
  ]

  abbrev pub base_checks : PolicyState → ℕ → Bool
  base_checks state now =
      cooldown_ok state now
      && (not snapshot.takeovers_paused
          && (not (same_address snapshot.current_king subject.address)
              && (ltb_ℤ (pos 0) config.max_takeover_eth
                  && (ltb_ℤ (pos 0) snapshot.current_takeover_price
                      && (leb_ℤ snapshot.current_takeover_price config.max_takeover_eth
                          && leb_ℤ snapshot.current_takeover_price caller.eth_balance)))))

  unfoldable pub takeover : PolicyState → ℕ → List AgentAction
  takeover state now =
      when
        (config.enable_takeovers
          && (base_checks state now && (not delegated || has_perm perms p_takeover_for)))
        (if delegated
          then AgentAction.mine_core_takeover_for subject.address snapshot.current_takeover_price
          else AgentAction.mine_core_takeover snapshot.current_takeover_price)

  -- Sections 1 to 3.
  unfoldable pub collect_and_play : PolicyState → ℕ → List AgentAction
  unfolding collect_royalties withdraw_balances takeover
  collect_and_play state now =
      collect_royalties.0 ++ (withdraw_balances collect_royalties.1 ++ takeover state now)

  -- From the first section after the maintenance on.
  unfoldable pub play : PolicyState → ℕ → List AgentAction
  unfolding enter_furnace collect_and_play
  play state now =
      if needs_ve && can_furnace then enter_furnace ∷ [] else collect_and_play state now

  unfoldable pub plan_for : PolicyState → ℕ → Bool → List AgentAction
  unfolding maintenance play
  plan_for state now delegation_active =
      or_else
        (if has_desired_config config && (delegated && delegation_active)
          then maintenance subject perms config
          else [])
        (play state now)

-- The caller defaults to the managed user.
abbrev pub caller_of : UserSnapshot → Option CallerContext → CallerContext
caller_of subject (some caller) = caller
caller_of subject none = record {
  address = subject.address;
  eth_balance = subject.eth_balance;
  mine_core_king_eth_balance = subject.king_eth_balance;
  mine_core_refund_eth_balance = subject.refund_eth_balance;
}

abbrev pub is_delegated : UserSnapshot → CallerContext → Bool
is_delegated subject caller = not (same_address caller.address subject.address)

-- The permissions of the session, where it counts.
abbrev pub session_perms : Bool → Option DelegationContext → ℕ → ℕ
session_perms delegated none now = 0
session_perms delegated (some d) now =
    if delegated && is_delegation_active (some d) now then d.perms else 0

unfoldable pub plan_with_user :
    Snapshot
    → PolicyConfig
    → PolicyState
    → ℕ
    → Option CallerContext
    → Option DelegationContext
    → Option UserSnapshot
    → List AgentAction
unfolding plan_for
plan_with_user snapshot config state now caller delegation none = []
plan_with_user snapshot config state now caller delegation (some subject) =
    let c = caller_of subject caller in
    let delegated = is_delegated subject c in
    plan_for snapshot config subject c delegated
      (session_perms delegated delegation snapshot.block_timestamp) state now
      (is_delegation_active delegation snapshot.block_timestamp)

unfoldable pub build_action_plan :
    Snapshot
    → PolicyConfig
    → PolicyState
    → ℕ
    → Option CallerContext
    → Option DelegationContext
    → List AgentAction
unfolding plan_with_user
build_action_plan snapshot config state now caller delegation =
    plan_with_user snapshot config state now caller delegation snapshot.user
