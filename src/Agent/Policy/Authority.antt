-- ===== src/Agent/Policy/Authority.antt =====
-- Every action that the planner of agents/sdk/src/agent/policy.ts proposes is authorised.
use Prim.Native.Nat.{bit_and}
use claimrush.Agent.Permissions.{has_perm}
use claimrush.Prelude.{
  ℕ, ◌≡◌, ◌≢◌, ◌≤◌, leb, not, ◌==◌, inl, inr, refl, Bool, true, false, ◌&&◌, Option, none, some,
  List, [], ◌∷◌, ◌++◌, Text, if◌then◌else◌, All, All-append, arith, Bool-cases,
}
use claimrush.Prelude.Int.{ℤ}
use claimrush.Agent.Actions.{AgentAction}
use claimrush.Agent.Requirements.{delegation_requirement}
use claimrush.Agent.Policy.Types.{
  PolicyConfig, PolicyState, CallerContext, DelegationContext, UserSnapshot, Snapshot,
}
use claimrush.Agent.Policy.Maintenance.{maintenance, has_desired_config}
use claimrush.Agent.Policy.Plan.{
  can_furnace, needs_ve, collect_royalties, withdraw_own, withdraw_balances, takeover,
  enter_furnace, collect_and_play, play, plan_for, plan_with_user, caller_of, is_delegated,
  session_perms, is_delegation_active,
}
use claimrush.Agent.Policy.Authorised.{
  IsGranted, IsGrantedBy, IsAllowedBy, IsAuthorised, All-when, All-or_else, and_right,
}
use claimrush.Agent.Policy.Delegated.{delegated_plan-Authorised}

-- For oneself: no action needs a session.
abbrev NeedsNone : AgentAction → Type 0
NeedsNone action = delegation_requirement action ≡ none

module _ (snapshot : Snapshot) (config : PolicyConfig) (subject : UserSnapshot)
    (caller : CallerContext) (perms : ℕ) where
  collect_royalties-NeedsNone :
      All NeedsNone (collect_royalties snapshot config subject caller false perms).0
  unfolding collect_royalties delegation_requirement
  collect_royalties-NeedsNone = ground arith

  withdraw_own-NeedsNone :
      (refund king : ℤ) (to : Text)
      → All NeedsNone (withdraw_own snapshot config subject caller false perms refund king to)
  unfolding withdraw_own delegation_requirement
  withdraw_own-NeedsNone refund king to = ground arith

  withdraw_balances-NeedsNone :
      (planned : Bool)
      → All NeedsNone (withdraw_balances snapshot config subject caller false perms planned)
  unfolding withdraw_balances
  withdraw_balances-NeedsNone planned = elim (Bool-cases config.enable_withdrawals) [
    | inr off ↦ rw off tt
    | inl on ↦
        rw on (
          withdraw_own-NeedsNone subject.refund_eth_balance subject.king_eth_balance
            subject.address)
  ]

  takeover-NeedsNone :
      (state : PolicyState) (now : ℕ)
      → All NeedsNone (takeover snapshot config subject caller false perms state now)
  unfolding takeover delegation_requirement
  takeover-NeedsNone state now = All-when NeedsNone _ _ (λ _. refl)

  collect_and_play-NeedsNone :
      (state : PolicyState) (now : ℕ)
      → All NeedsNone (collect_and_play snapshot config subject caller false perms state now)
  unfolding collect_and_play
  collect_and_play-NeedsNone state now =
      let royalties = collect_royalties snapshot config subject caller false perms in
      let balances = withdraw_balances snapshot config subject caller false perms royalties.1 in
      let bid = takeover snapshot config subject caller false perms state now in
      All-append NeedsNone royalties.0 (balances ++ bid) collect_royalties-NeedsNone (
        All-append NeedsNone balances bid (withdraw_balances-NeedsNone royalties.1)
          (takeover-NeedsNone state now))

  play-NeedsNone :
      (state : PolicyState) (now : ℕ)
      → All NeedsNone (play snapshot config subject caller false perms state now)
  unfolding play enter_furnace delegation_requirement
  play-NeedsNone state now =
      elim (Bool-cases (
        needs_ve snapshot config subject caller false perms
        && can_furnace snapshot config subject caller false perms)) [
          | inr stay ↦ rw stay (collect_and_play-NeedsNone state now)
          | inl enter ↦ rw enter (refl, tt)
        ]

  own_plan-NeedsNone :
      (state : PolicyState) (now : ℕ) (active : Bool)
      → All NeedsNone (plan_for snapshot config subject caller false perms state now active)
  unfolding plan_for
  own_plan-NeedsNone state now active =
      All-or_else NeedsNone _ (play snapshot config subject caller false perms state now) maintained
        (play-NeedsNone state now)
    where
      maintained : All NeedsNone (
          if has_desired_config config && (false && active)
          then maintenance subject perms config
          else [])
      maintained = elim (Bool-cases (has_desired_config config && (false && active))) [
        | inr off ↦ rw off tt
        | inl on ↦ cc (and_right (has_desired_config config) false on)
      ]

session_perms_scoped :
    (delegated : Bool) (delegation : Option DelegationContext) (now : ℕ)
    → is_delegation_active delegation now ≡ false
    → session_perms delegated delegation now ≡ 0
session_perms_scoped delegated none now h = refl
session_perms_scoped delegated (some d) now h = ground arith

by_mode :
    (subject : UserSnapshot) (c : CallerContext) (snapshot : Snapshot) (config : PolicyConfig)
    (state : PolicyState) (now : ℕ) (active delegated : Bool) (perms : ℕ)
    → (active ≡ false → perms ≡ 0)
    → All
        (IsAllowedBy subject c delegated active perms)
        (plan_for snapshot config subject c delegated perms state now active)
by_mode subject c snapshot config state now active true perms scoped =
    delegated_plan-Authorised subject active perms scoped snapshot config c state now
by_mode subject c snapshot config state now active false perms scoped =
    own_plan-NeedsNone snapshot config subject c perms state now active

has_bit : (perms bit : ℕ) → has_perm perms bit ≡ true → bit_and perms bit ≢ 0
unfolding has_perm
has_bit perms bit h e = ground (arith, h, e)

active_parts :
    (expiry time : ℕ)
    → (not (expiry == 0) && leb time expiry) ≡ true
    → (expiry ≢ 0) × (time ≤ expiry)
active_parts expiry time h = ((λ e. ground (arith, e, h)), ground arith)

-- The planner's activity and permissions come from the session's expiry and permissions.
covered :
    (subject : UserSnapshot) (c : CallerContext) (delegation : Option DelegationContext) (time : ℕ)
    (action : AgentAction)
    → IsGranted subject
        (is_delegation_active delegation time)
        (session_perms true delegation time)
        action
    → (d : DelegationContext) × (delegation ≡ some d) × IsGrantedBy subject d time action
unfolding is_delegation_active
covered subject c none time action (bit, needs, active, has) = cc
covered subject c (some d) time action (bit, needs, active, has) =
    let on = active_parts d.expiry time active in
    (d, refl, (on.0, on.1, bit, needs, has_bit d.perms bit (perms_of active has)))
  where
    perms_of :
        is_delegation_active (some d) time ≡ true
        → has_perm (session_perms true (some d) time) bit ≡ true
        → has_perm d.perms bit ≡ true
    perms_of on h = ground (arith, on, h)

action-IsAuthorised :
    (subject : UserSnapshot) (c : CallerContext) (delegated : Bool)
    (delegation : Option DelegationContext) (time : ℕ) (action : AgentAction)
    → IsAllowedBy subject c delegated
        (is_delegation_active delegation time)
        (session_perms delegated delegation time)
        action
    → IsAuthorised subject c delegated delegation time action
action-IsAuthorised subject c true delegation time action (inl granted) =
    inl (covered subject c delegation time action granted)
action-IsAuthorised subject c true delegation time action (inr own) = inr own
action-IsAuthorised subject c false delegation time action h = h

All-IsAuthorised :
    (subject : UserSnapshot) (c : CallerContext) (delegated : Bool)
    (delegation : Option DelegationContext) (time : ℕ) (xs : List AgentAction)
    → All
        (IsAllowedBy subject c delegated
          (is_delegation_active delegation time)
          (session_perms delegated delegation time))
        xs
    → All (IsAuthorised subject c delegated delegation time) xs
All-IsAuthorised subject c delegated delegation time [] h = tt
All-IsAuthorised subject c delegated delegation time (x ∷ xs) h = (
  action-IsAuthorised subject c delegated delegation time x h.0,
  All-IsAuthorised subject c delegated delegation time xs h.1,
)

-- Every action of a plan is authorised. When another account than the user signs, a session is given that has
-- an expiry, which the snapshot's block has not passed, and whose permissions have a bit that the action
-- needs on the managed user, or the action moves the signer's own bucket to the signer. When the user signs,
-- no action needs a session. That the session given is one of the managed user is not compared by the
-- planner, and not stated.
pub plan_with_user-IsAuthorised :
    (snapshot : Snapshot) (config : PolicyConfig) (state : PolicyState) (now : ℕ)
    (caller : Option CallerContext) (delegation : Option DelegationContext) (subject : UserSnapshot)
    → let c = caller_of subject caller in
      All
        (IsAuthorised subject c (is_delegated subject c) delegation snapshot.block_timestamp)
        (plan_with_user snapshot config state now caller delegation (some subject))
unfolding plan_with_user
plan_with_user-IsAuthorised snapshot config state now caller delegation subject =
    let c = caller_of subject caller in
    let delegated = is_delegated subject c in
    let time = snapshot.block_timestamp in
    All-IsAuthorised subject c delegated delegation time _ (
      by_mode subject c snapshot config state now (is_delegation_active delegation time) delegated
        (session_perms delegated delegation time) (session_perms_scoped delegated delegation time))
