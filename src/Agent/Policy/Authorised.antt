-- ===== src/Agent/Policy/Authorised.antt =====
-- What authorises an action that the planner of agents/sdk/src/agent/policy.ts proposes.
use Prim.Native.Nat.{bit_and}
use claimrush.Prelude.{
  ℕ, ◌≤◌, ◌≡◌, ◌≢◌, Option, ◌⊎◌, inl, refl, Bool, true, false, ◌&&◌, none, some, List, [], ◌∷◌, All,
  arith, if◌then◌else◌,
}
use claimrush.Agent.Actions.{AgentAction}
use claimrush.Agent.Permissions.{has_perm}
use claimrush.Agent.Requirements.{delegation_requirement}
use claimrush.Agent.Policy.Types.{CallerContext, DelegationContext, UserSnapshot}
use claimrush.Agent.Policy.Maintenance.{when}
use claimrush.Agent.Policy.Plan.{or_else}

-- The action needs a session of the user, the session is active, and it grants the permission needed.
abbrev pub IsGranted : UserSnapshot → Bool → ℕ → AgentAction → Type 0
IsGranted subject active perms action =
    (bit : ℕ) × (delegation_requirement action
      ≡ some (record { user = subject.address; required_perms = bit }))
    × (active ≡ true)
    × (has_perm perms bit ≡ true)

-- The action moves the signer's own bucket to the signer.
abbrev pub IsOwnWithdrawal : CallerContext → AgentAction → Type 0
IsOwnWithdrawal caller action =
    (action
      ≡ AgentAction.mine_core_withdraw_refund_balance caller.mine_core_refund_eth_balance
          caller.address)
    ⊎ (action ≡ AgentAction.mine_core_withdraw_king_balance caller.mine_core_king_eth_balance)

-- What a section of the plan may propose on behalf of another user, and for oneself, given the session's
-- activity and permissions as the planner computes them.
abbrev pub IsAllowedBy : UserSnapshot → CallerContext → Bool → Bool → ℕ → AgentAction → Type 0
IsAllowedBy subject caller true active perms action =
    IsGranted subject active perms action ⊎ IsOwnWithdrawal caller action
IsAllowedBy subject caller false active perms action = delegation_requirement action ≡ none

-- The session has an expiry, the block's time is no later, and a bit that the action needs on the user is
-- among its permissions.
abbrev pub IsGrantedBy : UserSnapshot → DelegationContext → ℕ → AgentAction → Type 0
IsGrantedBy subject d time action =
    (d.expiry ≢ 0)
    × (time ≤ d.expiry)
    × (bit : ℕ) × (delegation_requirement action
        ≡ some (record { user = subject.address; required_perms = bit }))
    × (bit_and d.perms bit ≢ 0)

-- What authorises an action that another account signs, with the session that is given, and one that the
-- user signs.
abbrev pub IsAuthorised :
    UserSnapshot → CallerContext → Bool → Option DelegationContext → ℕ → AgentAction → Type 0
IsAuthorised subject caller true delegation time action =
    ((d : DelegationContext) × (delegation ≡ some d) × IsGrantedBy subject d time action)
    ⊎ IsOwnWithdrawal caller action
IsAuthorised subject caller false delegation time action = delegation_requirement action ≡ none

-- `All` over a conditional action and over a choice of lists.
pub All-when :
    (P : AgentAction → Type 0) (b : Bool) (action : AgentAction)
    → (b ≡ true → P action)
    → All P (when b action)
All-when P true action h = (h refl, tt)
All-when P false action h = tt

pub All-or_else :
    (P : AgentAction → Type 0) (xs ys : List AgentAction)
    → All P xs
    → All P ys
    → All P (or_else xs ys)
All-or_else P [] ys hx hy = hy
All-or_else P (x ∷ xs) ys hx hy = hx

pub and_left : (a b : Bool) → (a && b) ≡ true → a ≡ true
and_left a b h = ground arith

pub and_right : (a b : Bool) → (a && b) ≡ true → b ≡ true
and_right a b h = ground arith

pub All-left :
    (subject : UserSnapshot) (caller : CallerContext) (active : Bool) (perms : ℕ)
    (xs : List AgentAction)
    → All (IsGranted subject active perms) xs
    → All (IsAllowedBy subject caller true active perms) xs
All-left subject caller active perms [] h = tt
All-left subject caller active perms (x ∷ xs) h =
    (inl h.0, All-left subject caller active perms xs h.1)

pub All-if :
    (P : AgentAction → Type 0) (b : Bool) (xs ys : List AgentAction)
    → All P xs
    → All P ys
    → All P (if b then xs else ys)
All-if P true xs ys hx hy = hx
All-if P false xs ys hx hy = hy
