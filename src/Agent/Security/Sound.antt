-- ===== src/Agent/Security/Sound.antt =====
-- What an action that passes the checks of agents/sdk/src/agent/actionSecurity.ts can do.
use claimrush.Prelude.{
  ◌≡◌, ◌⊎◌, inl, inr, refl, Bool, true, false, not, ◌&&◌, Option, none, some, List, [], Text,
  same_address, has_address, arith, if◌then◌else◌,
}
use claimrush.Prelude.Int.{ℤ, ◌≤ℤ◌}
use claimrush.Agent.Actions.{AgentAction}
use claimrush.Agent.Requirements.{DelegationRequirement, delegation_requirement}
use claimrush.Agent.Security.Types.{
  AgentExecutionSecurity, Reason, CheckResult, and_then, reject_if, is_false, is_on, is_empty,
  list_or, call_value_for_action,
}
use claimrush.Agent.Security.Check.{
  executor_check, check_agent_action_security, check_scope, check_call_value, check_approvals,
  check_withdrawals, spender_allow, nft_allow, zero_address, exceeds, value_exceeds, user_of,
}

abbrev IsWithin : ℤ → Option ℤ → Type 0
IsWithin v none = Unit
IsWithin v (some max) = v ≤ℤ max

-- The wei sent are within the cap.
abbrev pub IsCapped : AgentExecutionSecurity → Option ℤ → Type 0
IsCapped sec none = Unit
IsCapped sec (some v) = IsWithin v sec.max_call_value_wei

-- The managed user, if there is one and it is not the empty text, is on the list of users, unless any user is
-- allowed.
abbrev pub IsInScope : AgentExecutionSecurity → Option DelegationRequirement → Type 0
IsInScope sec none = Unit
IsInScope sec (some req) =
    (is_on sec.allow_any_delegated_user ≡ true)
    ⊎ ((is_empty req.user ≡ true)
        ⊎ (has_address (list_or sec.delegated_user_allowlist []) req.user ≡ true))

-- An approval is for an address on the list, and a token approval is within the cap.
abbrev pub IsApproval : AgentExecutionSecurity → List Text → AgentAction → Type 0
IsApproval sec contracts (AgentAction.erc20_approve _ spender amount) =
    ((is_on sec.allow_any_approval_spender ≡ true)
      ⊎ (has_address (spender_allow sec contracts) spender ≡ true))
    × IsWithin amount sec.max_approval_amount
IsApproval sec contracts (AgentAction.erc20_ensure_allowance _ spender _ amount) =
    ((is_on sec.allow_any_approval_spender ≡ true)
      ⊎ (has_address (spender_allow sec contracts) spender ≡ true))
    × IsWithin amount sec.max_approval_amount
IsApproval sec contracts (AgentAction.ve_approve spender _) =
    (is_on sec.allow_any_nft_operator ≡ true)
    ⊎ (has_address (nft_allow sec contracts) spender ≡ true)
IsApproval sec contracts (AgentAction.ve_set_approval_for_all operator _) =
    (is_on sec.allow_any_nft_operator ≡ true)
    ⊎ (has_address (nft_allow sec contracts) operator ≡ true)
IsApproval sec contracts other = Unit

-- The action is not the withdrawal of the king's bucket, and a refund goes to the signer or to an address
-- on the list, unless any address is allowed, and never to the zero address.
abbrev pub IsPayout : AgentExecutionSecurity → Text → AgentAction → Type 0
IsPayout sec signer (AgentAction.mine_core_withdraw_king_balance _) = ⊥
IsPayout sec signer (AgentAction.mine_core_withdraw_refund_balance _ to) =
    (same_address to zero_address ≡ false)
    × ((is_on sec.allow_third_party_withdrawals ≡ true)
        ⊎ ((same_address to signer ≡ true)
            ⊎ (has_address (list_or sec.withdrawal_recipient_allowlist []) to ≡ true)))
IsPayout sec signer other = Unit

pub reject_if-ok : (b : Bool) (reason : Reason) → reject_if b reason ≡ CheckResult.ok → b ≡ false
reject_if-ok true reason h = cc
reject_if-ok false reason h = refl

pub either :
    (on listed : Bool) (reason : Reason)
    → reject_if (not on && not listed) reason ≡ CheckResult.ok
    → (on ≡ true) ⊎ (listed ≡ true)
either true listed reason h = inl refl
either false true reason h = inr refl
either false false reason h = cc

pub enabled_branch :
    (off : Bool) (checks : CheckResult)
    → off ≡ false
    → (if off then CheckResult.ok else checks) ≡ CheckResult.ok
    → checks ≡ CheckResult.ok
enabled_branch true checks e h = cc
enabled_branch false checks e h = h

pub and_then-ok :
    (a b : CheckResult)
    → and_then a b ≡ CheckResult.ok
    → (a ≡ CheckResult.ok) × (b ≡ CheckResult.ok)
and_then-ok CheckResult.ok b h = (refl, h)
and_then-ok (CheckResult.rejected r) b h = cc
and_then-ok CheckResult.throws b h = cc

module _ (sec : AgentExecutionSecurity) where
  not_exceeds : (v : ℤ) (limit : Option ℤ) → exceeds v limit ≡ false → IsWithin v limit
  not_exceeds v none h = tt
  not_exceeds v (some max) h = ground arith

  value-IsCapped : (v : Option ℤ) → value_exceeds v sec.max_call_value_wei ≡ false → IsCapped sec v
  value-IsCapped none h = tt
  value-IsCapped (some v) h = not_exceeds v sec.max_call_value_wei h

  check_call_value-IsCapped :
      (action : AgentAction)
      → check_call_value sec action ≡ CheckResult.ok
      → IsCapped sec (call_value_for_action action)
  unfolding check_call_value
  check_call_value-IsCapped action h =
      value-IsCapped (call_value_for_action action) (reject_if-ok _ _ h)

  check_scope-IsInScope :
      (req : Option DelegationRequirement)
      → check_scope sec (user_of req) ≡ CheckResult.ok
      → IsInScope sec req
  unfolding check_scope
  check_scope-IsInScope none h = tt
  check_scope-IsInScope (some req) h = ground arith

  approval :
      (on listed : Bool) (amount : ℤ)
      → and_then
          (reject_if (not on && not listed) Reason.spender_not_allowed)
          (reject_if (exceeds amount sec.max_approval_amount) Reason.approval_above_cap)
        ≡ CheckResult.ok
      → ((on ≡ true) ⊎ (listed ≡ true)) × IsWithin amount sec.max_approval_amount
  approval on listed amount h =
      let parts = and_then-ok _ _ h in
      (either on listed _ parts.0, not_exceeds amount _ (reject_if-ok _ _ parts.1))

  check_approvals-IsApproval :
      (contracts : List Text) (action : AgentAction)
      → check_approvals sec contracts action ≡ CheckResult.ok
      → IsApproval sec contracts action
  unfolding check_approvals
  check_approvals-IsApproval contracts (AgentAction.erc20_approve _ spender amount) h =
      approval _ _ amount h
  check_approvals-IsApproval contracts (AgentAction.erc20_ensure_allowance _ spender _ amount) h =
      approval _ _ amount h
  check_approvals-IsApproval contracts (AgentAction.ve_approve spender _) h = either _ _ _ h
  check_approvals-IsApproval contracts (AgentAction.ve_set_approval_for_all operator _) h =
      either _ _ _ h
  check_approvals-IsApproval contracts other h = tt

  check_withdrawals-IsPayout :
      (signer : Text) (action : AgentAction)
      → check_withdrawals sec signer action ≡ CheckResult.ok
      → IsPayout sec signer action
  unfolding check_withdrawals
  check_withdrawals-IsPayout signer (AgentAction.mine_core_withdraw_king_balance _) h = cc
  check_withdrawals-IsPayout signer (AgentAction.mine_core_withdraw_refund_balance _ to) h =
      ground arith
  check_withdrawals-IsPayout signer other h = tt

-- An action that passes the executor's check, the policy not being switched off, sends no more wei than
-- the cap; unless the policy allows any, it acts only for a listed user (or for the empty text), approves
-- only listed addresses, and withdraws a refund only to the signer or to a listed address. A token
-- approval is within its cap, a refund never goes to the zero address, and the action is no withdrawal of
-- the king's bucket by its owner.
pub executor_check-IsSafe :
    (is_address : Text → Bool) (action : AgentAction) (contracts : List Text) (signer : Text)
    (sec : AgentExecutionSecurity)
    → is_false sec.enabled ≡ false
    → executor_check is_address action contracts signer sec ≡ CheckResult.ok
    → IsCapped sec (call_value_for_action action)
      × IsInScope sec (delegation_requirement action)
      × IsApproval sec contracts action
      × IsPayout sec signer action
unfolding executor_check check_agent_action_security
executor_check-IsSafe is_address action contracts signer sec on h =
    let shape = and_then-ok _ _ (and_then-ok _ _ (enabled_branch _ _ on h)).1 in
    let scope = and_then-ok _ _ shape.1 in
    let value = and_then-ok _ _ scope.1 in
    let approvals = and_then-ok _ _ value.1 in
    (
      check_call_value-IsCapped sec action value.0,
      check_scope-IsInScope sec (delegation_requirement action) scope.0,
      check_approvals-IsApproval sec contracts action approvals.0,
      check_withdrawals-IsPayout sec signer action approvals.1,
    )
