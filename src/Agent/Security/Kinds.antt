-- ===== src/Agent/Security/Kinds.antt =====
-- The lists of action kinds of agents/sdk/src/agent/actionSecurity.ts.
use claimrush.Prelude.{◌≡◌, ◌⊎◌, refl, Bool, true, false, not, ◌&&◌, List, [], ◌∷◌, Text, includes}
use claimrush.Agent.Actions.{AgentAction, kind_name}
use claimrush.Agent.Security.Types.{
  AgentExecutionSecurity, Reason, CheckResult, reject_if, is_false, is_empty, list_or, non_empty,
  is_action_kind_allowed,
}
use claimrush.Agent.Security.Check.{executor_check, check_agent_action_security}
use claimrush.Agent.Security.Sound.{and_then-ok, reject_if-ok, either, enabled_branch}

-- The kind is on the first list, if that has an entry, and not on the second.
abbrev IsKindAllowed : List Text → List Text → Text → Type 0
IsKindAllowed allowed denied kind =
    ((is_empty allowed ≡ true) ⊎ (includes allowed kind ≡ true)) × (includes denied kind ≡ false)

list_miss :
    (denied : List Text) (kind : Text) (reason : Reason)
    → reject_if (not (is_empty denied) && includes denied kind) reason ≡ CheckResult.ok
    → includes denied kind ≡ false
unfolding includes
list_miss [] kind reason h = refl
list_miss (d ∷ ds) kind reason h = reject_if-ok _ reason h

-- An action that passes the executor's check, the policy not being switched off, has a kind that is on the list
-- of allowed kinds, if one is configured, and not on the list of denied kinds.
executor_check-IsKindAllowed :
    (is_address : Text → Bool) (action : AgentAction) (contracts : List Text) (signer : Text)
    (sec : AgentExecutionSecurity)
    → is_false sec.enabled ≡ false
    → executor_check is_address action contracts signer sec ≡ CheckResult.ok
    → IsKindAllowed
        (non_empty (list_or sec.allowed_action_kinds []))
        (non_empty (list_or sec.denied_action_kinds []))
        (kind_name action)
unfolding executor_check check_agent_action_security is_action_kind_allowed
executor_check-IsKindAllowed is_address action contracts signer sec on h =
    let kinds = and_then-ok _ _ (and_then-ok _ _ (enabled_branch _ _ on h)).0 in
    (
      either _ _ _ kinds.0,
      list_miss (non_empty (list_or sec.denied_action_kinds [])) (kind_name action) _ kinds.1,
    )
