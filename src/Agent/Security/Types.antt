-- ===== src/Agent/Security/Types.antt =====
-- The configuration and the results of agents/sdk/src/agent/actionSecurity.ts. An optional field is an
-- `Option`. What a message says is a `Reason`.
use claimrush.Prelude.{
  Bool, true, false, not, ◌&&◌, Option, none, some, List, [], ◌∷◌, Text, includes, lower,
  if◌then◌else◌,
}
use claimrush.Prelude.Int.{ℤ}
use claimrush.Agent.Actions.{AgentAction}
use claimrush.Agent.Addresses.{AddressKey}
use claimrush.Agent.Bigints.{BigintKey}

pub record AgentExecutionSecurity : Type 0 where
  pub enabled : Option Bool
  pub allowed_action_kinds : Option (List Text)
  pub denied_action_kinds : Option (List Text)
  pub delegated_user_allowlist : Option (List Text)
  pub allow_any_delegated_user : Option Bool
  pub approval_spender_allowlist : Option (List Text)
  pub allow_any_approval_spender : Option Bool
  pub nft_operator_allowlist : Option (List Text)
  pub allow_any_nft_operator : Option Bool
  pub allow_third_party_withdrawals : Option Bool
  pub withdrawal_recipient_allowlist : Option (List Text)
  pub max_call_value_wei : Option ℤ
  pub max_approval_amount : Option ℤ
  pub max_slippage_bps : Option ℤ
  pub validate_inputs : Option Bool
  pub allow_large_seconds : Option Bool

pub data Reason : Type 0 where
  kind_not_allowed kind_denied : Reason
  invalid_address : AddressKey → Reason
  negative too_large_bps too_large_seconds : BigintKey → Reason
  invalid_number invalid_mode out_of_scope value_above_cap : Reason
  spender_not_allowed approval_above_cap operator_not_allowed : Reason
  zero_recipient recipient_not_allowed : Reason

-- `throws` is a TypeError that leaves the function.
pub data CheckResult : Type 0 where
  ok : CheckResult
  rejected : Reason → CheckResult
  throws : CheckResult

-- `if (!check.ok) return check;`
abbrev pub and_then : CheckResult → CheckResult → CheckResult
and_then CheckResult.ok next = next
and_then (CheckResult.rejected r) next = CheckResult.rejected r
and_then CheckResult.throws next = CheckResult.throws

abbrev pub reject_if : Bool → Reason → CheckResult
reject_if b reason = if b then CheckResult.rejected reason else CheckResult.ok

-- `flag === false`
abbrev pub is_false : Option Bool → Bool
is_false none = false
is_false (some b) = not b

-- The flag's truth.
abbrev pub is_on : Option Bool → Bool
is_on none = false
is_on (some b) = b

abbrev pub is_empty {ℓ} : {A : Type ℓ} → List A → Bool
is_empty [] = true
is_empty (x ∷ xs) = false

-- `list ?? fallback`
abbrev pub list_or : Option (List Text) → List Text → List Text
list_or none fallback = fallback
list_or (some xs) fallback = xs

-- `list.filter(Boolean)`
abbrev pub non_empty : List Text → List Text
non_empty [] = []
non_empty (x ∷ xs) = if is_empty x then non_empty xs else x ∷ non_empty xs

unfoldable pub is_action_kind_allowed : Text → AgentExecutionSecurity → CheckResult
is_action_kind_allowed kind sec =
    let allowed = non_empty (list_or sec.allowed_action_kinds []) in
    let denied = non_empty (list_or sec.denied_action_kinds []) in
    and_then
      (reject_if (not (is_empty allowed) && not (includes allowed kind)) Reason.kind_not_allowed)
      (reject_if (not (is_empty denied) && includes denied kind) Reason.kind_denied)

-- The wei that the call for an action sends.
unfoldable pub call_value_for_action : AgentAction → Option ℤ
call_value_for_action (AgentAction.mine_core_takeover price) = some price
call_value_for_action (AgentAction.mine_core_takeover_for _ price) = some price
call_value_for_action (AgentAction.furnace_enter_with_eth eth_in _ _ _ _) = some eth_in
call_value_for_action (AgentAction.furnace_enter_with_eth_for _ eth_in _ _ _ _) = some eth_in
call_value_for_action other = none

-- Lower case, each address once, empty ones dropped. `seen` is the set of those in the result.
abbrev uniq_from : List Text → List Text → List Text
uniq_from seen [] = []
uniq_from seen (a ∷ addrs) = elim (is_empty (lower a)) [
  | true ↦ uniq_from seen addrs
  | false ↦ elim (includes seen (lower a)) [
    | true ↦ uniq_from seen addrs
    | false ↦ lower a ∷ uniq_from (lower a ∷ seen) addrs
  ]
]

unfoldable pub uniq_addrs : List Text → List Text
uniq_addrs addrs = uniq_from [] addrs

-- The addresses of the manifest's contracts.
unfoldable pub derive_manifest_contract_allowlist : List Text → List Text
unfolding uniq_addrs
derive_manifest_contract_allowlist contracts = uniq_addrs contracts
