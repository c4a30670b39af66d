-- ===== src/Agent/Security/Inputs.antt =====
-- The fields of an action that passes `validateActionShape` of agents/sdk/src/agent/actionSecurity.ts.
use claimrush.Prelude.{
  ◌≡◌, ◌⊎◌, inl, inr, refl, Bool, true, false, not, ◌&&◌, List, [], ◌∷◌, Text, All, arith,
}
use claimrush.Prelude.Int.{ℤ, pos, ◌≤ℤ◌, ltb_ℤ, eqb_ℤ, eq_of_parts}
use claimrush.Agent.Actions.{AgentAction, Num}
use claimrush.Agent.Addresses.{AddressKey, address_entries}
use claimrush.Agent.Bigints.{BigintKey, bigint_entries}
use claimrush.Agent.Security.Types.{
  AgentExecutionSecurity, Reason, CheckResult, reject_if, is_false, is_on,
}
use claimrush.Agent.Security.Shape.{
  validate_action_shape, check_bigint, check_bigints, check_addresses, check_numbers, check_mode,
  max_bps, ends_with_bps, has_seconds, uint32_max,
}
use claimrush.Agent.Security.Check.{executor_check, check_agent_action_security}
use claimrush.Agent.Security.Sound.{and_then-ok, reject_if-ok, either, enabled_branch}

abbrev IsAtMost : Bool → ℤ → ℤ → Type 0
IsAtMost true v max = v ≤ℤ max
IsAtMost false v max = Unit

-- Not negative, at most the rate's maximum if it is a rate, and a uint32 if it is a number of seconds,
-- unless those are unlimited.
abbrev pub IsInRange : AgentExecutionSecurity → BigintKey × ℤ → Type 0
IsInRange sec (key, v) =
    (pos 0 ≤ℤ v)
    × IsAtMost (ends_with_bps key) v (max_bps sec.max_slippage_bps key)
    × IsAtMost (not (is_on sec.allow_large_seconds) && has_seconds key) v uint32_max

-- 0 or 1
abbrev pub IsMode : Num → Type 0
IsMode Num.not_integer = ⊥
IsMode (Num.int n) = (n ≡ pos 0) ⊎ (n ≡ pos 1)

abbrev pub HasMode : AgentAction → Type 0
HasMode (AgentAction.claim_all_helper_claim_shareholder_for_user _ _ mode _ _ _ _) = IsMode mode
HasMode (AgentAction.claim_all_helper_claim_all_for _ _ mode _ _ _ _) = IsMode mode
HasMode other = Unit

at_most : (guard : Bool) (v max : ℤ) → (guard && ltb_ℤ max v) ≡ false → IsAtMost guard v max
at_most true v max h = ground arith
at_most false v max h = tt

IsAtMost-both :
    (a b : Bool) (v max : ℤ) → (a && (b && ltb_ℤ max v)) ≡ false → IsAtMost (a && b) v max
IsAtMost-both true b v max h = at_most b v max h
IsAtMost-both false b v max h = tt

not_negative : (v : ℤ) → ltb_ℤ v (pos 0) ≡ false → pos 0 ≤ℤ v
not_negative v h = ground arith

reject_not-ok : (b : Bool) (reason : Reason) → reject_if (not b) reason ≡ CheckResult.ok → b ≡ true
reject_not-ok true reason h = refl
reject_not-ok false reason h = cc

check_mode-IsMode : (mode : Num) → check_mode mode ≡ CheckResult.ok → IsMode mode
check_mode-IsMode Num.not_integer h = cc
check_mode-IsMode (Num.int n) h = mode_cases (either _ _ _ h)
  where
    mode_cases : (eqb_ℤ n (pos 0) ≡ true) ⊎ (eqb_ℤ n (pos 1) ≡ true) → (n ≡ pos 0) ⊎ (n ≡ pos 1)
    mode_cases (inl e) = inl (eq_of_parts n (pos 0) (ground arith))
    mode_cases (inr e) = inr (eq_of_parts n (pos 1) (ground arith))

check_addresses-All :
    (is_address : Text → Bool) (es : List (AddressKey × Text))
    → check_addresses is_address es ≡ CheckResult.ok
    → All (λ e. is_address e.1 ≡ true) es
unfolding check_addresses
check_addresses-All is_address [] h = tt
check_addresses-All is_address (e ∷ es) h =
    let parts = and_then-ok _ _ h in
    (reject_not-ok _ _ parts.0, check_addresses-All is_address es parts.1)

check_bigint-IsInRange :
    (sec : AgentExecutionSecurity) (key : BigintKey) (v : ℤ)
    → check_bigint sec key v ≡ CheckResult.ok
    → IsInRange sec (key, v)
check_bigint-IsInRange sec key v h =
    let sign = and_then-ok _ _ h in
    let parts = and_then-ok _ _ sign.1 in
    (
      not_negative v (reject_if-ok _ _ sign.0),
      at_most (ends_with_bps key) v (max_bps sec.max_slippage_bps key) (reject_if-ok _ _ parts.0),
      IsAtMost-both _ _ v uint32_max (reject_if-ok _ _ parts.1),
    )

check_bigints-All :
    (sec : AgentExecutionSecurity) (es : List (BigintKey × ℤ))
    → check_bigints sec es ≡ CheckResult.ok
    → All (IsInRange sec) es
unfolding check_bigints
check_bigints-All sec [] h = tt
check_bigints-All sec ((key, v) ∷ es) h =
    let parts = and_then-ok _ _ h in
    (check_bigint-IsInRange sec key v parts.0, check_bigints-All sec es parts.1)

check_numbers-HasMode :
    (action : AgentAction) → check_numbers action ≡ CheckResult.ok → HasMode action
unfolding check_numbers
check_numbers-HasMode (AgentAction.claim_all_helper_claim_shareholder_for_user _ _ mode _ _ _ _) h =
    check_mode-IsMode mode h
check_numbers-HasMode (AgentAction.claim_all_helper_claim_all_for _ _ mode _ _ _ _) h =
    check_mode-IsMode mode h
check_numbers-HasMode other h = tt

-- An action that passes the executor's check, neither the policy nor the validation being switched off, has
-- addresses that viem accepts, amounts that are not negative, rates within their maximum, seconds that fit
-- in 32 bits unless they are unlimited, and a claim mode that is 0 or 1.
pub executor_check-fields :
    (is_address : Text → Bool) (action : AgentAction) (contracts : List Text) (signer : Text)
    (sec : AgentExecutionSecurity)
    → is_false sec.enabled ≡ false
    → is_false sec.validate_inputs ≡ false
    → executor_check is_address action contracts signer sec ≡ CheckResult.ok
    → All (λ e. is_address e.1 ≡ true) (address_entries action)
      × All (IsInRange sec) (bigint_entries action)
      × HasMode action
unfolding executor_check check_agent_action_security validate_action_shape
executor_check-fields is_address action contracts signer sec on validated h =
    let rest = and_then-ok _ _ (and_then-ok _ _ (enabled_branch _ _ on h)).1 in
    let shape = and_then-ok _ _ (enabled_branch _ _ validated rest.0) in
    let numbers = and_then-ok _ _ shape.1 in
    (
      check_addresses-All is_address (address_entries action) shape.0,
      check_bigints-All sec (bigint_entries action) numbers.0,
      check_numbers-HasMode action numbers.1,
    )
