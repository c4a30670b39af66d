-- ===== src/Agent/Policy/Value.antt =====
-- What it means for an action of agents/sdk/src/agent/policy.ts to spend ETH, and the sum that a plan spends.
use claimrush.Prelude.{
  ℕ, ◌+◌, ◌*◌, ◌≤◌, ◌≡◌, refl, Bool, true, false, Option, none, some, List, [], ◌∷◌, ◌++◌, All,
  same_address,
}
use claimrush.Prelude.Int.{ℤ, pos, ◌≤ℤ◌, ◌+ℤ◌, int_laws}
use claimrush.Agent.Actions.{AgentAction}
use claimrush.Agent.Security.Types.{call_value_for_action}
use claimrush.Agent.Policy.Types.{PolicyConfig, PolicyState, UserSnapshot, Snapshot}
use claimrush.Agent.Policy.Maintenance.{when}

abbrev pub IsCooledDown : ℕ → Option ℕ → ℕ → Type 0
IsCooledDown seconds none now = Unit
IsCooledDown seconds (some last) now = last + seconds * 1000 ≤ now

-- A bid at the current price that the configuration and the balance allow, at a time when takeovers are
-- open, the user is not king and the cooldown is over.
abbrev pub IsBid : Snapshot → PolicyConfig → UserSnapshot → ℤ → PolicyState → ℕ → ℤ → Type 0
IsBid snapshot config subject balance state now price =
    (price ≡ snapshot.current_takeover_price)
    × (pos 1 ≤ℤ price)
    × (price ≤ℤ config.max_takeover_eth)
    × (price ≤ℤ balance)
    × (snapshot.takeovers_paused ≡ false)
    × (same_address snapshot.current_king subject.address ≡ false)
    × IsCooledDown config.takeover_cooldown_seconds state.last_takeover_at_ms now

-- An entry of the configured amount, which the balance covers, at a time when entries are enabled and
-- locking is open.
abbrev pub IsEntry : Snapshot → PolicyConfig → ℤ → ℤ → Type 0
IsEntry snapshot config balance eth_in =
    (eth_in ≡ config.furnace_eth_in)
    × (config.enable_furnace_entry ≡ true)
    × (pos 1 ≤ℤ eth_in)
    × (eth_in ≤ℤ balance)
    × (snapshot.locking_paused ≡ false)

-- An action that spends ETH is such a bid or such an entry, on behalf of the managed user.
abbrev pub IsSpending :
    Snapshot → PolicyConfig → UserSnapshot → ℤ → PolicyState → ℕ → AgentAction → Type 0
IsSpending snapshot config subject balance state now (AgentAction.mine_core_takeover price) =
    IsBid snapshot config subject balance state now price
IsSpending snapshot config subject balance state now
      (AgentAction.mine_core_takeover_for king price) =
    (king ≡ subject.address) × IsBid snapshot config subject balance state now price
IsSpending snapshot config subject balance state now
      (AgentAction.furnace_enter_with_eth eth_in _ _ _ _) =
    IsEntry snapshot config balance eth_in
IsSpending snapshot config subject balance state now
      (AgentAction.furnace_enter_with_eth_for user eth_in _ _ _ _) =
    (user ≡ subject.address) × IsEntry snapshot config balance eth_in
IsSpending snapshot config subject balance state now other = Unit

-- The wei that the actions send, together.
abbrev pub add_value : Option ℤ → ℤ → ℤ
add_value none total = total
add_value (some v) total = v +ℤ total

abbrev pub total_value : List AgentAction → ℤ
total_value [] = pos 0
total_value (action ∷ actions) = add_value (call_value_for_action action) (total_value actions)

abbrev pub IsFree : AgentAction → Type 0
IsFree action = call_value_for_action action ≡ none

pub total-append :
    (xs ys : List AgentAction) → All IsFree xs → total_value (xs ++ ys) ≡ total_value ys
total-append [] ys h = refl
total-append (x ∷ xs) ys h = rw (h.0) (total-append xs ys h.1)

pub total-free : (xs : List AgentAction) → All IsFree xs → total_value xs ≡ pos 0
total-free [] h = refl
total-free (x ∷ xs) h = rw (h.0) (total-free xs h.1)

pub when_fits :
    (balance v : ℤ) (b : Bool) (action : AgentAction)
    → pos 0 ≤ℤ balance
    → call_value_for_action action ≡ some v
    → (b ≡ true → v ≤ℤ balance)
    → total_value (when b action) ≤ℤ balance
when_fits balance v false action h e fits = h
when_fits balance v true action h e fits = rw e (sum_fits (fits refl))
  where
    sum_fits : v ≤ℤ balance → (v +ℤ pos 0) ≤ℤ balance
    sum_fits k = grind int_laws
