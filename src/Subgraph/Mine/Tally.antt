-- ===== src/Subgraph/Mine/Tally.antt =====
-- The kings' aggregates against the history of takeovers and finalized reigns.
pub mod Steps
pub mod Run
use claimrush.Prelude.{
  ℕ, ◌+◌, ◌-◌, ◌%◌, ◌^◌, ◌≤◌, max, ◌≡◌, ◌≢◌, refl, sym, ◌∙◌, Bool, true, false, Option, none, some,
  List, [], ◌∷◌, arith, ◌==◌, ltb, if◌then◌else◌,
}
use claimrush.Subgraph.Schema.{User}
use claimrush.Subgraph.Users.Aggregate.{at}
use claimrush.Subgraph.Mine.{TakeoverId, Takeover, Finalized, MineStore}
use claimrush.Subgraph.Mine.Handlers.{reign_duration}

pub data Tally : Type 0 where
  takeovers_made eth_spent claim_mined longest_reign : Tally

-- What the user's row says.
abbrev pub of_row : Tally → User → ℕ
of_row takeovers_made u = u.takeover_count
of_row eth_spent u = u.eth_spent_on_takeovers_wei
of_row claim_mined u = u.king_claim_mined_wei
of_row longest_reign u = u.longest_reign_seconds

-- Placeholders are no takeovers.
abbrev pub made_by : ℕ → Takeover → ℕ
made_by u row = elim row.id [
  | TakeoverId.by_event m ↦ if u == row.new_king then 1 else 0
  | TakeoverId.missing r ↦ 0
]

abbrev pub count_made : ℕ → List Takeover → ℕ
count_made u [] = 0
count_made u (row ∷ rows) = made_by u row + count_made u rows

abbrev pub sum_spent : ℕ → List Takeover → ℕ
sum_spent u [] = 0
sum_spent u (row ∷ rows) = (if u == row.new_king then row.price_paid_wei else 0) + sum_spent u rows

abbrev pub sum_mined : ℕ → List Finalized → ℕ
sum_mined u [] = 0
sum_mined u (row ∷ rows) = (if u == row.of_king then row.claim_mined_wei else 0) + sum_mined u rows

abbrev pub longest_of : ℕ → List Finalized → ℕ
longest_of u [] = 0
longest_of u (row ∷ rows) =
    max (if u == row.of_king then reign_duration row.from_time row.to_time else 0)
      (longest_of u rows)

-- What the history says: the takeovers made (in 32 bits), the ETH paid for them, the CLAIM mined as
-- king, and the longest reign.
abbrev pub of_history : Tally → ℕ → MineStore → ℕ
of_history takeovers_made u ms = count_made u ms.takeovers % 2 ^ 32
of_history eth_spent u ms = sum_spent u ms.takeovers
of_history claim_mined u ms = sum_mined u ms.finalized
of_history longest_reign u ms = longest_of u ms.finalized

-- Every row agrees with the history.
unfoldable pub IsTallied : MineStore → Type 0
IsTallied ms = (q : Tally) (u : ℕ) → at (of_row q) u ms.store.users ≡ of_history q u ms
