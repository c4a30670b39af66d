-- ===== src/Subgraph/Tests/Kings.antt =====
-- Two takeovers and the reign between them.
use claimrush.Prelude.{◌≡◌, refl, List, [], ◌∷◌}
use claimrush.Subgraph.Schema.{Meta, Network}
use claimrush.Subgraph.Users.{load_or_create_protocol, load_or_create_user}
use claimrush.Subgraph.Users.Aggregate.{at}
use claimrush.Subgraph.Mine.{MineStore, note_mine_core, add_activity}
use claimrush.Subgraph.Mine.Handlers.{handle_takeover, handle_reign_finalized}
use claimrush.Subgraph.Mine.Events.{MineEvent, handle_mine, run_mine}
use claimrush.Subgraph.Mine.Tally.{Tally, of_row, IsTallied}
use claimrush.Subgraph.Mine.Tally.Run.{run_mine-IsTallied}
use claimrush.Subgraph.Tests.{empty_store, at_time}

abbrev empty_mine : MineStore
empty_mine = record {
  store = empty_store;
  reigns = [];
  takeovers = [];
  finalized = [];
  recipients = [];
  recipients_set = [];
  activity = [];
  payouts = [];
}

abbrev king_run : List (Meta × MineEvent)
king_run =
    (at_time 100, MineEvent.taken_over 1 0 7 30 40 100)
    ∷ (at_time 160, MineEvent.finalized 1 7 100 160 5 6)
    ∷ (at_time 160, MineEvent.taken_over 2 7 8 50 60 160)
    ∷ (at_time 170, MineEvent.taken_over 3 8 7 70 80 170)
    ∷ []

empty-IsTallied : IsTallied empty_mine
unfolding IsTallied
empty-IsTallied Tally.takeovers_made u = refl
empty-IsTallied Tally.eth_spent u = refl
empty-IsTallied Tally.claim_mined u = refl
empty-IsTallied Tally.longest_reign u = refl

run_mine-IsTallied_example : IsTallied (run_mine Network.base_mainnet king_run empty_mine)
run_mine-IsTallied_example =
    run_mine-IsTallied Network.base_mainnet king_run empty_mine empty-IsTallied

-- User 7 paid 30 and 70 and reigned for 60 seconds.
king_run_leaves :
    (at (of_row Tally.eth_spent) 7 (run_mine Network.base_mainnet king_run empty_mine).store.users
      ≡ 100)
    × (at
          (of_row Tally.longest_reign)
          7
          (run_mine Network.base_mainnet king_run empty_mine).store.users
        ≡ 60)
unfolding run_mine handle_mine handle_takeover handle_reign_finalized note_mine_core add_activity
    load_or_create_protocol load_or_create_user
king_run_leaves = (refl, refl)
