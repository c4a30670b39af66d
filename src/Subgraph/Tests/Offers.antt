-- ===== src/Subgraph/Tests/Offers.antt =====
-- An escrow is created, configured, extended and executed.
use claimrush.Prelude.{ℕ, ◌≡◌, refl, false, Option, none, some, List, [], ◌∷◌, arith}
use claimrush.Subgraph.Table.{load}
use claimrush.Subgraph.Schema.{Meta}
use claimrush.Subgraph.Market.Escrows.{Offer, load_or_create_offer, close_offer_after_execution}
use claimrush.Subgraph.Market.Escrows.Handlers.{
  open_event, note_offer, resave_offer, record_execution, handle_escrow_created,
  handle_escrow_configured, handle_escrow_expiry_extended, handle_escrow_executed,
}
use claimrush.Subgraph.Market.Escrows.Events.{EscrowEvent, handle_escrow, run_escrows, IsTimelyRun}
use claimrush.Subgraph.Market.Escrows.Sound.{AllSound, run_escrows-AllSound}
use claimrush.Subgraph.Tests.{at_time}
use claimrush.Subgraph.Tests.Orders.{market_chain, empty_escrows}

abbrev escrow_run : List (Meta × EscrowEvent)
escrow_run =
    (at_time 100, EscrowEvent.escrow_created 3 7 500 2000 100 86400 false 900 0)
    ∷ (at_time 101, EscrowEvent.escrow_configured 3 7 1000 50)
    ∷ (at_time 102, EscrowEvent.escrow_extended 3 7 5000)
    ∷ (at_time 103, EscrowEvent.escrow_executed none 3 7 2000 1900 190 2090 0 4)
    ∷ []

escrow_run-IsTimelyRun : IsTimelyRun escrow_run
unfolding IsTimelyRun
escrow_run-IsTimelyRun = (tt, (tt, (omega arith, (tt, tt))))

empty-AllSound : AllSound empty_escrows
unfolding AllSound
empty-AllSound = λ k o e. cc

run_escrows-AllSound_example : AllSound (run_escrows market_chain escrow_run empty_escrows)
run_escrows-AllSound_example =
    run_escrows-AllSound market_chain escrow_run empty_escrows escrow_run-IsTimelyRun empty-AllSound

abbrev funds_of : Option Offer → Option ℕ
funds_of none = none
funds_of (some o) = o.funds_remaining_wei

abbrev price_of : Option Offer → Option ℕ
price_of none = none
price_of (some o) = some o.price_bps

-- A bonus of 1000 bps prices the offer at 9091 bps, and nothing is left after the execution.
escrow_run_leaves :
    (funds_of (load 3 (run_escrows market_chain escrow_run empty_escrows).offers) ≡ some 0)
    × (price_of (load 3 (run_escrows market_chain escrow_run empty_escrows).offers) ≡ some 9091)
unfolding run_escrows handle_escrow handle_escrow_created handle_escrow_configured
    handle_escrow_expiry_extended handle_escrow_executed record_execution note_offer open_event
    resave_offer load_or_create_offer close_offer_after_execution
escrow_run_leaves = (refl, refl)
