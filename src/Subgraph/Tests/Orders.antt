-- ===== src/Subgraph/Tests/Orders.antt =====
-- A lock is listed, an escrow is executed with it, and it is transferred.
use claimrush.Prelude.{◌≡◌, ◌≢◌, refl, inl, Bool, true, false, Option, none, some, List, [], ◌∷◌}
use claimrush.Subgraph.Table.{load}
use claimrush.Subgraph.Schema.{Meta, Network, MarketListing}
use claimrush.Subgraph.Users.{load_or_create_protocol, load_or_create_user, note_ve_claim_nft}
use claimrush.Subgraph.Locks.{fetch_user, load_or_create_ve_lock, close_listing, close_active}
use claimrush.Subgraph.Locks.Lifecycle.{handle_lock_created}
use claimrush.Subgraph.Locks.Transfer.{move_lock, handle_transfer, from_is_furnace}
use claimrush.Subgraph.Locks.Events.{LockEvent, handle}
use claimrush.Subgraph.Market.{
  MarketStore, MarketChain, note_market_router, load_or_create_listing, hydrate_ve_lock_if_needed,
}
use claimrush.Subgraph.Market.Listings.{handle_lock_listed, with_seller}
use claimrush.Subgraph.Market.Events.{BookEvent, handle_event, run_events, IsPromisedRun}
use claimrush.Subgraph.Market.Coherence.{IsCoherent}
use claimrush.Subgraph.Market.Coherence.Lists.{IsBookCoherent}
use claimrush.Subgraph.Market.Coherence.Run.{run_events-IsBookCoherent}
use claimrush.Subgraph.Tests.{empty_store, test_chain, at_time}
use claimrush.Subgraph.Market.Escrows.{
  EscrowStore, load_or_create_offer, close_offer_after_execution,
}
use claimrush.Subgraph.Market.Escrows.Handlers.{
  open_event, note_offer, record_execution, take_off_market, unmark, handle_escrow_created,
  handle_escrow_executed,
}
use claimrush.Subgraph.Market.Escrows.Events.{EscrowEvent, handle_escrow}

abbrev pub market_chain : MarketChain
market_chain = record {
  network = Network.base_mainnet;
  try_ve = λ router block. some 500;
  try_min_budget = λ router block. none;
  try_max_discount = λ router block. none;
  try_lock_info = λ ve block token. none;
}

abbrev empty_market : MarketStore
empty_market = record { store = empty_store; params = none; keepers = []; rows = []; activity = [] }

abbrev pub empty_escrows : EscrowStore
empty_escrows = record {
  market = empty_market;
  offers = [];
  offer_events = [];
  executions = [];
  offer_activity = [];
  furnace_enters = [];
}

abbrev listing_run : List (Meta × BookEvent)
listing_run =
    (at_time 100, BookEvent.lock_event (LockEvent.lock_created 7 1 1000 31536100 false))
    ∷ (at_time 101, BookEvent.lock_listed 1 7 900 101 5000)
    ∷ (
      at_time 102,
      BookEvent.escrow_event (EscrowEvent.escrow_created 3 9 500 2000 102 86400 false 900 1),
    )
    ∷ (
      at_time 103,
      BookEvent.escrow_event (EscrowEvent.escrow_executed none 3 9 2000 1900 190 2090 1 4),
    )
    ∷ (at_time 104, BookEvent.lock_event (LockEvent.transfer 7 8 1))
    ∷ []

never : false ≢ true
never e = cc

listing_run-IsPromisedRun : IsPromisedRun test_chain market_chain listing_run empty_escrows
unfolding IsPromisedRun handle_event handle_escrow handle_escrow_created handle_escrow_executed
    record_execution note_offer open_event with_seller unmark take_off_market load_or_create_offer
    close_offer_after_execution handle handle_lock_created handle_lock_listed note_market_router
    load_or_create_listing hydrate_ve_lock_if_needed handle_transfer move_lock note_ve_claim_nft
    load_or_create_protocol load_or_create_user fetch_user load_or_create_ve_lock from_is_furnace
listing_run-IsPromisedRun = (
  (refl, tt),
  (
    (_, refl, refl),
    (tt, (tt, (((λ given differ. inl (_, refl, refl)), (λ l e no. absurd (never no))), tt))),
  ),
)

empty-IsBookCoherent : IsBookCoherent empty_escrows.market.store
unfolding IsBookCoherent IsCoherent
empty-IsBookCoherent = λ t row e on. cc

run_events-IsBookCoherent_example :
    IsBookCoherent (run_events test_chain market_chain listing_run empty_escrows).market.store
run_events-IsBookCoherent_example =
    run_events-IsBookCoherent test_chain market_chain listing_run empty_escrows
      listing_run-IsPromisedRun empty-IsBookCoherent

abbrev is_shown : Option MarketListing → Bool
is_shown none = false
is_shown (some row) = row.active

-- At the end the listing is there and closed.
listing_run_leaves :
    is_shown
      (load 1 (run_events test_chain market_chain listing_run empty_escrows).market.store.listings)
    ≡ false
unfolding run_events handle_event handle_escrow handle_escrow_created handle_escrow_executed
    record_execution note_offer open_event with_seller unmark take_off_market load_or_create_offer
    close_offer_after_execution handle handle_lock_created handle_lock_listed note_market_router
    load_or_create_listing hydrate_ve_lock_if_needed handle_transfer move_lock note_ve_claim_nft
    load_or_create_protocol load_or_create_user fetch_user load_or_create_ve_lock close_listing
    close_active
listing_run_leaves = refl
