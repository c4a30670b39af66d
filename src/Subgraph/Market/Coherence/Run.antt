-- ===== src/Subgraph/Market/Coherence/Run.antt =====
-- The order book stays coherent over any run of the two contracts' events.
use claimrush.Subgraph.Table.{load}
use claimrush.Prelude.{ℕ, ◌≡◌, ◌⊎◌, inl, inr, some, List, [], ◌∷◌}
use claimrush.Subgraph.Schema.{Meta, Store, VeLock, zero_address}
use claimrush.Subgraph.Users.{load_or_create_protocol, note_ve_claim_nft}
use claimrush.Subgraph.Locks.{Chain}
use claimrush.Subgraph.Locks.Wiring.{handle_furnace_changed, handle_mine_market_changed}
use claimrush.Subgraph.Locks.Notices.{
  handle_slope_drift_clamped, handle_shareholder_checkpoint_failed,
}
use claimrush.Subgraph.Locks.Events.{LockEvent, handle, IsEmitted, Owns, IsBurnt}
use claimrush.Subgraph.Market.Escrows.{EscrowStore}
use claimrush.Subgraph.Market.Coherence.Escrows.{escrow-IsBookCoherent}
use claimrush.Subgraph.Market.{MarketChain, MarketStore, note_market_router}
use claimrush.Subgraph.Market.Listings.{
  handle_trading_paused_changed, handle_params_changed, with_seller,
}
use claimrush.Subgraph.Market.Keepers.{handle_settlement_keeper_set}
use claimrush.Subgraph.Market.Events.{
  BookEvent, handle_event, run_events, IsQuiet, IsPromised, IsPromisedRun,
}
use claimrush.Subgraph.Market.Coherence.Lists.{
  IsBookCoherent, handle_lock_listed-IsBookCoherent, handle_lock_delisted-IsBookCoherent,
  handle_listing_settled-IsBookCoherent, handle_market_sell_to_furnace-IsBookCoherent,
}
use claimrush.Subgraph.Market.Coherence.Locks.{
  created-IsBookCoherent, extended-IsBookCoherent, increased-IsBookCoherent,
  auto_max-IsBookCoherent, unlocked-IsBookCoherent, merged-IsBookCoherent, transfer-IsBookCoherent,
  sold-IsBookCoherent,
}

unlocked_lock_there :
    (u t x : ℕ) (s : Store)
    → IsEmitted (LockEvent.lock_unlocked u t x) s
    → (l : VeLock) × (load t s.locks ≡ some l)
unlocked_lock_there u t x s (inl (l, e, own, all)) = (l, e)
unlocked_lock_there u t x s (inr ((l, e, none_left, gone, no_power), free)) = (l, e)

sent_lock_there :
    (from to t : ℕ) (s : Store)
    → Owns from t s ⊎ ((to ≡ zero_address) × IsBurnt t s)
    → (l : VeLock) × (load t s.locks ≡ some l)
sent_lock_there from to t s (inl (l, e, own)) = (l, e)
sent_lock_there from to t s (inr (burnt, (l, e, none_left, gone, no_power))) = (l, e)

handle-IsBookCoherent :
    (c : Chain) (m : Meta) (e : LockEvent) (ms : MarketStore)
    → IsEmitted e ms.store
    → IsQuiet c m e ms
    → IsBookCoherent ms.store
    → IsBookCoherent (handle c m e ms.store)
unfolding handle handle_slope_drift_clamped handle_shareholder_checkpoint_failed
    handle_furnace_changed handle_mine_market_changed note_ve_claim_nft load_or_create_protocol
    IsBookCoherent
handle-IsBookCoherent c m (LockEvent.lock_created u t x end auto) ms new _ h =
    created-IsBookCoherent c m u t x end auto ms.store new h
handle-IsBookCoherent c m (LockEvent.lock_extended u t end) ms (l, e, own) _ h =
    extended-IsBookCoherent c m u t end ms.store l e own h
handle-IsBookCoherent c m (LockEvent.lock_amount_increased u t x) ms (l, e, own) _ h =
    increased-IsBookCoherent c m u t x ms.store l e own h
handle-IsBookCoherent c m (LockEvent.lock_merged u t k x) ms (ne, (l, e, own, all), (l', e', own'))
      _ h =
    merged-IsBookCoherent c m u t k x ms.store l l' ne e e' own' h
handle-IsBookCoherent c m (LockEvent.lock_unlocked u t x) ms emitted _ h =
    let (l, e) = unlocked_lock_there u t x ms.store emitted in
    unlocked-IsBookCoherent c m u t x ms.store l e h
handle-IsBookCoherent c m (LockEvent.auto_max_changed u t auto) ms (l, e, own) _ h =
    auto_max-IsBookCoherent c m u t auto ms.store l e h
handle-IsBookCoherent c m (LockEvent.transfer from to t) ms owns quiet h =
    transfer-IsBookCoherent c m from to t ms.store
      (λ given differ.
        let (l, e) = sent_lock_there from to t ms.store (owns given differ) in (l, e, quiet l e))
      h
handle-IsBookCoherent c m (LockEvent.lock_sold_to_furnace f t) ms sellable quiet h =
    sold-IsBookCoherent m f t ms.store quiet h
handle-IsBookCoherent c m LockEvent.slope_drift_clamped ms _ _ h = h
handle-IsBookCoherent c m (LockEvent.shareholder_checkpoint_failed a) ms _ _ h = h
handle-IsBookCoherent c m (LockEvent.furnace_changed a) ms _ _ h = h
handle-IsBookCoherent c m (LockEvent.mine_market_changed a) ms _ _ h = h

event-IsBookCoherent :
    (c : Chain) (k : MarketChain) (m : Meta) (e : BookEvent) (es : EscrowStore)
    → IsPromised c m e es.market
    → IsBookCoherent es.market.store
    → IsBookCoherent (handle_event c k m e es).market.store
unfolding handle_event handle_trading_paused_changed handle_params_changed
    handle_settlement_keeper_set with_seller note_market_router load_or_create_protocol
    IsBookCoherent
event-IsBookCoherent c k m (BookEvent.lock_event e) es (emitted, quiet) h =
    handle-IsBookCoherent c m e es.market emitted quiet h
event-IsBookCoherent c k m (BookEvent.lock_listed t u x at end) es (l, e, own) h =
    handle_lock_listed-IsBookCoherent k m t u x at end es.market l e own h
event-IsBookCoherent c k m (BookEvent.lock_delisted t u why) es (l, e) h =
    handle_lock_delisted-IsBookCoherent k m t u why es.market l e h
event-IsBookCoherent c k m (BookEvent.listing_settled_event t u x fee) es (l, e) h =
    handle_listing_settled-IsBookCoherent k m t u x fee es.market l e h
event-IsBookCoherent c k m (BookEvent.market_sell t u x by got) es (l, e) h =
    handle_market_sell_to_furnace-IsBookCoherent k m t u x by got es.market l e h
event-IsBookCoherent c k m (BookEvent.trading_paused_changed paused) es _ h = h
event-IsBookCoherent c k m (BookEvent.router_params_changed a b a' b') es _ h = h
event-IsBookCoherent c k m (BookEvent.settlement_keeper_set u allowed) es _ h = h
event-IsBookCoherent c k m (BookEvent.escrow_event e) es _ h = escrow-IsBookCoherent k m e es h

-- After any run of events that the router (its escrows included) and the lock contract can emit, each active
-- listing is of a lock in the store that is marked as listed and that the seller owns, when that held before
-- the run.
pub run_events-IsBookCoherent :
    (c : Chain) (k : MarketChain) (events : List (Meta × BookEvent)) (es : EscrowStore)
    → IsPromisedRun c k events es
    → IsBookCoherent es.market.store
    → IsBookCoherent (run_events c k events es).market.store
unfolding run_events IsPromisedRun
run_events-IsBookCoherent c k [] es _ h = h
run_events-IsBookCoherent c k ((m, e) ∷ events) es (ok, oks) h =
    run_events-IsBookCoherent c k events (handle_event c k m e es) oks
      (event-IsBookCoherent c k m e es ok h)
