-- ===== src/Subgraph/Market/Events.antt =====
-- The events of the router and of the lock contract in one run, and what the contracts promise of them.
use claimrush.Prelude.{ℕ, ◌≡◌, Bool, true, false, some, List, [], ◌∷◌}
use claimrush.Subgraph.Table.{load}
use claimrush.Subgraph.Schema.{VeLock, Meta}
use claimrush.Subgraph.Users.{note_ve_claim_nft}
use claimrush.Subgraph.Locks.{Chain}
use claimrush.Subgraph.Locks.Transfer.{from_is_furnace}
use claimrush.Subgraph.Locks.Events.{LockEvent, Owns, handle, IsEmitted}
use claimrush.Subgraph.Market.{MarketChain, MarketStore}
use claimrush.Subgraph.Market.Listings.{
  handle_lock_listed, handle_lock_delisted, handle_listing_settled, handle_market_sell_to_furnace,
  handle_trading_paused_changed, handle_params_changed,
}
use claimrush.Subgraph.Market.Keepers.{handle_settlement_keeper_set}
use claimrush.Subgraph.Market.Escrows.{EscrowStore}
use claimrush.Subgraph.Market.Escrows.Events.{EscrowEvent, handle_escrow}

pub data BookEvent : Type 0 where
  escrow_event : EscrowEvent → BookEvent
  lock_event : LockEvent → BookEvent
  lock_listed : (token_id seller min_claim_out listed_at expires_at : ℕ) → BookEvent
  lock_delisted : (token_id seller reason : ℕ) → BookEvent
  listing_settled_event : (token_id seller claim_out penalty : ℕ) → BookEvent
  market_sell : (token_id seller min_claim_out deadline claim_out : ℕ) → BookEvent
  trading_paused_changed : Bool → BookEvent
  settlement_keeper_set : (keeper : ℕ) → Bool → BookEvent
  router_params_changed : (old_min new_min old_max new_max : ℕ) → BookEvent

-- Of the whole state only the part that the event concerns changes.
unfoldable pub handle_event : Chain → MarketChain → Meta → BookEvent → EscrowStore → EscrowStore
handle_event c k m (BookEvent.lock_event e) es = record es {
  market = record es.market { store = handle c m e es.market.store };
}
handle_event c k m (BookEvent.lock_listed t u x at end) es = record es {
  market = handle_lock_listed k m t u x at end es.market;
}
handle_event c k m (BookEvent.lock_delisted t u why) es = record es {
  market = handle_lock_delisted k m t u why es.market;
}
handle_event c k m (BookEvent.listing_settled_event t u x fee) es = record es {
  market = handle_listing_settled k m t u x fee es.market;
}
handle_event c k m (BookEvent.market_sell t u x by got) es = record es {
  market = handle_market_sell_to_furnace k m t u x by got es.market;
}
handle_event c k m (BookEvent.trading_paused_changed paused) es = record es {
  market = handle_trading_paused_changed k m paused es.market;
}
handle_event c k m (BookEvent.router_params_changed a b a' b') es = record es {
  market = handle_params_changed k m a b a' b' es.market;
}
handle_event c k m (BookEvent.settlement_keeper_set u allowed) es = record es {
  market = handle_settlement_keeper_set k m u allowed es.market;
}
handle_event c k m (BookEvent.escrow_event e) es = handle_escrow k m e es

unfoldable pub run_events :
    Chain → MarketChain → List (Meta × BookEvent) → EscrowStore → EscrowStore
run_events c k [] es = es
run_events c k ((m, e) ∷ events) es = run_events c k events (handle_event c k m e es)

-- Besides what holds of every lock event: the Furnace burns and sells no lock that is marked as listed.
abbrev pub IsQuiet : Chain → Meta → LockEvent → MarketStore → Type 0
IsQuiet c m (LockEvent.transfer from to t) ms =
    (l : VeLock)
    → load t ms.store.locks ≡ some l
    → from_is_furnace c m (note_ve_claim_nft c.network m ms.store).0 from ≡ true
    → l.listed ≡ false
IsQuiet c m (LockEvent.lock_sold_to_furnace f t) ms =
    (l : VeLock) → load t ms.store.locks ≡ some l → l.listed ≡ false
IsQuiet c m other ms = Unit

-- A lock is listed by its owner, and what is delisted, settled or sold is a lock.
abbrev pub IsPromised : Chain → Meta → BookEvent → MarketStore → Type 0
IsPromised c m (BookEvent.lock_event e) ms = IsEmitted e ms.store × IsQuiet c m e ms
IsPromised c m (BookEvent.lock_listed t u x at end) ms = Owns u t ms.store
IsPromised c m (BookEvent.lock_delisted t u why) ms =
    (l : VeLock) × (load t ms.store.locks ≡ some l)
IsPromised c m (BookEvent.listing_settled_event t u x fee) ms =
    (l : VeLock) × (load t ms.store.locks ≡ some l)
IsPromised c m (BookEvent.market_sell t u x by got) ms =
    (l : VeLock) × (load t ms.store.locks ≡ some l)
IsPromised c m other ms = Unit

unfoldable pub IsPromisedRun : Chain → MarketChain → List (Meta × BookEvent) → EscrowStore → Type 0
IsPromisedRun c k [] es = Unit
IsPromisedRun c k ((m, e) ∷ events) es =
    IsPromised c m e es.market × IsPromisedRun c k events (handle_event c k m e es)
