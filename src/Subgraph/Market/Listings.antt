-- ===== src/Subgraph/Market/Listings.antt =====
-- The handlers of listings: listed, delisted, settled, and sold to the Furnace; and the pause of trading
-- and the change of the parameters.
use claimrush.Prelude.{
  ℕ, Bool, true, false, ◌&&◌, not, Option, none, some, ◌∷◌, ◌==◌, if◌then◌else◌,
}
use claimrush.Prelude.Int.{pos}
use claimrush.Subgraph.Table.{Table, load, save}
use claimrush.Subgraph.Schema.{VeLock, MarketListing, Store, Meta, zero_address, Protocol}
use claimrush.Subgraph.Users.{load_or_create_user}
use claimrush.Subgraph.Locks.{load_or_create_ve_lock}
use claimrush.Subgraph.Market.{
  MarketStore, MarketChain, MarketRow, MarketActivity, resolve_ve_claim_nft_address,
  hydrate_ve_lock_if_needed, listing_price, note_market_router, load_or_create_listing,
  load_or_create_params,
}

abbrev pub listed_row : Meta → ℕ → ℕ → ℕ → ℕ → ℕ → MarketListing → MarketListing
listed_row m seller min_claim_out lock_amount listed_at expires_at row = record row {
  seller = seller;
  min_claim_out_wei = min_claim_out;
  price_bps = listing_price min_claim_out lock_amount;
  listed_at_time = listed_at;
  expires_at_time = expires_at;
  active = true;
  updated_at = m.timestamp;
}

abbrev pub with_listed : Bool → ℕ → VeLock → VeLock
with_listed listed now l = record l { listed = listed; updated_at = now }

abbrev pub closed_row : ℕ → MarketListing → MarketListing
closed_row now row = record row { active = false; updated_at = now }

-- The lock contract's address is noted too, as far as it can be resolved.
abbrev with_ve_claim_nft : ℕ → Protocol → Protocol
with_ve_claim_nft ve p = record p {
  ve_claim_nft =
      if (p.ve_claim_nft == zero_address) && not (ve == zero_address) then ve else p.ve_claim_nft;
}

unfoldable pub handle_lock_listed :
    MarketChain
    → Meta
    → (token_id seller min_claim_out listed_at expires_at : ℕ) → MarketStore
    → MarketStore
handle_lock_listed chain m token_id seller min_claim_out listed_at expires_at ms =
    let (p, ms1) = note_market_router chain m ms in
    let ve = resolve_ve_claim_nft_address chain m p.ve_claim_nft in
    let s = ms1.store in
    let now = m.timestamp in
    let (_, users) = load_or_create_user seller s.users in
    let (l, users1, locks) = load_or_create_ve_lock token_id seller now users s.locks in
    let l' = with_listed true now (hydrate_ve_lock_if_needed chain m token_id ve l) in
    let (row, users2, listings) = load_or_create_listing token_id seller now users1 s.listings in
    record ms1 {
      store = record s {
        protocol = some (with_ve_claim_nft ve p);
        users = users2;
        locks = save token_id l' locks;
        listings =
            save token_id (listed_row m seller min_claim_out l'.amount_wei listed_at expires_at row)
              listings;
      };
      rows = (m, MarketRow.listed token_id seller min_claim_out listed_at expires_at) ∷ ms1.rows;
    }

-- The listing is closed and the lock is no longer marked.
unfoldable pub unlist : Meta → ℕ → ℕ → Store → Store
unlist m token_id seller s =
    let now = m.timestamp in
    let (row, users, listings) = load_or_create_listing token_id seller now s.users s.listings in
    let (l, users1, locks) = load_or_create_ve_lock token_id seller now users s.locks in
    record s {
      users = (load_or_create_user seller users1).1;
      locks = save token_id (with_listed false now l) locks;
      listings = save token_id (closed_row now row) listings;
    }

abbrev price_before : Option MarketListing → Option ℕ
price_before none = none
price_before (some row) = if row.min_claim_out_wei == 0 then none else some row.min_claim_out_wei

unfoldable pub handle_lock_delisted :
    MarketChain → Meta → (token_id seller reason : ℕ) → MarketStore → MarketStore
handle_lock_delisted chain m token_id seller reason ms =
    let (_, ms1) = note_market_router chain m ms in
    let before = price_before (load token_id ms1.store.listings) in
    record ms1 {
      store = unlist m token_id seller ms1.store;
      rows = (m, MarketRow.delisted token_id seller reason before) ∷ ms1.rows;
    }

-- The seller's row is loaded or created first.
unfoldable pub with_seller : ℕ → Store → Store
with_seller seller s = record s { users = (load_or_create_user seller s.users).1 }

unfoldable pub handle_listing_settled :
    MarketChain → Meta → (token_id seller claim_out penalty : ℕ) → MarketStore → MarketStore
handle_listing_settled chain m token_id seller claim_out penalty ms =
    let (_, ms1) = note_market_router chain m ms in
    record ms1 {
      store = unlist m token_id seller (with_seller seller ms1.store);
      rows = (m, MarketRow.settled token_id seller claim_out penalty) ∷ ms1.rows;
      activity = (m, MarketActivity.listing_settled seller token_id claim_out) ∷ ms1.activity;
    }

-- A listing that is there is closed; none is created.
unfoldable pub close_stale : ℕ → ℕ → Table MarketListing → Table MarketListing
close_stale token_id now listings = elim (load token_id listings) [
  | none ↦ listings
  | some row ↦ save token_id (closed_row now row) listings
]

unfoldable pub sell_listed : Meta → ℕ → ℕ → Store → Store
sell_listed m token_id seller s =
    let now = m.timestamp in
    let (l, users, locks) = load_or_create_ve_lock token_id seller now s.users s.locks in
    record s {
      users = users;
      locks = save token_id (with_listed false now l) locks;
      listings = close_stale token_id now s.listings;
    }

unfoldable pub handle_market_sell_to_furnace :
    MarketChain
    → Meta
    → (token_id seller min_claim_out deadline claim_out : ℕ) → MarketStore
    → MarketStore
handle_market_sell_to_furnace chain m token_id seller min_claim_out deadline claim_out ms =
    let (_, ms1) = note_market_router chain m ms in
    record ms1 {
      store = sell_listed m token_id seller (with_seller seller ms1.store);
      rows =
          (m, MarketRow.sold_to_furnace token_id seller min_claim_out deadline claim_out)
          ∷ ms1.rows;
      activity =
          (m, MarketActivity.market_sell_to_furnace seller token_id claim_out) ∷ ms1.activity;
    }

unfoldable pub handle_trading_paused_changed : MarketChain → Meta → Bool → MarketStore → MarketStore
handle_trading_paused_changed chain m paused ms =
    let (p, ms1) = note_market_router chain m ms in
    record ms1 {
      store = record ms1.store { protocol = some (record p { trading_paused = paused }) };
    }

unfoldable pub handle_params_changed :
    MarketChain → Meta → (old_min new_min old_max new_max : ℕ) → MarketStore → MarketStore
handle_params_changed chain m old_min new_min old_max new_max ms =
    let (_, ms1) = note_market_router chain m ms in
    record ms1 {
      params = some (record (load_or_create_params ms1.params) {
        params_updated_at = m.timestamp;
        min_budget_claim_wei = new_min;
        max_discount_bps = pos new_max;
      });
      rows = (m, MarketRow.params_changed old_min new_min (pos old_max) (pos new_max)) ∷ ms1.rows;
    }
