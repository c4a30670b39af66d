-- ===== src/Subgraph/Market/Keepers.antt =====
-- The keepers that may settle listings: handleSettlementKeeperSet.
use claimrush.Prelude.{ℕ, Bool, ◌∷◌}
use claimrush.Subgraph.Table.{save}
use claimrush.Subgraph.Schema.{Meta}
use claimrush.Subgraph.Market.{
  MarketChain, MarketStore, MarketRow, SettlementKeeper, note_market_router,
}
use claimrush.Subgraph.Market.Listings.{with_seller}

-- All fields of the row are written, so that a new row and a known one come out the same.
abbrev keeper_row : Meta → ℕ → Bool → SettlementKeeper
keeper_row m keeper allowed = record {
  keeper = keeper;
  allowed = allowed;
  updated_at = m.timestamp;
}

unfoldable pub handle_settlement_keeper_set :
    MarketChain → Meta → ℕ → Bool → MarketStore → MarketStore
handle_settlement_keeper_set chain m keeper allowed ms =
    let (_, ms1) = note_market_router chain m ms in
    record ms1 {
      store = with_seller keeper ms1.store;
      keepers = save keeper (keeper_row m keeper allowed) ms1.keepers;
      rows = (m, MarketRow.keeper_set keeper allowed) ∷ ms1.rows;
    }
