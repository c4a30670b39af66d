-- ===== src/Subgraph/Locks/Wiring.antt =====
-- The wiring events of the lock contract: the protocol's row keeps the Furnace and the router set last.
use claimrush.Prelude.{ℕ, some}
use claimrush.Subgraph.Schema.{Store, Meta}
use claimrush.Subgraph.Users.{note_ve_claim_nft}
use claimrush.Subgraph.Locks.{Chain}

unfoldable pub handle_furnace_changed : Chain → Meta → ℕ → Store → Store
handle_furnace_changed chain m new_furnace s =
    let (p, s1) = note_ve_claim_nft chain.network m s in
    record s1 { protocol = some (record p { furnace = new_furnace }) }

unfoldable pub handle_mine_market_changed : Chain → Meta → ℕ → Store → Store
handle_mine_market_changed chain m new_mine_market s =
    let (p, s1) = note_ve_claim_nft chain.network m s in
    record s1 { protocol = some (record p { market_router = new_mine_market }) }
