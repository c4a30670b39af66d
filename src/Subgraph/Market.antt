-- ===== src/Subgraph/Market.antt =====
-- subgraph/src/mappings/marketRouter.ts: the state of its handlers and what they share.
pub mod Listings
pub mod Keepers
pub mod Events
pub mod Coherence
pub mod Escrows
use claimrush.Prelude.{
  ℕ, ◌+◌, ◌-◌, ◌*◌, ◌/◌, Bool, true, false, ◌||◌, ◌&&◌, not, Option, none, some, List, arith, ◌==◌,
  leb, if◌then◌else◌,
}
use claimrush.Prelude.Int.{ℤ, pos, negsuc, eqb_ℤ}
use claimrush.Subgraph.Table.{Table, load, save}
use claimrush.Subgraph.Schema.{
  VeLock, MarketListing, Store, Protocol, Network, Meta, zero_address, User,
}
use claimrush.Subgraph.Users.{load_or_create_protocol, load_or_create_user, set_bytes_if_zero}
use claimrush.Subgraph.Ve.{current_ve_wei}
use claimrush.Subgraph.Locks.Transfer.{is_local_network}

-- `type MarketRouterParams`; an unknown discount is -1.
pub record MarketRouterParams : Type 0 where
  pub params_updated_at : ℕ
  pub min_budget_claim_wei : ℕ
  pub max_discount_bps : ℤ

-- `type MarketSettlementKeeper`.
pub record SettlementKeeper : Type 0 where
  pub keeper : ℕ
  pub allowed : Bool
  pub updated_at : ℕ

-- The rows that the handlers append, an entity type each.
pub data MarketRow : Type 0 where
  listed : (token_id seller min_claim_out_wei listed_at_time expires_at_time : ℕ) → MarketRow
  delisted : (token_id seller reason : ℕ) → Option ℕ → MarketRow
  settled : (token_id seller claim_out_wei penalty_wei : ℕ) → MarketRow
  sold_to_furnace : (token_id seller min_claim_out_wei deadline claim_out_wei : ℕ) → MarketRow
  keeper_set : (keeper : ℕ) → Bool → MarketRow
  params_changed : (old_min new_min : ℕ) (old_max new_max : ℤ) → MarketRow

-- The items of the activity feed: the user, the token and the amount of CLAIM.
pub data MarketActivity : Type 0 where
  listing_settled market_sell_to_furnace : (user token_id amount_claim_wei : ℕ) → MarketActivity

pub record MarketStore : Type 0 where
  pub store : Store
  pub params : Option MarketRouterParams
  pub keepers : Table SettlementKeeper
  pub rows : List (Meta × MarketRow)
  pub activity : List (Meta × MarketActivity)

-- The calls on contracts, at a block: `ve()`, `minBonusTargetEscrowBudget()` and
-- `maxBonusTargetEscrowDiscountBps()` of a router, and `getLockInfo(tokenId)` of a lock contract;
-- `none` where the call reverts.
pub record MarketChain : Type 0 where
  pub network : Network
  pub try_ve : ℕ → ℕ → Option ℕ
  pub try_min_budget : ℕ → ℕ → Option ℕ
  pub try_max_discount : ℕ → ℕ → Option ℕ
  pub try_lock_info : ℕ → ℕ → ℕ → Option (ℕ × ℕ × Bool)

abbrev or_zero_address : Option ℕ → ℕ
or_zero_address none = zero_address
or_zero_address (some a) = a

abbrev pub resolve_ve_claim_nft_address : MarketChain → Meta → ℕ → ℕ
resolve_ve_claim_nft_address chain m cached =
    if not (cached == zero_address)
    then cached
    else if is_local_network chain.network
    then zero_address
    else or_zero_address (chain.try_ve m.emitter m.block_number)

-- The lock with the parameters that the contract gives.
abbrev pub hydrated : ℕ → VeLock → Option (ℕ × ℕ × Bool) → VeLock
hydrated now l none = l
hydrated now l (some (amount, lock_end, auto_max)) = record l {
  amount_wei = amount;
  lock_end = lock_end;
  auto_max = auto_max;
  updated_at = now;
  stored_ve_wei = some (current_ve_wei amount lock_end now auto_max);
}

-- The three early returns: a local network, an unknown lock contract, a lock that has been filled in.
abbrev pub needs_hydration : MarketChain → ℕ → VeLock → Bool
needs_hydration chain ve l =
    not (is_local_network chain.network)
    && (not (ve == zero_address) && ((l.amount_wei == 0) && (l.lock_end == 0)))

-- Its only caller saves the lock afterwards, so the row is returned and not saved here.
unfoldable pub hydrate_ve_lock_if_needed : MarketChain → Meta → ℕ → ℕ → VeLock → VeLock
hydrate_ve_lock_if_needed chain m token_id ve l =
    if needs_hydration chain ve l
    then hydrated m.timestamp l (chain.try_lock_info ve m.block_number token_id)
    else l

abbrev pub compute_listing_price_bps : ℕ → ℕ → ℕ
compute_listing_price_bps min_claim_out lock_amount =
    if lock_amount == 0 then 0 else (min_claim_out * 10000) / lock_amount

abbrev pub unknown_listing_price_bps : ℕ
unknown_listing_price_bps = 1000000000

-- A price against an unknown amount is put at the end of the order book.
unfoldable pub listing_price : ℕ → ℕ → ℕ
listing_price min_claim_out lock_amount =
    if not (min_claim_out == 0) && (lock_amount == 0)
    then unknown_listing_price_bps
    else compute_listing_price_bps min_claim_out lock_amount

abbrev unknown_params : MarketRouterParams
unknown_params = record {
  params_updated_at = 0;
  min_budget_claim_wei = 0;
  max_discount_bps = negsuc 0;
}

unfoldable pub load_or_create_params : Option MarketRouterParams → MarketRouterParams
load_or_create_params none = unknown_params
load_or_create_params (some p) = p

abbrev read_params : ℕ → MarketRouterParams → Option ℕ → Option ℕ → MarketRouterParams
read_params ts p (some min) (some max) = record {
  params_updated_at = ts;
  min_budget_claim_wei = min;
  max_discount_bps = pos max;
}
read_params ts p min max = p

-- `maybeSnapshotMarketRouterParams`: the parameters are read once, and never on a local network.
unfoldable pub maybe_snapshot_params :
    MarketChain → Meta → Option MarketRouterParams → Option MarketRouterParams
unfolding load_or_create_params
maybe_snapshot_params chain m params =
    let p = load_or_create_params params in
    if is_local_network chain.network
    then params
    else if not (eqb_ℤ p.max_discount_bps (negsuc 0)) && not (p.params_updated_at == 0)
    then some p
    else some (
        read_params m.timestamp p (chain.try_min_budget m.emitter m.block_number)
          (chain.try_max_discount m.emitter m.block_number))

-- How the handlers begin: the router's address is noted if none was, and the parameters are read.
unfoldable pub note_market_router : MarketChain → Meta → MarketStore → Protocol × MarketStore
unfolding load_or_create_protocol
note_market_router chain m ms =
    let (p, s) = load_or_create_protocol chain.network m.block_number ms.store in
    let q = record p { market_router = set_bytes_if_zero p.market_router m.emitter } in
    (
      q,
      record ms {
        store = record s { protocol = some q };
        params = maybe_snapshot_params chain m ms.params;
      },
    )

-- A listing that is not in the store is saved closed, and its seller is then loaded or created too.
abbrev pub empty_listing : ℕ → ℕ → ℕ → MarketListing
empty_listing token_id seller now = record {
  token_id = token_id;
  seller = seller;
  min_claim_out_wei = 0;
  price_bps = 0;
  listed_at_time = now;
  expires_at_time = 0;
  active = false;
  updated_at = now;
}

unfoldable pub load_or_create_listing :
    ℕ → ℕ → ℕ → Table User → Table MarketListing → MarketListing × Table User × Table MarketListing
load_or_create_listing token_id seller now users listings = elim (load token_id listings) [
  | none ↦
      let row = empty_listing token_id seller now in
      (row, (load_or_create_user seller users).1, save token_id row listings)
  | some row ↦ (row, users, listings)
]
