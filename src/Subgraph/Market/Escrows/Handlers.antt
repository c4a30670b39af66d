-- ===== src/Subgraph/Market/Escrows/Handlers.antt =====
-- The handlers of the escrows: created, configured, extended, expired, cancelled, and executed twice over.
use claimrush.Prelude.{
  ℕ, Bool, true, false, not, Option, none, some, List, ◌∷◌, ◌==◌, ltb, if◌then◌else◌,
}
use claimrush.Prelude.Int.{pos}
use claimrush.Subgraph.Table.{Table, load, save}
use claimrush.Subgraph.Schema.{Store, VeLock, Meta, Protocol}
use claimrush.Subgraph.Locks.{close_active}
use claimrush.Subgraph.Market.{MarketChain, note_market_router}
use claimrush.Subgraph.Market.Listings.{with_seller}
use claimrush.Subgraph.Market.Escrows.{
  Offer, OfferKind, Execution, ReceiptLog, EscrowStore, empty_offer, offer_or,
  compute_offer_price_bps_from_discount, compute_offer_price_bps_from_target_bonus,
  compute_bonus_bps, load_or_create_offer, close_offer_after_execution,
  resolve_executed_furnace_token_id,
}

abbrev positive_id : ℕ → Option ℕ
positive_id n = if n == 0 then none else some n

-- How every handler begins, and the buyer's row loaded or created.
unfoldable pub open_event : MarketChain → Meta → ℕ → EscrowStore → Protocol × EscrowStore
open_event chain m buyer es =
    let (p, ms) = note_market_router chain m es.market in
    (p, record es { market = record ms { store = with_seller buyer ms.store } })

-- The row of the offer's history and the item of the activity feed.
unfoldable pub note_offer :
    Meta → ℕ → OfferKind → ℕ → Option ℕ → Option ℕ → EscrowStore → EscrowStore
note_offer m offer_id kind buyer token claim es = record es {
  offer_events = (m, offer_id, kind) ∷ es.offer_events;
  offer_activity =
      (
        m,
        record {
          activity_kind = kind;
          activity_buyer = buyer;
          activity_token = token;
          activity_claim_wei = claim;
        },
      )
      ∷ es.offer_activity;
}

-- A new offer takes all of its fields from the event; of a known one the bonus target is kept.
abbrev pub created_offer :
    (offer_id buyer discount budget created_at now duration : ℕ)
    → Bool
    → (expires_at destination : ℕ) → Offer
    → Offer
created_offer offer_id buyer discount budget created_at now duration auto_max expires_at destination
      o =
    record o {
      offer_id = offer_id;
      buyer = buyer;
      discount_bps = discount;
      price_bps = compute_offer_price_bps_from_discount (pos discount);
      budget_claim_wei = budget;
      funds_remaining_wei = some budget;
      created_at = created_at;
      updated_at = now;
      active = true;
      duration_seconds = some duration;
      create_auto_max = auto_max;
      expires_at = expires_at;
      destination_lock_id = positive_id destination;
    }

unfoldable pub handle_escrow_created :
    MarketChain
    → Meta
    → (offer_id buyer discount budget created_at duration : ℕ) → Bool
    → (expires_at destination : ℕ) → EscrowStore
    → EscrowStore
handle_escrow_created chain m offer_id buyer discount budget created_at duration auto_max expires_at
      destination es0 =
    let (_, es) = open_event chain m buyer es0 in
    let o = offer_or (empty_offer offer_id buyer m.timestamp) (load offer_id es.offers) in
    let new =
      created_offer offer_id buyer discount budget created_at m.timestamp duration auto_max
        expires_at destination o in
    note_offer m offer_id OfferKind.created buyer none (some budget)
      (record es { offers = save offer_id new es.offers })

-- One offer is loaded or created and saved again.
unfoldable pub resave_offer : Meta → ℕ → ℕ → (Offer → Offer) → EscrowStore → EscrowStore
resave_offer m offer_id buyer change es = record es {
  offers =
      save offer_id (change (load_or_create_offer offer_id buyer m.timestamp es.offers)) es.offers;
}

abbrev pub refunded_offer : ℕ → Offer → Offer
refunded_offer now o = record o { funds_remaining_wei = some 0; active = false; updated_at = now }

unfoldable pub handle_escrow_expired :
    MarketChain → Meta → (offer_id buyer refund : ℕ) → EscrowStore → EscrowStore
handle_escrow_expired chain m offer_id buyer refund es =
    note_offer m offer_id OfferKind.expired buyer none (some refund)
      (resave_offer m offer_id buyer (refunded_offer m.timestamp) (open_event chain m buyer es).1)

unfoldable pub handle_escrow_cancelled :
    MarketChain → Meta → (offer_id buyer refund : ℕ) → EscrowStore → EscrowStore
handle_escrow_cancelled chain m offer_id buyer refund es =
    note_offer m offer_id OfferKind.cancelled buyer none (some refund) (
      resave_offer m offer_id buyer (λ o. record (refunded_offer m.timestamp o) { buyer = buyer })
        (open_event chain m buyer es).1)

abbrev pub extended_offer : ℕ → ℕ → Offer → Offer
extended_offer new_expires_at now o = record o {
  active = ltb now new_expires_at;
  expires_at = new_expires_at;
  updated_at = now;
}

unfoldable pub handle_escrow_expiry_extended :
    MarketChain → Meta → (offer_id buyer new_expires_at : ℕ) → EscrowStore → EscrowStore
handle_escrow_expiry_extended chain m offer_id buyer new_expires_at es =
    note_offer m offer_id OfferKind.expiry_extended buyer none none (
      resave_offer m offer_id buyer (extended_offer new_expires_at m.timestamp)
        (open_event chain m buyer es).1)

abbrev pub configured_offer : ℕ → ℕ → ℕ → ℕ → Offer → Offer
configured_offer buyer bonus slippage now o = record o {
  buyer = buyer;
  target_bonus_bps = bonus;
  price_bps = compute_offer_price_bps_from_target_bonus (pos bonus);
  slippage_bps = slippage;
  updated_at = now;
}

unfoldable pub handle_escrow_configured :
    MarketChain → Meta → (offer_id buyer bonus slippage : ℕ) → EscrowStore → EscrowStore
handle_escrow_configured chain m offer_id buyer bonus slippage es =
    note_offer m offer_id OfferKind.bonus_configured buyer none none (
      resave_offer m offer_id buyer (configured_offer buyer bonus slippage m.timestamp)
        (open_event chain m buyer es).1)

-- The routed lock is taken off the market, where it is in the store and marked.
unfoldable pub unmark : ℕ → ℕ → Table VeLock → Table VeLock
unmark token now locks = elim (load token locks) [
  | none ↦ locks
  | some l ↦
      if l.listed then save token (record l { listed = false; updated_at = now }) locks else locks
]

unfoldable pub take_off_market : ℕ → ℕ → Store → Store
take_off_market token now s =
    if token == 0
    then s
    else record s { listings = close_active token now s.listings; locks = unmark token now s.locks }

abbrev pub execution_of :
    (offer_id buyer claim_in principal bonus ve_out route furnace_token : ℕ) → Execution
execution_of offer_id buyer claim_in principal bonus ve_out route furnace_token = record {
  of_offer = offer_id;
  of_buyer = buyer;
  claim_in_wei = claim_in;
  principal_claim_wei = principal;
  bonus_claim_wei = bonus;
  ve_out_wei = ve_out;
  bonus_bps = compute_bonus_bps bonus principal;
  route_token_id = route;
  furnace_token_id = positive_id furnace_token;
}

abbrev first_token : ℕ → ℕ → Option ℕ
first_token furnace_token route =
    if not (furnace_token == 0) then some furnace_token else positive_id route

-- What the two events of an execution share: the offer is closed and the execution is recorded.
unfoldable pub record_execution :
    MarketChain
    → Meta
    → OfferKind
    → Option (List ReceiptLog)
    → (offer_id buyer claim_in principal bonus ve_out route emitted : ℕ) → EscrowStore
    → EscrowStore
record_execution chain m kind receipt offer_id buyer claim_in principal bonus ve_out route emitted
      es0 =
    let (p, es) = open_event chain m buyer es0 in
    let token = resolve_executed_furnace_token_id m emitted receipt p.furnace es.furnace_enters in
    note_offer m offer_id kind buyer (first_token token route) (some claim_in) (record es {
      offers = close_offer_after_execution offer_id buyer m.timestamp es.offers;
      executions =
          (m, execution_of offer_id buyer claim_in principal bonus ve_out route token)
          ∷ es.executions;
    })

unfoldable pub handle_escrow_executed :
    MarketChain
    → Meta
    → Option (List ReceiptLog)
    → (offer_id buyer claim_in principal bonus ve_out route emitted : ℕ) → EscrowStore
    → EscrowStore
handle_escrow_executed chain m receipt offer_id buyer claim_in principal bonus ve_out route emitted
      es0 =
    let es =
      record_execution chain m OfferKind.filled receipt offer_id buyer claim_in principal bonus
        ve_out route emitted es0 in
    record es {
      market = record es.market { store = take_off_market route m.timestamp es.market.store };
    }

unfoldable pub handle_escrow_auto_furnace_executed :
    MarketChain
    → Meta
    → Option (List ReceiptLog)
    → (offer_id buyer claim_in principal bonus ve_out route emitted : ℕ) → EscrowStore
    → EscrowStore
handle_escrow_auto_furnace_executed chain m =
    record_execution chain m OfferKind.auto_furnace_executed
