-- ===== src/Subgraph/Market/Escrows.antt =====
-- The bonus-target escrows of subgraph/src/mappings/marketRouter.ts: the offers and what the handlers
-- share. A rate in bps, of an event or computed, fits an i32, so that it is not negative.
pub mod Handlers
pub mod Events
pub mod Sound
use claimrush.Prelude.{
  ℕ, ◌+◌, ◌-◌, ◌*◌, ◌/◌, min, Bool, true, false, ◌&&◌, ◌||◌, not, Option, none, some, List, [], ◌∷◌,
  arith, ◌==◌, ltb, if◌then◌else◌,
}
use claimrush.Prelude.Int.{ℤ, pos, negsuc}
use claimrush.Subgraph.Table.{Table, load, save}
use claimrush.Subgraph.Schema.{User, Store, Meta, zero_address}
use claimrush.Subgraph.Users.{load_or_create_user, or_zero}
use claimrush.Subgraph.Market.{MarketStore}

-- `type BonusTargetEscrow`; `minLockSizeWei` is null in every row.
pub record Offer : Type 0 where
  pub offer_id : ℕ
  pub buyer : ℕ
  pub discount_bps : ℕ
  pub price_bps : ℕ
  pub budget_claim_wei : ℕ
  pub funds_remaining_wei : Option ℕ
  pub created_at : ℕ
  pub updated_at : ℕ
  pub active : Bool
  pub duration_seconds : Option ℕ
  pub create_auto_max : Bool
  pub expires_at : ℕ
  pub destination_lock_id : Option ℕ
  pub target_bonus_bps : ℕ
  pub slippage_bps : ℕ

-- The kinds of `type BonusTargetEscrowEvent`.
pub data OfferKind : Type 0 where
  created expired expiry_extended cancelled bonus_configured filled : OfferKind
  auto_furnace_executed : OfferKind

-- `type BonusTargetEscrowExecutedEvent` and `type BonusTargetEscrowAutoFurnaceExecutedEvent`.
pub record Execution : Type 0 where
  pub of_offer : ℕ
  pub of_buyer : ℕ
  pub claim_in_wei : ℕ
  pub principal_claim_wei : ℕ
  pub bonus_claim_wei : ℕ
  pub ve_out_wei : ℕ
  pub bonus_bps : ℕ
  pub route_token_id : ℕ
  pub furnace_token_id : Option ℕ

-- The amount of CLAIM and the token of an item of the activity feed.
pub record OfferActivity : Type 0 where
  pub activity_kind : OfferKind
  pub activity_buyer : ℕ
  pub activity_token : Option ℕ
  pub activity_claim_wei : Option ℕ

-- A log of the receipt: its index, its emitter and its topics.
pub record ReceiptLog : Type 0 where
  pub log_index : ℕ
  pub log_address : ℕ
  pub topics : List ℕ

-- `furnace_enters` are the rows of `TxFurnaceEnter`, by transaction and log index, with their token.
pub record EscrowStore : Type 0 where
  pub market : MarketStore
  pub offers : Table Offer
  pub offer_events : List (Meta × ℕ × OfferKind)
  pub executions : List (Meta × Execution)
  pub offer_activity : List (Meta × OfferActivity)
  pub furnace_enters : List (ℕ × ℕ × ℕ)

abbrev at_least_zero : ℤ → ℕ
at_least_zero (pos n) = n
at_least_zero (negsuc n) = 0

abbrev pub compute_offer_price_bps_from_discount : ℤ → ℕ
compute_offer_price_bps_from_discount discount =
    let d = at_least_zero discount in 10000 - (if ltb 10000 d then 10000 else d)

abbrev pub compute_offer_price_bps_from_target_bonus : ℤ → ℕ
compute_offer_price_bps_from_target_bonus target =
    let bonus = at_least_zero target in 10000 - (bonus * 10000) / (10000 + bonus)

abbrev pub compute_bonus_bps : ℕ → ℕ → ℕ
compute_bonus_bps bonus principal = if principal == 0 then 0 else (bonus * 10000) / principal

abbrev pub empty_offer : ℕ → ℕ → ℕ → Offer
empty_offer offer_id buyer now = record {
  offer_id = offer_id;
  buyer = buyer;
  discount_bps = 0;
  price_bps = 0;
  budget_claim_wei = 0;
  funds_remaining_wei = some 0;
  created_at = now;
  updated_at = now;
  active = false;
  duration_seconds = none;
  create_auto_max = false;
  expires_at = 0;
  destination_lock_id = none;
  target_bonus_bps = 0;
  slippage_bps = 0;
}

abbrev pub offer_or : Offer → Option Offer → Offer
offer_or empty none = empty
offer_or empty (some o) = o

-- The offer as it is loaded or created; its only uses save the row, or leave it as it is.
unfoldable pub load_or_create_offer : ℕ → ℕ → ℕ → Table Offer → Offer
load_or_create_offer offer_id buyer now offers =
    offer_or (empty_offer offer_id buyer now) (load offer_id offers)

-- The offer is closed already.
abbrev pub is_closed : Offer → Bool
is_closed o = not o.active && elim o.funds_remaining_wei [ none ↦ false | some funds ↦ funds == 0 ]

abbrev pub closed_offer : ℕ → ℕ → Offer → Offer
closed_offer buyer now o = record o {
  buyer = buyer;
  funds_remaining_wei = some 0;
  active = false;
  updated_at = now;
}

-- `closeOfferAfterExecution`: what is written for an offer that is closed already is what was there.
unfoldable pub close_offer_after_execution : ℕ → ℕ → ℕ → Table Offer → Table Offer
unfolding load_or_create_offer
close_offer_after_execution offer_id buyer now offers =
    let o = load_or_create_offer offer_id buyer now offers in
    save offer_id (if is_closed o then o else closed_offer buyer now o) offers

-- keccak256 of the signature of the Furnace's `FurnaceEnter`.
abbrev furnace_enter_sig : ℕ
furnace_enter_sig = 0x7f7f0de17f3500a1420b9cdc65ea622e20871e0abe71d5192560052b4999961f

abbrev enters : List ℕ → Bool
enters [] = false
enters (topic ∷ topics) = topic == furnace_enter_sig

-- Whether the loop of `findPrecedingFurnaceEnterLogIndex` takes the log.
abbrev is_candidate : ℕ → ℕ → ReceiptLog → Bool
is_candidate furnace before log =
    ltb log.log_index before
    && (enters log.topics && ((furnace == zero_address) || (log.log_address == furnace)))

abbrev later : Option ℕ → ℕ → Option ℕ
later none i = some i
later (some best) i = if ltb best i then some i else some best

abbrev pub preceding_furnace_enter : ℕ → ℕ → Option ℕ → List ReceiptLog → Option ℕ
preceding_furnace_enter furnace before best [] = best
preceding_furnace_enter furnace before best (log ∷ logs) =
    preceding_furnace_enter furnace before
      (if is_candidate furnace before log then later best log.log_index else best) logs

abbrev pub entered_token : ℕ → ℕ → List (ℕ × ℕ × ℕ) → ℕ
entered_token tx i [] = 0
entered_token tx i ((tx', i', token) ∷ rows) =
    let rest = entered_token tx i rows in if (tx == tx') && (i == i') then token else rest

abbrev pub token_at : ℕ → Option ℕ → List (ℕ × ℕ × ℕ) → ℕ
token_at tx none rows = 0
token_at tx (some i) rows = entered_token tx i rows

abbrev logs_or_none : Option (List ReceiptLog) → List ReceiptLog
logs_or_none none = []
logs_or_none (some logs) = logs

-- The token that the event names, else that of the transaction's last FurnaceEnter before the event.
abbrev pub resolve_executed_furnace_token_id :
    Meta → ℕ → Option (List ReceiptLog) → ℕ → List (ℕ × ℕ × ℕ) → ℕ
resolve_executed_furnace_token_id m emitted receipt furnace rows =
    if not (emitted == 0)
    then emitted
    else token_at m.tx_hash
        (preceding_furnace_enter furnace m.log_index none (logs_or_none receipt)) rows
