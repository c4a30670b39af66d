-- ===== src/Subgraph/Market/Escrows/Events.antt =====
-- The escrows' events and their handlers, as subgraph.yaml pairs them.
use claimrush.Prelude.{ℕ, ◌<◌, Bool, Option, List, [], ◌∷◌}
use claimrush.Subgraph.Schema.{Meta}
use claimrush.Subgraph.Market.{MarketChain}
use claimrush.Subgraph.Market.Escrows.{ReceiptLog, EscrowStore}
use claimrush.Subgraph.Market.Escrows.Handlers.{
  handle_escrow_created, handle_escrow_expired, handle_escrow_cancelled,
  handle_escrow_expiry_extended, handle_escrow_configured, handle_escrow_executed,
  handle_escrow_auto_furnace_executed,
}

pub data EscrowEvent : Type 0 where
  escrow_created :
      (offer_id buyer discount budget created_at duration : ℕ)
      → Bool
      → (expires_at destination : ℕ) → EscrowEvent
  escrow_configured : (offer_id buyer bonus slippage : ℕ) → EscrowEvent
  escrow_extended : (offer_id buyer new_expires_at : ℕ) → EscrowEvent
  escrow_expired escrow_cancelled : (offer_id buyer refund : ℕ) → EscrowEvent
  escrow_executed escrow_auto_executed :
      Option (List ReceiptLog)
      → (offer_id buyer claim_in principal bonus ve_out route emitted : ℕ) → EscrowEvent

unfoldable pub handle_escrow : MarketChain → Meta → EscrowEvent → EscrowStore → EscrowStore
handle_escrow c m (EscrowEvent.escrow_created i u d x t n auto end k) es =
    handle_escrow_created c m i u d x t n auto end k es
handle_escrow c m (EscrowEvent.escrow_configured i u b s) es =
    handle_escrow_configured c m i u b s es
handle_escrow c m (EscrowEvent.escrow_extended i u end) es =
    handle_escrow_expiry_extended c m i u end es
handle_escrow c m (EscrowEvent.escrow_expired i u x) es = handle_escrow_expired c m i u x es
handle_escrow c m (EscrowEvent.escrow_cancelled i u x) es = handle_escrow_cancelled c m i u x es
handle_escrow c m (EscrowEvent.escrow_executed logs i u x p b v r e) es =
    handle_escrow_executed c m logs i u x p b v r e es
handle_escrow c m (EscrowEvent.escrow_auto_executed logs i u x p b v r e) es =
    handle_escrow_auto_furnace_executed c m logs i u x p b v r e es

unfoldable pub run_escrows : MarketChain → List (Meta × EscrowEvent) → EscrowStore → EscrowStore
run_escrows c [] es = es
run_escrows c ((m, e) ∷ rest) es = run_escrows c rest (handle_escrow c m e es)

-- The router extends an escrow only to a time that is still to come.
abbrev pub IsTimely : Meta → EscrowEvent → Type 0
IsTimely m (EscrowEvent.escrow_extended i u end) = m.timestamp < end
IsTimely m other = Unit

unfoldable pub IsTimelyRun : List (Meta × EscrowEvent) → Type 0
IsTimelyRun [] = Unit
IsTimelyRun ((m, e) ∷ rest) = IsTimely m e × IsTimelyRun rest
