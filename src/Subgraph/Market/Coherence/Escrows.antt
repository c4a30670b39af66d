-- ===== src/Subgraph/Market/Coherence/Escrows.antt =====
-- The escrows' handlers keep the order book coherent: an execution closes the listing of the routed lock.
use claimrush.Prelude.{◌≢◌, ℕ, ◌≡◌, Bool, true, false, Option-cases, inl, inr, if◌then◌else◌, ◌==◌}
use claimrush.Subgraph.Table.{load}
use claimrush.Subgraph.Schema.{Store, Meta}
use claimrush.Subgraph.Users.{load_or_create_protocol}
use claimrush.Subgraph.Locks.{close_active}
use claimrush.Subgraph.Market.{MarketChain, note_market_router}
use claimrush.Subgraph.Market.Listings.{with_seller}
use claimrush.Subgraph.Market.Escrows.{EscrowStore}
use claimrush.Subgraph.Market.Escrows.Handlers.{
  open_event, note_offer, resave_offer, record_execution, handle_escrow_created,
  handle_escrow_expired, handle_escrow_cancelled, handle_escrow_expiry_extended,
  handle_escrow_configured, handle_escrow_executed, handle_escrow_auto_furnace_executed,
  take_off_market, unmark,
}
use claimrush.Subgraph.Market.Escrows.Events.{EscrowEvent, handle_escrow}
use claimrush.Subgraph.Market.Coherence.{
  IsCoherent, closed_only, shut, close_active_closed, close_active_others,
}
use claimrush.Subgraph.Market.Coherence.Lists.{IsBookCoherent}

either {ℓ κ} :
    {A : Type ℓ} (P : A → Type κ) (b : Bool) (x y : A) → P x → P y → P (if b then x else y)
either P true x y p q = p
either P false x y p q = q

unmarked-IsCoherent :
    (t now : ℕ) (s : Store)
    → IsBookCoherent s
    → IsCoherent (unmark t now s.locks) (close_active t now s.listings)
unfolding IsBookCoherent unmark
unmarked-IsCoherent t now s h =
    let closed = close_active_closed t now s.listings in
    let same = closed_only s.locks s.listings h t (close_active t now s.listings) closed others in
    elim (Option-cases (load t s.locks)) [
      | inl e ↦ rw (e, unmark) same
      | inr (l, e) ↦
          rw (e, unmark)
            (either (λ locks. IsCoherent locks (close_active t now s.listings)) l.listed _ _
              (shut s.locks s.listings h t (record l { listed = false; updated_at = now })
                (close_active t now s.listings) closed others)
              same)
    ]
  where
    others : (t' : ℕ) → t' ≢ t → load t' (close_active t now s.listings) ≡ load t' s.listings
    others t' ne = close_active_others t now t' s.listings ne

take_off_market-IsBookCoherent :
    (t now : ℕ) (s : Store) → IsBookCoherent s → IsBookCoherent (take_off_market t now s)
unfolding take_off_market IsBookCoherent
take_off_market-IsBookCoherent t now s h =
    either IsBookCoherent (t == 0) _ _ h (unmarked-IsCoherent t now s h)

opened_coherent :
    (k : MarketChain) (m : Meta) (u : ℕ) (es : EscrowStore)
    → IsBookCoherent es.market.store
    → IsBookCoherent (open_event k m u es).1.market.store
unfolding open_event note_market_router with_seller load_or_create_protocol IsBookCoherent
opened_coherent k m u es h = h

pub escrow-IsBookCoherent :
    (k : MarketChain) (m : Meta) (e : EscrowEvent) (es : EscrowStore)
    → IsBookCoherent es.market.store
    → IsBookCoherent (handle_escrow k m e es).market.store
unfolding handle_escrow handle_escrow_created handle_escrow_configured handle_escrow_expiry_extended
    handle_escrow_expired handle_escrow_cancelled handle_escrow_executed
    handle_escrow_auto_furnace_executed record_execution note_offer resave_offer
escrow-IsBookCoherent k m (EscrowEvent.escrow_created i u d x t n auto end dest) es h =
    opened_coherent k m u es h
escrow-IsBookCoherent k m (EscrowEvent.escrow_configured i u b s) es h = opened_coherent k m u es h
escrow-IsBookCoherent k m (EscrowEvent.escrow_extended i u end) es h = opened_coherent k m u es h
escrow-IsBookCoherent k m (EscrowEvent.escrow_expired i u x) es h = opened_coherent k m u es h
escrow-IsBookCoherent k m (EscrowEvent.escrow_cancelled i u x) es h = opened_coherent k m u es h
escrow-IsBookCoherent k m (EscrowEvent.escrow_executed logs i u x p b v r e) es h =
    take_off_market-IsBookCoherent r m.timestamp (open_event k m u es).1.market.store
      (opened_coherent k m u es h)
escrow-IsBookCoherent k m (EscrowEvent.escrow_auto_executed logs i u x p b v r e) es h =
    opened_coherent k m u es h
