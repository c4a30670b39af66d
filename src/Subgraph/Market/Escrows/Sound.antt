-- ===== src/Subgraph/Market/Escrows/Sound.antt =====
-- Over any run of the escrows' events an offer that is not active holds nothing.
use claimrush.Prelude.{
  ℕ, ◌≤◌, ◌≡◌, refl, subst, Bool, true, false, some, List, [], ◌∷◌, arith, ◌==◌, lt→ltb,
  if◌then◌else◌, ◌⊎◌, inl, inr, Bool-cases, Option-cases,
}
use claimrush.Prelude.Int.{ℤ, pos}
use claimrush.Subgraph.Table.{Table, load, save, load-save}
use claimrush.Subgraph.Schema.{Meta}
use claimrush.Subgraph.Users.{or_zero}
use claimrush.Subgraph.Market.{MarketChain}
use claimrush.Subgraph.Market.Escrows.{
  Offer, EscrowStore, empty_offer, load_or_create_offer, close_offer_after_execution,
  compute_offer_price_bps_from_discount, compute_offer_price_bps_from_target_bonus,
}
use claimrush.Subgraph.Market.Escrows.Events.{
  EscrowEvent, handle_escrow, run_escrows, IsTimely, IsTimelyRun,
}
use claimrush.Subgraph.Market.Escrows.Handlers.{
  open_event, note_offer, resave_offer, record_execution, handle_escrow_created,
  handle_escrow_expired, handle_escrow_cancelled, handle_escrow_expiry_extended,
  handle_escrow_configured, handle_escrow_executed, handle_escrow_auto_furnace_executed,
  refunded_offer, extended_offer, configured_offer,
}

-- The offer is active or holds nothing, holds at most its budget, and its price is at most 10000 bps.
abbrev pub IsSound : Offer → Type 0
IsSound o =
    ((o.active ≡ true) ⊎ (or_zero o.funds_remaining_wei ≡ 0))
    × (or_zero o.funds_remaining_wei ≤ o.budget_claim_wei)
    × (o.price_bps ≤ 10000)

unfoldable pub AllSound : EscrowStore → Type 0
AllSound es = (k : ℕ) (o : Offer) → load k es.offers ≡ some o → IsSound o

some_same : {A : Type 0} {x y : A} → some x ≡ some y → x ≡ y
some_same e = cc

EachSound : Table Offer → Type 0
EachSound offers = (k : ℕ) (o : Offer) → load k offers ≡ some o → IsSound o

save-EachSound :
    (t : ℕ) (new : Offer) (offers : Table Offer)
    → IsSound new
    → EachSound offers
    → EachSound (save t new offers)
unfolding EachSound
save-EachSound t new offers sound h k o e = elim (Bool-cases (k == t)) [
  | inl on ↦ subst IsSound (some_same (at on)) sound
  | inr off ↦ h k o (elsewhere off)
]
  where
    at : (k == t) ≡ true → some new ≡ some o
    at on = ground (arith, on, load-save k t new offers, e)

    elsewhere : (k == t) ≡ false → load k offers ≡ some o
    elsewhere off = ground (arith, off, load-save k t new offers, e)

empty-IsSound : (i u now : ℕ) → IsSound (empty_offer i u now)
empty-IsSound i u now = (inr refl, omega arith, omega arith)

loaded-IsSound :
    (i u now : ℕ) (offers : Table Offer)
    → EachSound offers
    → IsSound (load_or_create_offer i u now offers)
unfolding load_or_create_offer EachSound
loaded-IsSound i u now offers h = elim (Option-cases (load i offers)) [
  | inl e ↦ rw (e, load_or_create_offer) (empty-IsSound i u now)
  | inr (o, e) ↦ rw (e, load_or_create_offer) (h i o e)
]

resave_sound :
    (m : Meta) (i u : ℕ) (change : Offer → Offer) (es : EscrowStore)
    → ((o : Offer) → IsSound o → IsSound (change o))
    → AllSound es
    → AllSound (resave_offer m i u change es)
unfolding resave_offer AllSound EachSound
resave_sound m i u change es keeps h =
    save-EachSound i _ es.offers (keeps _ (loaded-IsSound i u m.timestamp es.offers h)) h

target_price_bound : (bonus : ℤ) → compute_offer_price_bps_from_target_bonus bonus ≤ 10000
target_price_bound bonus = omega arith

discount_price_bound : (discount : ℤ) → compute_offer_price_bps_from_discount discount ≤ 10000
discount_price_bound discount = ground arith

if_IsSound : (b : Bool) (x y : Offer) → IsSound x → IsSound y → IsSound (if b then x else y)
if_IsSound true x y p q = p
if_IsSound false x y p q = q

close_sound :
    (i u now : ℕ) (offers : Table Offer)
    → EachSound offers
    → EachSound (close_offer_after_execution i u now offers)
unfolding close_offer_after_execution
close_sound i u now offers h =
    save-EachSound i _ offers
      (if_IsSound _ _ _ (loaded-IsSound i u now offers h)
        (inr refl, omega arith, (loaded-IsSound i u now offers h).2))
      h

handle_escrow_sound :
    (c : MarketChain) (m : Meta) (e : EscrowEvent) (es : EscrowStore)
    → IsTimely m e
    → AllSound es
    → AllSound (handle_escrow c m e es)
unfolding handle_escrow handle_escrow_created handle_escrow_configured handle_escrow_expiry_extended
    handle_escrow_expired handle_escrow_cancelled handle_escrow_executed
    handle_escrow_auto_furnace_executed record_execution note_offer open_event AllSound EachSound
handle_escrow_sound c m (EscrowEvent.escrow_created i u d x t n auto end k) es _ h =
    save-EachSound i _ es.offers (inl refl, omega arith, discount_price_bound (pos d)) h
handle_escrow_sound c m (EscrowEvent.escrow_configured i u b s) es _ h =
    resave_sound m i u (configured_offer u b s m.timestamp) (open_event c m u es).1
      (λ o (held, funds, price). (held, funds, target_price_bound (pos b))) h
handle_escrow_sound c m (EscrowEvent.escrow_extended i u end) es timely h =
    resave_sound m i u (extended_offer end m.timestamp) (open_event c m u es).1
      (λ o (held, funds, price). (inl (lt→ltb m.timestamp end timely), funds, price)) h
handle_escrow_sound c m (EscrowEvent.escrow_expired i u x) es _ h =
    resave_sound m i u (refunded_offer m.timestamp) (open_event c m u es).1
      (λ o (held, funds, price). (inr refl, omega arith, price)) h
handle_escrow_sound c m (EscrowEvent.escrow_cancelled i u x) es _ h =
    resave_sound m i u (λ o. record (refunded_offer m.timestamp o) { buyer = u })
      (open_event c m u es).1 (λ o (held, funds, price). (inr refl, omega arith, price)) h
handle_escrow_sound c m (EscrowEvent.escrow_executed logs i u x p b v r e) es _ h =
    close_sound i u m.timestamp es.offers h
handle_escrow_sound c m (EscrowEvent.escrow_auto_executed logs i u x p b v r e) es _ h =
    close_sound i u m.timestamp es.offers h

-- After any run of the escrows' events in which escrows are extended only to times to come, each offer is
-- active or holds nothing, holds at most its budget, and is priced at 10000 bps at most, when all this
-- held before the run.
pub run_escrows-AllSound :
    (c : MarketChain) (events : List (Meta × EscrowEvent)) (es : EscrowStore)
    → IsTimelyRun events
    → AllSound es
    → AllSound (run_escrows c events es)
unfolding run_escrows IsTimelyRun
run_escrows-AllSound c [] es _ h = h
run_escrows-AllSound c ((m, e) ∷ rest) es (ok, oks) h =
    run_escrows-AllSound c rest (handle_escrow c m e es) oks (handle_escrow_sound c m e es ok h)
