-- ===== src/Subgraph/Mine/Events.antt =====
-- The events of MineCore and their handlers, as subgraph.yaml pairs them.
use claimrush.Prelude.{ℕ, Bool, Option, List, [], ◌∷◌, Text}
use claimrush.Subgraph.Schema.{Meta, Network}
use claimrush.Subgraph.Mine.{MineStore, Log}
use claimrush.Subgraph.Mine.Handlers.{
  handle_takeover, handle_reign_finalized, handle_reign_recipients_set,
}
use claimrush.Subgraph.Mine.Payouts.{
  handle_king_withdrawal, handle_king_withdrawal_to, handle_refund_credited,
  handle_refund_withdrawn, handle_royalties_takeover_failed, handle_royalties_flush_failed,
  handle_king_auto_lock_configured, handle_king_auto_lock_executed, handle_king_auto_lock_skipped,
  handle_king_auto_lock_failed, handle_king_claim_liquid_paid, handle_king_eth_paid,
  handle_king_eth_credited, handle_takeovers_paused_changed, handle_furnace_changed,
}

pub data MineEvent : Type 0 where
  taken_over : (reign_id previous_king new_king price reference at : ℕ) → MineEvent
  finalized : (reign_id king started ended mined eth : ℕ) → MineEvent
  recipients_set : Option (List Log) → (reign_id king eth claim : ℕ) → MineEvent
  withdrawal : (king amount : ℕ) → MineEvent
  withdrawal_to : (king to amount : ℕ) → MineEvent
  refund_credited : (to amount : ℕ) → MineEvent
  refund_withdrawn : (user to amount : ℕ) → MineEvent
  royalties_takeover_failed : (reign_id amount : ℕ) → Text → MineEvent
  royalties_flush_failed : Text → MineEvent
  auto_lock_configured : (user target pinned : ℕ) → MineEvent
  auto_lock_executed : (user reign_id token principal : ℕ) → MineEvent
  auto_lock_skipped auto_lock_failed : (user reign_id principal : ℕ) → MineEvent
  claim_liquid_paid : (recipient reign_id amount liquid_bps : ℕ) → MineEvent
  eth_paid eth_credited : (recipient amount : ℕ) → MineEvent
  takeovers_paused : Bool → MineEvent
  furnace_changed : ℕ → MineEvent

unfoldable pub handle_mine : Network → Meta → MineEvent → MineStore → MineStore
handle_mine n m (MineEvent.taken_over r p k x y t) = handle_takeover n m r p k x y t
handle_mine n m (MineEvent.finalized r k a b x e) = handle_reign_finalized n m r k a b x e
handle_mine n m (MineEvent.recipients_set logs r k e c) =
    handle_reign_recipients_set n m logs r k e c
handle_mine n m (MineEvent.withdrawal k x) = handle_king_withdrawal n m k x
handle_mine n m (MineEvent.withdrawal_to k to x) = handle_king_withdrawal_to n m k to x
handle_mine n m (MineEvent.refund_credited to x) = handle_refund_credited n m to x
handle_mine n m (MineEvent.refund_withdrawn u to x) = handle_refund_withdrawn n m u to x
handle_mine n m (MineEvent.royalties_takeover_failed r x why) =
    handle_royalties_takeover_failed n m r x why
handle_mine n m (MineEvent.royalties_flush_failed why) = handle_royalties_flush_failed n m why
handle_mine n m (MineEvent.auto_lock_configured u t p) = handle_king_auto_lock_configured n m u t p
handle_mine n m (MineEvent.auto_lock_executed u r t x) = handle_king_auto_lock_executed n m u r t x
handle_mine n m (MineEvent.auto_lock_skipped u r x) = handle_king_auto_lock_skipped n m u r x
handle_mine n m (MineEvent.auto_lock_failed u r x) = handle_king_auto_lock_failed n m u r x
handle_mine n m (MineEvent.claim_liquid_paid u r x b) = handle_king_claim_liquid_paid n m u r x b
handle_mine n m (MineEvent.eth_paid u x) = handle_king_eth_paid n m u x
handle_mine n m (MineEvent.eth_credited u x) = handle_king_eth_credited n m u x
handle_mine n m (MineEvent.takeovers_paused flag) = handle_takeovers_paused_changed n m flag
handle_mine n m (MineEvent.furnace_changed f) = handle_furnace_changed n m f

unfoldable pub run_mine : Network → List (Meta × MineEvent) → MineStore → MineStore
run_mine n [] ms = ms
run_mine n ((m, e) ∷ es) ms = run_mine n es (handle_mine n m e ms)
