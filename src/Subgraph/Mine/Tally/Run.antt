-- ===== src/Subgraph/Mine/Tally/Run.antt =====
-- The kings' aggregates over a whole run of MineCore's events.
use claimrush.Prelude.{ℕ, ◌≡◌, refl, List, [], ◌∷◌}
use claimrush.Subgraph.Schema.{Meta, Network}
use claimrush.Subgraph.Mine.{MineStore, note_mine_core, touch_user, add_activity}
use claimrush.Subgraph.Mine.Handlers.{handle_reign_recipients_set}
use claimrush.Subgraph.Mine.Payouts.{
  add_payout, handle_king_withdrawal, handle_king_withdrawal_to, handle_refund_credited,
  handle_refund_withdrawn, handle_royalties_takeover_failed, handle_royalties_flush_failed,
  handle_king_auto_lock_configured, handle_king_auto_lock_executed, note_unlocked,
  handle_king_auto_lock_skipped, handle_king_auto_lock_failed, handle_king_claim_liquid_paid,
  note_king_eth, handle_king_eth_paid, handle_king_eth_credited, handle_takeovers_paused_changed,
  handle_furnace_changed,
}
use claimrush.Subgraph.Mine.Events.{MineEvent, handle_mine, run_mine}
use claimrush.Subgraph.Mine.Tally.{IsTallied}
use claimrush.Subgraph.Mine.Tally.Steps.{
  handle_takeover-IsTallied, handle_reign_finalized-IsTallied, note-IsTallied, touch-IsTallied,
  unchanged,
}

-- A handler that ends with rows other than users, takeovers and finalized reigns.
touched :
    (n : Network) (m : Meta) (a : ℕ) (ms ms' : MineStore)
    → ms'.takeovers ≡ (touch_user a (note_mine_core n m ms)).takeovers
    → ms'.finalized ≡ (touch_user a (note_mine_core n m ms)).finalized
    → ms'.store.users ≡ (touch_user a (note_mine_core n m ms)).store.users
    → IsTallied ms
    → IsTallied ms'
touched n m a ms ms' e e' users h =
    unchanged (touch_user a (note_mine_core n m ms)) ms' e e' (λ q u. rw users refl)
      (touch-IsTallied a (note_mine_core n m ms) (note-IsTallied n m ms h))

noted :
    (n : Network) (m : Meta) (ms ms' : MineStore)
    → ms'.takeovers ≡ (note_mine_core n m ms).takeovers
    → ms'.finalized ≡ (note_mine_core n m ms).finalized
    → ms'.store.users ≡ (note_mine_core n m ms).store.users
    → IsTallied ms
    → IsTallied ms'
noted n m ms ms' e e' users h =
    unchanged (note_mine_core n m ms) ms' e e' (λ q u. rw users refl) (note-IsTallied n m ms h)

twice :
    (n : Network) (m : Meta) (a b : ℕ) (ms ms' : MineStore)
    → ms'.takeovers ≡ (touch_user b (touch_user a (note_mine_core n m ms))).takeovers
    → ms'.finalized ≡ (touch_user b (touch_user a (note_mine_core n m ms))).finalized
    → ms'.store.users ≡ (touch_user b (touch_user a (note_mine_core n m ms))).store.users
    → IsTallied ms
    → IsTallied ms'
twice n m a b ms ms' e e' users h =
    unchanged (touch_user b (touch_user a (note_mine_core n m ms))) ms' e e' (λ q u. rw users refl)
      (touch-IsTallied b (touch_user a (note_mine_core n m ms))
        (touch-IsTallied a (note_mine_core n m ms) (note-IsTallied n m ms h)))

handle_mine-IsTallied :
    (n : Network) (m : Meta) (e : MineEvent) (ms : MineStore)
    → IsTallied ms
    → IsTallied (handle_mine n m e ms)
unfolding handle_mine add_payout add_activity handle_king_withdrawal handle_king_withdrawal_to
    handle_refund_credited handle_refund_withdrawn handle_royalties_takeover_failed
    handle_royalties_flush_failed handle_king_auto_lock_configured handle_king_auto_lock_executed
    note_unlocked handle_king_auto_lock_skipped handle_king_auto_lock_failed
    handle_king_claim_liquid_paid note_king_eth handle_king_eth_paid handle_king_eth_credited
    handle_takeovers_paused_changed handle_furnace_changed handle_reign_recipients_set
handle_mine-IsTallied n m (MineEvent.taken_over r p k x y t) ms h =
    handle_takeover-IsTallied n m r p k x y t ms h
handle_mine-IsTallied n m (MineEvent.finalized r k a b x e) ms h =
    handle_reign_finalized-IsTallied n m r k a b x e ms h
handle_mine-IsTallied n m (MineEvent.recipients_set logs r k e c) ms h =
    touched n m k ms _ refl refl refl h
handle_mine-IsTallied n m (MineEvent.withdrawal k x) ms h = touched n m k ms _ refl refl refl h
handle_mine-IsTallied n m (MineEvent.withdrawal_to k to x) ms h =
    twice n m k to ms _ refl refl refl h
handle_mine-IsTallied n m (MineEvent.refund_credited to x) ms h =
    touched n m to ms _ refl refl refl h
handle_mine-IsTallied n m (MineEvent.refund_withdrawn u to x) ms h =
    twice n m u to ms _ refl refl refl h
handle_mine-IsTallied n m (MineEvent.royalties_takeover_failed r x why) ms h =
    noted n m ms _ refl refl refl h
handle_mine-IsTallied n m (MineEvent.royalties_flush_failed why) ms h =
    noted n m ms _ refl refl refl h
handle_mine-IsTallied n m (MineEvent.auto_lock_configured u t p) ms h =
    touched n m u ms _ refl refl refl h
handle_mine-IsTallied n m (MineEvent.auto_lock_executed u r t x) ms h =
    touched n m u ms _ refl refl refl h
handle_mine-IsTallied n m (MineEvent.auto_lock_skipped u r x) ms h =
    touched n m u ms _ refl refl refl h
handle_mine-IsTallied n m (MineEvent.auto_lock_failed u r x) ms h =
    touched n m u ms _ refl refl refl h
handle_mine-IsTallied n m (MineEvent.claim_liquid_paid u r x b) ms h =
    touched n m u ms _ refl refl refl h
handle_mine-IsTallied n m (MineEvent.eth_paid u x) ms h = touched n m u ms _ refl refl refl h
handle_mine-IsTallied n m (MineEvent.eth_credited u x) ms h = touched n m u ms _ refl refl refl h
handle_mine-IsTallied n m (MineEvent.takeovers_paused flag) ms h = noted n m ms _ refl refl refl h
handle_mine-IsTallied n m (MineEvent.furnace_changed f) ms h = noted n m ms _ refl refl refl h

-- After any run of MineCore's events, every user's `takeoverCount` is the number of takeovers it made
-- (in 32 bits), `ethSpentOnTakeoversWei` what it paid for them, `kingClaimMinedWei` what it mined in
-- the finalized reigns, and `longestReignSeconds` the longest of these reigns, when all this held
-- before the run.
pub run_mine-IsTallied :
    (n : Network) (es : List (Meta × MineEvent)) (ms : MineStore)
    → IsTallied ms
    → IsTallied (run_mine n es ms)
unfolding run_mine
run_mine-IsTallied n [] ms h = h
run_mine-IsTallied n ((m, e) ∷ es) ms h =
    run_mine-IsTallied n es (handle_mine n m e ms) (handle_mine-IsTallied n m e ms h)
