-- ===== src/Subgraph/Mine/Payouts.antt =====
-- The handlers that append a row or an activity item and load the users it names: withdrawals, refunds,
-- failed deliveries, automatic locks and payments to kings; and the two that change the protocol's row.
use claimrush.Prelude.{ℕ, Bool, Option, none, some, ◌∷◌, Text, ltb, if◌then◌else◌}
use claimrush.Subgraph.Table.{Table, load, save}
use claimrush.Subgraph.Schema.{Meta, Network, Protocol}
use claimrush.Subgraph.Mine.{
  Reign, ActivityKind, Activity, PayoutRow, MineStore, note_mine_core, touch_user, add_activity,
}

unfoldable pub add_payout : Meta → PayoutRow → MineStore → MineStore
add_payout m row ms = record ms { payouts = (m, row) ∷ ms.payouts }

unfoldable pub handle_king_withdrawal : Network → Meta → (king amount : ℕ) → MineStore → MineStore
handle_king_withdrawal network m king amount ms =
    add_payout m (PayoutRow.king_withdrawal king amount)
      (touch_user king (note_mine_core network m ms))

unfoldable pub handle_king_withdrawal_to :
    Network → Meta → (king to amount : ℕ) → MineStore → MineStore
handle_king_withdrawal_to network m king to amount ms =
    add_payout m (PayoutRow.king_withdrawal_to king to amount)
      (touch_user to (touch_user king (note_mine_core network m ms)))

unfoldable pub handle_refund_credited : Network → Meta → (to amount : ℕ) → MineStore → MineStore
handle_refund_credited network m to amount ms =
    add_payout m (PayoutRow.refund_credited to amount) (touch_user to (note_mine_core network m ms))

unfoldable pub handle_refund_withdrawn :
    Network → Meta → (user to amount : ℕ) → MineStore → MineStore
handle_refund_withdrawn network m user to amount ms =
    add_payout m (PayoutRow.refund_withdrawn user to amount)
      (touch_user to (touch_user user (note_mine_core network m ms)))

unfoldable pub handle_royalties_takeover_failed :
    Network → Meta → (reign_id amount : ℕ) → Text → MineStore → MineStore
handle_royalties_takeover_failed network m reign_id amount reason ms =
    add_payout m (PayoutRow.royalties_takeover_failed reign_id amount reason)
      (note_mine_core network m ms)

unfoldable pub handle_royalties_flush_failed : Network → Meta → Text → MineStore → MineStore
handle_royalties_flush_failed network m reason ms =
    add_payout m (PayoutRow.royalties_flush_failed reason) (note_mine_core network m ms)

abbrev item : Meta → ActivityKind → ℕ → Activity
item m kind user = record {
  kind = kind;
  activity_at = m.timestamp;
  activity_user = user;
  other_user = none;
  activity_reign = none;
  token_id = none;
  amount_eth_wei = none;
  amount_claim_wei = none;
  bps = none;
}

-- An existing lock is the target, else the pinned lock, if any.
abbrev destination : ℕ → ℕ → Option ℕ
destination target pinned =
    if ltb 0 target then some target else if ltb 0 pinned then some pinned else none

unfoldable pub handle_king_auto_lock_configured :
    Network → Meta → (user target pinned : ℕ) → MineStore → MineStore
handle_king_auto_lock_configured network m user target pinned ms =
    add_activity m
      (record (item m ActivityKind.king_autolock_configured user) {
        token_id = destination target pinned;
      })
      (touch_user user (note_mine_core network m ms))

unfoldable pub handle_king_auto_lock_executed :
    Network → Meta → (user reign_id token principal : ℕ) → MineStore → MineStore
handle_king_auto_lock_executed network m user reign_id token principal ms =
    add_activity m
      (record (item m ActivityKind.king_autolock_executed user) {
        activity_reign = some reign_id;
        token_id = some token;
        amount_claim_wei = some principal;
      })
      (touch_user user (note_mine_core network m ms))

-- Skipped and failed automatic locks differ in their kind.
unfoldable pub note_unlocked :
    ActivityKind → Network → Meta → (user reign_id principal : ℕ) → MineStore → MineStore
note_unlocked kind network m user reign_id principal ms =
    add_activity m
      (record (item m kind user) {
        activity_reign = some reign_id;
        amount_claim_wei = some principal;
      })
      (touch_user user (note_mine_core network m ms))

unfoldable pub handle_king_auto_lock_skipped :
    Network → Meta → (user reign_id principal : ℕ) → MineStore → MineStore
handle_king_auto_lock_skipped = note_unlocked ActivityKind.king_autolock_skipped

unfoldable pub handle_king_auto_lock_failed :
    Network → Meta → (user reign_id principal : ℕ) → MineStore → MineStore
handle_king_auto_lock_failed = note_unlocked ActivityKind.king_autolock_failed

-- The reign's liquid slice is noted on its row, where the reign is known.
abbrev with_liquid : ℕ → ℕ → ℕ → Table Reign → Table Reign
with_liquid reign_id amount liquid_bps reigns = elim (load reign_id reigns) [
  | none ↦ reigns
  | some r ↦
      save reign_id
        (record r { liquid_claim_paid_wei = some amount; liquid_bps_applied = some liquid_bps })
        reigns
]

unfoldable pub handle_king_claim_liquid_paid :
    Network → Meta → (recipient reign_id amount liquid_bps : ℕ) → MineStore → MineStore
handle_king_claim_liquid_paid network m recipient reign_id amount liquid_bps ms0 =
    let ms =
      add_activity m
        (record (item m ActivityKind.king_claim_liquid_paid recipient) {
          activity_reign = some reign_id;
          amount_claim_wei = some amount;
          bps = some liquid_bps;
        })
        (touch_user recipient (note_mine_core network m ms0)) in
    record ms { reigns = with_liquid reign_id amount liquid_bps ms.reigns }

unfoldable pub note_king_eth :
    ActivityKind → Network → Meta → (recipient amount : ℕ) → MineStore → MineStore
note_king_eth kind network m recipient amount ms =
    add_activity m (record (item m kind recipient) { amount_eth_wei = some amount })
      (touch_user recipient (note_mine_core network m ms))

unfoldable pub handle_king_eth_paid :
    Network → Meta → (recipient amount : ℕ) → MineStore → MineStore
handle_king_eth_paid = note_king_eth ActivityKind.king_eth_paid

unfoldable pub handle_king_eth_credited :
    Network → Meta → (recipient amount : ℕ) → MineStore → MineStore
handle_king_eth_credited = note_king_eth ActivityKind.king_eth_credited

abbrev paused : Bool → Option Protocol → Option Protocol
paused flag none = none
paused flag (some p) = some (record p { takeovers_paused = flag })

unfoldable pub handle_takeovers_paused_changed : Network → Meta → Bool → MineStore → MineStore
handle_takeovers_paused_changed network m flag ms0 =
    let ms = note_mine_core network m ms0 in
    record ms { store = record ms.store { protocol = paused flag ms.store.protocol } }

abbrev rewired : ℕ → Option Protocol → Option Protocol
rewired furnace none = none
rewired furnace (some p) = some (record p { furnace = furnace })

unfoldable pub handle_furnace_changed : Network → Meta → ℕ → MineStore → MineStore
handle_furnace_changed network m new_furnace ms0 =
    let ms = note_mine_core network m ms0 in
    record ms { store = record ms.store { protocol = rewired new_furnace ms.store.protocol } }
