-- ===== src/Subgraph/Mine.antt =====
-- subgraph/src/mappings/minecore.ts: the rows of takeovers, reigns and their recipients, and the
-- aggregates of the kings. The wiring of the registry is not modelled.
pub mod Handlers
pub mod Payouts
pub mod Events
pub mod Tally
use claimrush.Prelude.{
  ℕ, ◌+◌, ◌-◌, ◌%◌, ◌^◌, min, Bool, true, false, not, ◌&&◌, Option, none, some, List, [], ◌∷◌,
  some_of, Text, arith, ◌==◌, ltb, if◌then◌else◌,
}
use claimrush.Prelude.Int.{ℤ, pos, negsuc, ◌+ℤ◌}
use claimrush.Subgraph.Table.{Table, load, save}
use claimrush.Subgraph.Schema.{User, Store, Meta, Network, zero_address}
use claimrush.Subgraph.Users.{load_or_create_protocol, load_or_create_user, set_bytes_if_zero}

-- The id of a takeover's row: that of its event, or `missing-<reign>` for a placeholder.
pub data TakeoverId : Type 0 where
  by_event : Meta → TakeoverId
  missing : ℕ → TakeoverId

-- `type Takeover`; the sort key, block number and hash are those of the event.
pub record Takeover : Type 0 where
  pub id : TakeoverId
  pub reign : ℕ
  pub previous_king : Option ℕ
  pub new_king : ℕ
  pub price_paid_wei : ℕ
  pub reference_price_wei : ℕ
  pub taken_at : ℕ
  pub event : Meta

-- `type Reign`.
pub record Reign : Type 0 where
  pub reign_id : ℕ
  pub king : ℕ
  pub start_time : ℕ
  pub started_by_takeover : TakeoverId
  pub previous_reign : Option ℕ
  pub end_time : Option ℕ
  pub total_claim_mined_wei : Option ℕ
  pub total_eth_to_king_wei : Option ℕ
  pub finalized_by : Option Meta
  pub liquid_claim_paid_wei : Option ℕ
  pub liquid_bps_applied : Option ℕ

-- `type ReignFinalizedEvent`.
pub record Finalized : Type 0 where
  pub of_reign : ℕ
  pub of_king : ℕ
  pub from_time : ℕ
  pub to_time : ℕ
  pub claim_mined_wei : ℕ
  pub eth_to_king_wei : ℕ
  pub finalized_at : Meta

-- `type ReignRecipientsState`.
pub record RecipientsState : Type 0 where
  pub state_king : ℕ
  pub eth_recipient : ℕ
  pub claim_recipient : ℕ
  pub update_count : ℤ
  pub first_set : Meta
  pub last_set : Meta

-- `type ReignRecipientsSetEvent`.
pub record RecipientsSet : Type 0 where
  pub set_reign : ℕ
  pub set_king : ℕ
  pub set_eth_recipient : ℕ
  pub set_claim_recipient : ℕ
  pub is_mid_reign_update : Bool
  pub set_at : Meta

pub data ActivityKind : Type 0 where
  takeover reign_finalized king_autolock_configured king_autolock_executed : ActivityKind
  king_claim_liquid_paid king_autolock_skipped king_autolock_failed : ActivityKind
  king_eth_paid king_eth_credited : ActivityKind

-- `type ActivityItem`.
pub record Activity : Type 0 where
  pub kind : ActivityKind
  pub activity_at : ℕ
  pub activity_user : ℕ
  pub other_user : Option ℕ
  pub activity_reign : Option ℕ
  pub token_id : Option ℕ
  pub amount_eth_wei : Option ℕ
  pub amount_claim_wei : Option ℕ
  pub bps : Option ℕ

-- The rows of withdrawals, refunds and failed deliveries, an entity type each.
pub data PayoutRow : Type 0 where
  king_withdrawal : (king amount : ℕ) → PayoutRow
  king_withdrawal_to : (king to amount : ℕ) → PayoutRow
  refund_credited : (to amount : ℕ) → PayoutRow
  refund_withdrawn : (user to amount : ℕ) → PayoutRow
  royalties_takeover_failed : (reign amount : ℕ) → Text → PayoutRow
  royalties_flush_failed : Text → PayoutRow

pub record MineStore : Type 0 where
  pub store : Store
  pub reigns : Table Reign
  pub takeovers : List Takeover
  pub finalized : List Finalized
  pub recipients : Table RecipientsState
  pub recipients_set : List RecipientsSet
  pub activity : List (Meta × Activity)
  pub payouts : List (Meta × PayoutRow)

-- A log of the receipt: its emitter and its topics.
pub record Log : Type 0 where
  pub log_address : ℕ
  pub topics : List ℕ

abbrev takeover_sig : ℕ
takeover_sig = 0x9e8ea9ebe1eff3171e76905f1ded95f86073dde0bf181d85612dead42f2e430c

abbrev first_is : ℕ → List ℕ → Bool
first_is sig [] = false
first_is sig (topic ∷ topics) = topic == sig

-- Whether the receipt has a log of the emitter with the topic first; a missing receipt has none.
abbrev receipt_has_topic : Option (List Log) → ℕ → ℕ → Bool
receipt_has_topic none sig emitter = false
receipt_has_topic (some logs) sig emitter =
    some_of (λ log. (log.log_address == emitter) && first_is sig log.topics) logs

unfoldable pub has_takeover_log : Option (List Log) → Meta → Bool
has_takeover_log receipt m = receipt_has_topic receipt takeover_sig m.emitter

-- How every handler begins: the emitter is noted if none was.
unfoldable pub note_mine_core : Network → Meta → MineStore → MineStore
unfolding load_or_create_protocol
note_mine_core network m ms =
    let (p, s) = load_or_create_protocol network m.block_number ms.store in
    record ms {
      store = record s {
        protocol = some (record p { mine_core = set_bytes_if_zero p.mine_core m.emitter });
      };
    }

-- The user's row is loaded or created, and not changed.
unfoldable pub touch_user : ℕ → MineStore → MineStore
touch_user addr ms = record ms {
  store = record ms.store { users = (load_or_create_user addr ms.store.users).1 };
}

unfoldable pub add_activity : Meta → Activity → MineStore → MineStore
add_activity m a ms = record ms { activity = (m, a) ∷ ms.activity }
