-- ===== src/Subgraph/Schema.antt =====
-- The entities of subgraph/schema.graphql that the handlers of the lock contract read and write,
-- and the event data that graph-ts hands to a handler. An address is its number (an entity id is
-- the address in hexadecimal, which tells two addresses apart exactly when the numbers differ), an
-- amount or a time is a uint256, and a nullable field is an `Option`.
use claimrush.Prelude.{ℕ, Bool, Option, List}
use claimrush.Subgraph.Table.{Table}

abbrev pub zero_address : ℕ
zero_address = 0

-- `type User`; the labels for display (`basename`, `ens`, `displayName`) are left out.
pub record User : Type 0 where
  pub address : ℕ
  pub takeover_count : ℕ
  pub eth_spent_on_takeovers_wei : ℕ
  pub king_claim_mined_wei : ℕ
  pub longest_reign_seconds : ℕ
  pub shareholder_eth_claimed_wei : ℕ
  pub furnace_eth_in_wei : ℕ
  pub furnace_principal_claim_in_wei : ℕ
  pub ve_balance_wei : Option ℕ
  pub total_locked_claim_wei : Option ℕ

-- `type VeLock`.
pub record VeLock : Type 0 where
  pub token_id : ℕ
  pub owner : ℕ
  pub amount_wei : ℕ
  pub lock_end : ℕ
  pub auto_max : Bool
  pub listed : Bool
  pub created_at : ℕ
  pub updated_at : ℕ
  pub stored_ve_wei : Option ℕ

-- `type MarketListing`.
pub record MarketListing : Type 0 where
  pub token_id : ℕ
  pub seller : ℕ
  pub min_claim_out_wei : ℕ
  pub price_bps : ℕ
  pub listed_at_time : ℕ
  pub expires_at_time : ℕ
  pub active : Bool
  pub updated_at : ℕ

-- `dataSource.network()`: the names that the mappings compare it with, and any other.
pub data Network : Type 0 where
  base_mainnet : Network
  base_sepolia : Network
  local : Network
  unknown_network : Network

-- `type Protocol`, the fields that the modelled handlers read or write.
pub record Protocol : Type 0 where
  pub chain_id : ℕ
  pub deployed_at_block : ℕ
  pub claim_token : ℕ
  pub ve_claim_nft : ℕ
  pub mine_core : ℕ
  pub shareholder_royalties : ℕ
  pub furnace : ℕ
  pub market_router : ℕ
  pub furnace_entry_token_registry : Option ℕ
  pub entry_token_registry : Option ℕ
  pub takeovers_paused : Bool
  pub locking_paused : Bool
  pub trading_paused : Bool

-- What an `ethereum.Event` says of itself: the emitter (`event.address`), the block's number and
-- time, the transaction's hash and the log's index.
pub record Meta : Type 0 where
  pub emitter : ℕ
  pub block_number : ℕ
  pub timestamp : ℕ
  pub tx_hash : ℕ
  pub log_index : ℕ

-- The rows that the handlers append, an entity type each; a row's id, time, block number and hash
-- are those of its event.
pub data LockRow : Type 0 where
  created : (user token_id amount_wei lock_end : ℕ) → Bool → LockRow
  extended : (user token_id old_end new_end : ℕ) → LockRow
  amount_increased : (user token_id amount_added_wei amount_after_wei : ℕ) → LockRow
  merged : (user from_token_id into_token_id moved_wei from_after_wei into_after_wei : ℕ) → LockRow
  unlocked : (user token_id amount_returned_wei amount_after_wei : ℕ) → LockRow
  auto_max_set : (user token_id : ℕ) → Bool → LockRow
  transferred :
      (token_id sender : ℕ) (recipient : Option ℕ) (amount_wei lock_end : ℕ) → Bool → LockRow

-- The items that the lock contract's handlers add to the activity feed.
pub data LockActivity : Type 0 where
  slope_drift_clamped : LockActivity
  shareholder_checkpoint_failed : (user : ℕ) → LockActivity

-- The store. `refreshes` are the calls of `refreshTokenPricingSnapshot` followed by
-- `refreshAprAfterLockChange`, with the event they are made for, newest first.
pub record Store : Type 0 where
  pub protocol : Option Protocol
  pub has_token_pricing : Bool
  pub has_apr : Bool
  pub users : Table User
  pub locks : Table VeLock
  pub listings : Table MarketListing
  pub history : List (Meta × LockRow)
  pub refreshes : List Meta
  pub lock_activity : List (Meta × LockActivity)
