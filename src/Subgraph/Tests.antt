-- ===== src/Subgraph/Tests.antt =====
-- Runs of the handlers at concrete events.
mod Books
mod Kings
mod Keys
mod Orders
mod Offers
mod Sessions
use claimrush.Prelude.{ℕ, Bool, true, false, none, some, []}
use claimrush.Subgraph.Schema.{Store, Network, Meta}
use claimrush.Subgraph.Locks.{Chain}

abbrev pub empty_store : Store
empty_store = record {
  protocol = none;
  has_token_pricing = false;
  has_apr = false;
  users = [];
  locks = [];
  listings = [];
  history = [];
  refreshes = [];
  lock_activity = [];
}

-- The lock contract at 500 says that the Furnace is at 99.
abbrev pub test_chain : Chain
test_chain = record { network = Network.base_mainnet; try_furnace = λ contract block. some 99 }

abbrev pub at_time : ℕ → Meta
at_time time = record {
  emitter = 500;
  block_number = 10;
  timestamp = time;
  tx_hash = 77;
  log_index = time;
}
