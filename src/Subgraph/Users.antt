-- ===== src/Subgraph/Users.antt =====
-- subgraph/src/utils/user.ts and utils/protocol.ts: the rows that every handler loads or creates.
pub mod Aggregate
use claimrush.Prelude.{
  ℕ, ◌+◌, ◌-◌, ◌≡◌, refl, Bool, true, false, ◌||◌, not, ◌&&◌, Option, none, some, arith, ◌==◌, leb,
  if◌then◌else◌,
}
use claimrush.Subgraph.Table.{Table, load, save}
use claimrush.Subgraph.Schema.{User, Protocol, Store, Network, zero_address, Meta}

abbrev pub or_zero : Option ℕ → ℕ
or_zero none = 0
or_zero (some n) = n

abbrev pub is_null : Option ℕ → Bool
is_null none = true
is_null (some n) = false

abbrev pub new_user : ℕ → User
new_user addr = record {
  address = addr;
  takeover_count = 0;
  eth_spent_on_takeovers_wei = 0;
  king_claim_mined_wei = 0;
  longest_reign_seconds = 0;
  shareholder_eth_claimed_wei = 0;
  furnace_eth_in_wei = 0;
  furnace_principal_claim_in_wei = 0;
  ve_balance_wei = some 0;
  total_locked_claim_wei = some 0;
}

-- The backfill of `loadOrCreateUser`, and `ensureUserVeFields`.
abbrev pub ensure_user_ve_fields : User → User
ensure_user_ve_fields u = record u {
  ve_balance_wei = some (or_zero u.ve_balance_wei);
  total_locked_claim_wei = some (or_zero u.total_locked_claim_wei);
}

-- A loaded row is saved again only where a field was filled in.
unfoldable pub load_or_create_user : ℕ → Table User → User × Table User
load_or_create_user addr users = elim (load addr users) [
  | none ↦ (new_user addr, save addr (new_user addr) users)
  | some u ↦ (
    ensure_user_ve_fields u,
    if is_null u.ve_balance_wei || is_null u.total_locked_claim_wei
        then save addr (ensure_user_ve_fields u) users
        else users,
  )
]

abbrev pub chain_id_from_network : Network → ℕ
chain_id_from_network Network.base_mainnet = 8453
chain_id_from_network Network.base_sepolia = 84532
chain_id_from_network Network.local = 31337
chain_id_from_network Network.unknown_network = 0

abbrev pub set_bytes_if_zero : ℕ → ℕ → ℕ
set_bytes_if_zero current next = if current == zero_address then next else current

abbrev new_protocol : Network → ℕ → Protocol
new_protocol network block = record {
  chain_id = chain_id_from_network network;
  deployed_at_block = block;
  claim_token = zero_address;
  ve_claim_nft = zero_address;
  mine_core = zero_address;
  shareholder_royalties = zero_address;
  furnace = zero_address;
  market_router = zero_address;
  furnace_entry_token_registry = none;
  entry_token_registry = some zero_address;
  takeovers_paused = false;
  locking_paused = false;
  trading_paused = false;
}

-- The alias `entryTokenRegistry`: the Furnace's registry when that is known, else what it was, else
-- zero.
abbrev pub registry_alias : Option ℕ → Option ℕ → Option ℕ
registry_alias (some registry) current = some registry
registry_alias none (some current) = some current
registry_alias none none = some zero_address

abbrev backfill_protocol : Protocol → Protocol
backfill_protocol p = record p {
  entry_token_registry = registry_alias p.furnace_entry_token_registry p.entry_token_registry;
}

abbrev loaded_protocol : Network → ℕ → Option Protocol → Protocol
loaded_protocol network block none = backfill_protocol (new_protocol network block)
loaded_protocol network block (some p) = backfill_protocol p

-- `ensureInfoSurfaces` runs where the row is created.
abbrev has_surface : Option Protocol → Bool → Bool
has_surface none has = true
has_surface (some p) has = has

-- `loadOrCreateProtocol`: the row it returns and the store it leaves. Saving a row that the
-- backfill left alone would change nothing.
unfoldable pub load_or_create_protocol : Network → ℕ → Store → Protocol × Store
load_or_create_protocol network block s =
    let p = loaded_protocol network block s.protocol in
    (
      p,
      record s {
        protocol = some p;
        has_token_pricing = has_surface s.protocol s.has_token_pricing;
        has_apr = has_surface s.protocol s.has_apr;
      },
    )

-- How every handler of the lock contract begins: its address is noted if none was.
unfoldable pub note_ve_claim_nft : Network → Meta → Store → Protocol × Store
unfolding load_or_create_protocol
note_ve_claim_nft network m s =
    let (p, s') = load_or_create_protocol network m.block_number s in
    let q = record p { ve_claim_nft = set_bytes_if_zero p.ve_claim_nft m.emitter } in
    (q, record s' { protocol = some q })
