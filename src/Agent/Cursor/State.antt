-- ===== src/Agent/Cursor/State.antt =====
-- The state and the operations of `EventCursor` of agents/sdk/src/agent/eventCursor.ts.
use claimrush.Prelude.{
  ℕ, ◌-◌, Bool, true, false, not, ◌&&◌, ◌||◌, Option, none, some, List, [], ◌∷◌, ◌++◌, Text, codes,
  ltb, ◌==◌, if◌then◌else◌, length, drop, min, same_text, includes, keep,
}

pub record ClaimRushEvent : Type 0 where
  pub from_subgraph : Bool
  pub subgraph_id : Text
  pub transaction_hash : Text
  -- As printed.
  pub log_index : Text
  pub block_number : ℕ

-- A missing `subgraphId` is the empty text.
unfoldable pub key_for_event : ClaimRushEvent → Text
key_for_event ev =
    if ev.from_subgraph && not (same_text ev.subgraph_id [])
    then codes "subgraph:" ++ ev.subgraph_id
    else ev.transaction_hash ++ (codes "-" ++ ev.log_index)

pub record EventCursor : Type 0 where
  pub chain_id : ℕ
  pub rewind_blocks : ℕ
  pub max_recent_keys : ℕ
  pub last_processed_block : Option ℕ
  pub last_processed_block_hash : Option Text
  pub recent_keys : List Text
  pub recent_set : List Text

pub record Persisted : Type 0 where
  pub chain_id : ℕ
  pub rewind_blocks : ℕ
  pub last_processed_block : Option ℕ
  pub last_processed_block_hash : Option Text
  pub recent_keys : List Text

-- `set.add`, `set.delete` and `new Set(list)`.
abbrev pub set_add : Text → List Text → List Text
set_add k set = if includes set k then set else set ++ (k ∷ [])

abbrev pub set_delete : Text → List Text → List Text
set_delete k [] = []
set_delete k (x ∷ xs) = if same_text x k then xs else x ∷ set_delete k xs

abbrev pub set_from : List Text → List Text → List Text
set_from set [] = set
set_from set (k ∷ ks) = set_from (set_add k set) ks

abbrev pub hard_max_recent_keys : ℕ
hard_max_recent_keys = 100_000

-- The settings are natural numbers, as the loader makes them.
unfoldable pub base : ℕ → ℕ → ℕ → EventCursor
base chain_id' rewind_blocks' max_recent_keys' = record {
  chain_id = chain_id';
  rewind_blocks = rewind_blocks';
  max_recent_keys = min max_recent_keys' hard_max_recent_keys;
  last_processed_block = none;
  last_processed_block_hash = none;
  recent_keys = [];
  recent_set = [];
}

abbrev pub is_key : Text → Bool
is_key k = not (same_text k [])

-- `keys.slice(Math.max(0, keys.length - max))`
abbrev pub newest : ℕ → List Text → List Text
newest max keys = drop (length keys - max) keys

abbrev pub restored : EventCursor → Persisted → EventCursor
restored s raw =
    let capped = newest s.max_recent_keys (keep is_key raw.recent_keys) in
    record s {
      last_processed_block = raw.last_processed_block;
      last_processed_block_hash = raw.last_processed_block_hash;
      recent_keys = capped;
      recent_set = set_from [] capped;
    }

abbrev pub max_cursor_file_bytes : ℕ
max_cursor_file_bytes = 1_000_000

-- A file that is there: its size in bytes, and what it parses to, if it has the shape asked for.
abbrev pub CursorFile : Type 0
CursorFile = ℕ × Option Persisted

-- `readFile`, of the file if there is one.
unfoldable pub read_file : Option CursorFile → Option Persisted
read_file none = none
read_file (some (size, parsed)) = if ltb max_cursor_file_bytes size then none else parsed

abbrev pub load_raw : ℕ → EventCursor → Option Persisted → EventCursor
load_raw chain_id' s none = s
load_raw chain_id' s (some raw) = if raw.chain_id == chain_id' then restored s raw else s

unfoldable pub load : ℕ → ℕ → ℕ → Option CursorFile → EventCursor
unfolding base read_file
load chain_id' rewind_blocks' max_recent_keys' file =
    load_raw chain_id' (base chain_id' rewind_blocks' max_recent_keys') (read_file file)

-- What the file holds after a write.
unfoldable pub persist : EventCursor → Persisted
persist s = record {
  chain_id = s.chain_id;
  rewind_blocks = s.rewind_blocks;
  last_processed_block = s.last_processed_block;
  last_processed_block_hash = s.last_processed_block_hash;
  recent_keys = s.recent_keys;
}

-- `last > rb ? last - rb : 0n`
abbrev pub rewound : ℕ → ℕ → ℕ
rewound last rb = if ltb rb last then last - rb else 0

unfoldable pub get_start_block : EventCursor → Option ℕ
get_start_block s = elim s.last_processed_block [
  | none ↦ none
  | some last ↦ some (rewound last s.rewind_blocks)
]

unfoldable pub should_process : EventCursor → ClaimRushEvent → Bool
should_process s ev = not (includes s.recent_set (key_for_event ev))

-- The loop that drops the oldest keys.
unfoldable pub trim : ℕ → List Text → List Text → List Text × List Text
trim max [] set = ([], set)
trim max (k ∷ ks) set = elim (ltb max (length (k ∷ ks))) [
  | true ↦ trim max ks (if is_key k then set_delete k set else set)
  | false ↦ (k ∷ ks, set)
]

-- The list and the set after a key.
unfoldable pub keys_after : ℕ → Text → List Text → List Text → List Text × List Text
unfolding trim
keys_after max key keys set =
    if includes set key then (keys, set) else trim max (keys ++ (key ∷ [])) (set_add key set)

unfoldable pub record_key : EventCursor → Text → EventCursor
unfolding keys_after
record_key s key =
    let kept = keys_after s.max_recent_keys key s.recent_keys s.recent_set in
    record s { recent_keys = kept.0; recent_set = kept.1 }

abbrev pub is_later : ℕ → Option ℕ → Bool
is_later block none = true
is_later block (some last) = ltb last block

-- The hash of a failed query is left as it was.
abbrev pub hash_after : Option Text → Option Text → Option Text
hash_after old none = old
hash_after old (some hash) = some hash

-- `hash` is the chain's answer for the event's block.
unfoldable pub record_block : EventCursor → ℕ → Option Text → EventCursor
record_block s block hash =
    if is_later block s.last_processed_block
    then record s {
      last_processed_block = some block;
      last_processed_block_hash = hash_after s.last_processed_block_hash hash;
    }
    else s

unfoldable pub record_processed_event : EventCursor → ClaimRushEvent → Option Text → EventCursor
unfolding record_key record_block
record_processed_event s ev hash =
    record_block (record_key s (key_for_event ev)) ev.block_number hash

abbrev rewound_block : ℕ → Option ℕ → Option ℕ
rewound_block rb none = none
rewound_block rb (some last) = some (rewound last rb)

unfoldable pub rewind : EventCursor → EventCursor
rewind s = record s {
  last_processed_block = rewound_block s.rewind_blocks s.last_processed_block;
  last_processed_block_hash = none;
  recent_keys = [];
  recent_set = [];
}

abbrev same_hash : Option Text → Text → Bool
same_hash none hash = false
same_hash (some got) hash = same_text got hash

-- Whether the checkpoint stands; `got` is the chain's answer for the last block.
abbrev pub stands : Option ℕ → Option Text → Option Text → Bool
stands none hash got = true
stands (some last) none got = true
stands (some last) (some hash) got = same_text hash [] || same_hash got hash

unfoldable pub validate_against_chain : EventCursor → Option Text → Bool × EventCursor
unfolding rewind
validate_against_chain s got =
    if stands s.last_processed_block s.last_processed_block_hash got
    then (true, s)
    else (false, rewind s)
