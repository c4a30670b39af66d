-- ===== src/Agent/Cursor/Tests.antt =====
-- Runs of agents/sdk/src/agent/eventCursor.ts, and the theorems at concrete inputs.
use claimrush.Prelude.{
  leb, if◌then◌else◌, length, ◌*◌, ◌+◌, ℕ, zero, suc, ◌<◌, ◌≤◌, ◌≡◌, refl, true, false, none, some,
  [], ◌∷◌, ◌++◌, Text, codes, arith, same_text, includes,
}
use claimrush.Agent.Cursor.State.{
  Persisted, ClaimRushEvent, key_for_event, EventCursor, base, load, persist, get_start_block,
  should_process, rewind, record_processed_event, validate_against_chain,
}
use claimrush.Agent.Cursor.Keys.{IsSynced, record_processed_event-IsSynced}
use claimrush.Agent.Cursor.Window.{record_all, should_process-record_all}
use claimrush.Agent.Cursor.Restart.{load-persist}
use claimrush.Agent.Cursor.Chain.{
  highest, record_all-highest, answered, answer, validate_against_chain-answered,
  validate_against_chain-unanswered,
}

abbrev event : Text → ℕ → ClaimRushEvent
event hash block = record {
  from_subgraph = false;
  subgraph_id = [];
  transaction_hash = hash;
  log_index = codes "0";
  block_number = block;
}

abbrev first : ClaimRushEvent
first = event (codes "0xaa") 100

abbrev second : ClaimRushEvent
second = event (codes "0xbb") 105

abbrev start : EventCursor
start = base 8_453 10 2

-- The chain whose block `n` has `n` ones after its prefix.
abbrev ones : ℕ → Text
ones zero = []
ones (suc n) = b'1' ∷ ones n

abbrev chain : ℕ → Text
chain n = codes "0x" ++ ones n

start-IsSynced : IsSynced start
unfolding base
start-IsSynced = record { same_keys = refl; no_dup = tt; all_keys = tt; bounded = omega arith }

start_block : get_start_block (record_processed_event start first none) ≡ some 90
unfolding get_start_block record_processed_event base
start_block = refl

record_processed_event-IsSynced_example : IsSynced (record_processed_event start first none)
record_processed_event-IsSynced_example =
    record_processed_event-IsSynced start first none start-IsSynced

is_new : should_process start first ≡ true
unfolding should_process base includes
is_new = refl

two_kept : 1 < start.max_recent_keys
unfolding base
two_kept = omega arith

should_process-record_all_example :
    should_process
      (record_all (record_processed_event start first none) ((second, none) ∷ []))
      first
    ≡ false
should_process-record_all_example =
    should_process-record_all start first none ((second, none) ∷ []) start-IsSynced is_new two_kept

-- With two keys kept, the third event makes the cursor forget the first.
forgets :
    should_process
      (record_all start ((first, none) ∷ (second, none) ∷ (event (codes "0xcc") 106, none) ∷ []))
      first
    ≡ true
unfolding should_process base includes record_processed_event key_for_event same_text
forgets = refl

within : (record_processed_event start first none).max_recent_keys ≤ 100_000
unfolding base record_processed_event
within = omega arith

-- Each key of the text takes 75 bytes and the rest at most 300.
abbrev size_of : Persisted → ℕ
size_of raw = 300 + 75 * length raw.recent_keys

load-persist_example :
    let s = record_processed_event start first none in
    let written = persist s in
    load s.chain_id s.rewind_blocks s.max_recent_keys (some (size_of written, some written)) ≡ (
      if leb (size_of written) 1_000_000
      then s
      else base s.chain_id s.rewind_blocks s.max_recent_keys)
load-persist_example =
    load-persist size_of (record_processed_event start first none)
      (record_processed_event-IsSynced start first none start-IsSynced) within

record_all-highest_example :
    (record_all start ((second, none) ∷ (first, none) ∷ [])).last_processed_block
    ≡ highest start.last_processed_block ((second, none) ∷ (first, none) ∷ [])
record_all-highest_example = record_all-highest start ((second, none) ∷ (first, none) ∷ [])

validate_against_chain-answered_example :
    let after = record_all start (answered chain (first ∷ second ∷ [])) in
    validate_against_chain after (answer chain after.last_processed_block) ≡ (true, after)
unfolding base
validate_against_chain-answered_example =
    validate_against_chain-answered chain start (first ∷ second ∷ []) refl

validate_against_chain-unanswered_example :
    let before = record_processed_event start (event (codes "0xaa") 1) (some (chain 1)) in
    let after = record_processed_event before (event (codes "0xbb") 2) none in
    validate_against_chain after (answer chain after.last_processed_block) ≡ (false, rewind after)
unfolding base record_processed_event same_text
validate_against_chain-unanswered_example =
    validate_against_chain-unanswered chain
      (record_processed_event start (event (codes "0xaa") 1) (some (chain 1)))
      (event (codes "0xbb") 2) 1 refl refl (omega arith) refl refl
