-- ===== src/Subgraph/Mine/Handlers.antt =====
-- The handlers of takeovers, of finalized reigns, and of the recipients of a reign.
use claimrush.Prelude.{
  ℕ, ◌+◌, ◌-◌, ◌%◌, ◌^◌, Bool, true, not, Option, none, some, List, ◌∷◌, ◌==◌, ltb, if◌then◌else◌,
}
use claimrush.Prelude.Int.{pos, negsuc, ◌+ℤ◌}
use claimrush.Subgraph.Table.{Table, load, save}
use claimrush.Subgraph.Schema.{User, Meta, Network, zero_address}
use claimrush.Subgraph.Users.{load_or_create_user}
use claimrush.Subgraph.Mine.{
  TakeoverId, Takeover, Reign, Finalized, RecipientsState, ActivityKind, MineStore, Log,
  has_takeover_log, note_mine_core, touch_user, add_activity,
}

abbrev non_zero : ℕ → Option ℕ
non_zero addr = if addr == zero_address then none else some addr

abbrev previous_reign_id : ℕ → Option ℕ
previous_reign_id reign_id = if ltb 1 reign_id then some (reign_id - 1) else none

-- A reign that is known keeps its totals; its king and start are written again.
abbrev crowned : Meta → ℕ → ℕ → ℕ → Option Reign → Reign
crowned m reign_id king started none = record {
  reign_id = reign_id;
  king = king;
  start_time = started;
  started_by_takeover = TakeoverId.by_event m;
  previous_reign = previous_reign_id reign_id;
  end_time = none;
  total_claim_mined_wei = none;
  total_eth_to_king_wei = none;
  finalized_by = none;
  liquid_claim_paid_wei = none;
  liquid_bps_applied = none;
}
crowned m reign_id king started (some r) = record r {
  king = king;
  start_time = started;
  started_by_takeover = TakeoverId.by_event m;
}

-- `takeoverCount` is an i32; its 32 bits are kept.
abbrev pub with_takeover : ℕ → User → User
with_takeover price u = record u {
  takeover_count = (u.takeover_count + 1) % 2 ^ 32;
  eth_spent_on_takeovers_wei = u.eth_spent_on_takeovers_wei + price;
}

-- The previous king's row is loaded or created, where there was a king.
abbrev pub touch_previous : ℕ → Table User → Table User
touch_previous previous users =
    let created = (load_or_create_user previous users).1 in
    if previous == zero_address then users else created

unfoldable pub handle_takeover :
    Network
    → Meta
    → (reign_id previous_king new_king price reference at : ℕ) → MineStore
    → MineStore
handle_takeover network m reign_id previous_king new_king price reference at ms0 =
    let ms = note_mine_core network m ms0 in
    let (u, users) = load_or_create_user new_king ms.store.users in
    let users' = touch_previous previous_king users in
    let row : Takeover = record {
      id = TakeoverId.by_event m;
      reign = reign_id;
      previous_king = non_zero previous_king;
      new_king = new_king;
      price_paid_wei = price;
      reference_price_wei = reference;
      taken_at = at;
      event = m;
    } in
    add_activity m
      (record {
        kind = ActivityKind.takeover;
        activity_at = at;
        activity_user = new_king;
        other_user = non_zero previous_king;
        activity_reign = some reign_id;
        token_id = none;
        amount_eth_wei = some price;
        amount_claim_wei = none;
        bps = none;
      })
      (record ms {
        store = record ms.store { users = save new_king (with_takeover price u) users' };
        reigns = save reign_id (crowned m reign_id new_king at (load reign_id ms.reigns)) ms.reigns;
        takeovers = row ∷ ms.takeovers;
      })

-- A placeholder stands in for a takeover before the first indexed block.
abbrev placeholder_takeover : Meta → ℕ → ℕ → ℕ → Takeover
placeholder_takeover m reign_id king started = record {
  id = TakeoverId.missing reign_id;
  reign = reign_id;
  previous_king = none;
  new_king = king;
  price_paid_wei = 0;
  reference_price_wei = 0;
  taken_at = started;
  event = m;
}

abbrev placeholder_reign : ℕ → ℕ → ℕ → Reign
placeholder_reign reign_id king started = record {
  reign_id = reign_id;
  king = king;
  start_time = started;
  started_by_takeover = TakeoverId.missing reign_id;
  previous_reign = none;
  end_time = none;
  total_claim_mined_wei = none;
  total_eth_to_king_wei = none;
  finalized_by = none;
  liquid_claim_paid_wei = none;
  liquid_bps_applied = none;
}

-- The reign and the takeovers, with the placeholder where the reign is unknown.
abbrev pub found_reign : Meta → ℕ → ℕ → ℕ → Option Reign → List Takeover → Reign × List Takeover
found_reign m reign_id king started none rows =
    (placeholder_reign reign_id king started, placeholder_takeover m reign_id king started ∷ rows)
found_reign m reign_id king started (some r) rows = (r, rows)

-- The duration in seconds, at most the largest i32.
abbrev pub reign_duration : ℕ → ℕ → ℕ
reign_duration started ended =
    if ltb 2147483647 (ended - started) then 2147483647 else ended - started

abbrev pub with_reign : ℕ → ℕ → User → User
with_reign mined duration u = record u {
  king_claim_mined_wei = u.king_claim_mined_wei + mined;
  longest_reign_seconds =
      if ltb u.longest_reign_seconds duration then duration else u.longest_reign_seconds;
}

unfoldable pub handle_reign_finalized :
    Network → Meta → (reign_id king started ended mined eth : ℕ) → MineStore → MineStore
handle_reign_finalized network m reign_id king started ended mined eth ms0 =
    let ms = note_mine_core network m ms0 in
    let (u, users) = load_or_create_user king ms.store.users in
    let (r, rows) = found_reign m reign_id king started (load reign_id ms.reigns) ms.takeovers in
    let row : Finalized = record {
      of_reign = reign_id;
      of_king = king;
      from_time = started;
      to_time = ended;
      claim_mined_wei = mined;
      eth_to_king_wei = eth;
      finalized_at = m;
    } in
    add_activity m
      (record {
        kind = ActivityKind.reign_finalized;
        activity_at = m.timestamp;
        activity_user = king;
        other_user = none;
        activity_reign = some reign_id;
        token_id = none;
        amount_eth_wei = some eth;
        amount_claim_wei = some mined;
        bps = none;
      })
      (record ms {
        store = record ms.store {
          users = save king (with_reign mined (reign_duration started ended) u) users;
        };
        reigns =
            save reign_id
              (record r {
                king = king;
                start_time = started;
                end_time = some ended;
                total_claim_mined_wei = some mined;
                total_eth_to_king_wei = some eth;
                finalized_by = some m;
              })
              ms.reigns;
        takeovers = rows;
        finalized = row ∷ ms.finalized;
      })

-- The state before the update: a new one counts from -1.
abbrev pub recipients_before : Meta → ℕ → ℕ → ℕ → Option RecipientsState → RecipientsState
recipients_before m king eth claim none = record {
  state_king = king;
  eth_recipient = eth;
  claim_recipient = claim;
  update_count = negsuc 0;
  first_set = m;
  last_set = m;
}
recipients_before m king eth claim (some st) = st

abbrev pub is_mid_reign : Option RecipientsState → Option (List Log) → Meta → Bool
is_mid_reign none receipt m = not (has_takeover_log receipt m)
is_mid_reign (some st) receipt m = true

unfoldable pub handle_reign_recipients_set :
    Network → Meta → Option (List Log) → (reign_id king eth claim : ℕ) → MineStore → MineStore
handle_reign_recipients_set network m receipt reign_id king eth claim ms0 =
    let ms = touch_user king (note_mine_core network m ms0) in
    let known = load reign_id ms.recipients in
    let st = recipients_before m king eth claim known in
    record ms {
      recipients =
          save reign_id
            (record st {
              state_king = king;
              eth_recipient = eth;
              claim_recipient = claim;
              update_count = st.update_count +ℤ pos 1;
              last_set = m;
            })
            ms.recipients;
      recipients_set =
          (record {
            set_reign = reign_id;
            set_king = king;
            set_eth_recipient = eth;
            set_claim_recipient = claim;
            is_mid_reign_update = is_mid_reign known receipt m;
            set_at = m;
          })
          ∷ ms.recipients_set;
    }
