-- ===== src/Subgraph/Delegation.antt =====
-- The delegation sessions: subgraph/src/mappings/delegationHub.ts and subgraph/src/utils/delegation.ts.
-- A session's id joins the two addresses, so the sessions are a table by user of tables by delegate. A
-- row's id, sort key, block number and hash are those of its event.
pub mod Bits
pub mod Replay
pub mod Run
use Prim.Native.Nat.{bit_or}
use claimrush.Prelude.{
  ℕ, Bool, ◌&&◌, Option, none, some, List, [], ◌∷◌, arith, ◌==◌, leb, if◌then◌else◌,
}
use claimrush.Subgraph.Table.{Table, load, save}
use claimrush.Subgraph.Schema.{User, Meta}
use claimrush.Subgraph.Users.{load_or_create_user}

-- `enum DelegationActionType`.
pub data DelegationActionType : Type 0 where
  unknown takeover reign_recipients claim furnace_enter ve_lock config : DelegationActionType

-- `type DelegationSession`.
pub record DelegationSession : Type 0 where
  pub user : ℕ
  pub delegate : ℕ
  pub perms : ℕ
  pub expiry : ℕ
  pub created_at : ℕ
  pub updated_at : ℕ
  pub revoked_at : Option ℕ
  pub last_used_at : Option ℕ
  pub last_action_type : Option DelegationActionType
  pub last_tx_hash : Option ℕ

-- `type DelegationSessionSetEvent` and `type DelegationSessionUse`.
pub data SessionRow : Type 0 where
  set_row : (user delegate perms expiry : ℕ) → Bool → SessionRow
  use_row :
      (user delegate : ℕ)
      → DelegationActionType
      → (action_type_id perms_used ref_id timestamp : ℕ) → SessionRow

abbrev pub Sessions : Type 0
Sessions = Table (Table DelegationSession)

-- `session_rows` has the newest row first.
pub record SessionStore : Type 0 where
  pub users : Table User
  pub sessions : Sessions
  pub session_rows : List (Meta × SessionRow)

abbrev pub or_no_rows : Option (Table DelegationSession) → Table DelegationSession
or_no_rows none = []
or_no_rows (some rows) = rows

unfoldable pub load_session : ℕ → ℕ → Sessions → Option DelegationSession
load_session user delegate sessions = load delegate (or_no_rows (load user sessions))

unfoldable pub save_session : ℕ → ℕ → DelegationSession → Sessions → Sessions
save_session user delegate s sessions =
    save user (save delegate s (or_no_rows (load user sessions))) sessions

abbrev is_between : ℕ → ℕ → ℕ → Bool
is_between low high n = leb low n && leb n high

unfoldable pub action_type_enum : ℕ → DelegationActionType
action_type_enum n =
    if n == 1
    then DelegationActionType.takeover
    else if n == 2
    then DelegationActionType.reign_recipients
    else if is_between 10 13 n
    then DelegationActionType.claim
    else if is_between 20 22 n
    then DelegationActionType.furnace_enter
    else if is_between 30 32 n
    then DelegationActionType.ve_lock
    else if is_between 40 42 n
    then DelegationActionType.config
    else DelegationActionType.unknown

abbrev pub empty_session : (user delegate perms expiry now : ℕ) → DelegationSession
empty_session user delegate perms expiry now = record {
  user = user;
  delegate = delegate;
  perms = perms;
  expiry = expiry;
  created_at = now;
  updated_at = now;
  revoked_at = none;
  last_used_at = none;
  last_action_type = none;
  last_tx_hash = none;
}

abbrev pub session_or : DelegationSession → Option DelegationSession → DelegationSession
session_or empty none = empty
session_or empty (some s) = s

abbrev pub both_users : ℕ → ℕ → Table User → Table User
both_users user delegate users = (load_or_create_user delegate (load_or_create_user user users).1).1

abbrev pub is_revocation : ℕ → ℕ → Bool
is_revocation perms expiry = (perms == 0) && (expiry == 0)

abbrev pub revocation : ℕ → ℕ → ℕ → Option ℕ
revocation perms expiry now = if is_revocation perms expiry then some now else none

abbrev pub set_session : ℕ → ℕ → ℕ → DelegationSession → DelegationSession
set_session perms expiry now s = record s {
  perms = perms;
  expiry = expiry;
  updated_at = now;
  revoked_at = revocation perms expiry now;
}

unfoldable pub handle_session_set :
    Meta → (user delegate perms expiry : ℕ) → SessionStore → SessionStore
handle_session_set m user delegate perms expiry ss =
    let now = m.timestamp in
    let s =
      session_or (empty_session user delegate 0 0 now) (load_session user delegate ss.sessions) in
    record {
      users = both_users user delegate ss.users;
      sessions = save_session user delegate (set_session perms expiry now s) ss.sessions;
      session_rows =
          (m, SessionRow.set_row user delegate perms expiry (is_revocation perms expiry))
          ∷ ss.session_rows;
    }

-- The expiry of a session whose setting was not indexed.
abbrev pub unknown_expiry : ℕ
unknown_expiry = 4294967295

abbrev pub used_session : Meta → ℕ → ℕ → ℕ → DelegationSession → DelegationSession
used_session m action_type_id perms_used timestamp s = record s {
  perms = bit_or s.perms perms_used;
  last_used_at = some timestamp;
  last_action_type = some (action_type_enum action_type_id);
  last_tx_hash = some m.tx_hash;
  updated_at = timestamp;
}

unfoldable pub record_delegation_session_used :
    Meta
    → (user delegate action_type_id perms_used ref_id timestamp : ℕ) → SessionStore
    → SessionStore
record_delegation_session_used m user delegate action_type_id perms_used ref_id timestamp ss =
    let empty = empty_session user delegate perms_used unknown_expiry timestamp in
    let s = session_or empty (load_session user delegate ss.sessions) in
    let s' = used_session m action_type_id perms_used timestamp s in
    record {
      users = both_users user delegate ss.users;
      sessions = save_session user delegate s' ss.sessions;
      session_rows =
          (
            m,
            SessionRow.use_row user delegate (action_type_enum action_type_id) action_type_id
                perms_used ref_id timestamp,
          )
          ∷ ss.session_rows;
    }
