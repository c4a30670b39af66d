-- ===== src/Subgraph/Tests/Sessions.antt =====
-- A session is set, used, revoked and used once more; another is only known by a use.
use claimrush.Prelude.{◌≡◌, refl, some, List, [], ◌∷◌}
use claimrush.Subgraph.Schema.{Meta}
use claimrush.Subgraph.Delegation.{
  DelegationActionType, SessionStore, load_session, save_session, action_type_enum,
  handle_session_set, record_delegation_session_used,
}
use claimrush.Subgraph.Delegation.Bits.{digit_zero}
use claimrush.Subgraph.Delegation.Replay.{replay_terms, granted, terms_of, perms_of, IsReplayed}
use claimrush.Subgraph.Delegation.Run.{
  SessionEvent, handle_session, run_sessions, run_sessions-IsReplayed,
}
use claimrush.Subgraph.Tests.{at_time}

abbrev no_sessions : SessionStore
no_sessions = record { users = []; sessions = []; session_rows = [] }

abbrev session_run : List (Meta × SessionEvent)
session_run =
    (at_time 100, SessionEvent.session_set 7 8 5 900)
    ∷ (at_time 110, SessionEvent.delegation_session_used 7 8 1 2 0 110)
    ∷ (at_time 120, SessionEvent.delegation_session_used 7 9 12 128 0 120)
    ∷ (at_time 130, SessionEvent.session_set 7 9 0 0)
    ∷ []

none-IsReplayed : IsReplayed no_sessions
unfolding IsReplayed load_session replay_terms granted
none-IsReplayed u d = (refl, λ i. digit_zero i)

run_sessions-IsReplayed_example : IsReplayed (run_sessions session_run no_sessions)
run_sessions-IsReplayed_example = run_sessions-IsReplayed session_run no_sessions none-IsReplayed

-- The permissions of the first session are 5 and 2 together; the second is revoked at 130.
session_run_leaves :
    (perms_of (load_session 7 8 (run_sessions session_run no_sessions).sessions) ≡ 7)
    × (terms_of (load_session 7 9 (run_sessions session_run no_sessions).sessions)
        ≡ some (0, some 130))
unfolding run_sessions handle_session handle_session_set record_delegation_session_used load_session
    save_session
session_run_leaves = (refl, refl)

claim_range :
    (action_type_enum 13 ≡ DelegationActionType.claim)
    × (action_type_enum 14 ≡ DelegationActionType.unknown)
unfolding action_type_enum
claim_range = (refl, refl)
