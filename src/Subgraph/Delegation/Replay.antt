-- ===== src/Subgraph/Delegation/Replay.antt =====
-- A session as its history tells it: the rows of one user and one delegate, the newest first.
use claimrush.Prelude.{
  ℕ, ◌≡◌, Bool, ◌&&◌, max, Option, none, some, List, [], ◌∷◌, ◌==◌, if◌then◌else◌,
}
use claimrush.Subgraph.Schema.{Meta}
use claimrush.Subgraph.Delegation.{
  DelegationSession, SessionRow, SessionStore, load_session, unknown_expiry,
}
use claimrush.Subgraph.Delegation.Bits.{digit}

-- The expiry and the time of the revocation.
abbrev pub Terms : Type 0
Terms = ℕ × Option ℕ

abbrev pub terms_or : Terms → Option Terms → Terms
terms_or unknown none = unknown
terms_or unknown (some terms) = terms

abbrev pub is_pair : ℕ → ℕ → ℕ → ℕ → Bool
is_pair u d u' d' = (u == u') && (d == d')

-- The newest setting gives the terms; a use leaves them, and makes them unknown where there are none.
unfoldable pub replay_terms : ℕ → ℕ → List (Meta × SessionRow) → Option Terms
replay_terms u d [] = none
replay_terms u d ((m, SessionRow.set_row u' d' perms expiry revoked) ∷ rest) =
    let before = replay_terms u d rest in
    if is_pair u d u' d' then some (expiry, if revoked then some m.timestamp else none) else before
replay_terms u d ((m, SessionRow.use_row u' d' kind action used ref_id timestamp) ∷ rest) =
    let before = replay_terms u d rest in
    if is_pair u d u' d' then some (terms_or (unknown_expiry, none) before) else before

-- One permission bit: what the newest setting gave, or any use since.
unfoldable pub granted : ℕ → ℕ → ℕ → List (Meta × SessionRow) → ℕ
granted i u d [] = 0
granted i u d ((m, SessionRow.set_row u' d' perms expiry revoked) ∷ rest) =
    let before = granted i u d rest in if is_pair u d u' d' then digit i perms else before
granted i u d ((m, SessionRow.use_row u' d' kind action used ref_id timestamp) ∷ rest) =
    let before = granted i u d rest in
    if is_pair u d u' d' then max before (digit i used) else before

abbrev pub terms_of : Option DelegationSession → Option Terms
terms_of none = none
terms_of (some s) = some (s.expiry, s.revoked_at)

abbrev pub perms_of : Option DelegationSession → ℕ
perms_of none = 0
perms_of (some s) = s.perms

-- The session in the store is the one that the history gives.
abbrev pub IsReplayedAt : ℕ → ℕ → Option DelegationSession → List (Meta × SessionRow) → Type 0
IsReplayedAt u d s rows =
    (terms_of s ≡ replay_terms u d rows) × ((i : ℕ) → digit i (perms_of s) ≡ granted i u d rows)

unfoldable pub IsReplayed : SessionStore → Type 0
IsReplayed ss = (u d : ℕ) → IsReplayedAt u d (load_session u d ss.sessions) ss.session_rows
