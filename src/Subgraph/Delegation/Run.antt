-- ===== src/Subgraph/Delegation/Run.antt =====
-- The sessions over a run of the events of the hub and of the contracts that act for a user.
use claimrush.Prelude.{
  ℕ, ◌≡◌, refl, sym, true, max, Option, none, some, List, [], ◌∷◌, arith, ◌==◌, ==_iff, Bool-cases,
  inl, inr, if◌then◌else◌,
}
use claimrush.Subgraph.Table.{load, save, load-save}
use claimrush.Subgraph.Schema.{Meta}
use claimrush.Subgraph.Delegation.{
  DelegationSession, Sessions, SessionStore, or_no_rows, load_session, save_session, SessionRow,
  empty_session, session_or, used_session, unknown_expiry, handle_session_set,
  record_delegation_session_used,
}
use claimrush.Subgraph.Delegation.Bits.{digit, digit_zero, digit-bit_or}
use claimrush.Subgraph.Delegation.Replay.{
  terms_of, terms_or, is_pair, replay_terms, granted, IsReplayedAt, IsReplayed,
}

pub data SessionEvent : Type 0 where
  session_set : (user delegate perms expiry : ℕ) → SessionEvent
  delegation_session_used :
      (user delegate action_type_id perms_used ref_id timestamp : ℕ) → SessionEvent

unfoldable pub handle_session : Meta → SessionEvent → SessionStore → SessionStore
handle_session m (SessionEvent.session_set u d p e) ss = handle_session_set m u d p e ss
handle_session m (SessionEvent.delegation_session_used u d a p r t) ss =
    record_delegation_session_used m u d a p r t ss

unfoldable pub run_sessions : List (Meta × SessionEvent) → SessionStore → SessionStore
run_sessions [] ss = ss
run_sessions ((m, e) ∷ es) ss = run_sessions es (handle_session m e ss)

load_session-save_session :
    (u d u' d' : ℕ) (s : DelegationSession) (t : Sessions)
    → load_session u d (save_session u' d' s t)
      ≡ (if is_pair u d u' d' then some s else load_session u d t)
unfolding load_session save_session
load_session-save_session u d u' d' s t = elim (Bool-cases (u == u')) [
  | inl on ↦
      rw
        (
          load-save u u' (save d' s (or_no_rows (load u' t))) t,
          on,
          load-save d d' s (or_no_rows (load u' t)),
          (==_iff u u').0 on,
        )
        refl
  | inr off ↦ rw (load-save u u' (save d' s (or_no_rows (load u' t))) t, off) refl
]

used_replay :
    (u d : ℕ) (m : Meta) (u' d' action p t : ℕ) (o : Option DelegationSession)
    (rows : List (Meta × SessionRow))
    → IsReplayedAt u d o rows
    → let s = used_session m action p t (session_or (empty_session u' d' p unknown_expiry t) o) in
      (terms_of (some s) ≡ some (terms_or (unknown_expiry, none) (replay_terms u d rows)))
      × ((i : ℕ) → digit i s.perms ≡ max (granted i u d rows) (digit i p))
used_replay u d m u' d' action p t none rows (terms, bits) =
    (rw (sym terms) refl, λ i. omega (arith, digit-bit_or i p p, bits i, digit_zero i))
used_replay u d m u' d' action p t (some s) rows (terms, bits) =
    (rw (sym terms) refl, λ i. omega (arith, digit-bit_or i s.perms p, bits i))

both_same : (u d u' d' : ℕ) → is_pair u d u' d' ≡ true → (u ≡ u') × (d ≡ d')
both_same u d u' d' e = ground arith

set_replay :
    (m : Meta) (u' d' perms expiry : ℕ) (ss : SessionStore)
    → IsReplayed ss
    → IsReplayed (handle_session_set m u' d' perms expiry ss)
unfolding handle_session_set IsReplayed replay_terms granted
set_replay m u' d' perms expiry ss h u d = elim (Bool-cases (is_pair u d u' d')) [
  | inl on ↦ rw (load_session-save_session u d u' d' _ ss.sessions, on) (refl, λ i. refl)
  | inr off ↦ rw (load_session-save_session u d u' d' _ ss.sessions, off) (h u d)
]

use_replay :
    (m : Meta) (u' d' action p r t : ℕ) (ss : SessionStore)
    → IsReplayed ss
    → IsReplayed (record_delegation_session_used m u' d' action p r t ss)
unfolding record_delegation_session_used IsReplayed replay_terms granted
use_replay m u' d' action p r t ss h u d = elim (Bool-cases (is_pair u d u' d')) [
  | inl on ↦
      rw (load_session-save_session u d u' d' _ ss.sessions, on)
        (used_replay u d m u' d' action p t _ ss.session_rows (same (both_same u d u' d' on)))
  | inr off ↦ rw (load_session-save_session u d u' d' _ ss.sessions, off) (h u d)
]
  where
    same : (u ≡ u') × (d ≡ d') → IsReplayedAt u d (load_session u' d' ss.sessions) ss.session_rows
    same (e, e') = rw (sym e, sym e') (h u d)

-- After any run of settings and uses, a session's expiry and its time of revocation are those of the
-- newest setting of its user and delegate, unknown and none where only uses are known, and each of its
-- permission bits is set if the newest setting gave it or a use since then did, when all this held
-- before the run.
pub run_sessions-IsReplayed :
    (es : List (Meta × SessionEvent)) (ss : SessionStore)
    → IsReplayed ss
    → IsReplayed (run_sessions es ss)
unfolding run_sessions handle_session
run_sessions-IsReplayed [] ss h = h
run_sessions-IsReplayed ((m, SessionEvent.session_set u d p e) ∷ es) ss h =
    run_sessions-IsReplayed es _ (set_replay m u d p e ss h)
run_sessions-IsReplayed ((m, SessionEvent.delegation_session_used u d a p r t) ∷ es) ss h =
    run_sessions-IsReplayed es _ (use_replay m u d a p r t ss h)
