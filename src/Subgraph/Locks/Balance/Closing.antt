-- ===== src/Subgraph/Locks/Balance/Closing.antt =====
-- An unlock of all of the principal, and a merge that moves all of it, keep the books.
use claimrush.Prelude.{
  ℕ, ◌+◌, ◌≤◌, ◌≡◌, ◌≢◌, refl, sym, ◌∙◌, Bool, false, some, arith, ◌==◌, ==_iff, Bool-cases, inl,
  inr,
}
use claimrush.Subgraph.Table.{Table, load, save, load-save_other, total-save, rows_le_total}
use claimrush.Subgraph.Schema.{User, VeLock, Store, Meta, zero_address}
use claimrush.Subgraph.Users.{
  is_null, note_ve_claim_nft, load_or_create_protocol, load_or_create_user,
}
use claimrush.Subgraph.Ve.{current_ve_wei, max_lock_duration_seconds}
use claimrush.Subgraph.Locks.{
  Chain, replace_user_ve_contribution, minus_clamped, fetch_user, lock_ve_snapshot,
}
use claimrush.Subgraph.Locks.Closing.{
  merged_from, merged_into, unlocked_lock, handle_lock_merged, handle_lock_unlocked,
}
use claimrush.Subgraph.Locks.Balance.{
  Measure, principal, power, of_user, of_lock, held, owned, IsBalanced, IsAccounted, IsStored-save,
}
use claimrush.Subgraph.Locks.Balance.Rows.{
  held-save_self, held-save_other, fetched-held, held-fetched, held-loaded,
}
use claimrush.Subgraph.Locks.Balance.Steps.{snapshot_stored, loaded_lock, replaced}
use claimrush.Subgraph.Locks.Balance.Resave.{owned_own, owned_else}
use claimrush.Subgraph.Locks.Balance.Emptied.{owned_empty, emptied-IsBalanced}

-- Without principal there is no power.
pub current_ve_wei_empty :
    (amount lock_end now : ℕ) (auto_max : Bool)
    → amount ≡ 0
    → current_ve_wei amount lock_end now auto_max ≡ 0
unfolding current_ve_wei max_lock_duration_seconds
current_ve_wei_empty amount lock_end now auto_max h = rw h (ground arith)

minus_clamped_self : (x : ℕ) → minus_clamped x x ≡ 0
minus_clamped_self x = ground arith

unlocked_empty :
    (q : Measure) (now : ℕ) (l : VeLock) → of_lock q (unlocked_lock now l.amount_wei l) ≡ 0
unlocked_empty principal now l = minus_clamped_self l.amount_wei
unlocked_empty power now l = current_ve_wei_empty _ _ now _ (minus_clamped_self l.amount_wei)

merged_from_empty :
    (q : Measure) (now : ℕ) (l : VeLock) → of_lock q (merged_from now l.amount_wei l) ≡ 0
merged_from_empty principal now l = minus_clamped_self l.amount_wei
merged_from_empty power now l = current_ve_wei_empty _ _ now _ (minus_clamped_self l.amount_wei)

-- The users after the zero address was loaded too.
pub held-with_zero :
    (q : Measure) (u a : ℕ) (users : Table User)
    → held q u (load_or_create_user zero_address (fetch_user a users).1).1 ≡ held q u users
held-with_zero q u a users =
    held-loaded q u zero_address (fetch_user a users).1 ∙ held-fetched q u a users

pub handle_lock_unlocked-IsAccounted :
    (chain : Chain) (m : Meta) (a t : ℕ) (s : Store) (l : VeLock)
    → IsAccounted s
    → load t s.locks ≡ some l
    → l.owner ≡ a
    → IsAccounted (handle_lock_unlocked chain m a t l.amount_wei s)
unfolding handle_lock_unlocked IsAccounted note_ve_claim_nft load_or_create_protocol
handle_lock_unlocked-IsAccounted chain m a t s l h e own =
    rw (loaded_lock t a m.timestamp (fetch_user a s.users).1 s.locks l e) (
      emptied-IsBalanced s.users s.locks a t m.timestamp l h.0 e (h.1 t l e) own
          (fetch_user a s.users).0 (λ q. fetched-held q a s.users) _
          (unlocked_empty power m.timestamp l) _ (λ q u. held-with_zero q u a s.users)
          (unlocked_lock m.timestamp l.amount_wei l) (λ q. unlocked_empty q m.timestamp l),
      IsStored-save t (unlocked_lock m.timestamp l.amount_wei l) s.locks refl h.1,
    )

-- Two locks of one user become one, and its row moves by the change of the stored power.
module _ (users users' : Table User) (locks : Table VeLock) (a t k now : ℕ)
    (from into from' into' : VeLock) (v : User) (h : IsBalanced users locks) (ne : t ≢ k)
    (e : load t locks ≡ some from) (e' : load k locks ≡ some into)
    (stored : is_null from.stored_ve_wei ≡ false) (stored' : is_null into.stored_ve_wei ≡ false)
    (own : from.owner ≡ a) (own' : into.owner ≡ a) (kept : into'.owner ≡ a)
    (empty : (q : Measure) → of_lock q from' ≡ 0)
    (all_moved : into'.amount_wei ≡ into.amount_wei + from.amount_wei)
    (has_ve : is_null into'.stored_ve_wei ≡ false) (has_ve' : is_null from'.stored_ve_wei ≡ false)
    (same : (q : Measure) (u : ℕ) → held q u users' ≡ held q u users)
    (v_of : (q : Measure) → of_user q v ≡ held q a users) where
  abbrev pub merged_row : User
  merged_row =
      replace_user_ve_contribution (lock_ve_snapshot from now + lock_ve_snapshot into now)
        (lock_ve_snapshot from' now + lock_ve_snapshot into' now) v

  enough_for_both : of_lock power from + of_lock power into ≤ of_user power v
  enough_for_both = omega (
    arith,
    v_of power,
    h power a,
    rows_le_total (owned power a) t k from into locks ne e e',
    owned_own power a from own,
    owned_own power a into own',
  )

  merged_of :
      (q : Measure)
      → of_user q merged_row + of_lock q from + of_lock q into
        ≡ held q a users + of_lock q from' + of_lock q into'
  merged_of principal = omega (arith, v_of principal, all_moved, empty principal)
  merged_of power =
      rw
        (
          snapshot_stored from now stored,
          snapshot_stored into now stored',
          snapshot_stored from' now has_ve',
          snapshot_stored into' now has_ve,
        )
        (omega (
          arith,
          replaced (of_user power v) (of_lock power from + of_lock power into)
              (of_lock power from' + of_lock power into') enough_for_both,
          v_of power,
        ))

  merged_own :
      (q : Measure)
      → held q a (save a merged_row users') + owned q a from + owned q a into
        ≡ held q a users + owned q a from' + owned q a into'
  merged_own q = omega (
    arith,
    held-save_self q a merged_row users',
    merged_of q,
    owned_own q a from own,
    owned_own q a into own',
    owned_own q a into' kept,
    owned_empty q a from' (empty q),
    empty q,
  )

  merged_else :
      (q : Measure) (u : ℕ)
      → u ≢ a
      → held q u (save a merged_row users') + owned q u from + owned q u into
        ≡ held q u users + owned q u from' + owned q u into'
  merged_else q u away = omega (
    arith,
    held-save_other q u a merged_row users' away,
    same q u,
    owned_else q a u from own away,
    owned_else q a u into own' away,
    owned_else q a u into' kept away,
    owned_empty q u from' (empty q),
  )

  merged_at :
      (q : Measure) (u : ℕ)
      → held q u (save a merged_row users') + owned q u from + owned q u into
        ≡ held q u users + owned q u from' + owned q u into'
  merged_at q u = elim (Bool-cases (u == a)) [
    | inl on ↦ rw ((==_iff u a).0 on) (merged_own q)
    | inr off ↦ merged_else q u (λ p. ground (arith, p, off))
  ]

  pub merged-IsBalanced : IsBalanced (save a merged_row users') (save k into' (save t from' locks))
  merged-IsBalanced q u = omega (
    arith,
    h q u,
    merged_at q u,
    total-save (owned q u) t from' from locks e,
    total-save (owned q u) k into' into (save t from' locks)
        (load-save_other k t from' locks (λ p. ne (sym p)) ∙ e'),
  )

pub handle_lock_merged-IsAccounted :
    (chain : Chain) (m : Meta) (a t k : ℕ) (s : Store) (from into : VeLock)
    → IsAccounted s
    → t ≢ k
    → load t s.locks ≡ some from
    → load k s.locks ≡ some into
    → from.owner ≡ a
    → into.owner ≡ a
    → IsAccounted (handle_lock_merged chain m a t k from.amount_wei s)
unfolding handle_lock_merged merged_into IsAccounted note_ve_claim_nft load_or_create_protocol
handle_lock_merged-IsAccounted chain m a t k s from into h ne e e' own own' =
    rw
      (
        loaded_lock t a m.timestamp (fetch_user a s.users).1 s.locks from e,
        loaded_lock k a m.timestamp (fetch_user a s.users).1 s.locks into e',
      )
      (
        merged-IsBalanced s.users _ s.locks a t k m.timestamp from into from' into'
            (fetch_user a s.users).0 h.0 ne e e' (h.1 t from e) (h.1 k into e') own own' refl
            (λ q. merged_from_empty q m.timestamp from) refl refl refl
            (λ q u. held-with_zero q u a s.users) (λ q. fetched-held q a s.users),
        IsStored-save k into' (save t from' s.locks) refl (IsStored-save t from' s.locks refl h.1),
      )
  where
    from' : VeLock
    from' = merged_from m.timestamp from.amount_wei from

    into' : VeLock
    into' = merged_into m.timestamp a from.amount_wei from into
