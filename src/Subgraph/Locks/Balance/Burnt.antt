-- ===== src/Subgraph/Locks/Balance/Burnt.antt =====
-- The transfer to zero and the unlock that the lock contract emits for a lock whose sale to the Furnace has
-- been handled already keep the books.
use claimrush.Prelude.{
  ℕ, ◌≡◌, ◌≢◌, refl, ◌∙◌, true, some, [], ◌∷◌, All, arith, ◌==◌, ◌||◌, ==_iff, Bool-cases, inl, inr,
}
use claimrush.Subgraph.Table.{Table, load, save, total}
use claimrush.Subgraph.Schema.{User, VeLock, Store, Meta, Protocol, zero_address}
use claimrush.Subgraph.Users.{note_ve_claim_nft, load_or_create_protocol, load_or_create_user}
use claimrush.Subgraph.Locks.{
  Chain, fetch_user, minus_clamped, lock_ve_snapshot, replaced_ve, replace_user_ve_contribution,
  take_locked,
}
use claimrush.Subgraph.Locks.Closing.{unlocked_lock, handle_lock_unlocked}
use claimrush.Subgraph.Locks.Transfer.{fill_furnace, burn_by_furnace, burn}
use claimrush.Subgraph.Locks.Events.{IsBurnt, OwnsNone}
use claimrush.Subgraph.Locks.Balance.{
  Measure, principal, power, of_user, of_lock, held, owned, IsAccounted, relocate, IsStored-save,
}
use claimrush.Subgraph.Locks.Balance.Rows.{held-save_self, held-save_other, fetched-held}
use claimrush.Subgraph.Locks.Balance.Steps.{either, loaded_lock}
use claimrush.Subgraph.Locks.Balance.Emptied.{owned_empty}
use claimrush.Subgraph.Locks.Balance.Closing.{current_ve_wei_empty, held-with_zero}

owned_elsewhere : (q : Measure) (a : ℕ) (l : VeLock) → l.owner ≢ a → owned q a l ≡ 0
owned_elsewhere q a l h = ground (arith, h)

owns_none :
    (q : Measure) (a : ℕ) (locks : Table VeLock)
    → All (λ (row : ℕ × VeLock). row.1.owner ≢ a) locks
    → total (owned q a) locks ≡ 0
owns_none q a [] h = refl
owns_none q a ((t, l) ∷ locks) h = omega (arith, owned_elsewhere q a l h.0, owns_none q a locks h.1)

minus_nothing : (n x : ℕ) → n ≡ 0 → minus_clamped n x ≡ n
minus_nothing n x h = ground arith

replaced_nothing : (agg a b : ℕ) → a ≡ 0 → b ≡ 0 → replaced_ve agg a b ≡ agg
replaced_nothing agg a b p q = ground arith

module _ (now x : ℕ) (l : VeLock) (none_left : l.amount_wei ≡ 0)
    (no_power : l.stored_ve_wei ≡ some 0) where
  burnt_of : (q : Measure) → of_lock q l ≡ 0
  burnt_of principal = none_left
  burnt_of power = rw no_power refl

  again_of : (q : Measure) → of_lock q (unlocked_lock now x l) ≡ 0
  again_of principal = minus_nothing l.amount_wei x none_left ∙ none_left
  again_of power =
      current_ve_wei_empty _ _ now _ (minus_nothing l.amount_wei x none_left ∙ none_left)

  snapshot_before : lock_ve_snapshot l now ≡ 0
  snapshot_before = rw no_power refl

  -- A row without principal is left as it is.
  module _ (users : Table User) (a : ℕ) (v : User)
      (v_of : (q : Measure) → of_user q v ≡ held q a users)
      (nothing : held principal a users ≡ 0) where
    abbrev again_row : User
    again_row =
        replace_user_ve_contribution (lock_ve_snapshot l now)
          (lock_ve_snapshot (unlocked_lock now x l) now) (take_locked x v)

    again_row_of : (q : Measure) → of_user q again_row ≡ held q a users
    again_row_of principal =
        minus_nothing (of_user principal v) x (v_of principal ∙ nothing) ∙ v_of principal
    again_row_of power =
        replaced_nothing (of_user power v) _ _ snapshot_before (again_of power) ∙ v_of power

    again_held :
        (users' : Table User)
        → ((q : Measure) (u : ℕ) → held q u users' ≡ held q u users)
        → (q : Measure) (u : ℕ) → held q u (save a again_row users') ≡ held q u users
    again_held users' same q u = elim (Bool-cases (u == a)) [
      | inl on ↦ rw ((==_iff u a).0 on) (held-save_self q a again_row users' ∙ again_row_of q)
      | inr off ↦ held-save_other q u a again_row users' (λ p. ground (arith, p, off)) ∙ same q u
    ]

-- The unlock of a burnt lock by a user without a lock.
pub unlock_burnt-IsAccounted :
    (chain : Chain) (m : Meta) (a t x : ℕ) (s : Store)
    → IsAccounted s
    → IsBurnt t s
    → OwnsNone a s
    → IsAccounted (handle_lock_unlocked chain m a t x s)
unfolding handle_lock_unlocked IsAccounted note_ve_claim_nft load_or_create_protocol
unlock_burnt-IsAccounted chain m a t x s h (l, e, none_left, gone, no_power) free =
    rw (loaded_lock t a m.timestamp (fetch_user a s.users).1 s.locks l e) (
      relocate s.users _ s.locks t l new h.0 e (λ q u. omega (
        arith,
        again_held m.timestamp x l none_left no_power s.users a (fetch_user a s.users).0
            (λ q. fetched-held q a s.users) (h.0 principal a ∙ owns_none principal a s.locks free) _
            (λ q u. held-with_zero q u a s.users) q u,
        owned_empty q u l (burnt_of m.timestamp x l none_left no_power q),
        owned_empty q u new (again_of m.timestamp x l none_left no_power q),
      )),
      IsStored-save t new s.locks refl h.1,
    )
  where
    new : VeLock
    new = unlocked_lock m.timestamp x l

skipped :
    (owner amount : ℕ) → owner ≡ zero_address → ((owner == zero_address) || (amount == 0)) ≡ true
skipped owner amount h = ground arith

burn_burnt :
    (m : Meta) (from t : ℕ) (u : User) (s : Store) (l : VeLock)
    → load t s.locks ≡ some l
    → l.owner ≡ zero_address
    → IsAccounted s
    → IsAccounted (burn_by_furnace m from t u s)
unfolding burn_by_furnace IsAccounted
burn_burnt m from t u s l e gone h =
    rw (loaded_lock t from m.timestamp s.users s.locks l e, skipped l.owner l.amount_wei gone) h

-- The transfer to zero of a burnt lock.
pub transfer_burnt-IsAccounted :
    (chain : Chain) (m : Meta) (from t : ℕ) (p : Protocol) (s : Store)
    → IsAccounted s
    → IsBurnt t s
    → IsAccounted (burn chain m from t p s)
unfolding burn IsAccounted
transfer_burnt-IsAccounted chain m from t p s h (l, e, none_left, gone, no_power) =
    either IsAccounted _ _ _ (burn_burnt m from t (fetch_user from s.users).0 s1 l e gone h1) h1
  where
    s1 : Store
    s1 =
        fill_furnace chain m p
          (record s { users = (load_or_create_user zero_address (fetch_user from s.users).1).1 })

    h1 : IsAccounted s1
    h1 = ((λ q u. held-with_zero q u from s.users ∙ h.0 q u), h.1)
