-- ===== src/Subgraph/Locks/Balance/Steps.antt =====
-- What the changes of a user's row and of a lock's row do to the two aggregates.
use claimrush.Prelude.{
  ℕ, ◌+◌, ◌≤◌, ◌≡◌, ◌≢◌, refl, Bool, true, false, if◌then◌else◌, Option, none, some, arith,
}
use claimrush.Subgraph.Table.{Table, load, save}
use claimrush.Subgraph.Schema.{User, VeLock}
use claimrush.Subgraph.Users.{or_zero, is_null}
use claimrush.Subgraph.Locks.{
  replace_user_ve_contribution, replaced_ve, load_or_create_ve_lock, lock_ve_snapshot, stored_or,
}
use claimrush.Subgraph.Locks.Balance.{
  Measure, principal, power, of_user, of_lock, held, owned, IsBalanced, relocate,
}
use claimrush.Subgraph.Locks.Balance.Rows.{held-save}

stored_or_stored :
    (stored : Option ℕ) (computed : ℕ)
    → is_null stored ≡ false
    → stored_or stored computed ≡ or_zero stored
stored_or_stored none computed h = cc
stored_or_stored (some ve) computed h = refl

pub either {ℓ κ} :
    {A : Type ℓ} (P : A → Type κ) (b : Bool) (x y : A) → P x → P y → P (if b then x else y)
either P true x y p q = p
either P false x y p q = q

-- With the power stored, the snapshot is what is stored.
pub snapshot_stored :
    (l : VeLock) (now : ℕ)
    → is_null l.stored_ve_wei ≡ false
    → lock_ve_snapshot l now ≡ of_lock power l
snapshot_stored l now h = stored_or_stored l.stored_ve_wei _ h

pub loaded_lock :
    (t owner now : ℕ) (users : Table User) (locks : Table VeLock) (l : VeLock)
    → load t locks ≡ some l
    → load_or_create_ve_lock t owner now users locks ≡ (l, users, locks)
unfolding load_or_create_ve_lock
loaded_lock t owner now users locks l e = rw (e, load_or_create_ve_lock) refl

-- The row of `a` is replaced by `v`, and one lock of `a` by another.
pub swap :
    (users users' : Table User) (locks : Table VeLock) (a t : ℕ) (v : User) (old new : VeLock)
    → IsBalanced users locks
    → load t locks ≡ some old
    → ((q : Measure) (u : ℕ) → held q u users' ≡ held q u users)
    → old.owner ≡ a
    → ((q : Measure) → of_user q v + of_lock q old ≡ held q a users + owned q a new)
    → ((q : Measure) (u : ℕ) → u ≢ a → owned q u new ≡ 0)
    → IsBalanced (save a v users') (save t new locks)
swap users users' locks a t v old new h e same own changed others =
    relocate users (save a v users') locks t old new h e
      (λ q u. ground (arith, held-save q u a v users', same q u, changed q, others q u))

-- The aggregates of a row after its power was replaced, in an account that covers the old power.
pub replaced : (agg old new : ℕ) → old ≤ agg → replaced_ve agg old new + old ≡ agg + new
replaced agg old new h = ground arith

pub of_user-replace :
    (u : User) (old new : ℕ) (q : Measure)
    → old ≤ of_user power u
    → of_user q (replace_user_ve_contribution old new u) + elim q [ principal ↦ 0 | power ↦ old ]
      ≡ of_user q u + elim q [ principal ↦ 0 | power ↦ new ]
of_user-replace u old new principal h = omega arith
of_user-replace u old new power h = replaced (or_zero u.ve_balance_wei) old new h
