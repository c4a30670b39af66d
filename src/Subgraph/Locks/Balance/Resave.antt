-- ===== src/Subgraph/Locks/Balance/Resave.antt =====
-- One lock of a user is saved again with its row, as the handlers that leave the lock with its user do.
use claimrush.Prelude.{ℕ, ◌+◌, ◌≤◌, ◌≡◌, ◌≢◌, ap, false, some, arith}
use claimrush.Subgraph.Table.{Table, load, save}
use claimrush.Subgraph.Schema.{User, VeLock}
use claimrush.Subgraph.Users.{is_null}
use claimrush.Subgraph.Locks.{replace_user_ve_contribution, fetch_user, lock_ve_snapshot}
use claimrush.Subgraph.Locks.Balance.{
  Measure, principal, power, of_user, of_lock, held, owned, IsBalanced, covered,
}
use claimrush.Subgraph.Locks.Balance.Rows.{fetched-held, held-fetched}
use claimrush.Subgraph.Locks.Balance.Steps.{snapshot_stored, swap, replaced}

pub owned_own : (q : Measure) (a : ℕ) (l : VeLock) → l.owner ≡ a → owned q a l ≡ of_lock q l
owned_own q a l h = ground arith

pub owned_else : (q : Measure) (a u : ℕ) (l : VeLock) → l.owner ≡ a → u ≢ a → owned q u l ≡ 0
owned_else q a u l h ne = ground arith

module _ (users : Table User) (locks : Table VeLock) (a t now : ℕ) (old new : VeLock)
    (on_user : User → User) (h : IsBalanced users locks) (e : load t locks ≡ some old)
    (stored : is_null old.stored_ve_wei ≡ false) (stored' : is_null new.stored_ve_wei ≡ false)
    (own : old.owner ≡ a) (own' : new.owner ≡ a)
    (moves : (u : User)
      → of_user principal (on_user u) + old.amount_wei ≡ of_user principal u + new.amount_wei)
    (keeps : (u : User) → of_user power (on_user u) ≡ of_user power u) where
  abbrev row : User
  row =
      replace_user_ve_contribution (lock_ve_snapshot old now) (lock_ve_snapshot new now)
        (on_user (fetch_user a users).0)

  enough : of_lock power old ≤ of_user power (on_user (fetch_user a users).0)
  enough = omega (
    arith,
    covered users locks t old power h e,
    ap (λ x. held power x users) own,
    keeps (fetch_user a users).0,
    fetched-held power a users,
  )

  changed : (q : Measure) → of_user q row + of_lock q old ≡ held q a users + owned q a new
  changed principal = omega (
    arith,
    moves (fetch_user a users).0,
    fetched-held principal a users,
    owned_own principal a new own',
  )
  changed power =
      rw (snapshot_stored old now stored, snapshot_stored new now stored')
        (omega (
          arith,
          replaced (of_user power (on_user (fetch_user a users).0)) (of_lock power old)
              (of_lock power new) enough,
          keeps (fetch_user a users).0,
          fetched-held power a users,
          owned_own power a new own',
        ))

  pub resaved-IsBalanced : IsBalanced (save a row (fetch_user a users).1) (save t new locks)
  resaved-IsBalanced =
      swap users (fetch_user a users).1 locks a t row old new h e (λ q u. held-fetched q u a users)
        own changed (λ q u ne. owned_else q a u new own' ne)
