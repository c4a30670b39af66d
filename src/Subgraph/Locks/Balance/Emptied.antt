-- ===== src/Subgraph/Locks/Balance/Emptied.antt =====
-- A lock is emptied, and the row of its owner pays for it.
use claimrush.Prelude.{ℕ, ◌+◌, ◌≤◌, ◌≡◌, ap, false, some, arith}
use claimrush.Subgraph.Table.{Table, load, save}
use claimrush.Subgraph.Schema.{User, VeLock}
use claimrush.Subgraph.Users.{is_null}
use claimrush.Subgraph.Locks.{replace_user_ve_contribution, take_locked, lock_ve_snapshot}
use claimrush.Subgraph.Locks.Balance.{
  Measure, principal, power, of_user, of_lock, held, owned, IsBalanced, covered,
}
use claimrush.Subgraph.Locks.Balance.Steps.{snapshot_stored, swap, replaced}

pub owned_empty : (q : Measure) (u : ℕ) (l : VeLock) → of_lock q l ≡ 0 → owned q u l ≡ 0
owned_empty q u l h = ground arith

-- A row that pays for one whole lock of its address.
module _ (users : Table User) (locks : Table VeLock) (a t now : ℕ) (old : VeLock)
    (h : IsBalanced users locks) (e : load t locks ≡ some old)
    (stored : is_null old.stored_ve_wei ≡ false) (own : old.owner ≡ a) (v : User)
    (v_of : (q : Measure) → of_user q v ≡ held q a users) (left : ℕ) (none_left : left ≡ 0) where
  abbrev pub taken : User
  taken =
      replace_user_ve_contribution (lock_ve_snapshot old now) left (take_locked old.amount_wei v)

  enough : (q : Measure) → of_lock q old ≤ of_user q v
  enough q = omega (arith, covered users locks t old q h e, ap (λ x. held q x users) own, v_of q)

  pub taken_of : (q : Measure) → of_user q taken + of_lock q old ≡ held q a users
  taken_of principal = ground (arith, enough principal, v_of principal)
  taken_of power = rw (snapshot_stored old now stored) (
      omega (
        arith,
        replaced (of_user power v) (of_lock power old) left (enough power),
        v_of power,
        none_left,
      ))

  module _ (users' : Table User) (same : (q : Measure) (u : ℕ) → held q u users' ≡ held q u users)
      (new : VeLock) (empty : (q : Measure) → of_lock q new ≡ 0) where
    -- The lock is emptied.
    pub emptied-IsBalanced : IsBalanced (save a taken users') (save t new locks)
    emptied-IsBalanced =
        swap users users' locks a t taken old new h e same own
          (λ q. omega (arith, taken_of q, owned_empty q a new (empty q)))
          (λ q u ne. owned_empty q u new (empty q))
