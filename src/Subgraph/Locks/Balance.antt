-- ===== src/Subgraph/Locks/Balance.antt =====
-- The aggregates of the users against the locks they own: the principal and the stored power.
pub mod Rows
pub mod Steps
pub mod Resave
pub mod Handlers
pub mod Emptied
pub mod Closing
pub mod Transfers
pub mod Sold
pub mod Burnt
pub mod Run
use claimrush.Prelude.{
  ℕ, ◌+◌, ◌-◌, ◌≤◌, ◌≡◌, refl, Bool, true, false, Option, none, some, arith, ◌==◌, leb,
  if◌then◌else◌,
}
use claimrush.Subgraph.Table.{
  Table, load, save, load-save, total, total-save, total-save_new, row_le_total,
}
use claimrush.Subgraph.Schema.{User, VeLock, Store}
use claimrush.Subgraph.Users.{or_zero, is_null}
use claimrush.Subgraph.Users.Aggregate.{at}

-- The two aggregates that a user's row keeps.
pub data Measure : Type 0 where
  principal power : Measure

abbrev pub of_user : Measure → User → ℕ
of_user principal u = or_zero u.total_locked_claim_wei
of_user power u = or_zero u.ve_balance_wei

abbrev pub of_lock : Measure → VeLock → ℕ
of_lock principal l = l.amount_wei
of_lock power l = or_zero l.stored_ve_wei

-- What the row of an address says, nothing where there is no row.
abbrev pub held : Measure → ℕ → Table User → ℕ
held q u users = at (of_user q) u users

abbrev pub owned : Measure → ℕ → VeLock → ℕ
owned q u l = if l.owner == u then of_lock q l else 0

-- Each aggregate is the sum over the locks that the address owns.
abbrev pub IsBalanced : Table User → Table VeLock → Type 0
IsBalanced users locks = (q : Measure) (u : ℕ) → held q u users ≡ total (owned q u) locks

-- Every lock has its power stored.
abbrev pub IsStored : Table VeLock → Type 0
IsStored locks = (k : ℕ) (l : VeLock) → load k locks ≡ some l → is_null l.stored_ve_wei ≡ false

unfoldable pub IsAccounted : Store → Type 0
IsAccounted s = IsBalanced s.users s.locks × IsStored s.locks

-- One lock is replaced, and every aggregate moves by the difference.
pub relocate :
    (users users' : Table User) (locks : Table VeLock) (t : ℕ) (old new : VeLock)
    → IsBalanced users locks
    → load t locks ≡ some old
    → ((q : Measure) (u : ℕ) → held q u users' + owned q u old ≡ held q u users + owned q u new)
    → IsBalanced users' (save t new locks)
relocate users users' locks t old new h e moved q u =
    omega (arith, total-save (owned q u) t new old locks e, h q u, moved q u)

-- One lock is added.
pub relocate_new :
    (users users' : Table User) (locks : Table VeLock) (t : ℕ) (new : VeLock)
    → IsBalanced users locks
    → load t locks ≡ none
    → ((q : Measure) (u : ℕ) → held q u users' ≡ held q u users + owned q u new)
    → IsBalanced users' (save t new locks)
relocate_new users users' locks t new h e moved q u =
    omega (arith, total-save_new (owned q u) t new locks e, h q u, moved q u)

-- An owner's aggregate covers each of its locks, so no clamp is reached.
pub covered :
    (users : Table User) (locks : Table VeLock) (t : ℕ) (l : VeLock) (q : Measure)
    → IsBalanced users locks
    → load t locks ≡ some l
    → of_lock q l ≤ held q l.owner users
covered users locks t l q h e =
    omega (arith, own, h q l.owner, row_le_total (owned q l.owner) t l locks e)
  where
    own : owned q l.owner l ≡ of_lock q l
    own = ground arith

pub IsStored-save :
    (t : ℕ) (new : VeLock) (locks : Table VeLock)
    → is_null new.stored_ve_wei ≡ false
    → IsStored locks
    → IsStored (save t new locks)
IsStored-save t new locks p h k l e = ground (arith, load-save k t new locks, h k l)
