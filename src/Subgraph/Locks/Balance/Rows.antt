-- ===== src/Subgraph/Locks/Balance/Rows.antt =====
-- The two aggregates of the books in the users' rows, under the calls that load, create and save them.
use claimrush.Prelude.{ℕ, ◌≡◌, ◌≢◌, refl, ◌∙◌, arith, ◌==◌, if◌then◌else◌}
use claimrush.Subgraph.Table.{Table, load-save, save}
use claimrush.Subgraph.Schema.{User}
use claimrush.Subgraph.Users.{load_or_create_user, new_user, ensure_user_ve_fields}
use claimrush.Subgraph.Users.Aggregate.{at-save_self, at-save_other, loaded-at, at-loaded}
use claimrush.Subgraph.Locks.{fetch_user}
use claimrush.Subgraph.Locks.Balance.{Measure, principal, power, of_user, held}

pub held-save :
    (q : Measure) (u k : ℕ) (v : User) (users : Table User)
    → held q u (save k v users) ≡ (if u == k then of_user q v else held q u users)
held-save q u k v users = ground (arith, load-save u k v users)

pub held-save_self :
    (q : Measure) (k : ℕ) (v : User) (users : Table User) → held q k (save k v users) ≡ of_user q v
held-save_self q k v users = at-save_self (of_user q) k v users

pub held-save_other :
    (q : Measure) (u k : ℕ) (v : User) (users : Table User)
    → u ≢ k
    → held q u (save k v users) ≡ held q u users
held-save_other q u k v users ne = at-save_other (of_user q) u k v users ne

of_user-new : (q : Measure) (a : ℕ) → of_user q (new_user a) ≡ 0
of_user-new principal a = refl
of_user-new power a = refl

of_user-ensure : (q : Measure) (u : User) → of_user q (ensure_user_ve_fields u) ≡ of_user q u
of_user-ensure principal u = refl
of_user-ensure power u = refl

-- The row that is loaded or created carries the aggregates of its address.
pub loaded-held :
    (q : Measure) (a : ℕ) (users : Table User)
    → of_user q (load_or_create_user a users).0 ≡ held q a users
loaded-held q a users = loaded-at (of_user q) (of_user-new q) (of_user-ensure q) a users

-- Loading or creating a row changes no aggregate.
pub held-loaded :
    (q : Measure) (u a : ℕ) (users : Table User)
    → held q u (load_or_create_user a users).1 ≡ held q u users
held-loaded q u a users = at-loaded (of_user q) (of_user-new q) (of_user-ensure q) u a users

pub fetched-held :
    (q : Measure) (a : ℕ) (users : Table User) → of_user q (fetch_user a users).0 ≡ held q a users
unfolding fetch_user
fetched-held q a users = of_user-ensure q _ ∙ loaded-held q a users

pub held-fetched :
    (q : Measure) (u a : ℕ) (users : Table User) → held q u (fetch_user a users).1 ≡ held q u users
unfolding fetch_user
held-fetched q u a users = held-loaded q u a users
