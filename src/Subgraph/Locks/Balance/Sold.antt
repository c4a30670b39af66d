-- ===== src/Subgraph/Locks/Balance/Sold.antt =====
-- The sale of a lock to the Furnace keeps the books, whether or not the burn was seen before it.
use claimrush.Prelude.{
  ℕ, ◌+◌, ◌≤◌, ◌≡◌, refl, ap, ◌∙◌, true, false, some, arith, ◌==◌, ◌&&◌, inl, inr, Option-cases,
}
use claimrush.Subgraph.Table.{Table, load, save}
use claimrush.Subgraph.Schema.{User, VeLock, Store, Meta, zero_address}
use claimrush.Subgraph.Users.{is_null, load_or_create_user}
use claimrush.Subgraph.Locks.Transfer.{burnt_lock}
use claimrush.Subgraph.Locks.Sold.{sold_row, sell_lock, burn_sold_lock}
use claimrush.Subgraph.Locks.Events.{IsSellable}
use claimrush.Subgraph.Locks.Balance.{
  Measure, principal, power, of_user, of_lock, held, IsBalanced, IsAccounted, covered,
  IsStored-save,
}
use claimrush.Subgraph.Locks.Balance.Rows.{loaded-held, held-loaded}
use claimrush.Subgraph.Locks.Balance.Steps.{snapshot_stored, swap, either}
use claimrush.Subgraph.Locks.Balance.Emptied.{owned_empty}
use claimrush.Subgraph.Locks.Balance.Transfers.{burnt_empty}

module _ (users : Table User) (locks : Table VeLock) (a t now : ℕ) (l : VeLock)
    (h : IsBalanced users locks) (e : load t locks ≡ some l)
    (stored : is_null l.stored_ve_wei ≡ false) (own : l.owner ≡ a) (u : User)
    (u_of : (q : Measure) → of_user q u ≡ held q a users) (users' : Table User)
    (same : (q : Measure) (x : ℕ) → held q x users' ≡ held q x users) where
  enough : (q : Measure) → of_lock q l ≤ of_user q u
  enough q = omega (arith, covered users locks t l q h e, ap (λ x. held q x users) own, u_of q)

  sold_of : (q : Measure) → of_user q (sold_row now l u) + of_lock q l ≡ held q a users
  sold_of principal = ground (arith, enough principal, u_of principal)
  sold_of power = rw (snapshot_stored l now stored) (ground (arith, enough power, u_of power))

  sold-IsBalanced : IsBalanced (save a (sold_row now l u) users') (save t (burnt_lock now l) locks)
  sold-IsBalanced =
      swap users users' locks a t (sold_row now l u) l (burnt_lock now l) h e same own
        (λ q. omega (arith, sold_of q, owned_empty q a (burnt_lock now l) (burnt_empty q now l)))
        (λ q x ne. owned_empty q x (burnt_lock now l) (burnt_empty q now l))

both : (x y : ℕ) → x ≡ 0 → y ≡ zero_address → ((x == 0) && (y == zero_address)) ≡ true
both x y p q = ground arith

sell_lock-IsAccounted :
    (now furnace t : ℕ) (l : VeLock) (s : Store)
    → IsAccounted s
    → load t s.locks ≡ some l
    → IsSellable furnace l
    → IsAccounted (sell_lock now furnace t l s)
unfolding sell_lock IsAccounted
sell_lock-IsAccounted now furnace t l s h e (inr (empty, gone)) =
    rw (both l.amount_wei l.owner empty gone)
      ((λ q u. held-loaded q u zero_address s.users ∙ h.0 q u), h.1)
sell_lock-IsAccounted now furnace t l s h e (inl own) =
    either IsAccounted _ _ _ ((λ q u. held-loaded q u zero_address s.users ∙ h.0 q u), h.1)
      (
        sold-IsBalanced s.users s.locks furnace t now l h.0 e (h.1 t l e) own
            (load_or_create_user furnace users1).0
            (λ q. loaded-held q furnace users1 ∙ held-loaded q furnace zero_address s.users)
            (load_or_create_user furnace users1).1
            (λ q u. held-loaded q u furnace users1 ∙ held-loaded q u zero_address s.users),
        IsStored-save t (burnt_lock now l) s.locks refl h.1,
      )
  where
    users1 : Table User
    users1 = (load_or_create_user zero_address s.users).1

-- A sale of a lock that the store does not have, that the Furnace holds, or that is burnt already.
pub burn_sold_lock-IsAccounted :
    (m : Meta) (furnace t : ℕ) (s : Store)
    → IsAccounted s
    → ((l : VeLock) → load t s.locks ≡ some l → IsSellable furnace l)
    → IsAccounted (burn_sold_lock m furnace t s)
unfolding burn_sold_lock
burn_sold_lock-IsAccounted m furnace t s h sellable = elim (Option-cases (load t s.locks)) [
  | inl e ↦ rw (e, burn_sold_lock) h
  | inr (l, e) ↦
      rw (e, burn_sold_lock) (sell_lock-IsAccounted m.timestamp furnace t l s h e (sellable l e))
]
