-- ===== src/Subgraph/Locks/Balance/Handlers.antt =====
-- The handlers that leave the lock with its user keep the books: created, extended, increased, AutoMax.
use claimrush.Prelude.{ℕ, ◌+◌, ◌≡◌, refl, Bool, none, some, arith}
use claimrush.Subgraph.Table.{load, save}
use claimrush.Subgraph.Schema.{User, VeLock, Store, Meta}
use claimrush.Subgraph.Users.{note_ve_claim_nft, load_or_create_protocol}
use claimrush.Subgraph.Ve.{current_ve_wei, max_lock_duration_seconds}
use claimrush.Subgraph.Locks.{Chain, replace_user_ve_contribution, add_locked, fetch_user}
use claimrush.Subgraph.Locks.Lifecycle.{
  with_ve, created_lock, resave_lock, handle_lock_created, handle_lock_extended,
  handle_lock_amount_increased, handle_auto_max_set,
}
use claimrush.Subgraph.Locks.Balance.{
  Measure, principal, power, of_user, of_lock, held, owned, IsAccounted, relocate_new,
  IsStored-save,
}
use claimrush.Subgraph.Locks.Balance.Rows.{held-save, fetched-held, held-fetched}
use claimrush.Subgraph.Locks.Balance.Steps.{loaded_lock}
use claimrush.Subgraph.Locks.Balance.Resave.{resaved-IsBalanced}

pub note-IsAccounted :
    (chain : Chain) (m : Meta) (s : Store)
    → IsAccounted s
    → IsAccounted (note_ve_claim_nft chain.network m s).1
unfolding IsAccounted note_ve_claim_nft load_or_create_protocol
note-IsAccounted chain m s h = h

pub note-locks :
    (chain : Chain) (m : Meta) (s : Store) (t : ℕ) (l : VeLock)
    → load t s.locks ≡ some l
    → load t (note_ve_claim_nft chain.network m s).1.locks ≡ some l
unfolding note_ve_claim_nft load_or_create_protocol
note-locks chain m s t l e = e

resave_lock-IsAccounted :
    (m : Meta) (a t : ℕ) (on_user : User → User) (on_lock : VeLock → VeLock) (s : Store)
    (l : VeLock)
    → IsAccounted s
    → load t s.locks ≡ some l
    → l.owner ≡ a
    → (on_lock l).owner ≡ a
    → ((u : User)
        → of_user principal (on_user u) + l.amount_wei
          ≡ of_user principal u + (on_lock l).amount_wei)
    → ((u : User) → of_user power (on_user u) ≡ of_user power u)
    → IsAccounted (resave_lock m a t on_user on_lock s).2
unfolding IsAccounted resave_lock
resave_lock-IsAccounted m a t on_user on_lock s l h e own own' moves keeps =
    rw (loaded_lock t a m.timestamp (fetch_user a s.users).1 s.locks l e) (
      resaved-IsBalanced s.users s.locks a t m.timestamp l (with_ve m.timestamp (on_lock l)) on_user
          h.0 e (h.1 t l e) refl own own' moves keeps,
      IsStored-save t (with_ve m.timestamp (on_lock l)) s.locks refl h.1,
    )

-- An extended lock of its owner leaves every user's aggregates equal to the sums over the locks owned.
pub handle_lock_extended-IsAccounted :
    (chain : Chain) (m : Meta) (a t new_end : ℕ) (s : Store) (l : VeLock)
    → IsAccounted s
    → load t s.locks ≡ some l
    → l.owner ≡ a
    → IsAccounted (handle_lock_extended chain m a t new_end s)
unfolding handle_lock_extended IsAccounted
handle_lock_extended-IsAccounted chain m a t new_end s l h e own =
    resave_lock-IsAccounted m a t (λ u. u) (λ l. record l { owner = a; lock_end = new_end })
      (note_ve_claim_nft chain.network m s).1 l (note-IsAccounted chain m s h)
      (note-locks chain m s t l e) own refl (λ u. refl) (λ u. refl)

pub handle_lock_amount_increased-IsAccounted :
    (chain : Chain) (m : Meta) (a t added : ℕ) (s : Store) (l : VeLock)
    → IsAccounted s
    → load t s.locks ≡ some l
    → l.owner ≡ a
    → IsAccounted (handle_lock_amount_increased chain m a t added s)
unfolding handle_lock_amount_increased IsAccounted
handle_lock_amount_increased-IsAccounted chain m a t added s l h e own =
    resave_lock-IsAccounted m a t (add_locked added)
      (λ l. record l { owner = a; amount_wei = l.amount_wei + added })
      (note_ve_claim_nft chain.network m s).1 l (note-IsAccounted chain m s h)
      (note-locks chain m s t l e) own refl (λ u. omega arith) (λ u. refl)

pub handle_auto_max_set-IsAccounted :
    (chain : Chain) (m : Meta) (a t : ℕ) (auto_max : Bool) (s : Store) (l : VeLock)
    → IsAccounted s
    → load t s.locks ≡ some l
    → l.owner ≡ a
    → IsAccounted (handle_auto_max_set chain m a t auto_max s)
unfolding handle_auto_max_set IsAccounted
handle_auto_max_set-IsAccounted chain m a t auto_max s l h e own =
    resave_lock-IsAccounted m a t (λ u. u)
      (λ l. record l { auto_max = auto_max; lock_end = m.timestamp + max_lock_duration_seconds })
      (note_ve_claim_nft chain.network m s).1 l (note-IsAccounted chain m s h)
      (note-locks chain m s t l e) own own (λ u. refl) (λ u. refl)

-- A lock under a token id that no lock has is added to its user's aggregates.
pub handle_lock_created-IsAccounted :
    (chain : Chain) (m : Meta) (a t amount lock_end : ℕ) (auto_max : Bool) (s : Store)
    → IsAccounted s
    → load t s.locks ≡ none
    → IsAccounted (handle_lock_created chain m a t amount lock_end auto_max s)
unfolding handle_lock_created IsAccounted note_ve_claim_nft load_or_create_protocol
handle_lock_created-IsAccounted chain m a t amount lock_end auto_max s h e = (
  relocate_new s.users _ s.locks t l h.0 e (λ q u. added q u),
  IsStored-save t l s.locks refl h.1,
)
  where
    l : VeLock
    l = created_lock m.timestamp a t amount lock_end auto_max

    ve : ℕ
    ve = current_ve_wei amount lock_end m.timestamp auto_max

    row : User
    row = replace_user_ve_contribution 0 ve (add_locked amount (fetch_user a s.users).0)

    row_of : (q : Measure) → of_user q row ≡ held q a s.users + of_lock q l
    row_of principal = omega (arith, fetched-held principal a s.users)
    row_of power = ground (arith, fetched-held power a s.users)

    added :
        (q : Measure) (u : ℕ)
        → held q u (save a row (fetch_user a s.users).1) ≡ held q u s.users + owned q u l
    added q u =
        ground (
          arith,
          held-save q u a row (fetch_user a s.users).1,
          held-fetched q u a s.users,
          row_of q,
        )
