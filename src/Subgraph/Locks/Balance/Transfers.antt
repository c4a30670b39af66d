-- ===== src/Subgraph/Locks/Balance/Transfers.antt =====
-- A transfer keeps the books: the lock's share of both aggregates goes from the sender to the
-- recipient, and with a burn by the Furnace it is gone.
use claimrush.Prelude.{
  ℕ, ◌+◌, ◌≡◌, ◌≢◌, ◌⊎◌, refl, sym, ◌∙◌, Bool, true, false, some, arith, ◌==◌, ==_iff, Bool-cases,
  inl, inr, if◌then◌else◌,
}
use claimrush.Subgraph.Table.{Table, load, save}
use claimrush.Subgraph.Schema.{User, VeLock, Store, Meta, Protocol, zero_address}
use claimrush.Subgraph.Users.{is_null, note_ve_claim_nft, load_or_create_user}
use claimrush.Subgraph.Locks.{
  Chain, replace_user_ve_contribution, add_locked, fetch_user, lock_ve_snapshot,
}
use claimrush.Subgraph.Locks.Lifecycle.{with_ve}
use claimrush.Subgraph.Locks.Events.{Owns, IsBurnt}
use claimrush.Subgraph.Locks.Balance.Burnt.{transfer_burnt-IsAccounted}
use claimrush.Subgraph.Locks.Transfer.{
  burnt_lock, burn_by_furnace, fill_furnace, burn, move_lock, handle_transfer,
}
use claimrush.Subgraph.Locks.Balance.{
  Measure, principal, power, of_user, of_lock, held, owned, IsBalanced, IsAccounted, relocate,
  IsStored-save,
}
use claimrush.Subgraph.Locks.Balance.Rows.{
  held-save_self, held-save_other, fetched-held, held-fetched, held-loaded,
}
use claimrush.Subgraph.Locks.Balance.Steps.{loaded_lock, either}
use claimrush.Subgraph.Locks.Balance.Resave.{owned_own, owned_else}
use claimrush.Subgraph.Locks.Balance.Emptied.{emptied-IsBalanced, taken, taken_of}
use claimrush.Subgraph.Locks.Balance.Handlers.{note-IsAccounted, note-locks}

pub burnt_empty : (q : Measure) (now : ℕ) (l : VeLock) → of_lock q (burnt_lock now l) ≡ 0
burnt_empty principal now l = refl
burnt_empty power now l = refl

-- What the handler knows when it has fetched the sender's row.
abbrev IsReady : ℕ → ℕ → VeLock → User → Store → Type 0
unfolding IsAccounted
IsReady from t l u s =
    IsAccounted s × (load t s.locks ≡ some l) × ((q : Measure) → of_user q u ≡ held q from s.users)

burn_by_furnace-IsAccounted :
    (m : Meta) (from t : ℕ) (l : VeLock) (u : User) (s : Store)
    → l.owner ≡ from
    → IsReady from t l u s
    → IsAccounted (burn_by_furnace m from t u s)
unfolding burn_by_furnace IsAccounted
burn_by_furnace-IsAccounted m from t l u s own (h, e, u_of) =
    rw (loaded_lock t from m.timestamp s.users s.locks l e) (
      either IsAccounted _ _ _ h (
        emptied-IsBalanced s.users s.locks from t m.timestamp l h.0 e (h.1 t l e) own u u_of 0 refl
            s.users (λ q a. refl) (burnt_lock m.timestamp l) (λ q. burnt_empty q m.timestamp l),
        IsStored-save t (burnt_lock m.timestamp l) s.locks refl h.1,
      ))

burn-IsAccounted :
    (chain : Chain) (m : Meta) (from t : ℕ) (p : Protocol) (s : Store) (l : VeLock)
    → IsAccounted s
    → load t s.locks ≡ some l
    → l.owner ≡ from
    → IsAccounted (burn chain m from t p s)
unfolding burn IsAccounted
burn-IsAccounted chain m from t p s l h e own =
    either IsAccounted _ _ _ (burn_by_furnace-IsAccounted m from t l u s1 own ready) ready.0
  where
    u : User
    u = (fetch_user from s.users).0

    users1 : Table User
    users1 = (load_or_create_user zero_address (fetch_user from s.users).1).1

    same : (q : Measure) (a : ℕ) → held q a users1 ≡ held q a s.users
    same q a =
        held-loaded q a zero_address (fetch_user from s.users).1 ∙ held-fetched q a from s.users

    s0 : Store
    s0 = record s { users = users1 }

    s1 : Store
    s1 = fill_furnace chain m p s0

    ready0 : IsReady from t l u s0
    ready0 = (
      ((λ q a. same q a ∙ h.0 q a), h.1),
      e,
      (λ q. fetched-held q from s.users ∙ sym (same q from)),
    )

    ready : IsReady from t l u s1
    ready = ready0

module _ (users : Table User) (locks : Table VeLock) (from to t now : ℕ) (l : VeLock)
    (h : IsBalanced users locks) (e : load t locks ≡ some l)
    (stored : is_null l.stored_ve_wei ≡ false) (own : l.owner ≡ from) (ne : from ≢ to) (v w : User)
    (v_of : (q : Measure) → of_user q v ≡ held q from users)
    (w_of : (q : Measure) → of_user q w ≡ held q to users) (users' : Table User)
    (same : (q : Measure) (u : ℕ) → held q u users' ≡ held q u users) where
  abbrev new : VeLock
  new = with_ve now (record l { owner = to; listed = false })

  abbrev paid : User
  paid = taken users locks from t now l h e stored own v v_of 0 refl

  abbrev given : User
  given = replace_user_ve_contribution 0 (lock_ve_snapshot new now) (add_locked l.amount_wei w)

  given_of : (q : Measure) → of_user q given ≡ held q to users + of_lock q new
  given_of principal = omega (arith, w_of principal)
  given_of power = ground (arith, w_of power)

  abbrev users'' : Table User
  users'' = save to given (save from paid users')

  at_recipient : (q : Measure) → held q to users'' + owned q to l ≡ held q to users + owned q to new
  at_recipient q = omega (
    arith,
    held-save_self q to given (save from paid users'),
    given_of q,
    owned_else q from to l own (λ p. ne (sym p)),
    owned_own q to new refl,
  )

  at_sender :
      (q : Measure) → held q from users'' + owned q from l ≡ held q from users + owned q from new
  at_sender q = omega (
    arith,
    held-save_other q from to given (save from paid users') ne,
    held-save_self q from paid users',
    taken_of users locks from t now l h e stored own v v_of 0 refl q,
    owned_own q from l own,
    owned_else q to from new refl ne,
  )

  at_other :
      (q : Measure) (u : ℕ)
      → u ≢ from
      → u ≢ to
      → held q u users'' + owned q u l ≡ held q u users + owned q u new
  at_other q u not_from not_to = omega (
    arith,
    held-save_other q u to given (save from paid users') not_to,
    held-save_other q u from paid users' not_from,
    same q u,
    owned_else q from u l own not_from,
    owned_else q to u new refl not_to,
  )

  at_each : (q : Measure) (u : ℕ) → held q u users'' + owned q u l ≡ held q u users + owned q u new
  at_each q u = elim (Bool-cases (u == to)) [
    | inl on ↦ rw ((==_iff u to).0 on) (at_recipient q)
    | inr off ↦ elim (Bool-cases (u == from)) [
      | inl on ↦ rw ((==_iff u from).0 on) (at_sender q)
      | inr off' ↦ at_other q u (λ p. ground (arith, p, off')) (λ p. ground (arith, p, off))
    ]
  ]

  pub moved-IsBalanced : IsBalanced users'' (save t new locks)
  moved-IsBalanced = relocate users users'' locks t l new h e at_each

move_lock-IsAccounted :
    (m : Meta) (from to t : ℕ) (s : Store) (l : VeLock)
    → IsAccounted s
    → load t s.locks ≡ some l
    → l.owner ≡ from
    → from ≢ to
    → IsAccounted (move_lock m from to t s)
unfolding move_lock IsAccounted
move_lock-IsAccounted m from to t s l h e own ne =
    rw (loaded_lock t from m.timestamp (fetch_user to (fetch_user from s.users).1).1 s.locks l e) (
      moved-IsBalanced s.users s.locks from to t m.timestamp l h.0 e (h.1 t l e) own ne
          (fetch_user from s.users).0 (fetch_user to (fetch_user from s.users).1).0
          (λ q. fetched-held q from s.users)
          (λ q. fetched-held q to (fetch_user from s.users).1 ∙ held-fetched q to from s.users) _
          (λ q u. held-fetched q u to (fetch_user from s.users).1 ∙ held-fetched q u from s.users),
      IsStored-save t _ s.locks refl h.1,
    )

either_if {ℓ κ} :
    {A : Type ℓ} (P : A → Type κ) (b : Bool) (x y : A)
    → (b ≡ true → P x)
    → (b ≡ false → P y)
    → P (if b then x else y)
either_if P true x y p q = p refl
either_if P false x y p q = q refl

apart : (a b : ℕ) → (a == b) ≡ false → a ≢ b
apart a b off p = ground (arith, p, off)

-- Whatever branch `handleTransfer` takes, for a lock of the sender or one that is burnt already, the books are
-- kept.
pub handle_transfer-IsAccounted :
    (chain : Chain) (m : Meta) (from to t : ℕ) (s : Store)
    → IsAccounted s
    → (from ≢ zero_address → from ≢ to → Owns from t s ⊎ ((to ≡ zero_address) × IsBurnt t s))
    → IsAccounted (handle_transfer chain m from to t s)
unfolding handle_transfer
handle_transfer-IsAccounted chain m from to t s h owns =
    either_if IsAccounted _ _ _ (λ mint. h1)
      (λ given.
        either_if IsAccounted _ _ _ (λ same. h1)
          (λ differ.
            settle (apart from to differ)
              (owns (apart from zero_address given) (apart from to differ))))
  where
    s1 : Store
    s1 = (note_ve_claim_nft chain.network m s).1

    h1 : IsAccounted s1
    h1 = note-IsAccounted chain m s h

    settle :
        from ≢ to
        → Owns from t s ⊎ ((to ≡ zero_address) × IsBurnt t s)
        → IsAccounted (
            if to == zero_address
            then burn chain m from t (note_ve_claim_nft chain.network m s).0 s1
            else move_lock m from to t s1)
    settle ne (inl (l, e, own)) =
        let e1 = note-locks chain m s t l e in
        either IsAccounted _ _ _
          (burn-IsAccounted chain m from t (note_ve_claim_nft chain.network m s).0 s1 l h1 e1 own)
          (move_lock-IsAccounted m from to t s1 l h1 e1 own ne)
    settle ne (inr (burnt, (l, e, none_left, gone, no_power))) =
        either_if IsAccounted _ _ _
          (λ on.
            transfer_burnt-IsAccounted chain m from t (note_ve_claim_nft chain.network m s).0 s1 h1
              (l, note-locks chain m s t l e, none_left, gone, no_power))
          (λ off. absurd (apart to zero_address off burnt))
