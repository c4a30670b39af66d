-- ===== src/Subgraph/Market/Coherence/Locks.antt =====
-- The lock contract's handlers keep the order book coherent.
use claimrush.Prelude.{
  ℕ, ◌+◌, ◌≡◌, ◌≢◌, refl, sym, ◌∙◌, Bool, true, false, none, some, Option-cases, inl, inr,
  if◌then◌else◌,
}
use claimrush.Subgraph.Table.{load, save, load-save_other}
use claimrush.Subgraph.Schema.{User, VeLock, Store, Meta, zero_address, Protocol}
use claimrush.Subgraph.Users.{load_or_create_protocol, load_or_create_user, note_ve_claim_nft}
use claimrush.Subgraph.Ve.{max_lock_duration_seconds}
use claimrush.Subgraph.Locks.{Chain, close_listing, fetch_user, add_locked}
use claimrush.Subgraph.Locks.Lifecycle.{
  with_ve, resave_lock, handle_lock_created, handle_lock_extended, handle_lock_amount_increased,
  handle_auto_max_set,
}
use claimrush.Subgraph.Locks.Closing.{
  merged_from, merged_into, unlocked_lock, handle_lock_merged, handle_lock_unlocked,
}
use claimrush.Subgraph.Locks.Transfer.{
  burnt_lock, burn_by_furnace, fill_furnace, from_is_furnace, burn, move_lock, handle_transfer,
}
use claimrush.Subgraph.Locks.Sold.{sell_lock, burn_sold_lock}
use claimrush.Subgraph.Locks.Balance.Steps.{loaded_lock}
use claimrush.Subgraph.Locks.Balance.Handlers.{note-locks}
use claimrush.Subgraph.Market.Coherence.{
  kept, shut, apart, closing_closed, closing_others, added, unlisted,
}
use claimrush.Subgraph.Market.Coherence.Lists.{IsBookCoherent}

pub created-IsBookCoherent :
    (c : Chain) (m : Meta) (a t amount lock_end : ℕ) (auto_max : Bool) (s : Store)
    → load t s.locks ≡ none
    → IsBookCoherent s
    → IsBookCoherent (handle_lock_created c m a t amount lock_end auto_max s)
unfolding handle_lock_created note_ve_claim_nft load_or_create_protocol IsBookCoherent
created-IsBookCoherent c m a t amount lock_end auto_max s e h = added s.locks s.listings h t _ e

resave_lock-IsBookCoherent :
    (m : Meta) (a t : ℕ) (on_user : User → User) (on_lock : VeLock → VeLock) (s : Store)
    (l : VeLock)
    → load t s.locks ≡ some l
    → (on_lock l).owner ≡ l.owner
    → (on_lock l).listed ≡ l.listed
    → IsBookCoherent s
    → IsBookCoherent (resave_lock m a t on_user on_lock s).2
unfolding resave_lock IsBookCoherent
resave_lock-IsBookCoherent m a t on_user on_lock s l e owner listed h =
    rw (loaded_lock t a m.timestamp (fetch_user a s.users).1 s.locks l e)
      (kept s.locks s.listings h t l (with_ve m.timestamp (on_lock l)) e owner listed)

pub extended-IsBookCoherent :
    (c : Chain) (m : Meta) (a t new_end : ℕ) (s : Store) (l : VeLock)
    → load t s.locks ≡ some l
    → l.owner ≡ a
    → IsBookCoherent s
    → IsBookCoherent (handle_lock_extended c m a t new_end s)
unfolding handle_lock_extended note_ve_claim_nft load_or_create_protocol IsBookCoherent
extended-IsBookCoherent c m a t new_end s l e own h =
    resave_lock-IsBookCoherent m a t (λ u. u) (λ l. record l { owner = a; lock_end = new_end })
      (note_ve_claim_nft c.network m s).1 l e (sym own) refl h

pub increased-IsBookCoherent :
    (c : Chain) (m : Meta) (a t added : ℕ) (s : Store) (l : VeLock)
    → load t s.locks ≡ some l
    → l.owner ≡ a
    → IsBookCoherent s
    → IsBookCoherent (handle_lock_amount_increased c m a t added s)
unfolding handle_lock_amount_increased note_ve_claim_nft load_or_create_protocol IsBookCoherent
increased-IsBookCoherent c m a t x s l e own h =
    resave_lock-IsBookCoherent m a t (add_locked x)
      (λ l. record l { owner = a; amount_wei = l.amount_wei + x })
      (note_ve_claim_nft c.network m s).1 l e (sym own) refl h

pub auto_max-IsBookCoherent :
    (c : Chain) (m : Meta) (a t : ℕ) (auto_max : Bool) (s : Store) (l : VeLock)
    → load t s.locks ≡ some l
    → IsBookCoherent s
    → IsBookCoherent (handle_auto_max_set c m a t auto_max s)
unfolding handle_auto_max_set note_ve_claim_nft load_or_create_protocol IsBookCoherent
auto_max-IsBookCoherent c m a t auto_max s l e h =
    resave_lock-IsBookCoherent m a t (λ u. u)
      (λ l. record l { auto_max = auto_max; lock_end = m.timestamp + max_lock_duration_seconds })
      (note_ve_claim_nft c.network m s).1 l e refl refl h

pub unlocked-IsBookCoherent :
    (c : Chain) (m : Meta) (a t returned : ℕ) (s : Store) (l : VeLock)
    → load t s.locks ≡ some l
    → IsBookCoherent s
    → IsBookCoherent (handle_lock_unlocked c m a t returned s)
unfolding handle_lock_unlocked note_ve_claim_nft load_or_create_protocol IsBookCoherent
unlocked-IsBookCoherent c m a t returned s l e h =
    rw (loaded_lock t a m.timestamp (fetch_user a s.users).1 s.locks l e) (
      shut s.locks s.listings h t (unlocked_lock m.timestamp returned l)
        (close_listing t l m.timestamp s.listings)
        (closing_closed s.locks s.listings h t m.timestamp l e)
        (closing_others t m.timestamp l s.listings))

pub merged-IsBookCoherent :
    (c : Chain) (m : Meta) (a t k moved : ℕ) (s : Store) (from into : VeLock)
    → t ≢ k
    → load t s.locks ≡ some from
    → load k s.locks ≡ some into
    → into.owner ≡ a
    → IsBookCoherent s
    → IsBookCoherent (handle_lock_merged c m a t k moved s)
unfolding handle_lock_merged merged_into note_ve_claim_nft load_or_create_protocol IsBookCoherent
merged-IsBookCoherent c m a t k moved s from into ne e e' own h =
    rw
      (
        loaded_lock t a m.timestamp (fetch_user a s.users).1 s.locks from e,
        loaded_lock k a m.timestamp (fetch_user a s.users).1 s.locks into e',
      )
      (kept (save t from' s.locks) (close_listing t from m.timestamp s.listings)
        (shut s.locks s.listings h t from' (close_listing t from m.timestamp s.listings)
          (closing_closed s.locks s.listings h t m.timestamp from e)
          (closing_others t m.timestamp from s.listings))
        k into (merged_into m.timestamp a moved from into)
        (load-save_other k t from' s.locks (λ p. ne (sym p)) ∙ e') (sym own) refl)
  where
    from' : VeLock
    from' = merged_from m.timestamp moved from

move_lock-IsBookCoherent :
    (m : Meta) (from to t : ℕ) (s : Store) (l : VeLock)
    → load t s.locks ≡ some l
    → IsBookCoherent s
    → IsBookCoherent (move_lock m from to t s)
unfolding move_lock IsBookCoherent
move_lock-IsBookCoherent m from to t s l e h =
    rw (loaded_lock t from m.timestamp (fetch_user to (fetch_user from s.users).1).1 s.locks l e) (
      shut s.locks s.listings h t _ (close_listing t l m.timestamp s.listings)
        (closing_closed s.locks s.listings h t m.timestamp l e)
        (closing_others t m.timestamp l s.listings))

either_if {ℓ κ} :
    {A : Type ℓ} (P : A → Type κ) (b : Bool) (x y : A)
    → (b ≡ true → P x)
    → (b ≡ false → P y)
    → P (if b then x else y)
either_if P true x y p q = p refl
either_if P false x y p q = q refl

unmoved :
    (s s' : Store)
    → s'.locks ≡ s.locks
    → s'.listings ≡ s.listings
    → IsBookCoherent s
    → IsBookCoherent s'
unfolding IsBookCoherent
unmoved s s' same_locks same_listings h = rw (same_locks, same_listings) h

note-IsBookCoherent :
    (c : Chain) (m : Meta) (s : Store)
    → IsBookCoherent s
    → IsBookCoherent (note_ve_claim_nft c.network m s).1
unfolding note_ve_claim_nft load_or_create_protocol IsBookCoherent
note-IsBookCoherent c m s h = h

burn_by_furnace-IsBookCoherent :
    (m : Meta) (from t : ℕ) (u : User) (s : Store) (l : VeLock)
    → load t s.locks ≡ some l
    → l.listed ≡ false
    → IsBookCoherent s
    → IsBookCoherent (burn_by_furnace m from t u s)
unfolding burn_by_furnace IsBookCoherent
burn_by_furnace-IsBookCoherent m from t u s l e off h =
    rw (loaded_lock t from m.timestamp s.users s.locks l e) (
      either_if IsBookCoherent _ _ _ (λ done. h)
        (λ left.
          shut s.locks s.listings h t (burnt_lock m.timestamp l) s.listings
            (λ row e'. unlisted s.locks s.listings h t l row e off e') (λ t' ne. refl)))

burn-IsBookCoherent :
    (c : Chain) (m : Meta) (from t : ℕ) (p : Protocol) (s : Store) (l : VeLock)
    → load t s.locks ≡ some l
    → (from_is_furnace c m p from ≡ true → l.listed ≡ false)
    → IsBookCoherent s
    → IsBookCoherent (burn c m from t p s)
unfolding burn
burn-IsBookCoherent c m from t p s l e quiet h =
    either_if IsBookCoherent (from_is_furnace c m p from) (burn_by_furnace m from t u s1) s1
      (λ ours. burn_by_furnace-IsBookCoherent m from t u s1 l e (quiet ours) same) (λ other. same)
  where
    u : User
    u = (fetch_user from s.users).0

    s1 : Store
    s1 =
        fill_furnace c m p
          (record s { users = (load_or_create_user zero_address (fetch_user from s.users).1).1 })

    same : IsBookCoherent s1
    same = unmoved s s1 refl refl h

-- Whatever branch `handleTransfer` takes, when the Furnace burns no lock that is marked as listed.
pub transfer-IsBookCoherent :
    (c : Chain) (m : Meta) (from to t : ℕ) (s : Store)
    → (from ≢ zero_address
        → from ≢ to
        → (l : VeLock) × (load t s.locks ≡ some l)
          × (from_is_furnace c m (note_ve_claim_nft c.network m s).0 from ≡ true
              → l.listed ≡ false))
    → IsBookCoherent s
    → IsBookCoherent (handle_transfer c m from to t s)
unfolding handle_transfer
transfer-IsBookCoherent c m from to t s owns h =
    either_if IsBookCoherent _ _ _ (λ mint. h1)
      (λ given.
        either_if IsBookCoherent _ _ _ (λ same. h1)
          (λ differ.
            let (l, e, quiet) = owns (apart from zero_address given) (apart from to differ) in
            let e1 = note-locks c m s t l e in
            either_if IsBookCoherent _ _ _
              (λ burnt.
                burn-IsBookCoherent c m from t (note_ve_claim_nft c.network m s).0 s1 l e1 quiet h1)
              (λ moved. move_lock-IsBookCoherent m from to t s1 l e1 h1)))
  where
    s1 : Store
    s1 = (note_ve_claim_nft c.network m s).1

    h1 : IsBookCoherent s1
    h1 = note-IsBookCoherent c m s h

pub sold-IsBookCoherent :
    (m : Meta) (furnace t : ℕ) (s : Store)
    → ((l : VeLock) → load t s.locks ≡ some l → l.listed ≡ false)
    → IsBookCoherent s
    → IsBookCoherent (burn_sold_lock m furnace t s)
unfolding burn_sold_lock sell_lock IsBookCoherent
sold-IsBookCoherent m furnace t s quiet h = elim (Option-cases (load t s.locks)) [
  | inl e ↦ rw (e, burn_sold_lock) h
  | inr (l, e) ↦
      rw (e, burn_sold_lock)
        (either_if IsBookCoherent _ _ _ (λ done. h)
          (λ left.
            shut s.locks s.listings h t (burnt_lock m.timestamp l) s.listings
              (λ row e'. unlisted s.locks s.listings h t l row e (quiet l e) e') (λ t' ne. refl)))
]
