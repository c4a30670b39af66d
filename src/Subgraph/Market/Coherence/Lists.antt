-- ===== src/Subgraph/Market/Coherence/Lists.antt =====
-- The handlers of listings keep the order book coherent.
use claimrush.Prelude.{
  ℕ, ◌≡◌, ◌≢◌, refl, sym, ◌∙◌, Bool, true, false, Option, none, some, Option-cases, inl, inr,
  if◌then◌else◌,
}
use claimrush.Subgraph.Table.{Table, load, save, load-save_self, load-save_other}
use claimrush.Subgraph.Schema.{User, VeLock, MarketListing, Store, Meta}
use claimrush.Subgraph.Users.{load_or_create_protocol, load_or_create_user}
use claimrush.Subgraph.Locks.Balance.Steps.{loaded_lock}
use claimrush.Subgraph.Market.{
  MarketStore, MarketChain, note_market_router, load_or_create_listing, empty_listing,
  hydrate_ve_lock_if_needed, hydrated, needs_hydration,
}
use claimrush.Subgraph.Market.Listings.{
  closed_row, with_listed, close_stale, unlist, with_seller, sell_listed, handle_lock_listed,
  handle_lock_delisted, handle_listing_settled, handle_market_sell_to_furnace,
}
use claimrush.Subgraph.Market.Coherence.{IsCoherent, shut, opened}

unfoldable pub IsBookCoherent : Store → Type 0
IsBookCoherent s = IsCoherent s.locks s.listings

-- A row that is saved closed is closed, and the other listings are as before.
saved_closed :
    (t now : ℕ) (r : MarketListing) (listings : Table MarketListing) (row : MarketListing)
    → load t (save t (closed_row now r) listings) ≡ some row
    → row.active ≡ false
saved_closed t now r listings row e =
    sym
      (some_closed (closed_row now r) row (sym (load-save_self t (closed_row now r) listings) ∙ e))
  where
    some_closed : (x : MarketListing) (y : MarketListing) → some x ≡ some y → x.active ≡ y.active
    some_closed x y p = cc

created_others :
    (t seller now t' : ℕ) (users : Table User) (listings : Table MarketListing)
    → t' ≢ t
    → load t' (load_or_create_listing t seller now users listings).2 ≡ load t' listings
unfolding load_or_create_listing
created_others t seller now t' users listings ne = elim (Option-cases (load t listings)) [
  | inl e ↦
      rw (e, load_or_create_listing) (load-save_other t' t (empty_listing t seller now) listings ne)
  | inr (row, e) ↦ rw (e, load_or_create_listing) refl
]

unlist-IsBookCoherent :
    (m : Meta) (t seller : ℕ) (s : Store) (l : VeLock)
    → load t s.locks ≡ some l
    → IsBookCoherent s
    → IsBookCoherent (unlist m t seller s)
unfolding unlist IsBookCoherent
unlist-IsBookCoherent m t seller s l e h =
    rw
      (loaded_lock t seller m.timestamp
        (load_or_create_listing t seller m.timestamp s.users s.listings).1 s.locks l e)
      (shut s.locks s.listings h t (with_listed false m.timestamp l) _
        (λ row e'. saved_closed t m.timestamp made.0 made.2 row e')
        (λ t' ne.
          load-save_other t' t (closed_row m.timestamp made.0) made.2 ne
          ∙ created_others t seller m.timestamp t' s.users s.listings ne))
  where
    made : MarketListing × Table User × Table MarketListing
    made = load_or_create_listing t seller m.timestamp s.users s.listings

close_stale_closed :
    (t now : ℕ) (listings : Table MarketListing) (row : MarketListing)
    → load t (close_stale t now listings) ≡ some row
    → row.active ≡ false
unfolding close_stale
close_stale_closed t now listings row =
    elim (Option-cases (load t listings))
      as (λ x. load t (close_stale t now listings) ≡ some row → row.active ≡ false) [
        | inl e ↦ rw (e, close_stale) (λ e'. absurd (absent (load t listings) row e e'))
        | inr (r, e) ↦ rw (e, close_stale) (λ e'. saved_closed t now r listings row e')
      ]
  where
    absent : (o : Option MarketListing) (r : MarketListing) → o ≡ none → o ≢ some r
    absent o r p q = cc

close_stale_others :
    (t now t' : ℕ) (listings : Table MarketListing)
    → t' ≢ t
    → load t' (close_stale t now listings) ≡ load t' listings
unfolding close_stale
close_stale_others t now t' listings ne = elim (Option-cases (load t listings)) [
  | inl e ↦ rw (e, close_stale) refl
  | inr (r, e) ↦ rw (e, close_stale) (load-save_other t' t (closed_row now r) listings ne)
]

sell_listed-IsBookCoherent :
    (m : Meta) (t seller : ℕ) (s : Store) (l : VeLock)
    → load t s.locks ≡ some l
    → IsBookCoherent s
    → IsBookCoherent (sell_listed m t seller s)
unfolding sell_listed IsBookCoherent
sell_listed-IsBookCoherent m t seller s l e h =
    rw (loaded_lock t seller m.timestamp s.users s.locks l e) (
      shut s.locks s.listings h t (with_listed false m.timestamp l)
        (close_stale t m.timestamp s.listings)
        (λ row e'. close_stale_closed t m.timestamp s.listings row e')
        (λ t' ne. close_stale_others t m.timestamp t' s.listings ne))

either {ℓ κ} :
    {A : Type ℓ} (P : A → Type κ) (b : Bool) (x y : A) → P x → P y → P (if b then x else y)
either P true x y p q = p
either P false x y p q = q

hydrated-owner :
    (now : ℕ) (l : VeLock) (info : Option (ℕ × ℕ × Bool)) → (hydrated now l info).owner ≡ l.owner
hydrated-owner now l none = refl
hydrated-owner now l (some info) = refl

hydrate-owner :
    (chain : MarketChain) (m : Meta) (t ve : ℕ) (l : VeLock)
    → (hydrate_ve_lock_if_needed chain m t ve l).owner ≡ l.owner
unfolding hydrate_ve_lock_if_needed
hydrate-owner chain m t ve l =
    either IsSame (needs_hydration chain ve l)
      (hydrated m.timestamp l (chain.try_lock_info ve m.block_number t)) l
      (hydrated-owner m.timestamp l (chain.try_lock_info ve m.block_number t)) refl
  where
    IsSame : VeLock → Type 0
    IsSame x = x.owner ≡ l.owner

pub handle_lock_listed-IsBookCoherent :
    (chain : MarketChain) (m : Meta) (t seller min_out at expires : ℕ) (ms : MarketStore)
    (l : VeLock)
    → load t ms.store.locks ≡ some l
    → l.owner ≡ seller
    → IsBookCoherent ms.store
    → IsBookCoherent (handle_lock_listed chain m t seller min_out at expires ms).store
unfolding handle_lock_listed note_market_router load_or_create_protocol IsBookCoherent
handle_lock_listed-IsBookCoherent chain m t seller min_out at expires ms l e own h =
    rw
      (loaded_lock t seller m.timestamp (load_or_create_user seller ms.store.users).1 ms.store.locks
        l e)
      (opened ms.store.locks ms.store.listings h t _ _ _ refl (hydrate-owner chain m t _ l ∙ own)
        (λ t' ne.
          created_others t seller m.timestamp t' (load_or_create_user seller ms.store.users).1
            ms.store.listings ne))

pub handle_lock_delisted-IsBookCoherent :
    (chain : MarketChain) (m : Meta) (t seller reason : ℕ) (ms : MarketStore) (l : VeLock)
    → load t ms.store.locks ≡ some l
    → IsBookCoherent ms.store
    → IsBookCoherent (handle_lock_delisted chain m t seller reason ms).store
unfolding handle_lock_delisted note_market_router load_or_create_protocol IsBookCoherent
handle_lock_delisted-IsBookCoherent chain m t seller reason ms l e h =
    unlist-IsBookCoherent m t seller (note_market_router chain m ms).1.store l e h

pub handle_listing_settled-IsBookCoherent :
    (chain : MarketChain) (m : Meta) (t seller out penalty : ℕ) (ms : MarketStore) (l : VeLock)
    → load t ms.store.locks ≡ some l
    → IsBookCoherent ms.store
    → IsBookCoherent (handle_listing_settled chain m t seller out penalty ms).store
unfolding handle_listing_settled note_market_router load_or_create_protocol with_seller
    IsBookCoherent
handle_listing_settled-IsBookCoherent chain m t seller out penalty ms l e h =
    unlist-IsBookCoherent m t seller (with_seller seller (note_market_router chain m ms).1.store) l
      e h

pub handle_market_sell_to_furnace-IsBookCoherent :
    (chain : MarketChain) (m : Meta) (t seller min_out deadline out : ℕ) (ms : MarketStore)
    (l : VeLock)
    → load t ms.store.locks ≡ some l
    → IsBookCoherent ms.store
    → IsBookCoherent (handle_market_sell_to_furnace chain m t seller min_out deadline out ms).store
unfolding handle_market_sell_to_furnace note_market_router load_or_create_protocol with_seller
    IsBookCoherent
handle_market_sell_to_furnace-IsBookCoherent chain m t seller min_out deadline out ms l e h =
    sell_listed-IsBookCoherent m t seller
      (with_seller seller (note_market_router chain m ms).1.store) l e h
