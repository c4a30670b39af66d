-- ===== src/Subgraph/Market/Coherence.antt =====
-- The listings against the locks: what the order book shows is a lock of the seller, marked as listed.
pub mod Lists
pub mod Escrows
pub mod Locks
pub mod Run
use claimrush.Prelude.{
  ℕ, ◌≡◌, ◌≢◌, refl, sym, ap, ◌∙◌, Bool, true, false, Option, none, some, arith, ◌==◌, ==_iff,
  Bool-cases, Option-cases, inl, inr, if◌then◌else◌,
}
use claimrush.Subgraph.Table.{Table, load, save, load-save_self, load-save_other}
use claimrush.Subgraph.Schema.{VeLock, MarketListing, Store}
use claimrush.Subgraph.Locks.{close_listing, close_active}

-- Every active listing has its lock in the store, marked as listed and owned by the seller.
unfoldable pub IsCoherent : Table VeLock → Table MarketListing → Type 0
IsCoherent locks listings =
    (t : ℕ) (row : MarketListing)
    → load t listings ≡ some row
    → row.active ≡ true
    → (l : VeLock) × (load t locks ≡ some l) × (l.listed ≡ true) × (l.owner ≡ row.seller)

pub apart : (a b : ℕ) → (a == b) ≡ false → a ≢ b
apart a b off p = ground (arith, p, off)

some_same : {A : Type 0} (o : Option A) (x y : A) → o ≡ some x → o ≡ some y → x ≡ y
some_same o x y e e' = cc

load-save_at {ℓ} :
    {V : Type ℓ} (j k : ℕ) (v : V) (d : Table V) → j ≡ k → load j (save k v d) ≡ some v
load-save_at j k v d e = rw e (load-save_self k v d)

clash : (b : Bool) → b ≡ true → b ≢ false
clash b p q = cc

absent : {A : Type 0} (o : Option A) (x : A) → o ≡ none → o ≢ some x
absent o x p q = cc

inactive : (b : Bool) → b ≢ true → b ≡ false
inactive true h = absurd (h refl)
inactive false h = refl

saved_closed :
    (t : ℕ) (r row : MarketListing) (listings : Table MarketListing)
    → r.active ≡ false
    → load t (save t r listings) ≡ some row
    → row.active ≡ false
saved_closed t r row listings off e =
    ap (λ x. x.active)
      (some_same (load t (save t r listings)) row r e (load-save_self t r listings))
    ∙ off

close_if_active_closed :
    (t now : ℕ) (r row : MarketListing) (listings : Table MarketListing) (active : Bool)
    → r.active ≡ active
    → load t listings ≡ some r
    → load t (
        if active
        then save t (record r { active = false; updated_at = now }) listings
        else listings)
      ≡ some row
    → row.active ≡ false
close_if_active_closed t now r row listings true on e e' =
    saved_closed t (record r { active = false; updated_at = now }) row listings refl e'
close_if_active_closed t now r row listings false off e e' =
    ap (λ x. x.active) (some_same (load t listings) row r e' e) ∙ off

pub close_active_closed :
    (t now : ℕ) (listings : Table MarketListing) (row : MarketListing)
    → load t (close_active t now listings) ≡ some row
    → row.active ≡ false
unfolding close_active
close_active_closed t now listings row =
    elim (Option-cases (load t listings))
      as (λ x. load t (close_active t now listings) ≡ some row → row.active ≡ false) [
        | inl e ↦ rw (e, close_active) (λ e'. absurd (absent (load t listings) row e e'))
        | inr (r, e) ↦
            rw (e, close_active) (close_if_active_closed t now r row listings r.active refl e)
      ]

close_if_active_others :
    (t now t' : ℕ) (r : MarketListing) (listings : Table MarketListing) (active : Bool)
    → t' ≢ t
    → load t' (
        if active
        then save t (record r { active = false; updated_at = now }) listings
        else listings)
      ≡ load t' listings
close_if_active_others t now t' r listings true ne =
    load-save_other t' t (record r { active = false; updated_at = now }) listings ne
close_if_active_others t now t' r listings false ne = refl

pub close_active_others :
    (t now t' : ℕ) (listings : Table MarketListing)
    → t' ≢ t
    → load t' (close_active t now listings) ≡ load t' listings
unfolding close_active
close_active_others t now t' listings ne = elim (Option-cases (load t listings)) [
  | inl e ↦ rw (e, close_active) refl
  | inr (r, e) ↦ rw (e, close_active) (close_if_active_others t now t' r listings r.active ne)
]

pub closing_others :
    (t now : ℕ) (l : VeLock) (listings : Table MarketListing) (t' : ℕ)
    → t' ≢ t
    → load t' (close_listing t l now listings) ≡ load t' listings
unfolding close_listing
closing_others t now l listings t' ne = by_mark l.listed
  where
    by_mark :
        (mark : Bool)
        → load t' (if mark then close_active t now listings else listings) ≡ load t' listings
    by_mark true = close_active_others t now t' listings ne
    by_mark false = refl

module _ (locks : Table VeLock) (listings : Table MarketListing)
    (h : IsCoherent locks listings) where
  -- A lock is replaced by one with the same owner and the same mark.
  pub kept :
      (t : ℕ) (old new : VeLock)
      → load t locks ≡ some old
      → new.owner ≡ old.owner
      → new.listed ≡ old.listed
      → IsCoherent (save t new locks) listings
  unfolding IsCoherent
  kept t old new e owner listed t' row e' on =
      let (l, el, marked, own) = h t' row e' on in
      elim (Bool-cases (t' == t)) [
        | inl same_id ↦
            let at = (==_iff t' t).0 same_id in
            let same = some_same (load t locks) old l e (ap (λ x. load x locks) (sym at) ∙ el) in
            (
              new,
              load-save_at t' t new locks at,
              listed ∙ ap (λ x. x.listed) same ∙ marked,
              owner ∙ ap (λ x. x.owner) same ∙ own,
            )
        | inr other ↦ (l, load-save_other t' t new locks (apart t' t other) ∙ el, marked, own)
      ]

  -- Whatever happens to a lock whose listing is closed.
  pub shut :
      (t : ℕ) (new : VeLock) (listings' : Table MarketListing)
      → ((row : MarketListing) → load t listings' ≡ some row → row.active ≡ false)
      → ((t' : ℕ) → t' ≢ t → load t' listings' ≡ load t' listings)
      → IsCoherent (save t new locks) listings'
  unfolding IsCoherent
  shut t new listings' closed others t' row e' on = elim (Bool-cases (t' == t)) [
    | inl same_id ↦ absurd (
        clash row.active on
          (closed row (ap (λ x. load x listings') (sym ((==_iff t' t).0 same_id)) ∙ e')))
    | inr other ↦
        let ne = apart t' t other in
        let (l, el, marked, own) = h t' row (sym (others t' ne) ∙ e') on in
        (l, load-save_other t' t new locks ne ∙ el, marked, own)
  ]

  -- A listing is closed, whatever its lock.
  pub closed_only :
      (t : ℕ) (listings' : Table MarketListing)
      → ((row : MarketListing) → load t listings' ≡ some row → row.active ≡ false)
      → ((t' : ℕ) → t' ≢ t → load t' listings' ≡ load t' listings)
      → IsCoherent locks listings'
  unfolding IsCoherent
  closed_only t listings' closed others t' row e' on = elim (Bool-cases (t' == t)) [
    | inl same_id ↦ absurd (
        clash row.active on
          (closed row (ap (λ x. load x listings') (sym ((==_iff t' t).0 same_id)) ∙ e')))
    | inr other ↦ h t' row (sym (others t' (apart t' t other)) ∙ e') on
  ]

  -- A lock is listed by its owner.
  pub opened :
      (t : ℕ) (new : VeLock) (row : MarketListing) (listings' : Table MarketListing)
      → new.listed ≡ true
      → new.owner ≡ row.seller
      → ((t' : ℕ) → t' ≢ t → load t' listings' ≡ load t' listings)
      → IsCoherent (save t new locks) (save t row listings')
  unfolding IsCoherent
  opened t new row listings' marked own others t' row' e' on = elim (Bool-cases (t' == t)) [
    | inl same_id ↦
        let at = (==_iff t' t).0 same_id in
        let same =
          some_same (load t' (save t row listings')) row row' (load-save_at t' t row listings' at)
            e' in
        (new, load-save_at t' t new locks at, marked, own ∙ ap (λ x. x.seller) same)
    | inr other ↦
        let ne = apart t' t other in
        let (l, el, marked, own) =
          h t' row' (sym (load-save_other t' t row listings' ne ∙ others t' ne) ∙ e') on in
        (l, load-save_other t' t new locks ne ∙ el, marked, own)
  ]

  -- A lock under a new id is added.
  pub added : (t : ℕ) (new : VeLock) → load t locks ≡ none → IsCoherent (save t new locks) listings
  unfolding IsCoherent
  added t new e t' row e' on =
      let (l, el, marked, own) = h t' row e' on in
      elim (Bool-cases (t' == t)) [
        | inl same_id ↦ absurd (
            absent (load t locks) l e (ap (λ x. load x locks) (sym ((==_iff t' t).0 same_id)) ∙ el))
        | inr other ↦ (l, load-save_other t' t new locks (apart t' t other) ∙ el, marked, own)
      ]

  -- The listing of a lock that is not marked is not active.
  pub unlisted :
      (t : ℕ) (l : VeLock) (row : MarketListing)
      → load t locks ≡ some l
      → l.listed ≡ false
      → load t listings ≡ some row
      → row.active ≡ false
  unfolding IsCoherent
  unlisted t l row e off e' = inactive row.active (λ on.
      let (l', el, marked, own) = h t row e' on in
      clash l.listed (ap (λ x. x.listed) (some_same (load t locks) l l' e el) ∙ marked) off)

  -- `close_listing` leaves no active listing of the lock.
  pub closing_closed :
      (t now : ℕ) (l : VeLock)
      → load t locks ≡ some l
      → (row : MarketListing) → load t (close_listing t l now listings) ≡ some row
      → row.active ≡ false
  unfolding close_listing
  closing_closed t now l e row = by_mark l.listed (λ off e'. unlisted t l row e off e')
    where
      by_mark :
          (mark : Bool)
          → (mark ≡ false → load t listings ≡ some row → row.active ≡ false)
          → load t (if mark then close_active t now listings else listings) ≡ some row
          → row.active ≡ false
      by_mark true other e' = close_active_closed t now listings row e'
      by_mark false other e' = other refl e'
