-- ===== src/Subgraph/Users/Aggregate.antt =====
-- An aggregate in the users' rows, under the calls that load, create and save them.
use claimrush.Prelude.{
  ℕ, ◌≡◌, ◌≢◌, refl, sym, ◌∙◌, Bool, true, false, none, some, if◌then◌else◌, Option-cases,
  Bool-cases, ==_iff, ◌==◌, inl, inr, arith,
}
use claimrush.Subgraph.Table.{Table, load, save, load-save_self, load-save_other}
use claimrush.Subgraph.Schema.{User}
use claimrush.Subgraph.Users.{new_user, ensure_user_ve_fields, load_or_create_user}

-- What the row of an address says, nothing where there is no row.
abbrev pub at : (User → ℕ) → ℕ → Table User → ℕ
at f u users = elim (load u users) [ none ↦ 0 | some x ↦ f x ]

module _ (f : User → ℕ) where
  pub at-save_self : (k : ℕ) (v : User) (users : Table User) → at f k (save k v users) ≡ f v
  at-save_self k v users = rw (at, load-save_self k v users) refl

  pub at-save_other :
      (u k : ℕ) (v : User) (users : Table User) → u ≢ k → at f u (save k v users) ≡ at f u users
  at-save_other u k v users ne = rw (at, load-save_other u k v users ne) refl

  -- One row is saved after calls that change no aggregate.
  pub at_saved :
      (u a : ℕ) (v : User) (users users' : Table User)
      → ((x : ℕ) → at f x users' ≡ at f x users)
      → at f u (save a v users') ≡ (if u == a then f v else at f u users)
  at_saved u a v users users' same = elim (Bool-cases (u == a)) [
    | inl on ↦ rw (on, (==_iff u a).0 on) (at-save_self a v users')
    | inr off ↦ rw off (at-save_other u a v users' (λ p. ground (arith, p, off)) ∙ same u)
  ]

  at-none : (a : ℕ) (users : Table User) → load a users ≡ none → at f a users ≡ 0
  at-none a users e = rw (e, at) refl

  at-some : (a : ℕ) (users : Table User) (v : User) → load a users ≡ some v → at f a users ≡ f v
  at-some a users v e = rw (e, at) refl

  -- Saving a row with the aggregate that is there changes none.
  resaved :
      (u k : ℕ) (v : User) (users : Table User)
      → f v ≡ at f k users
      → at f u (save k v users) ≡ at f u users
  resaved u k v users h = elim (Bool-cases (u == k)) [
    | inl on ↦ rw ((==_iff u k).0 on) (at-save_self k v users ∙ h)
    | inr off ↦ at-save_other u k v users (λ p. ground (arith, p, off))
  ]

  resave_if :
      (u k : ℕ) (v : User) (users : Table User) (test : Bool)
      → f v ≡ at f k users
      → at f u (if test then save k v users else users) ≡ at f u users
  resave_if u k v users true h = resaved u k v users h
  resave_if u k v users false h = refl

  module _ (f_new : (a : ℕ) → f (new_user a) ≡ 0)
      (f_ensure : (u : User) → f (ensure_user_ve_fields u) ≡ f u) where
    -- The row that is loaded or created carries the aggregate of its address.
    pub loaded-at : (a : ℕ) (users : Table User) → f (load_or_create_user a users).0 ≡ at f a users
    unfolding load_or_create_user
    loaded-at a users = elim (Option-cases (load a users)) [
      | inl e ↦ rw (e, at, load_or_create_user) (f_new a)
      | inr (v, e) ↦ rw (e, at, load_or_create_user) (f_ensure v)
    ]

    -- Loading or creating a row changes no aggregate.
    pub at-loaded :
        (u a : ℕ) (users : Table User) → at f u (load_or_create_user a users).1 ≡ at f u users
    unfolding load_or_create_user
    at-loaded u a users = elim (Option-cases (load a users)) [
      | inl e ↦
          rw (e, load_or_create_user) (resaved u a _ users (f_new a ∙ sym (at-none a users e)))
      | inr (v, e) ↦
          rw (e, load_or_create_user)
            (resave_if u a _ users _ (f_ensure v ∙ sym (at-some a users v e)))
    ]
