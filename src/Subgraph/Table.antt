-- ===== src/Subgraph/Table.antt =====
-- The entity store of graph-ts, for one entity type: rows by their id. `load` gives the row that
-- was saved last under an id, and `save` replaces it or adds it.
use claimrush.Prelude.{
  ℕ, ◌+◌, ◌≤◌, ◌≡◌, ◌≢◌, Option, none, some, List, [], ◌∷◌, arith, ◌==◌, ==_iff, Bool-cases, inl,
  inr, if◌then◌else◌,
}

abbrev pub Table {ℓ} : Type ℓ → Type ℓ
Table V = List (ℕ × V)

module _ {ℓ} {V : Type ℓ} where
  abbrev pub load : ℕ → Table V → Option V
  load k [] = none
  load k ((j, v) ∷ d) = if k == j then some v else load k d

  abbrev pub save : ℕ → V → Table V → Table V
  save k v [] = (k, v) ∷ []
  save k v ((j, w) ∷ d) = let rest = save k v d in if k == j then (k, v) ∷ d else (j, w) ∷ rest

  pub load-save_self : (k : ℕ) (v : V) (d : Table V) → load k (save k v d) ≡ some v
  load-save_self k v [] = ground arith
  load-save_self k v (e ∷ d) = ground (arith, load-save_self k v d)

  pub load-save_other : (j k : ℕ) (v : V) (d : Table V) → j ≢ k → load j (save k v d) ≡ load j d
  load-save_other j k v [] h = ground arith
  load-save_other j k v (e ∷ d) h = ground (arith, load-save_other j k v d h)

  pub load-save :
      (j k : ℕ) (v : V) (d : Table V) → load j (save k v d) ≡ (if j == k then some v else load j d)
  load-save j k v d = elim (Bool-cases (j == k)) [
    | inl on ↦ rw (on, (==_iff j k).0 on) (load-save_self k v d)
    | inr off ↦ rw off (load-save_other j k v d (λ e. ground (arith, e, off)))
  ]

  -- The sum of a measure over all rows.
  abbrev pub total : (V → ℕ) → Table V → ℕ
  total f [] = 0
  total f ((_, v) ∷ d) = f v + total f d

  pub total-save :
      (f : V → ℕ) (k : ℕ) (v old : V) (d : Table V)
      → load k d ≡ some old
      → total f (save k v d) + f old ≡ total f d + f v
  total-save f k v old [] e = cc
  total-save f k v old (x ∷ d) e = ground (arith, total-save f k v old d)

  pub total-save_new :
      (f : V → ℕ) (k : ℕ) (v : V) (d : Table V)
      → load k d ≡ none
      → total f (save k v d) ≡ total f d + f v
  total-save_new f k v [] e = omega arith
  total-save_new f k v (x ∷ d) e = ground (arith, total-save_new f k v d)

  pub row_le_total : (f : V → ℕ) (k : ℕ) (v : V) (d : Table V) → load k d ≡ some v → f v ≤ total f d
  row_le_total f k v [] e = cc
  row_le_total f k v (x ∷ d) e = ground (arith, row_le_total f k v d)

  pub rows_le_total :
      (f : V → ℕ) (j k : ℕ) (v w : V) (d : Table V)
      → j ≢ k
      → load j d ≡ some v
      → load k d ≡ some w
      → f v + f w ≤ total f d
  rows_le_total f j k v w [] ne e e' = cc
  rows_le_total f j k v w (x ∷ d) ne e e' =
      ground (arith, rows_le_total f j k v w d ne, row_le_total f j v d, row_le_total f k w d)
