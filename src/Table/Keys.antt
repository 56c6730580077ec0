-- ===== src/Table/Keys.antt =====
-- The ids of a table fall along it and stay under the next free id, so no two rows share one.
use gold_nest.Base.{
  All, inl, inr, Bool-cases, ℕ, ◌≡◌, refl, ◌<◌, ◌≤◌, Bool, none, some, [], ◌∷◌, arith,
}
use gold_nest.Table.{Row, find_many, Table, find_unique, find_first, update, delete_row}

module _ {R : Type 0} where
  abbrev pub Below : ℕ → Table R → Type 0
  Below n [] = Unit {0}
  Below n ((k, r) ∷ t) = (k < n) × Below k t

  pub Below-mono : (m n : ℕ) (t : Table R) → m ≤ n → Below m t → Below n t
  Below-mono m n [] h b = tt
  Below-mono m n ((k, r) ∷ t) h b = (omega arith, b.1)

  pub update-Below : (n k : ℕ) (f : R → R) (t : Table R) → Below n t → Below n (update k f t)
  update-Below n k f [] b = tt
  update-Below n k f ((j, r) ∷ t) b = ground (arith, update-Below j k f t b.1)

  pub delete_row-Below : (n k : ℕ) (t : Table R) → Below n t → Below n (delete_row k t)
  delete_row-Below n k [] b = tt
  delete_row-Below n k ((j, r) ∷ t) b = ground (arith, delete_row-Below j k t b.1, Below-mono j n t)

  -- Ids from the bound on are free.
  pub find_unique_above : (n k : ℕ) (t : Table R) → Below n t → n ≤ k → find_unique k t ≡ none
  find_unique_above n k [] b h = refl
  find_unique_above n k ((j, r) ∷ t) b h = ground (arith, find_unique_above j k t b.1)

  pub find_unique_bound :
      (n k : ℕ) (t : Table R) (r : R) → Below n t → find_unique k t ≡ some r → k < n
  find_unique_bound n k [] r b e = cc
  find_unique_bound n k ((j, x) ∷ t) r b e = ground (arith, find_unique_bound j k t r b.1)

  -- The row that `findFirst` returns is the one under its id.
  pub find_unique-find_first :
      (n : ℕ) (p : R → Bool) (t : Table R) (k : ℕ) (r : R)
      → Below n t
      → find_first p t ≡ some (k, r)
      → find_unique k t ≡ some r
  find_unique-find_first n p [] k r b e = cc
  find_unique-find_first n p ((j, x) ∷ t) k r b e =
      ground (arith, find_unique-find_first j p t k r b.1, find_unique_bound j k t r b.1)

  -- The listed rows stand in the table.
  abbrev pub Stored : Table R → Table R → Type 0
  Stored t = All (λ (r : Row R). find_unique r.0 t ≡ some r.1)

  -- What `findMany` lists keeps the order of the ids …
  pub Below-find_many : (n : ℕ) (p : R → Bool) (t : Table R) → Below n t → Below n (find_many p t)
  Below-find_many n p [] b = tt
  Below-find_many n p ((j, r) ∷ t) b =
      ground (arith, Below-find_many j p t b.1, Below-mono j n (find_many p t))

  Stored-cons :
      (n k : ℕ) (x : R) (t l : Table R) → Below n l → n ≤ k → Stored t l → Stored ((k, x) ∷ t) l
  Stored-cons n k x t [] b h s = tt
  Stored-cons n k x t ((j, r) ∷ l) b h s =
      (ground (arith, s.0), Stored-cons j k x t l b.1 (omega arith) s.1)

  -- … and stands in the table.
  pub find_many-Stored : (n : ℕ) (p : R → Bool) (t : Table R) → Below n t → Stored t (find_many p t)
  find_many-Stored n p [] b = tt
  find_many-Stored n p ((j, r) ∷ t) b =
      let rest =
        Stored-cons j j r t (find_many p t) (Below-find_many j p t b.1) (omega arith)
          (find_many-Stored j p t b.1) in
      elim (Bool-cases (p r)) [ inl hit ↦ rw hit (ground arith, rest) | inr miss ↦ rw miss rest ]
