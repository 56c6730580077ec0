-- ===== src/Table/Sums.antt =====
-- Sums over the rows of a table, and what each operation on the table does to them.
use gold_nest.Base.{ℕ, ◌≡◌, some, [], ◌∷◌, arith}
use gold_nest.Int.{ℤ, pos, ◌+ℤ◌, int_laws}
use gold_nest.Table.{Table, find_unique, update}

module _ {R : Type 0} (c : R → ℤ) where
  abbrev pub sum_rows : Table R → ℤ
  sum_rows [] = pos 0
  sum_rows ((j, r) ∷ t) = c r +ℤ sum_rows t

  pub sum_rows-update :
      (k : ℕ) (f : R → R) (t : Table R) (r : R)
      → find_unique k t ≡ some r
      → sum_rows (update k f t) +ℤ c r ≡ sum_rows t +ℤ c (f r)
  sum_rows-update k f [] r e = ground arith
  sum_rows-update k f ((j, x) ∷ t) r e = grind (int_laws, sum_rows-update k f t r)
