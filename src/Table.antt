-- ===== src/Table.antt =====
-- A database table: the rows under their ids, the newest first. The operations are Prisma's, by
-- the names under which the services call them.
pub mod Sums
pub mod Keys
use gold_nest.Base.{
  ℕ, ◌≡◌, refl, Bool, true, false, ◌&&◌, Option, none, some, List, [], ◌∷◌, arith, ◌==◌,
  if◌then◌else◌,
}

abbrev pub Row : Type 0 → Type 0
Row R = ℕ × R

abbrev pub Table : Type 0 → Type 0
Table R = List (ℕ × R)

module _ {R : Type 0} where
  -- `findUnique({ where: { id } })`
  abbrev pub find_unique : ℕ → Table R → Option R
  find_unique k [] = none
  find_unique k ((j, r) ∷ t) = if j == k then some r else find_unique k t

  -- `findFirst({ where })`, and `findUnique` on a key of several columns
  abbrev pub find_first : (R → Bool) → Table R → Option (ℕ × R)
  find_first p [] = none
  find_first p ((j, r) ∷ t) = if p r then some (j, r) else find_first p t

  -- `findMany({ where })`
  abbrev pub find_many : (R → Bool) → Table R → List (ℕ × R)
  find_many p [] = []
  find_many p ((j, r) ∷ t) = if p r then (j, r) ∷ find_many p t else find_many p t

  -- `update({ where: { id }, data })`: `f` writes the columns that `data` names. Each call in
  -- the source stands behind a read of the row in the same transaction.
  abbrev pub update : ℕ → (R → R) → Table R → Table R
  update k f [] = []
  update k f ((j, r) ∷ t) = if j == k then (j, f r) ∷ t else (j, r) ∷ update k f t

  -- `delete({ where: { id } })`
  abbrev pub delete_row : ℕ → Table R → Table R
  delete_row k [] = []
  delete_row k ((j, r) ∷ t) = if j == k then t else (j, r) ∷ delete_row k t

  pub find_unique-update :
      (j k : ℕ) (f : R → R) (t : Table R) (r : R)
      → find_unique k t ≡ some r
      → find_unique j (update k f t) ≡ (if k == j then some (f r) else find_unique j t)
  find_unique-update j k f [] r e = ground arith
  find_unique-update j k f ((i, x) ∷ t) r e = ground (arith, find_unique-update j k f t r)

  pub find_unique-update_self :
      (k : ℕ) (f : R → R) (t : Table R) (r : R)
      → find_unique k t ≡ some r
      → find_unique k (update k f t) ≡ some (f r)
  find_unique-update_self k f t r e = ground (arith, find_unique-update k k f t r e)

  pub find_unique-update_ne :
      (j k : ℕ) (f : R → R) (t : Table R)
      → (k == j) ≡ false
      → find_unique j (update k f t) ≡ find_unique j t
  find_unique-update_ne j k f [] e = refl
  find_unique-update_ne j k f ((i, x) ∷ t) e = ground (arith, find_unique-update_ne j k f t e)

  -- What `findFirst` returns satisfies its condition.
  pub find_first-holds :
      (p : R → Bool) (t : Table R) (k : ℕ) (r : R) → find_first p t ≡ some (k, r) → p r ≡ true
  find_first-holds p [] k r e = cc
  find_first-holds p ((j, x) ∷ t) k r e = ground (arith, find_first-holds p t k r)
