-- ===== src/Policy/Limits/Closing.antt =====
-- `consume` and `release` on all the reservations of a reference.
use gold_nest.Base.{
  ℕ, ◌≡◌, ◌≢◌, ◌≤◌, refl, ◌∙◌, false, some, [], ◌∷◌, All, arith, inl, inr, Option-cases, ◌==◌,
}
use gold_nest.Table.{Row, Table, find_unique, find_many, find_unique-update_ne}
use gold_nest.Table.Keys.{Below, Below-find_many, find_many-Stored, Stored}
use gold_nest.Tx.{Tx, for_each}
use gold_nest.Tx.Ensures.{Ensures, Ensures-bind, Ensures-both}
use gold_nest.Accounts.Ledger.{TxRefType}
use gold_nest.Policy.LimitBook.{
  LimitStatus, reserved, consumed, released, LimitReservation, LimitBook,
}
use gold_nest.Policy.Limits.{
  of_ref, consume_amount, consume_by, consume_one, consume, release_amount, release_by, release_one,
  release,
}
use gold_nest.Policy.Limits.Tally.{IsTallied, consume_amount-IsTallied, release_amount-IsTallied}

-- Only the row under `k` may have changed.
abbrev OnlyAt : ℕ → LimitBook → LimitBook → Type 0
OnlyAt k b b' =
    (j : ℕ)
    → (k == j) ≡ false
    → find_unique j b'.limit_reservations ≡ find_unique j b.limit_reservations

abbrev Turn : ℕ → LimitBook → LimitBook → Type 0
Turn k b b' = IsTallied b' × OnlyAt k b b'

consume_amount-OnlyAt :
    (r : Row LimitReservation) (b : LimitBook)
    → Ensures (λ _ b'. OnlyAt r.0 b b') (consume_amount r b)
unfolding consume_amount
consume_amount-OnlyAt r b = elim (Option-cases (find_unique r.1.usage_id b.usages)) [
  | inl gone ↦ rw (gone, Ensures) (λ j h. refl)
  | inr (u, e) ↦ rw (e, Ensures) (λ j h. find_unique-update_ne j r.0 _ b.limit_reservations h)
]

release_amount-OnlyAt :
    (r : Row LimitReservation) (b : LimitBook)
    → Ensures (λ _ b'. OnlyAt r.0 b b') (release_amount r b)
unfolding release_amount
release_amount-OnlyAt r b = elim (Option-cases (find_unique r.1.usage_id b.usages)) [
  | inl gone ↦ rw (gone, Ensures) (λ j h. refl)
  | inr (u, e) ↦ rw (e, Ensures) (λ j h. find_unique-update_ne j r.0 _ b.limit_reservations h)
]

module _ (r : Row LimitReservation) (b : LimitBook) (v : IsTallied b)
    (at : find_unique r.0 b.limit_reservations ≡ some r.1) where
  release_by-Turn :
      (s : LimitStatus) → r.1.status ≡ s → Ensures (λ _ b'. Turn r.0 b b') (release_by r s b)
  unfolding release_by
  release_by-Turn reserved e =
      Ensures-both (λ _ b'. IsTallied b') (λ _ b'. OnlyAt r.0 b b') (release_amount r b)
        (release_amount-IsTallied b r v (record { stored = at; open_one = e }))
        (release_amount-OnlyAt r b)
  release_by-Turn _ e = (v, λ j h. refl)

  consume_by-Turn :
      (s : LimitStatus)
      → r.1.status ≡ s
      → r.1.status ≢ released
      → Ensures (λ _ b'. Turn r.0 b b') (consume_by r s b)
  unfolding consume_by
  consume_by-Turn reserved e ne =
      Ensures-both (λ _ b'. IsTallied b') (λ _ b'. OnlyAt r.0 b b') (consume_amount r b)
        (consume_amount-IsTallied b r v (record { stored = at; open_one = e }))
        (consume_amount-OnlyAt r b)
  consume_by-Turn consumed e ne = (v, λ j h. refl)
  consume_by-Turn released e ne = absurd (ne e)

Stored-after :
    (n k : ℕ) (b b' : LimitBook) (rs : Table LimitReservation)
    → Below n rs
    → n ≤ k
    → OnlyAt k b b'
    → Stored b.limit_reservations rs
    → Stored b'.limit_reservations rs
Stored-after n k b b' [] below h o s = tt
Stored-after n k b b' (r ∷ rs) below h o s =
    (o r.0 (ground arith) ∙ s.0, Stored-after r.0 k b b' rs below.1 (omega arith) o s.1)

-- A loop whose turns keep the book tallied and change the row at hand alone.
module _ (body : Row LimitReservation → Tx LimitBook (Unit {0})) (Ready : LimitReservation → Type 0)
    (turn : (r : Row LimitReservation) (b : LimitBook)
      → IsTallied b
      → find_unique r.0 b.limit_reservations ≡ some r.1
      → Ready r.1
      → Ensures (λ _ b'. Turn r.0 b b') (body r b)) where
  loop-IsTallied :
      (n : ℕ) (rs : Table LimitReservation) (b : LimitBook)
      → Below n rs
      → Stored b.limit_reservations rs
      → All (λ (r : Row LimitReservation). Ready r.1) rs
      → IsTallied b
      → Ensures (λ _ b'. IsTallied b') (for_each rs body b)
  loop-IsTallied n [] b below s ready v = v
  loop-IsTallied n (r ∷ rs) b below s ready v =
      Ensures-bind (λ _ b'. Turn r.0 b b') (λ _ b'. IsTallied b') (body r) (λ _. for_each rs body) b
        (turn r b v s.0 ready.0)
        λ _ b' t.
          loop-IsTallied r.0 rs b' below.1
            (Stored-after r.0 r.0 b b' rs below.1 (omega arith) t.1 s.1) ready.1 t.0

-- Releasing the reservations of a reference keeps the book adding up.
pub release-IsTallied :
    (ref_type : TxRefType) (ref_id : ℕ) (b : LimitBook)
    → IsTallied b
    → Ensures (λ _ b'. IsTallied b') (release ref_type ref_id b)
unfolding release release_one
release-IsTallied ref_type ref_id b v =
    loop-IsTallied release_one (λ _. Unit)
      (λ r b' v' at _. release_by-Turn r b' v' at r.1.status refl) b.next_id _ b
      (Below-find_many b.next_id _ b.limit_reservations v.reservation_ids)
      (find_many-Stored b.next_id _ b.limit_reservations v.reservation_ids) (trivial _) v
  where
    trivial : (rs : Table LimitReservation) → All (λ (r : Row LimitReservation). Unit {0}) rs
    trivial [] = tt
    trivial (r ∷ rs) = (tt, trivial rs)

-- Consuming the reservations of a reference keeps the book adding up, if none of them has been
-- released.
pub consume-IsTallied :
    (ref_type : TxRefType) (ref_id : ℕ) (b : LimitBook)
    → All
        (λ (r : Row LimitReservation). r.1.status ≢ released)
        (find_many (of_ref ref_type ref_id) b.limit_reservations)
    → IsTallied b
    → Ensures (λ _ b'. IsTallied b') (consume ref_type ref_id b)
unfolding consume consume_one
consume-IsTallied ref_type ref_id b none_released v =
    loop-IsTallied consume_one (λ r. r.status ≢ released)
      (λ r b' v' at ready. consume_by-Turn r b' v' at r.1.status refl ready) b.next_id _ b
      (Below-find_many b.next_id _ b.limit_reservations v.reservation_ids)
      (find_many-Stored b.next_id _ b.limit_reservations v.reservation_ids) none_released v
