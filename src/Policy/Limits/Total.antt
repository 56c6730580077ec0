-- ===== src/Policy/Limits/Total.antt =====
-- `release` and `consume` never throw.
use gold_nest.Base.{ℕ, ◌≡◌, ◌≢◌, refl, arith, true, All}
use gold_nest.Table.{Row, find_many}
use gold_nest.Tx.Succeeds.{Succeeds, Succeeds-Ensures, is_ok, for_each-is_ok}
use gold_nest.Accounts.Ledger.{TxRefType}
use gold_nest.Policy.LimitBook.{
  LimitStatus, reserved, consumed, released, LimitReservation, LimitBook,
}
use gold_nest.Policy.Limits.{
  of_ref, consume_amount, consume_by, consume_one, consume, release_amount, release_by, release_one,
  release,
}
use gold_nest.Policy.Limits.Tally.{IsTallied}
use gold_nest.Policy.Limits.Closing.{release-IsTallied, consume-IsTallied}

module _ (r : Row LimitReservation) (b : LimitBook) where
  release_amount-is_ok : is_ok (release_amount r b) ≡ true
  unfolding release_amount
  release_amount-is_ok = ground arith

  consume_amount-is_ok : is_ok (consume_amount r b) ≡ true
  unfolding consume_amount
  consume_amount-is_ok = ground arith

  release_by-is_ok : (s : LimitStatus) → is_ok (release_by r s b) ≡ true
  unfolding release_by
  release_by-is_ok reserved = release_amount-is_ok
  release_by-is_ok consumed = refl
  release_by-is_ok released = refl

  consume_by-is_ok : (s : LimitStatus) → is_ok (consume_by r s b) ≡ true
  unfolding consume_by
  consume_by-is_ok reserved = consume_amount-is_ok
  consume_by-is_ok consumed = refl
  consume_by-is_ok released = consume_amount-is_ok

-- On a book that adds up, releasing the reservations of a reference never throws and keeps it adding up.
pub release-Succeeds :
    (ref_type : TxRefType) (ref_id : ℕ) (b : LimitBook)
    → IsTallied b
    → Succeeds (λ _ b'. IsTallied b') (release ref_type ref_id b)
unfolding release release_one
release-Succeeds ref_type ref_id b v =
    Succeeds-Ensures (λ _ b'. IsTallied b') _ (release-IsTallied ref_type ref_id b v)
      (for_each-is_ok release_one (λ r b'. release_by-is_ok r b' r.1.status)
        (find_many (of_ref ref_type ref_id) b.limit_reservations) b)

-- On a book that adds up, consuming the reservations of a reference never throws and keeps it adding
-- up, if none of them has been released.
pub consume-Succeeds :
    (ref_type : TxRefType) (ref_id : ℕ) (b : LimitBook)
    → All
        (λ (r : Row LimitReservation). r.1.status ≢ released)
        (find_many (of_ref ref_type ref_id) b.limit_reservations)
    → IsTallied b
    → Succeeds (λ _ b'. IsTallied b') (consume ref_type ref_id b)
unfolding consume consume_one
consume-Succeeds ref_type ref_id b none_released v =
    Succeeds-Ensures (λ _ b'. IsTallied b') _ (consume-IsTallied ref_type ref_id b none_released v)
      (for_each-is_ok consume_one (λ r b'. consume_by-is_ok r b' r.1.status)
        (find_many (of_ref ref_type ref_id) b.limit_reservations) b)
