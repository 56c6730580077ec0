-- ===== src/P2p/Merging.antt =====
-- `splitReservationForAllocation` and `mergeReservationBack` of
-- src/modules/p2p-allocations/p2p-allocations.service.ts: what a withdrawal has reserved moves to an
-- allocation, and back.
pub mod Splitting
use gold_nest.Base.{ℕ, suc, Bool, ◌&&◌, ◌==◌, Option, none, some, is_some, List, [], ◌∷◌, not}
use gold_nest.Int.{ℤ, ◌+ℤ◌, ◌-ℤ◌, ltb_ℤ}
use gold_nest.Table.{Row, Table, find_first, find_many, update, delete_row}
use gold_nest.Tx.{
  Tx, ok, pure, gets, or_throw, throw_if, modify, for_each, ◌>>=◌, ◌>>◌, reservation_not_found,
  reservation_insufficient,
}
use gold_nest.Accounts.Ledger.{
  TxRefType, ref_type_eq, withdraw, withdraw_allocation, Reservation, Ledger,
}
use gold_nest.Accounts.Reserving.{same_key, create_reservation}
use gold_nest.Policy.LimitBook.{LimitReservation, LimitBook}
use gold_nest.Policy.Limits.{of_ref, reservation_matches}

-- `findFirst({ where: { refType, refId } })`
abbrev pub of_request : TxRefType → ℕ → Reservation → Bool
of_request ref_type ref_id r = r.ref_id == ref_id && ref_type_eq r.ref_type ref_type

abbrev pub set_reservation_amount : ℕ → ℤ → Ledger → Ledger
set_reservation_amount k amount l = record l {
  reservations = update k (λ r. record r { amount = amount }) l.reservations;
}

abbrev pub part_for : ℕ → ℤ → Reservation → Reservation
part_for allocation_id amount r = record r {
  amount = amount;
  ref_type = withdraw_allocation;
  ref_id = allocation_id;
}

-- The ledger's part of the split.
unfoldable pub split_funds : ℕ → ℕ → ℤ → Tx Ledger (Unit {0})
split_funds withdrawal_id allocation_id amount = do
  found ← gets (λ l. find_first (of_request withdraw withdrawal_id) l.reservations)
  r ← or_throw found reservation_not_found
  throw_if (ltb_ℤ r.1.amount amount) reservation_insufficient
  modify (set_reservation_amount r.0 (r.1.amount -ℤ amount))
  create_reservation (part_for allocation_id amount r.1)
  pure tt

split_limit : ℕ → ℤ → Row LimitReservation → Tx LimitBook (Unit {0})
split_limit allocation_id amount r b = ok (
  tt,
  record b {
    limit_reservations =
        (
          b.next_id,
          record r.1 { amount = amount; ref_type = withdraw_allocation; ref_id = allocation_id },
        )
        ∷ update r.0 (λ x. record x { amount = r.1.amount -ℤ amount }) b.limit_reservations;
    next_id = suc b.next_id;
  },
)

-- … and the limit book's.
unfoldable pub split_limits : ℕ → ℕ → ℤ → Tx LimitBook (Unit {0})
unfolding split_limit
split_limits withdrawal_id allocation_id amount = do
  rs ← gets (λ b. find_many (of_ref withdraw withdrawal_id) b.limit_reservations)
  for_each rs (split_limit allocation_id amount)

add_back : ℤ → Option (Row Reservation) → Table Reservation → Table Reservation
add_back amount none rs = rs
add_back amount (some r) rs = update r.0 (λ x. record x { amount = r.1.amount +ℤ amount }) rs

merge_row : ℕ → ℤ → Option (Row Reservation) → Ledger → Ledger
unfolding add_back
merge_row withdrawal_id amount none l = l
merge_row withdrawal_id amount (some part) l = record l {
  reservations = delete_row part.0 (
      add_back amount
        (find_first (same_key withdraw withdrawal_id part.1.account_id) l.reservations)
        l.reservations);
}

-- The ledger's part of the merge.
unfoldable pub merge_funds : ℕ → ℕ → ℤ → Tx Ledger (Unit {0})
unfolding merge_row
merge_funds withdrawal_id allocation_id amount = do
  part ← gets (λ l. find_first (of_request withdraw_allocation allocation_id) l.reservations)
  modify (merge_row withdrawal_id amount part)

add_back_limit : ℤ → Option (Row LimitReservation) → Table LimitReservation → Table LimitReservation
add_back_limit amount none rs = rs
add_back_limit amount (some r) rs = update r.0 (λ x. record x { amount = r.1.amount +ℤ amount }) rs

merge_limit : ℕ → ℤ → Row LimitReservation → Tx LimitBook (Unit {0})
unfolding add_back_limit
merge_limit withdrawal_id amount part b = ok (
  tt,
  record b {
    limit_reservations = delete_row part.0 (
        add_back_limit amount
          (find_first (reservation_matches withdraw withdrawal_id part.1.usage_id)
            b.limit_reservations)
          b.limit_reservations);
  },
)

-- … and the limit book's.
unfoldable pub merge_limits : ℕ → ℕ → ℤ → Tx LimitBook (Unit {0})
unfolding merge_limit
merge_limits withdrawal_id allocation_id amount = do
  rs ← gets (λ b. find_many (of_ref withdraw_allocation allocation_id) b.limit_reservations)
  for_each rs (merge_limit withdrawal_id amount)
