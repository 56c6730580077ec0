-- ===== src/Withdrawals/Deciding/Total.antt =====
-- When the payment of a withdrawal goes through.
use gold_nest.Base.{some_unique, ℕ, ◌≡◌, refl, ◌∙◌, arith, true, false, Option, none, some}
use gold_nest.Int.{◌+ℤ◌, ◌-ℤ◌, ltb_ℤ, ◌≤ℤ◌, int_laws}
use gold_nest.Table.{Row, find_first, find_first-holds}
use gold_nest.Table.Keys.{find_unique-find_first}
use gold_nest.Tx.{ok}
use gold_nest.Tx.Ensures.{Ensures-ok}
use gold_nest.Tx.Succeeds.{Succeeds, Succeeds-Ensures, Succeeds-ok, is_ok}
use gold_nest.Accounts.Ledger.{
  Account, Reservation, Ledger, withdraw, reserved, consumed, irr_instrument_code,
  get_usable_capacity, get_or_create_account,
}
use gold_nest.Accounts.Ledger.Opening.{IsOpened, get_or_create_account-IsOpened}
use gold_nest.Accounts.Reserving.{Held, same_key, settle_reservation, consume_funds}
use gold_nest.Accounts.Reserving.Keeps.{IsSettled, settle_found}
use gold_nest.Accounts.Reserving.Total.{settle-is_ok}
use gold_nest.Accounts.Posting.{entry_of, clashes}
use gold_nest.Accounts.Posting.Total.{apply_transaction-is_ok}
use gold_nest.Accounts.Soundness.{IsSound}
use gold_nest.Withdrawals.Deciding.{payment, settle_payment}
use gold_nest.Withdrawals.Deciding.Payment.{IsPaid, settle_payment-IsPaid}

module _ (user_id id : ℕ) (admin_id : ℕ) (l : Ledger) (row : Row Account) (k : ℕ) (r : Reservation)
    (v : IsSound l) (opens : get_or_create_account user_id irr_instrument_code l ≡ ok (row, l))
    (held : find_first (same_key withdraw id row.0) l.reservations ≡ some (k, r))
    (open_one : r.status ≡ reserved) where
  IsOpened-here : IsOpened user_id l row l
  IsOpened-here =
      Ensures-ok (IsOpened user_id l) (get_or_create_account user_id irr_instrument_code l) row l
        opens (get_or_create_account-IsOpened user_id irr_instrument_code l v)

  consume_here :
      consume_funds user_id irr_instrument_code withdraw id l
      ≡ settle_reservation row.0 (k, r) consumed l
  unfolding consume_funds
  consume_here = ground (arith, opens, held, open_one)

  settle-Succeeds :
      Succeeds (IsSettled row.0 k r consumed l) (settle_reservation row.0 (k, r) consumed l)
  settle-Succeeds =
      Succeeds-Ensures (IsSettled row.0 k r consumed l) _
        (settle_found row.0 k r consumed l v row.1 IsOpened-here.stored
          (find_unique-find_first l.next_id _ l.reservations k r v.reservation_ids held)
          (let mine = find_first-holds _ l.reservations k r held in ground arith) open_one refl)
        (settle-is_ok user_id withdraw id l row l IsOpened-here consumed (k, r) held open_one)

  pay-is_ok :
      (h : Option Held) (l2 : Ledger)
      → settle_reservation row.0 (k, r) consumed l ≡ ok (h, l2)
      → IsSettled row.0 k r consumed l h l2
      → find_first (clashes (entry_of (payment row.0 r.amount id admin_id))) l.account_txs ≡ none
      → is_ok (settle_payment user_id id r.amount admin_id l) ≡ true
  unfolding settle_payment
  pay-is_ok h l2 done s free =
      let consumed_here = consume_here ∙ done in
      let same : s.old ≡ row.1 = some_unique _ s.old row.1 s.was IsOpened-here.stored in
      let covered : s.old.blocked_balance +ℤ s.old.min_balance ≤ℤ s.old.balance =
        rw (same) (v.backed row.0 row.1 IsOpened-here.stored).covered in
      let after : Account = record s.old { blocked_balance = s.old.blocked_balance -ℤ r.amount } in
      let enough : ltb_ℤ (get_usable_capacity after) r.amount ≡ false = grind int_laws in
      let posted =
        apply_transaction-is_ok (payment row.0 r.amount id admin_id) l2 after s.becomes
          (omega int_laws) (rw (s.entries_kept) free) in
      let back = s.returned in ground (arith, opens, consumed_here, back, enough, posted)

-- On a sound ledger, where the user's account is there and has an open reservation for the
-- withdrawal, the payment of the reserved amount does not throw, if its entry's unique keys are
-- free; and its outcome is the one stated of payments.
pub settle_payment-Succeeds :
    (user_id id admin_id : ℕ) (l : Ledger) (row : Row Account) (k : ℕ) (r : Reservation)
    → IsSound l
    → get_or_create_account user_id irr_instrument_code l ≡ ok (row, l)
    → find_first (same_key withdraw id row.0) l.reservations ≡ some (k, r)
    → r.status ≡ reserved
    → find_first (clashes (entry_of (payment row.0 r.amount id admin_id))) l.account_txs ≡ none
    → Succeeds
        (IsPaid user_id id r.amount admin_id l)
        (settle_payment user_id id r.amount admin_id l)
settle_payment-Succeeds user_id id admin_id l row k r v opens held open_one free =
    let (h, l2, done, s) =
      Succeeds-ok (IsSettled row.0 k r consumed l) _
        (settle-Succeeds user_id id admin_id l row k r v opens held open_one) in
    Succeeds-Ensures (IsPaid user_id id r.amount admin_id l) _
      (settle_payment-IsPaid user_id id r.amount admin_id l v)
      (pay-is_ok user_id id admin_id l row k r v opens held open_one h l2 done s free)
