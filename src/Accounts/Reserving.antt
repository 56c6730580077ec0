-- ===== src/Accounts/Reserving.antt =====
-- `reserveFunds`, `releaseFunds` and `consumeFunds` of src/modules/accounts/accounts.service.ts.
pub mod Keeps
pub mod Funds
pub mod Total
use gold_nest.Base.{
  ℕ, suc, Bool, true, false, ◌&&◌, ◌||◌, Option, none, some, List, [], ◌∷◌, ◌==◌, option_eq,
  is_some, if◌then◌else◌,
}
use gold_nest.Int.{ℤ, pos, ◌+ℤ◌, ◌-ℤ◌, ltb_ℤ}
use gold_nest.Table.{Row, Table, find_unique, find_first, update}
use gold_nest.Tx.{
  Error, ok, Tx, pure, throw, gets, or_throw, throw_if, modify, ◌>>=◌, ◌>>◌, instrument_not_found,
  account_not_found, reservation_already_released, blocked_balance_negative, insufficient_credit,
  unique_violation,
}
use gold_nest.Accounts.Ledger.{
  TxRefType, ref_type_eq, ReservationStatus, reserved, consumed, released, Account, Reservation,
  Ledger, get_usable_capacity, get_or_create_account, find_account, AccountTxType, EntrySide, debit,
  credit, entry_side_eq, AccountTx,
}

-- The unique key [refType, refId, accountId] of `AccountReservation`.
abbrev pub same_key : TxRefType → ℕ → ℕ → Reservation → Bool
same_key ref_type ref_id account_id r =
    r.account_id == account_id && (r.ref_id == ref_id && ref_type_eq r.ref_type ref_type)

-- An account and a reservation against it, each with its id.
pub record Held : Type 0 where
  pub account : Row Account
  pub reservation : Row Reservation

abbrev pub set_blocked : ℕ → ℤ → Ledger → Ledger
set_blocked id blocked l = record l {
  accounts = update id (λ a. record a { blocked_balance = blocked }) l.accounts;
}

abbrev pub set_status : ℕ → ReservationStatus → Ledger → Ledger
set_status id status l = record l {
  reservations = update id (λ r. record r { status = status }) l.reservations;
}

-- `accountReservation.create`, on a key that is free.
insert_reservation : Reservation → Tx Ledger (Row Reservation)
insert_reservation r l = ok (
  (l.next_id, r),
  record l { reservations = (l.next_id, r) ∷ l.reservations; next_id = suc l.next_id },
)

unfoldable pub create_reservation : Reservation → Tx Ledger (Row Reservation)
unfolding insert_reservation
create_reservation r = do
  taken ← gets (λ l. find_first (same_key r.ref_type r.ref_id r.account_id) l.reservations)
  throw_if (is_some taken) unique_violation
  insert_reservation r

-- The part of `reserveFunds` behind the look-up of the reservation.
pub reserve_new : ℕ → Account → ℤ → TxRefType → ℕ → Tx Ledger Held
reserve_new id fresh amount ref_type ref_id = do
  throw_if (ltb_ℤ (get_usable_capacity fresh) amount) insufficient_credit
  reservation ← create_reservation (record {
    account_id = id;
    amount = amount;
    ref_type = ref_type;
    ref_id = ref_id;
    status = reserved;
  })
  modify (set_blocked id (fresh.blocked_balance +ℤ amount))
  pure (record {
    account = (id, record fresh { blocked_balance = fresh.blocked_balance +ℤ amount });
    reservation = reservation;
  })

reserve_again : ℕ → Account → Row Reservation → ReservationStatus → Tx Ledger Held
reserve_again id fresh r released = throw reservation_already_released
reserve_again id fresh r _ = pure (record { account = (id, fresh); reservation = r })

reserve_on : ℕ → Account → ℤ → TxRefType → ℕ → Option (Row Reservation) → Tx Ledger Held
reserve_on id fresh amount ref_type ref_id (some r) = reserve_again id fresh r r.1.status
reserve_on id fresh amount ref_type ref_id none = reserve_new id fresh amount ref_type ref_id

-- `reserveFunds`
unfoldable pub reserve_funds : ℕ → ℕ → ℤ → TxRefType → ℕ → Tx Ledger Held
unfolding get_or_create_account find_account create_reservation reserve_new reserve_again reserve_on
reserve_funds user_id code amount ref_type ref_id = do
  account ← get_or_create_account user_id code
  fresh ← find_account account.0
  existing ← gets (λ l. find_first (same_key ref_type ref_id account.0) l.reservations)
  reserve_on account.0 fresh amount ref_type ref_id existing

-- Both `releaseFunds` and `consumeFunds` end so: the amount leaves the blocked balance, and the
-- reservation gets its new status.
pub settle_reservation : ℕ → Row Reservation → ReservationStatus → Tx Ledger (Option Held)
unfolding find_account
settle_reservation id r status = do
  fresh ← find_account id
  let blocked = fresh.blocked_balance -ℤ r.1.amount
  throw_if (ltb_ℤ blocked (pos 0)) blocked_balance_negative
  modify (set_status r.0 status)
  modify (set_blocked id blocked)
  pure (
      some (record {
        account = (id, record fresh { blocked_balance = blocked });
        reservation = (r.0, record r.1 { status = status });
      }))

release_by : Row Account → Row Reservation → ReservationStatus → Tx Ledger (Option Held)
unfolding settle_reservation
release_by account r released = pure (some (record { account = account; reservation = r }))
release_by account r consumed = do
  fresh ← find_account account.0
  pure (some (record { account = (account.0, fresh); reservation = r }))
release_by account r reserved = settle_reservation account.0 r released

pub release_on : Row Account → Option (Row Reservation) → Tx Ledger (Option Held)
release_on account none = pure none
release_on account (some r) = release_by account r r.1.status

-- `releaseFunds`
unfoldable pub release_funds : ℕ → ℕ → TxRefType → ℕ → Tx Ledger (Option Held)
unfolding get_or_create_account release_by release_on
release_funds user_id code ref_type ref_id = do
  account ← get_or_create_account user_id code
  found ← gets (λ l. find_first (same_key ref_type ref_id account.0) l.reservations)
  release_on account found

consume_by : Row Account → Row Reservation → ReservationStatus → Tx Ledger (Option Held)
unfolding settle_reservation
consume_by account r consumed = pure (some (record { account = account; reservation = r }))
consume_by account r released = throw reservation_already_released
consume_by account r reserved = settle_reservation account.0 r consumed

consume_on : Row Account → Option (Row Reservation) → Tx Ledger (Option Held)
consume_on account none = pure none
consume_on account (some r) = consume_by account r r.1.status

-- `consumeFunds`
unfoldable pub consume_funds : ℕ → ℕ → TxRefType → ℕ → Tx Ledger (Option Held)
unfolding get_or_create_account consume_by consume_on
consume_funds user_id code ref_type ref_id = do
  account ← get_or_create_account user_id code
  found ← gets (λ l. find_first (same_key ref_type ref_id account.0) l.reservations)
  consume_on account found
