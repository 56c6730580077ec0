-- ===== src/Accounts/Ledger.antt =====
-- The tables of src/modules/accounts/accounts.service.ts, and `getOrCreateAccount`. Ids and
-- instrument codes are strings that are only compared, so they are natural numbers; a created row
-- takes the next free number.
pub mod Opening
pub mod Choosing
use gold_nest.Base.{
  ℕ, suc, Bool, true, false, ◌&&◌, ◌||◌, Option, none, some, List, [], ◌∷◌, ◌==◌, option_eq,
  is_some, if◌then◌else◌, not,
}
use gold_nest.Int.{ℤ, pos, ◌+ℤ◌, ◌-ℤ◌, ltb_ℤ}
use gold_nest.Table.{Row, Table, find_unique, find_first, update}
use gold_nest.Tx.{
  Error, ok, Tx, pure, throw, gets, or_throw, throw_if, modify, ◌>>=◌, ◌>>◌, instrument_not_found,
  account_not_found, reservation_already_released, blocked_balance_negative, insufficient_credit,
  unique_violation, foreign_key_violation,
}

pub data TxRefType : Type 0 where
  trade deposit withdraw withdraw_allocation adjustment gold_lot remittance : TxRefType
  physical_custody_movement : TxRefType

abbrev pub ref_index : TxRefType → ℕ
ref_index trade = 0
ref_index deposit = 1
ref_index withdraw = 2
ref_index withdraw_allocation = 3
ref_index adjustment = 4
ref_index gold_lot = 5
ref_index remittance = 6
ref_index physical_custody_movement = 7

abbrev pub ref_type_eq : TxRefType → TxRefType → Bool
ref_type_eq a b = ref_index a == ref_index b

pub data AccountTxType : Type 0 where
  deposit withdraw trade_debit trade_credit adjustment fee remittance custody : AccountTxType

pub data EntrySide : Type 0 where
  debit credit : EntrySide

abbrev pub entry_side_eq : EntrySide → EntrySide → Bool
entry_side_eq debit debit = true
entry_side_eq credit credit = true
entry_side_eq _ _ = false

-- `AccountReservationStatus`
pub data ReservationStatus : Type 0 where
  reserved consumed released : ReservationStatus

pub record Account : Type 0 where
  pub user_id : ℕ
  pub instrument_id : ℕ
  pub balance : ℤ
  pub blocked_balance : ℤ
  pub min_balance : ℤ

pub record Reservation : Type 0 where
  pub account_id : ℕ
  pub amount : ℤ
  pub ref_type : TxRefType
  pub ref_id : ℕ
  pub status : ReservationStatus

pub record AccountTx : Type 0 where
  pub account_id : ℕ
  pub delta : ℤ
  pub kind : AccountTxType
  pub entry_side : EntrySide
  pub ref_type : TxRefType
  pub ref_id : Option ℕ
  pub created_by_id : Option ℕ
  pub reversal_of_id : Option ℕ

-- The columns of `User` that the services read are added by the services that read them.
pub record Ledger : Type 0 where
  pub instruments : Table ℕ
  pub users : List ℕ
  pub accounts : Table Account
  pub reservations : Table Reservation
  pub account_txs : Table AccountTx
  pub next_id : ℕ

-- HOUSE_USER_ID and IRR_INSTRUMENT_CODE: two fixed strings.
abbrev pub house_user_id : ℕ
house_user_id = 0

abbrev pub irr_instrument_code : ℕ
irr_instrument_code = 0

abbrev pub get_usable_capacity : Account → ℤ
get_usable_capacity a = a.balance -ℤ a.blocked_balance -ℤ a.min_balance

abbrev pub has_user : ℕ → List ℕ → Bool
has_user u [] = false
has_user u (v ∷ us) = v == u || has_user u us

-- The user is in its table, where the house gets its row on demand.
abbrev pub is_known : ℕ → Ledger → Bool
is_known user_id l = user_id == house_user_id || has_user user_id l.users

-- `upsert` with an empty update
abbrev pub ensure_house_user : Tx Ledger (Unit {0})
ensure_house_user = modify λ l. record l {
  users = if has_user house_user_id l.users then l.users else house_user_id ∷ l.users;
}

abbrev pub empty_account : ℕ → ℕ → Account
empty_account user_id instrument_id = record {
  user_id = user_id;
  instrument_id = instrument_id;
  balance = pos 0;
  blocked_balance = pos 0;
  min_balance = pos 0;
}

abbrev pub insert_account : ℕ → ℕ → Tx Ledger (Row Account)
insert_account user_id instrument_id l = ok (
  (l.next_id, empty_account user_id instrument_id),
  record l {
    accounts = (l.next_id, empty_account user_id instrument_id) ∷ l.accounts;
    next_id = suc l.next_id;
  },
)

-- The foreign key `userId` wants the user in its table.
abbrev pub create_account : ℕ → ℕ → Tx Ledger (Row Account)
create_account user_id instrument_id = do
  users ← gets (λ l. l.users)
  throw_if (not (has_user user_id users)) foreign_key_violation
  insert_account user_id instrument_id

-- The unique key of `Account`: [userId, instrumentId].
abbrev pub is_for : ℕ → ℕ → Account → Bool
is_for user_id instrument_id a = a.user_id == user_id && a.instrument_id == instrument_id

find_or_create : ℕ → ℕ → Tx Ledger (Row Account)
find_or_create user_id instrument_id l =
    elim (find_first (is_for user_id instrument_id) l.accounts) [
      | some existing ↦ ok (existing, l)
      | none ↦ create_account user_id instrument_id l
    ]

find_instrument : ℕ → Tx Ledger ℕ
find_instrument code l = elim (find_first (λ c. c == code) l.instruments) [
  | some instrument ↦ ok (instrument.0, l)
  | none ↦ throw instrument_not_found l
]

unfoldable pub get_or_create_account : ℕ → ℕ → Tx Ledger (Row Account)
unfolding find_or_create find_instrument
get_or_create_account user_id code = do
  if user_id == house_user_id then ensure_house_user else pure tt
  instrument_id ← find_instrument code
  find_or_create user_id instrument_id

unfoldable pub find_account : ℕ → Tx Ledger Account
find_account id l = or_throw (find_unique id l.accounts) account_not_found l
