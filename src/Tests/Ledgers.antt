-- ===== src/Tests/Ledgers.antt =====
-- The ledger of src/modules/accounts/accounts.service.ts at work: user 5 has an account opened, is
-- paid 100, reserves 40 for withdrawal 30, and has the reservation released or consumed.
use gold_nest.Accounts.Ledger.Choosing.{IsChosen, get_or_create_account-IsChosen}
use gold_nest.Accounts.Posting.Total.{apply_transaction-Succeeds}
use gold_nest.Tx.{err, insufficient_credit}
use gold_nest.Tx.Succeeds.{Succeeds}
use gold_nest.Table.{find_first}
use gold_nest.Accounts.Reserving.Total.{release_funds-Succeeds}
use gold_nest.Accounts.Reserving.Funds.{
  IsClosed, IsHeld, reserve_funds-IsHeld, consume_funds-IsClosed, release_funds-IsClosed,
}
use gold_nest.Accounts.Posting.Keeps.{IsPosted, apply_transaction-IsPosted}
use gold_nest.Accounts.Ledger.Opening.{IsOpened, get_or_create_account-IsOpened}
use gold_nest.Int.{ℤ, pos, int_laws, ◌+ℤ◌, ◌-ℤ◌, ◌≤ℤ◌, ◌<ℤ◌}
use gold_nest.Accounts.Soundness.{IsSound}
use gold_nest.Accounts.Reserving.{consume_funds, release_funds, reserve_funds, Held}
use gold_nest.Accounts.Posting.{PostedTx, TxInput, apply_transaction, entry_of, clashes}
use gold_nest.Accounts.Ledger.{
  Ledger, ReservationStatus, get_or_create_account, Account, Reservation, empty_account,
  AccountTxType, withdraw, consumed, deposit, released, reserved,
}
use gold_nest.Base.{refl, ◌≡◌, none, some, [], ◌∷◌, false}

abbrev pub bare : Ledger
bare = record {
  instruments = (1, 0) ∷ [];
  users = 5 ∷ 6 ∷ [];
  accounts = [];
  reservations = [];
  account_txs = [];
  next_id = 10;
}

pub bare-IsSound : IsSound bare
bare-IsSound = record {
  backed = λ id a e. cc;
  account_ids = tt;
  reservation_ids = tt;
  not_negative = tt;
  reservations_owned = tt;
  entries_owned = tt;
}

abbrev pub opened : Ledger
opened = record bare { accounts = (10, empty_account 5 1) ∷ []; next_id = 11 }

get_or_create_account-IsChosen_example : IsChosen 5 0 bare (10, empty_account 5 1) opened
unfolding get_or_create_account
get_or_create_account-IsChosen_example = get_or_create_account-IsChosen 5 0 bare bare-IsSound

pub opened-IsSound : IsSound opened
unfolding get_or_create_account
opened-IsSound =
    let o : IsOpened 5 bare (10, empty_account 5 1) opened =
      get_or_create_account-IsOpened 5 0 bare bare-IsSound in
    o.sound

abbrev pay_in : TxInput
pay_in = record {
  account_id = 10;
  delta = pos 100;
  is_negated = false;
  kind = AccountTxType.deposit;
  ref_type = deposit;
  ref_id = some 20;
  created_by_id = some 7;
  reversal_of_id = none;
}

abbrev pub user_account : ℤ → ℤ → Account
user_account balance blocked = record (empty_account 5 1) {
  balance = balance;
  blocked_balance = blocked;
}

abbrev pub funded : Ledger
funded = record opened {
  accounts = (10, user_account (pos 100) (pos 0)) ∷ [];
  account_txs = (11, entry_of pay_in) ∷ [];
  next_id = 12;
}

abbrev pub paid_in : PostedTx
paid_in = record { tx_id = 11; account = (10, user_account (pos 100) (pos 0)) }

apply_transaction-IsPosted_example : IsPosted pay_in opened paid_in funded
unfolding apply_transaction ◌+ℤ◌
apply_transaction-IsPosted_example = apply_transaction-IsPosted pay_in opened opened-IsSound

pub funded-IsSound : IsSound funded
unfolding apply_transaction ◌+ℤ◌
funded-IsSound =
    let p : IsPosted pay_in opened paid_in funded =
      apply_transaction-IsPosted pay_in opened opened-IsSound in
    p.sound

abbrev pub forty : ReservationStatus → Reservation
forty status = record {
  account_id = 10;
  amount = pos 40;
  ref_type = withdraw;
  ref_id = 30;
  status = status;
}

abbrev pub held : Ledger
held = record funded {
  accounts = (10, user_account (pos 100) (pos 40)) ∷ [];
  reservations = (12, forty reserved) ∷ [];
  next_id = 13;
}

abbrev holding : ReservationStatus → ℤ → Held
holding status blocked = record {
  account = (10, user_account (pos 100) blocked);
  reservation = (12, forty status);
}

reserve_funds-IsHeld_example : IsHeld 5 (pos 40) withdraw 30 funded (holding reserved (pos 40)) held
unfolding reserve_funds ◌-ℤ◌ ◌+ℤ◌
reserve_funds-IsHeld_example =
    reserve_funds-IsHeld 5 0 (pos 40) withdraw 30 funded funded-IsSound (omega int_laws)

pub held-IsSound : IsSound held
unfolding reserve_funds ◌-ℤ◌ ◌+ℤ◌
held-IsSound =
    let h : IsHeld 5 (pos 40) withdraw 30 funded (holding reserved (pos 40)) held =
      reserve_funds-IsHeld 5 0 (pos 40) withdraw 30 funded funded-IsSound (omega int_laws) in
    h.sound

abbrev closed : ReservationStatus → Ledger
closed status = record held {
  accounts = (10, user_account (pos 100) (pos 0)) ∷ [];
  reservations = (12, forty status) ∷ [];
}

release_funds-IsClosed_example :
    IsClosed 5 withdraw 30 released held (some (holding released (pos 0))) (closed released)
unfolding release_funds ◌-ℤ◌
release_funds-IsClosed_example = release_funds-IsClosed 5 0 withdraw 30 held held-IsSound

consume_funds-IsClosed_example :
    IsClosed 5 withdraw 30 consumed held (some (holding consumed (pos 0))) (closed consumed)
unfolding consume_funds ◌-ℤ◌
consume_funds-IsClosed_example = consume_funds-IsClosed 5 0 withdraw 30 held held-IsSound

release_funds-Succeeds_example :
    IsClosed 5 withdraw 30 released held (some (holding released (pos 0))) (closed released)
unfolding release_funds ◌-ℤ◌
release_funds-Succeeds_example =
    release_funds-Succeeds 5 0 withdraw 30 held (1, 0) held-IsSound refl refl

apply_transaction-Succeeds_example :
    (pos 0 +ℤ pos 0 ≤ℤ pos 0 +ℤ pos 100
      → find_first (clashes (entry_of pay_in)) opened.account_txs ≡ none
      → Succeeds (IsPosted pay_in opened) (apply_transaction pay_in opened))
    × (pos 0 +ℤ pos 100 <ℤ pos 0 +ℤ pos 0
        → apply_transaction pay_in opened ≡ err insufficient_credit)
apply_transaction-Succeeds_example =
    apply_transaction-Succeeds pay_in opened (empty_account 5 1) opened-IsSound refl
