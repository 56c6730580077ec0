-- ===== src/Accounts/Posting.antt =====
-- `applyTransaction` of src/modules/accounts/accounts.service.ts.
pub mod Keeps
pub mod Total
use gold_nest.Base.{
  ℕ, suc, Bool, true, false, ◌&&◌, ◌||◌, Option, none, some, List, [], ◌∷◌, ◌==◌, option_eq,
  is_some, if◌then◌else◌,
}
use gold_nest.Int.{ℤ, pos, ◌+ℤ◌, ◌-ℤ◌, ltb_ℤ, leb_ℤ}
use gold_nest.Table.{Row, Table, find_unique, find_first, update}
use gold_nest.Tx.{
  gets, Error, ok, Tx, pure, throw, gets, or_throw, throw_if, modify, ◌>>=◌, ◌>>◌,
  instrument_not_found, account_not_found, reservation_already_released, blocked_balance_negative,
  insufficient_credit, unique_violation,
}
use gold_nest.Accounts.Ledger.{
  TxRefType, ref_type_eq, ReservationStatus, reserved, consumed, released, Account, Reservation,
  Ledger, get_usable_capacity, get_or_create_account, find_account, AccountTxType, EntrySide, debit,
  credit, entry_side_eq, AccountTx,
}

-- `ApplyTransactionInput`; `is_negated` says whether the caller has negated the amount, which tells
-- the sign of a zero.
pub record TxInput : Type 0 where
  pub account_id : ℕ
  pub delta : ℤ
  pub is_negated : Bool
  pub kind : AccountTxType
  pub ref_type : TxRefType
  pub ref_id : Option ℕ
  pub created_by_id : Option ℕ
  pub reversal_of_id : Option ℕ

-- `deltaDecimal.isNeg() ? DEBIT : CREDIT`; `isNeg` is true of a negated zero too.
abbrev pub side_of : ℤ → Bool → EntrySide
side_of delta is_negated =
    if ltb_ℤ delta (pos 0) || is_negated && leb_ℤ delta (pos 0) then debit else credit

abbrev pub entry_of : TxInput → AccountTx
entry_of i = record {
  account_id = i.account_id;
  delta = i.delta;
  kind = i.kind;
  entry_side = side_of i.delta i.is_negated;
  ref_type = i.ref_type;
  ref_id = i.ref_id;
  created_by_id = i.created_by_id;
  reversal_of_id = i.reversal_of_id;
}

-- The unique keys of `AccountTx`: [refType, refId, accountId, entrySide] and [reversalOfId]; a key
-- with a missing column is never taken.
abbrev pub clashes : AccountTx → AccountTx → Bool
clashes new old =
    is_some new.ref_id
      && (option_eq old.ref_id new.ref_id
          && (ref_type_eq old.ref_type new.ref_type
              && (old.account_id == new.account_id && entry_side_eq old.entry_side new.entry_side)))
    || is_some new.reversal_of_id && option_eq old.reversal_of_id new.reversal_of_id

-- The entry's id, and the account after it.
pub record PostedTx : Type 0 where
  pub tx_id : ℕ
  pub account : Row Account

insert_tx : AccountTx → Tx Ledger ℕ
insert_tx t l =
    ok (
      l.next_id,
      record l { account_txs = (l.next_id, t) ∷ l.account_txs; next_id = suc l.next_id },
    )

create_tx : AccountTx → Tx Ledger ℕ
unfolding insert_tx
create_tx t = do
  clash ← gets (λ l. find_first (clashes t) l.account_txs)
  throw_if (is_some clash) unique_violation
  insert_tx t

abbrev set_balance : ℕ → ℤ → Ledger → Ledger
set_balance id balance l = record l {
  accounts = update id (λ a. record a { balance = balance }) l.accounts;
}

-- `applyTransaction`; both of its calling conventions come down to this input.
unfoldable pub apply_transaction : TxInput → Tx Ledger PostedTx
unfolding find_account create_tx
apply_transaction i = do
  account ← find_account i.account_id
  let balance = account.balance +ℤ i.delta
  throw_if (ltb_ℤ balance (account.blocked_balance +ℤ account.min_balance)) insufficient_credit
  tx_id ← create_tx (entry_of i)
  modify (set_balance i.account_id balance)
  pure (record { tx_id = tx_id; account = (i.account_id, record account { balance = balance }) })
