-- ===== src/Trades/Booking.antt =====
-- What `approve` of src/modules/trades/trades.service.ts books in the ledger: rials one way, the
-- instrument the other, between the client and the house.
pub mod Exchange
use gold_nest.Accounts.Moves.Steps.{payer_account}
use gold_nest.Accounts.Reserving.{consume_funds}
use gold_nest.Accounts.Posting.{TxInput, apply_transaction}
use gold_nest.Accounts.Ledger.{
  Ledger, trade_credit, TxRefType, trade_debit, irr_instrument_code, get_or_create_account,
  house_user_id, get_usable_capacity,
}
use gold_nest.Tx.{Tx, ◌>>=◌, ◌>>◌, throw_if, insufficient_credit, pure}
use gold_nest.Records.{TradeSide, buy, sell}
use gold_nest.Int.{ℤ, negated, ltb_ℤ}
use gold_nest.Base.{ℕ, Option, some, none, false, true}

abbrev pub debit_of : ℕ → ℤ → ℕ → Option ℕ → TxInput
debit_of account_id amount id by_id = record {
  account_id = account_id;
  delta = negated amount;
  is_negated = true;
  kind = trade_debit;
  ref_type = TxRefType.trade;
  ref_id = some id;
  created_by_id = by_id;
  reversal_of_id = none;
}

abbrev pub credit_of : ℕ → ℤ → ℕ → Option ℕ → TxInput
credit_of account_id amount id by_id = record {
  account_id = account_id;
  delta = amount;
  is_negated = false;
  kind = trade_credit;
  ref_type = TxRefType.trade;
  ref_id = some id;
  created_by_id = by_id;
  reversal_of_id = none;
}

-- The four transactions of either branch, in their order: the client pays the house on the first
-- two accounts, and the house pays the client on the other two.
pub exchange : ℕ → ℕ → ℕ → ℕ → ℤ → ℤ → ℕ → ℕ → Tx Ledger (Unit {0})
exchange paying house_paid receiving house_paying paid received id admin_id = do
  apply_transaction (debit_of paying paid id (some admin_id))
  apply_transaction (credit_of house_paid paid id (some admin_id))
  apply_transaction (credit_of receiving received id (some admin_id))
  apply_transaction (debit_of house_paying received id (some admin_id))
  pure tt

-- The branch of a purchase: the client pays `total` and receives `quantity`.
unfoldable pub book_buy : ℕ → ℕ → ℕ → ℤ → ℤ → ℕ → Tx Ledger (Unit {0})
unfolding exchange
book_buy client_id code id quantity total admin_id = do
  consumed ← consume_funds client_id irr_instrument_code TxRefType.trade id
  user_irr ← payer_account client_id irr_instrument_code consumed
  house_irr ← get_or_create_account house_user_id irr_instrument_code
  user_asset ← get_or_create_account client_id code
  house_asset ← get_or_create_account house_user_id code
  throw_if (ltb_ℤ (get_usable_capacity user_irr.1) total) insufficient_credit
  exchange user_irr.0 house_irr.0 user_asset.0 house_asset.0 total quantity id admin_id

-- The branch of a sale: the client gives `quantity` and receives `total`.
unfoldable pub book_sell : ℕ → ℕ → ℕ → ℤ → ℤ → ℕ → Tx Ledger (Unit {0})
unfolding exchange
book_sell client_id code id quantity total admin_id = do
  consumed ← consume_funds client_id code TxRefType.trade id
  user_asset ← payer_account client_id code consumed
  house_asset ← get_or_create_account house_user_id code
  user_irr ← get_or_create_account client_id irr_instrument_code
  house_irr ← get_or_create_account house_user_id irr_instrument_code
  throw_if (ltb_ℤ (get_usable_capacity user_asset.1) quantity) insufficient_credit
  exchange user_asset.0 house_asset.0 user_irr.0 house_irr.0 quantity total id admin_id

unfoldable pub book_side : TradeSide → ℕ → ℕ → ℕ → ℤ → ℤ → ℕ → Tx Ledger (Unit {0})
unfolding book_buy book_sell
book_side buy client_id code id quantity total admin_id =
    book_buy client_id code id quantity total admin_id
book_side sell client_id code id quantity total admin_id =
    book_sell client_id code id quantity total admin_id
