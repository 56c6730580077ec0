-- ===== src/Tests/Traded.antt =====
-- Trades at work: user 5 with 100 on account 10 buys 40 of gold from
-- the house for 60, which is reversed; a
-- trade of tomorrow cannot be settled; and the retries of a transaction, and calls of the ledger.
use gold_nest.Policy.Limits.{consume}
use gold_nest.Trades.Reversing.Roundtrip.{reverse_entries-book_side}
use gold_nest.Trades.Reversing.{reverse_entries}
use gold_nest.Table.{Row}
use gold_nest.Accounts.Posting.Keeps.{IsPosted, apply_transaction-IsPosted}
use gold_nest.Accounts.Ledger.Opening.{IsOpened, get_or_create_account-IsOpened}
use gold_nest.Tests.Movements.{two_instruments, two_instruments-IsSound}
use gold_nest.Accounts.Soundness.{IsSound, balance_at}
use gold_nest.Accounts.Posting.{apply_transaction, TxInput, entry_of}
use gold_nest.Accounts.Reserving.{reserve_funds, consume_funds}
use gold_nest.Trades.Booking.{debit_of, credit_of, book_side}
use gold_nest.Trades.Lifecycle.{next, here, creating}
use gold_nest.Trades.Lifecycle.Unreachable.{settle_forward_in_tx-unreachable}
use gold_nest.Trades.Deciding.{approve_trade_in_tx}
use gold_nest.Tests.Ledgers.{funded, funded-IsSound, user_account}
use gold_nest.Trades.Deciding.Effects.{IsApproved, approve_trade_in_tx-IsApproved}
use gold_nest.Tests.Requests.{all_tables, asked_for_40}
use gold_nest.Int.{pos, int_laws, ◌-ℤ◌, ◌+ℤ◌, negated}
use gold_nest.Accounts.Commands.Refines.{Implements, call_all-Implements}
use gold_nest.Accounts.Commands.{
  Command, effects, opening, books, holding, call_all, posting, consuming,
}
use gold_nest.Tx.Succeeds.{Succeeds, is_ok}
use gold_nest.Tx.Retry.{Attempt, Message, finished, returned, threw, unknown, run_in_tx}
use gold_nest.Trades.Forward.{SettleForward, settle_forward_in_tx}
use gold_nest.Records.{Trade, TradeStatus, pending, spot, tomorrow, cash, wallet, buy}
use gold_nest.Db.{Db}
use gold_nest.Accounts.Ledger.{
  Ledger, trade, get_or_create_account, Account, empty_account, AccountTxType, AccountTx, TxRefType,
}
use gold_nest.Tx.Retry.Decides.{IsDecided, run_in_tx-IsDecided}
use gold_nest.Base.{
  ℕ, List, [], true, false, none, some, ◌∷◌, ◌≡◌, refl, if◌then◌else◌, ◌==◌, arith,
}

-- The house has 50 of gold on account 12.
abbrev house_opened : Ledger
house_opened = record two_instruments {
  users = 0 ∷ 5 ∷ 6 ∷ [];
  accounts = (12, empty_account 0 2) ∷ two_instruments.accounts;
  next_id = 13;
}

house_opened-IsSound : IsSound house_opened
unfolding get_or_create_account
house_opened-IsSound =
    let o : IsOpened 0 two_instruments (12, empty_account 0 2) house_opened =
      get_or_create_account-IsOpened 0 1 two_instruments two_instruments-IsSound in
    o.sound

abbrev stocking : TxInput
stocking = record {
  account_id = 12;
  delta = pos 50;
  is_negated = false;
  kind = AccountTxType.adjustment;
  ref_type = TxRefType.gold_lot;
  ref_id = some 21;
  created_by_id = none;
  reversal_of_id = none;
}

abbrev house_gold : Account
house_gold = record (empty_account 0 2) { balance = pos 50 }

abbrev stocked : Ledger
stocked = record house_opened {
  accounts = (12, house_gold) ∷ two_instruments.accounts;
  account_txs = (13, entry_of stocking) ∷ two_instruments.account_txs;
  next_id = 14;
}

stocked-IsSound : IsSound stocked
unfolding apply_transaction ◌+ℤ◌
stocked-IsSound =
    let p : IsPosted stocking house_opened (record { tx_id = 13; account = (12, house_gold) })
        stocked =
      apply_transaction-IsPosted stocking house_opened house_opened-IsSound in
    p.sound

abbrev purchase : TradeStatus → Trade
purchase status = record {
  client_id = 5;
  instrument_code = 1;
  side = buy;
  status = status;
  kind = spot;
  settlement_method = wallet;
  quantity = pos 40;
  total_amount = pos 60;
  settlement_price = none;
  settlement_amount = none;
  realized_pnl = none;
  admin_note = none;
  approved_at = none;
  approved_by_id = none;
  rejected_at = none;
  reject_reason = none;
  reversed_at = none;
  cancelled_at = none;
}

abbrev trade_tables : TradeStatus → Db
trade_tables status = record (all_tables stocked asked_for_40) {
  trades = (30, purchase status) ∷ [];
}

approve_trade_in_tx-IsApproved_example :
    Succeeds
      (IsApproved 30 7 (trade_tables pending))
      (approve_trade_in_tx 99 30 none 7 (trade_tables pending))
unfolding approve_trade_in_tx consume_funds ◌-ℤ◌ apply_transaction ◌+ℤ◌ negated consume
approve_trade_in_tx-IsApproved_example =
    approve_trade_in_tx-IsApproved 99 30 none 7 (trade_tables pending) stocked-IsSound

-- The ledger after the purchase: its entries, and the two accounts opened on the way.
abbrev booked_entry : ℕ → TxInput → Row AccountTx
booked_entry id i = (id, entry_of i)

abbrev after_purchase : Ledger
after_purchase = record stocked {
  accounts =
      (15, record (empty_account 5 2) { balance = pos 40 })
      ∷ (14, record (empty_account 0 1) { balance = pos 60 })
      ∷ (12, record house_gold { balance = pos 10 })
      ∷ (10, user_account (pos 40) (pos 0))
      ∷ [];
  account_txs =
      booked_entry 19 (debit_of 12 (pos 40) 30 (some 7))
      ∷ booked_entry 18 (credit_of 15 (pos 40) 30 (some 7))
      ∷ booked_entry 17 (credit_of 14 (pos 60) 30 (some 7))
      ∷ booked_entry 16 (debit_of 10 (pos 60) 30 (some 7))
      ∷ stocked.account_txs;
  next_id = 20;
}

reverse_entries-book_side_example :
    Succeeds
      (λ _ l2. IsSound l2 × ((j : ℕ) → balance_at j l2.accounts ≡ balance_at j stocked.accounts))
      (reverse_entries 30 (some 7) after_purchase)
unfolding book_side consume_funds ◌-ℤ◌ apply_transaction ◌+ℤ◌ negated reverse_entries
reverse_entries-book_side_example =
    reverse_entries-book_side buy 5 1 30 (pos 40) (pos 60) 7 (some 7) stocked after_purchase
      stocked-IsSound refl refl
      (
        ((refl, (refl, (refl, tt))), ((refl, (refl, tt)), ((refl, tt), (tt, tt)))),
        (refl, (refl, (refl, (refl, tt)))),
      )

-- A trade of tomorrow that is settled in cash.
abbrev tomorrow_trade : Trade
tomorrow_trade = record (purchase pending) { kind = tomorrow; settlement_method = cash }

abbrev forward_tables : Db
forward_tables = record (trade_tables pending) { trades = (30, tomorrow_trade) ∷ [] }

abbrev no_trades : Db
no_trades = record forward_tables { trades = [] }

abbrev settlement_terms : SettleForward
settlement_terms = record {
  settlement_price = pos 5;
  settlement_amount = pos 10;
  realized_pnl = none;
}

settle_forward_in_tx-unreachable_example :
    is_ok (settle_forward_in_tx 30 settlement_terms (some 7) forward_tables) ≡ false
settle_forward_in_tx-unreachable_example =
    settle_forward_in_tx-unreachable no_trades forward_tables 30 settlement_terms (some 7) tt
      (next here (creating 30 tomorrow_trade refl refl))

-- The first attempt fails on a deadlock, the second one returns.
abbrev deadlocked : Message
deadlocked = record {
  deadlock = true;
  serialization_failure = false;
  could_not_serialize = false;
  already_closed = false;
  timeout = false;
}

abbrev second_time : ℕ → Attempt ℕ
second_time attempt = if attempt == 1 then threw (unknown deadlocked) else returned 5

run_in_tx-IsDecided_example : IsDecided 3 100 second_time 1 (finished (returned 5), 100 ∷ [])
unfolding run_in_tx
run_in_tx-IsDecided_example = run_in_tx-IsDecided 3 100 second_time (omega arith)

abbrev some_calls : List Command
some_calls =
    opening 6 0
    ∷ holding 5 0 (pos 30) trade 70
    ∷ posting (debit_of 10 (pos 20) 71 none)
    ∷ consuming 5 0 trade 70
    ∷ []

call_all-Implements_example :
    Succeeds
      (λ _ l'. Implements (effects some_calls (books funded)) l')
      (call_all some_calls funded)
unfolding call_all get_or_create_account reserve_funds ◌-ℤ◌ apply_transaction ◌+ℤ◌ negated
    consume_funds
call_all-Implements_example =
    call_all-Implements some_calls funded funded-IsSound (tt, (omega int_laws, (tt, (tt, tt))))
