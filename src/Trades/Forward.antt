-- ===== src/Trades/Forward.antt =====
-- `settleForwardTradeInCash` of src/modules/trades/trades.service.ts.
use gold_nest.Trades.Booking.{debit_of, credit_of}
use gold_nest.Accounts.Posting.{apply_transaction}
use gold_nest.Db.{Db, do_new_sanad_vkh_vagh_naghd, forward_cash, in_ledger}
use gold_nest.Tx.{
  Tx, ok, pure, throw, ◌>>=◌, ◌>>◌, already_settled, throw_if, trade_cancelled, not_approved,
  not_forward, insufficient_credit, not_cash_settled,
}
use gold_nest.Accounts.Ledger.{
  Account, Ledger, get_or_create_account, irr_instrument_code, get_usable_capacity, house_user_id,
}
use gold_nest.Trades.Deciding.{find_trade, update_trade}
use gold_nest.Table.{Row, find_unique}
use gold_nest.Records.{
  SettlementMethod, TradeStatus, TradeType, Trade, cash, spot, mixed, settled, cancelled_by_admin,
  cancelled_by_user, approved,
}
use gold_nest.Outbox.{enqueue_once, default_cash_account_code}
use gold_nest.Int.{ℤ, pos, negsuc, negated, ltb_ℤ}
use gold_nest.Base.{
  zero, ℕ, Option, Bool, false, true, suc, none, not, some, if◌then◌else◌, or_option,
}

-- `SettleForwardCashDto`
pub record SettleForward : Type 0 where
  pub settlement_price : ℤ
  pub settlement_amount : ℤ
  pub realized_pnl : Option ℤ

abbrev pub is_forward : TradeType → Bool
is_forward spot = false
is_forward _ = true

abbrev pub is_cash_settled : SettlementMethod → Bool
is_cash_settled cash = true
is_cash_settled mixed = true
is_cash_settled _ = false

-- The client pays a positive amount.
client_pays : Row Account → Row Account → ℤ → ℕ → Option ℕ → Tx Ledger (Unit {0})
client_pays user_irr house_irr amount id admin_id = do
  throw_if (ltb_ℤ (get_usable_capacity user_irr.1) amount) insufficient_credit
  apply_transaction (debit_of user_irr.0 amount id admin_id)
  apply_transaction (credit_of house_irr.0 amount id admin_id)
  pure tt

-- The house pays the absolute value of a negative one.
house_pays : Row Account → Row Account → ℤ → ℕ → Option ℕ → Tx Ledger (Unit {0})
house_pays user_irr house_irr amount id admin_id = do
  throw_if (ltb_ℤ (get_usable_capacity house_irr.1) amount) insufficient_credit
  apply_transaction (debit_of house_irr.0 amount id admin_id)
  apply_transaction (credit_of user_irr.0 amount id admin_id)
  pure tt

pay_by_sign : Row Account → Row Account → ℤ → ℕ → Option ℕ → Bool → Tx Ledger (Unit {0})
unfolding client_pays house_pays
pay_by_sign user_irr house_irr amount id admin_id true =
    client_pays user_irr house_irr amount id admin_id
pay_by_sign user_irr house_irr amount id admin_id false =
    house_pays user_irr house_irr (negated amount) id admin_id

-- The ledger's part; nothing at all for an amount of 0.
unfoldable pub settle_in_cash : ℕ → ℕ → ℤ → Option ℕ → Tx Ledger (Unit {0})
unfolding pay_by_sign
settle_in_cash client_id id (pos zero) admin_id = pure tt
settle_in_cash client_id id amount admin_id = do
  user_irr ← get_or_create_account client_id irr_instrument_code
  house_irr ← get_or_create_account house_user_id irr_instrument_code
  pay_by_sign user_irr house_irr amount id admin_id (ltb_ℤ (pos 0) amount)

-- The tests of the status, in their order.
unfoldable pub check_status : TradeStatus → Tx Db (Unit {0})
check_status settled = throw already_settled
check_status cancelled_by_admin = throw trade_cancelled
check_status cancelled_by_user = throw trade_cancelled
check_status approved = pure tt
check_status _ = throw not_approved

unfoldable pub settle_approved : ℕ → Trade → SettleForward → Option ℕ → Tx Db (Row Trade)
unfolding settle_in_cash update_trade
settle_approved id t dto admin_id = do
  in_ledger (settle_in_cash t.client_id id dto.settlement_amount admin_id)
  update_trade id (λ x. record x {
    settlement_price = some dto.settlement_price;
    settlement_amount = some dto.settlement_amount;
    realized_pnl = or_option dto.realized_pnl x.realized_pnl;
    status = settled;
    approved_by_id = or_option t.approved_by_id admin_id;
  })

-- The executor of `settleForwardTradeInCash`.
unfoldable pub settle_forward_in_tx : ℕ → SettleForward → Option ℕ → Tx Db (Row Trade)
unfolding find_trade check_status settle_approved
settle_forward_in_tx id dto admin_id = do
  t ← find_trade id
  throw_if (not (is_forward t.kind)) not_forward
  throw_if (not (is_cash_settled t.settlement_method)) not_cash_settled
  check_status t.status
  settle_approved id t dto admin_id

abbrev abs_ℤ : ℤ → ℤ
abs_ℤ (pos n) = pos n
abs_ℤ (negsuc n) = pos (suc n)

-- `enqueueTahesabForForwardCashSettlement`, behind the tests that `settleForwardTradeInCash` has made.
enqueue_cash_document : ℕ → Trade → ℤ → Tx Db (Unit {0})
unfolding enqueue_once
enqueue_cash_document id t (pos zero) d = ok (tt, d)
enqueue_cash_document id t amount d = elim (find_unique t.client_id d.customer_codes) [
  | none ↦ ok (tt, d)
  | some customer_code ↦ elim (default_cash_account_code d.tahesab) [
    | none ↦ ok (tt, d)
    | some account ↦
        if d.tahesab.is_enabled
        then enqueue_once
            (record {
              method = do_new_sanad_vkh_vagh_naghd;
              correlation = forward_cash id;
              customer_code = some customer_code;
              account_code = some account;
              amount = abs_ℤ amount;
              weight = none;
              is_incoming = none;
              is_success = false;
              factor_code = none;
            })
            d
        else ok (tt, d)
  ]
]

-- `settleForwardTradeInCash`: the executor, and the voucher behind the commit.
unfoldable pub settle_forward_trade_in_cash : ℕ → SettleForward → Option ℕ → Tx Db (Row Trade)
unfolding settle_forward_in_tx enqueue_cash_document
settle_forward_trade_in_cash id dto admin_id = do
  row ← settle_forward_in_tx id dto admin_id
  enqueue_cash_document row.0 row.1 dto.settlement_amount
  pure row
