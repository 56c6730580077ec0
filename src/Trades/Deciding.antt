-- ===== src/Trades/Deciding.antt =====
-- `approve`, `reject` and `cancelTrade` of src/modules/trades/trades.service.ts.
pub mod Effects
use gold_nest.Policy.Limits.{release, consume}
use gold_nest.Accounts.Reserving.{Held, release_funds}
use gold_nest.Table.{Row, find_unique, update}
use gold_nest.Accounts.Ledger.{irr_instrument_code, Ledger, TxRefType}
use gold_nest.Tx.{
  Tx, or_throw, pure, trade_not_found, ◌>>=◌, ◌>>◌, modify, ok, throw, not_implemented,
  only_pending,
}
use gold_nest.Trades.Booking.{book_side}
use gold_nest.Records.{
  SettlementMethod, Trade, TradeSide, TradeStatus, TradeType, Text, buy, cancelled_by_admin,
  rejected, sell, approved, spot, wallet, cancelled_by_user, pending,
}
use gold_nest.Outbox.{enqueue_once, enqueue_deletion_of, same_document}
use gold_nest.Db.{
  Correlation, Db, do_new_sanad_buy_sale_gold, in_limits, spot_cancel, of_id, in_ledger,
}
use gold_nest.Base.{ℕ, Option, Bool, true, false, if◌then◌else◌, none, or_option, some, ◌&&◌}

unfoldable pub find_trade : ℕ → Tx Db Trade
find_trade id d = or_throw (find_unique id d.trades) trade_not_found d

unfoldable pub update_trade : ℕ → (Trade → Trade) → Tx Db (Row Trade)
unfolding find_trade
update_trade id f = do
  modify (λ d. record d { trades = update id f d.trades })
  t ← find_trade id
  pure (id, t)

abbrev pub is_wallet : SettlementMethod → Bool
is_wallet wallet = true
is_wallet _ = false

abbrev pub is_pending : TradeStatus → Bool
is_pending pending = true
is_pending _ = false

unfoldable pub book : ℕ → ℕ → Trade → Option Text → ℕ → Tx Db (Row Trade)
unfolding book_side update_trade
book now id t dto_note admin_id = do
  in_ledger (book_side t.side t.client_id t.instrument_code id t.quantity t.total_amount admin_id)
  in_limits (consume TxRefType.trade id)
  update_trade id (λ x. record x {
    status = approved;
    approved_at = some now;
    approved_by_id = some admin_id;
    admin_note = or_option dto_note t.admin_note;
  })

unfoldable pub approve_by : ℕ → ℕ → Trade → Option Text → ℕ → TradeStatus → Tx Db (Row Trade)
unfolding book
approve_by now id t dto_note admin_id pending =
    if is_wallet t.settlement_method then book now id t dto_note admin_id else throw not_implemented
approve_by now id t dto_note admin_id _ = pure (id, t)

-- The executor of `approve`.
unfoldable pub approve_trade_in_tx : ℕ → ℕ → Option Text → ℕ → Tx Db (Row Trade)
unfolding find_trade approve_by
approve_trade_in_tx now id dto_note admin_id = do
  t ← find_trade id
  approve_by now id t dto_note admin_id t.status

-- The instrument in which a pending trade holds the client's funds.
abbrev pub held_code : Trade → TradeSide → ℕ
held_code t buy = irr_instrument_code
held_code t sell = t.instrument_code

pub release_hold : ℕ → Trade → Bool → Tx Ledger (Option Held)
release_hold id t true = release_funds t.client_id (held_code t t.side) TxRefType.trade id
release_hold id t false = pure none

unfoldable pub drop : ℕ → Trade → (Trade → Trade) → Tx Db (Row Trade)
unfolding release_hold update_trade
drop id t f = do
  in_limits (release TxRefType.trade id)
  in_ledger (release_hold id t (is_wallet t.settlement_method))
  update_trade id f

abbrev pub cancelled_as : ℕ → Trade → Option Text → Trade → Trade
cancelled_as now t reason x = record x {
  status = cancelled_by_admin;
  admin_note = or_option reason t.admin_note;
  cancelled_at = some now;
}

unfoldable pub cancel_by : ℕ → ℕ → Trade → Option Text → TradeStatus → Tx Db (Row Trade)
unfolding drop
cancel_by now id t reason cancelled_by_admin = pure (id, t)
cancel_by now id t reason cancelled_by_user = pure (id, t)
cancel_by now id t reason pending = drop id t (cancelled_as now t reason)
cancel_by now id t reason _ = throw only_pending

-- The executor of `cancelTrade`.
unfoldable pub cancel_trade_in_tx : ℕ → ℕ → Option Text → Tx Db (Row Trade)
unfolding find_trade cancel_by
cancel_trade_in_tx now id reason = do t ← find_trade id; cancel_by now id t reason t.status

-- `adminNote: dto.rejectReason ?? undefined` keeps the note where there is no reason.
abbrev pub rejected_as : ℕ → Option Text → Trade → Trade
rejected_as now reason x = record x {
  status = rejected;
  rejected_at = some now;
  reject_reason = or_option reason x.reject_reason;
  admin_note = or_option reason x.admin_note;
}

unfoldable pub reject_by : ℕ → ℕ → Trade → Option Text → TradeStatus → Tx Db (Row Trade)
unfolding drop
reject_by now id t reason rejected = pure (id, t)
reject_by now id t reason pending = drop id t (rejected_as now reason)
reject_by now id t reason _ = throw only_pending

-- `reject`
unfoldable pub reject_trade : ℕ → ℕ → Option Text → Tx Db (Row Trade)
unfolding find_trade reject_by
reject_trade now id reason = do t ← find_trade id; reject_by now id t reason t.status

abbrev is_spot : TradeType → Bool
is_spot spot = true
is_spot _ = false

abbrev pub is_approved : TradeStatus → Bool
is_approved approved = true
is_approved _ = false

abbrev is_buy : TradeSide → Bool
is_buy buy = true
is_buy sell = false

-- `enqueueTahesabForWalletTrade`
enqueue_trade_document : ℕ → Trade → Tx Db (Unit {0})
unfolding enqueue_once
enqueue_trade_document id t d = elim (find_unique t.client_id d.customer_codes) [
  | none ↦ ok (tt, d)
  | some customer_code ↦
      if is_approved t.status
        && (is_spot t.kind && (is_wallet t.settlement_method && d.tahesab.is_enabled))
      then enqueue_once
          (record {
            method = do_new_sanad_buy_sale_gold;
            correlation = of_id id;
            customer_code = some customer_code;
            account_code = none;
            amount = t.total_amount;
            weight = some t.quantity;
            is_incoming = some (is_buy t.side);
            is_success = false;
            factor_code = none;
          })
          d
      else ok (tt, d)
]

-- `approve`: the executor, and the document behind the commit.
unfoldable pub approve_trade : ℕ → ℕ → Option Text → ℕ → Tx Db (Row Trade)
unfolding approve_trade_in_tx enqueue_trade_document
approve_trade now id dto_note admin_id = do
  row ← approve_trade_in_tx now id dto_note admin_id
  enqueue_trade_document row.0 row.1
  pure row

-- `enqueueTahesabDeletionForTrade`
abbrev pub enqueue_trade_deletion : ℕ → Correlation → Tx Db (Unit {0})
enqueue_trade_deletion id cancelling =
    enqueue_deletion_of (same_document do_new_sanad_buy_sale_gold (of_id id)) cancelling

-- `cancelTrade`: the executor, and the deletion of the document behind the commit.
unfoldable pub cancel_trade : ℕ → ℕ → Option Text → Tx Db (Row Trade)
unfolding cancel_trade_in_tx
cancel_trade now id reason = do
  row ← cancel_trade_in_tx now id reason
  enqueue_trade_deletion id (spot_cancel id)
  pure row
