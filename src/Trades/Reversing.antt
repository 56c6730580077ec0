-- ===== src/Trades/Reversing.antt =====
-- `reverseTrade` of src/modules/trades/trades.service.ts.
pub mod Restored
pub mod Roundtrip
use gold_nest.Int.{negated}
use gold_nest.Db.{Db, trade_reverse, in_ledger}
use gold_nest.Accounts.Posting.{TxInput, apply_transaction}
use gold_nest.Tx.{Tx, pure, throw, ◌>>=◌, gets, not_approved, ◌>>◌, for_each}
use gold_nest.Table.{Row, find_first, find_many, Table}
use gold_nest.Trades.Deciding.{find_trade, update_trade, enqueue_trade_deletion, is_wallet}
use gold_nest.Records.{Trade, Text, TradeStatus, cancelled_by_admin, approved}
use gold_nest.Accounts.Ledger.{AccountTx, Ledger, ref_type_eq, TxRefType, adjustment}
use gold_nest.Base.{
  ℕ, List, Option, Bool, ◌∷◌, [], option_eq, some, if◌then◌else◌, or_option, ◌&&◌, is_some, true,
  false,
}

abbrev pub of_trade : ℕ → AccountTx → Bool
of_trade id t = ref_type_eq t.ref_type TxRefType.trade && option_eq t.ref_id (some id)

-- `orderBy: { createdAt: 'asc' }` of a table that has the newest first.
abbrev pub oldest_first : {A : Type 0} → List A → List A → List A
oldest_first [] acc = acc
oldest_first (x ∷ xs) acc = oldest_first xs (x ∷ acc)

abbrev pub reversal_of : ℕ → Option ℕ → Row AccountTx → TxInput
reversal_of id admin_id t = record {
  account_id = t.1.account_id;
  delta = negated t.1.delta;
  is_negated = true;
  kind = adjustment;
  ref_type = TxRefType.trade;
  ref_id = some id;
  created_by_id = admin_id;
  reversal_of_id = some t.0;
}

abbrev pub reverses : ℕ → AccountTx → Bool
reverses k t = option_eq t.reversal_of_id (some k)

reverse_unless : ℕ → Option ℕ → Row AccountTx → Bool → Tx Ledger (Unit {0})
reverse_unless id admin_id t true = pure tt
reverse_unless id admin_id t false = do apply_transaction (reversal_of id admin_id t); pure tt

-- One turn of the loop.
pub reverse_one : ℕ → Option ℕ → Row AccountTx → Tx Ledger (Unit {0})
unfolding reverse_unless
reverse_one id admin_id t = do
  existing ← gets (λ l. find_first (reverses t.0) l.account_txs)
  reverse_unless id admin_id t (is_some existing)

-- The entries of the trade, the oldest first.
abbrev pub entries_of : ℕ → Ledger → Table AccountTx
entries_of id l = oldest_first (find_many (of_trade id) l.account_txs) []

unfoldable pub reverse_entries : ℕ → Option ℕ → Tx Ledger (Unit {0})
unfolding reverse_one
reverse_entries id admin_id = do
  found ← gets (entries_of id)
  for_each found (reverse_one id admin_id)

abbrev pub reversed_as : ℕ → Trade → Option Text → Trade → Trade
reversed_as now t reason x = record x {
  status = cancelled_by_admin;
  reversed_at = some now;
  admin_note = or_option reason t.admin_note;
}

unfoldable pub reverse_approved : ℕ → ℕ → Trade → Option ℕ → Option Text → Tx Db (Row Trade)
unfolding reverse_entries update_trade
reverse_approved now id t admin_id reason = do
  if is_wallet t.settlement_method then in_ledger (reverse_entries id admin_id) else pure tt
  update_trade id (reversed_as now t reason)

unfoldable pub reverse_by : ℕ → ℕ → Trade → Option ℕ → Option Text → TradeStatus → Tx Db (Row Trade)
unfolding reverse_approved
reverse_by now id t admin_id reason approved = reverse_approved now id t admin_id reason
reverse_by now id t admin_id reason _ = throw not_approved

-- The executor of `reverseTrade`.
unfoldable pub reverse_trade_in_tx : ℕ → ℕ → Option ℕ → Option Text → Tx Db (Row Trade)
unfolding find_trade reverse_by
reverse_trade_in_tx now id admin_id reason = do
  t ← find_trade id
  if is_some t.reversed_at then pure (id, t) else reverse_by now id t admin_id reason t.status

-- `reverseTrade`: the executor, and the deletion of the document behind the commit.
unfoldable pub reverse_trade : ℕ → ℕ → Option ℕ → Option Text → Tx Db (Row Trade)
unfolding reverse_trade_in_tx
reverse_trade now id admin_id reason = do
  row ← reverse_trade_in_tx now id admin_id reason
  enqueue_trade_deletion id (trade_reverse id)
  pure row
