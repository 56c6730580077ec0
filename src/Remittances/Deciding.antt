-- ===== src/Remittances/Deciding.antt =====
-- `approve`, `reject` and `cancelByUser` of src/modules/remittances/remittances.service.ts.
pub mod Moving
pub mod Declining
use gold_nest.Policy.Limits.{consume, release}
use gold_nest.Accounts.Reserving.{consume_funds, release_funds}
use gold_nest.Table.{Row, find_unique, update}
use gold_nest.Db.{Db, in_ledger, in_limits}
use gold_nest.Accounts.Posting.{TxInput, PostedTx, apply_transaction}
use gold_nest.Accounts.Ledger.{Ledger, AccountTxType, TxRefType, get_or_create_account}
use gold_nest.Tx.{
  Tx, or_throw, pure, ◌>>=◌, ◌>>◌, modify, remittance_not_found, throw, throw_if, invalid_status,
}
use gold_nest.Records.{Remittance, RemittanceStatus, cancelled, completed, pending}
use gold_nest.Int.{ℤ, negated}
use gold_nest.Base.{ℕ, some, none, not, ◌==◌, Bool, true, false}

unfoldable pub find_remittance : ℕ → Tx Db Remittance
find_remittance id d = or_throw (find_unique id d.remittances) remittance_not_found d

unfoldable pub update_remittance : ℕ → (Remittance → Remittance) → Tx Db (Row Remittance)
unfolding find_remittance
update_remittance id f = do
  modify (λ d. record d { remittances = update id f d.remittances })
  r ← find_remittance id
  pure (id, r)

abbrev pub entry : ℕ → ℤ → Bool → ℕ → ℕ → TxInput
entry account_id delta is_negated id by_id = record {
  account_id = account_id;
  delta = delta;
  is_negated = is_negated;
  kind = AccountTxType.remittance;
  ref_type = TxRefType.remittance;
  ref_id = some id;
  created_by_id = some by_id;
  reversal_of_id = none;
}

-- The ledger's part of `approve`.
unfoldable pub move_amount : ℕ → ℕ → ℕ → ℕ → ℤ → ℕ → Tx Ledger (PostedTx × PostedTx)
move_amount from_user_id to_user_id code id amount admin_id = do
  consume_funds from_user_id code TxRefType.remittance id
  from_account ← get_or_create_account from_user_id code
  to_account ← get_or_create_account to_user_id code
  from_tx ← apply_transaction (entry from_account.0 (negated amount) true id admin_id)
  to_tx ← apply_transaction (entry to_account.0 amount false id admin_id)
  pure (from_tx, to_tx)

pub complete : ℕ → Remittance → ℕ → Tx Db (Row Remittance)
unfolding move_amount update_remittance
complete id r admin_id = do
  posted ←
      in_ledger (move_amount r.from_user_id r.to_user_id r.instrument_code id r.amount admin_id)
  in_limits (consume TxRefType.remittance id)
  update_remittance id (λ x. record x {
    status = completed;
    from_account_tx_id = some posted.0.tx_id;
    to_account_tx_id = some posted.1.tx_id;
  })

unfoldable pub approve_by : ℕ → Remittance → ℕ → RemittanceStatus → Tx Db (Row Remittance)
unfolding complete
approve_by id r admin_id completed = pure (id, r)
approve_by id r admin_id pending = complete id r admin_id
approve_by id r admin_id _ = throw invalid_status

-- `approve`
unfoldable pub approve_remittance : ℕ → ℕ → Tx Db (Row Remittance)
unfolding find_remittance approve_by
approve_remittance id admin_id = do r ← find_remittance id; approve_by id r admin_id r.status

pub give_back : ℕ → Remittance → Tx Db (Row Remittance)
unfolding update_remittance
give_back id r = do
  in_limits (release TxRefType.remittance id)
  in_ledger (release_funds r.from_user_id r.instrument_code TxRefType.remittance id)
  update_remittance id (λ x. record x { status = cancelled })

unfoldable pub decline_by : ℕ → Remittance → RemittanceStatus → Tx Db (Row Remittance)
unfolding give_back
decline_by id r cancelled = pure (id, r)
decline_by id r pending = give_back id r
decline_by id r _ = throw invalid_status

-- `reject`
unfoldable pub reject_remittance : ℕ → Tx Db (Row Remittance)
unfolding find_remittance decline_by
reject_remittance id = do r ← find_remittance id; decline_by id r r.status

-- `cancelByUser`
unfoldable pub cancel_by_user : ℕ → ℕ → Tx Db (Row Remittance)
unfolding find_remittance decline_by
cancel_by_user id user_id = do
  r ← find_remittance id
  throw_if (not (r.from_user_id == user_id)) remittance_not_found
  decline_by id r r.status
