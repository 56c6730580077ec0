-- ===== src/Deposits.antt =====
-- `createForUser`, `approve`, `reject` and `cancelDeposit` of
-- src/modules/deposits/deposits.service.ts.
pub mod Crediting
pub mod Reversing
pub mod Total
use gold_nest.Base.{
  ℕ, suc, Bool, true, false, Option, none, some, List, ◌∷◌, or_else, or_option, is_some,
  if◌then◌else◌,
}
use gold_nest.Int.{ℤ, pos, negated, to_whole}
use gold_nest.Table.{Row, find_unique, update}
use gold_nest.Tx.{
  Tx, ok, pure, throw, gets, or_throw, modify, ◌>>=◌, ◌>>◌, deposit_not_found,
  deposit_already_processed,
}
use gold_nest.Accounts.Ledger.{
  Ledger, AccountTxType, deposit, adjustment, get_or_create_account, irr_instrument_code,
}
use gold_nest.Accounts.Posting.{TxInput, PostedTx, apply_transaction}
use gold_nest.Db.{
  RequestPurpose, direct, p2p, DepositStatus, pending, approved, rejected, cancelled, reversed,
  waiting_assignment, DepositRequest, AttachmentEntityType, Db, in_ledger, of_id, deposit_cancel,
}
use gold_nest.Records.{Text}
use gold_nest.Files.{create_attachments_for_actor}
use gold_nest.Outbox.{enqueue_voucher, enqueue_deletion}

-- `CreateDepositDto`, with the caller.
pub record CreateDeposit : Type 0 where
  pub user_id : ℕ
  pub is_admin : Bool
  pub amount : ℤ
  pub is_bank_method : Bool
  pub purpose : Option RequestPurpose
  pub note : Option Text
  pub file_ids : List ℕ

abbrev initial_status : RequestPurpose → DepositStatus
initial_status p2p = waiting_assignment
initial_status direct = pending

-- A P2P deposit keeps count of what is still to be assigned.
abbrev initial_remaining : RequestPurpose → ℤ → Option ℤ
initial_remaining p2p amount = some amount
initial_remaining direct amount = none

abbrev deposit_of : CreateDeposit → RequestPurpose → DepositRequest
deposit_of c purpose = record {
  user_id = c.user_id;
  amount = to_whole c.amount;
  is_bank_method = c.is_bank_method;
  status = initial_status purpose;
  purpose = purpose;
  remaining_amount = initial_remaining purpose (to_whole c.amount);
  assigned_amount_total = pos 0;
  settled_amount_total = pos 0;
  note = c.note;
  processed_at = none;
  processed_by_id = none;
  account_tx_id = none;
}

insert_deposit : DepositRequest → Tx Db (Row DepositRequest)
insert_deposit x d =
    ok
      ((d.next_id, x), record d { deposits = (d.next_id, x) ∷ d.deposits; next_id = suc d.next_id })

-- `createForUser`
unfoldable pub create_deposit : CreateDeposit → Tx Db (Row DepositRequest)
unfolding insert_deposit
create_deposit c = do
  row ← insert_deposit (deposit_of c (or_else c.purpose direct))
  create_attachments_for_actor c.user_id c.is_admin c.file_ids AttachmentEntityType.deposit row.0
  pure row

unfoldable pub find_deposit : ℕ → Tx Db DepositRequest
find_deposit id d = or_throw (find_unique id d.deposits) deposit_not_found d

update_deposit : ℕ → (DepositRequest → DepositRequest) → Tx Db (Row DepositRequest)
unfolding find_deposit
update_deposit id f = do
  modify (λ d. record d { deposits = update id f d.deposits })
  x ← find_deposit id
  pure (id, x)

abbrev pub receipt : ℕ → ℤ → ℕ → ℕ → TxInput
receipt account_id amount id admin_id = record {
  account_id = account_id;
  delta = amount;
  is_negated = false;
  kind = AccountTxType.deposit;
  ref_type = deposit;
  ref_id = some id;
  created_by_id = some admin_id;
  reversal_of_id = none;
}

-- The ledger's part of `approve`.
unfoldable pub credit_deposit : ℕ → ℕ → ℤ → ℕ → Tx Ledger PostedTx
credit_deposit user_id id amount admin_id = do
  account ← get_or_create_account user_id irr_instrument_code
  apply_transaction (receipt account.0 amount id admin_id)

pub accept : ℕ → ℕ → DepositRequest → Option Text → ℕ → Tx Db (Row DepositRequest)
unfolding credit_deposit update_deposit
accept now id x dto_note admin_id = do
  posted ← in_ledger (credit_deposit x.user_id id x.amount admin_id)
  update_deposit id (λ y. record y {
    status = approved;
    processed_at = some (or_else x.processed_at now);
    processed_by_id = some (or_else x.processed_by_id admin_id);
    note = or_option dto_note x.note;
    account_tx_id = some posted.tx_id;
  })

abbrev pub may_accept : DepositStatus → Bool
may_accept pending = true
may_accept approved = true
may_accept _ = false

accept_unpaid : ℕ → ℕ → DepositRequest → Option Text → ℕ → Bool → Tx Db (Row DepositRequest)
unfolding accept
accept_unpaid now id x dto_note admin_id true = accept now id x dto_note admin_id
accept_unpaid now id x dto_note admin_id false = throw deposit_already_processed

accept_found : ℕ → ℕ → DepositRequest → Option Text → ℕ → Bool → Tx Db (Row DepositRequest)
unfolding accept_unpaid
accept_found now id x dto_note admin_id true = pure (id, x)
accept_found now id x dto_note admin_id false =
    accept_unpaid now id x dto_note admin_id (may_accept x.status)

-- The executor of `approve`.
unfoldable pub approve_deposit_in_tx : ℕ → ℕ → Option Text → ℕ → Tx Db (Row DepositRequest)
unfolding find_deposit accept_found
approve_deposit_in_tx now id dto_note admin_id = do
  x ← find_deposit id
  accept_found now id x dto_note admin_id (is_some x.account_tx_id)

is_approved : DepositStatus → Bool
is_approved approved = true
is_approved _ = false

-- `approve`: the executor, and the voucher behind the commit.
unfoldable pub approve_deposit : ℕ → ℕ → Option Text → ℕ → Tx Db (Row DepositRequest)
unfolding approve_deposit_in_tx is_approved
approve_deposit now id dto_note admin_id = do
  row ← approve_deposit_in_tx now id dto_note admin_id
  if is_approved row.1.status
      then enqueue_voucher row.0 row.1.user_id row.1.is_bank_method row.1.amount
      else pure tt
  pure row

reject_deposit_by : ℕ → ℕ → Option Text → ℕ → DepositStatus → Tx Db (Row DepositRequest)
unfolding update_deposit
reject_deposit_by now id dto_note admin_id pending = update_deposit id (λ y. record y {
  status = rejected;
  processed_at = some now;
  processed_by_id = some admin_id;
  note = or_option dto_note y.note;
})
reject_deposit_by now id dto_note admin_id _ = throw deposit_already_processed

-- `reject`; a transaction runs alone, so `updateMany` meets the row that was just read.
unfoldable pub reject_deposit : ℕ → ℕ → Option Text → ℕ → Tx Db (Row DepositRequest)
unfolding find_deposit reject_deposit_by
reject_deposit now id dto_note admin_id = do
  x ← find_deposit id
  reject_deposit_by now id dto_note admin_id x.status

-- The entry of an approval and its account, if both are there.
unfoldable pub credited_account : Option ℕ → Ledger → Option ℕ
credited_account none l = none
credited_account (some tx_id) l = elim (find_unique tx_id l.account_txs) [
  | none ↦ none
  | some t ↦ if is_some (find_unique t.account_id l.accounts) then some t.account_id else none
]

abbrev pub take_back : ℕ → ℤ → ℕ → TxInput
take_back account_id amount id = record {
  account_id = account_id;
  delta = negated amount;
  is_negated = true;
  kind = AccountTxType.adjustment;
  ref_type = deposit;
  ref_id = some id;
  created_by_id = none;
  reversal_of_id = none;
}

unfoldable pub post_reversal : ℤ → ℕ → Option ℕ → Tx Ledger (Unit {0})
post_reversal amount id none = pure tt
post_reversal amount id (some account_id) = do
  apply_transaction (take_back account_id amount id)
  pure tt

-- The ledger's part of cancelling an approved deposit.
unfoldable pub reverse_deposit : ℤ → ℕ → Option ℕ → Tx Ledger (Unit {0})
unfolding credited_account post_reversal
reverse_deposit amount id tx_id = do
  account ← gets (credited_account tx_id)
  post_reversal amount id account

cancel_deposit_by : ℕ → DepositRequest → Option Text → DepositStatus → Tx Db (Row DepositRequest)
unfolding update_deposit reverse_deposit
cancel_deposit_by id x reason pending =
    update_deposit id (λ y. record y { status = cancelled; note = or_option reason x.note })
cancel_deposit_by id x reason rejected =
    update_deposit id (λ y. record y { status = cancelled; note = or_option reason x.note })
cancel_deposit_by id x reason approved = do
  in_ledger (reverse_deposit x.amount id x.account_tx_id)
  update_deposit id (λ y. record y { status = reversed; note = or_option reason x.note })
cancel_deposit_by id x reason _ = pure (id, x)

-- The executor of `cancelDeposit`.
unfoldable pub cancel_deposit_in_tx : ℕ → Option Text → Tx Db (Row DepositRequest)
unfolding find_deposit cancel_deposit_by
cancel_deposit_in_tx id reason = do x ← find_deposit id; cancel_deposit_by id x reason x.status

-- `cancelDeposit`: the executor, and the deletion of the voucher behind the commit.
unfoldable pub cancel_deposit : ℕ → Option Text → Tx Db (Row DepositRequest)
unfolding cancel_deposit_in_tx
cancel_deposit id reason = do
  row ← cancel_deposit_in_tx id reason
  enqueue_deletion (of_id row.0) (deposit_cancel row.0)
  pure row
