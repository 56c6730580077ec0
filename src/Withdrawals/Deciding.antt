-- ===== src/Withdrawals/Deciding.antt =====
-- `approve`, `reject` and `cancelWithdrawal` of src/modules/withdrawals/withdrawals.service.ts.
pub mod Payment
pub mod Total
use gold_nest.Base.{
  ℕ, Bool, true, false, ◌||◌, Option, none, some, or_else, or_option, is_some, if◌then◌else◌,
}
use gold_nest.Int.{ℤ, negated, ltb_ℤ}
use gold_nest.Table.{Row, update}
use gold_nest.Tx.{
  Tx, pure, throw, throw_if, modify, ◌>>=◌, ◌>>◌, withdrawal_already_processed, insufficient_credit,
}
use gold_nest.Accounts.Ledger.{
  Account, Ledger, withdraw, AccountTxType, get_usable_capacity, get_or_create_account,
  irr_instrument_code,
}
use gold_nest.Accounts.Reserving.{Held, consume_funds, release_funds}
use gold_nest.Accounts.Posting.{TxInput, PostedTx, apply_transaction}
use gold_nest.Policy.Limits.{consume, release}
use gold_nest.Db.{
  WithdrawStatus, pending, approved, rejected, cancelled, reversed, WithdrawRequest, of_id,
  withdraw_cancel, Db, in_ledger, in_limits,
}
use gold_nest.Records.{Text}
use gold_nest.Outbox.{enqueue_voucher, enqueue_deletion}
use gold_nest.Withdrawals.Creating.{Clock, find_withdrawal}

-- The account that `approve` works with: the one `consumeFunds` returned, or the one opened first.
abbrev pub payer : Option Held → Row Account → Row Account
payer none account = account
payer (some h) account = h.account

update_withdrawal : ℕ → (WithdrawRequest → WithdrawRequest) → Tx Db (Row WithdrawRequest)
unfolding find_withdrawal
update_withdrawal id f = do
  modify (λ d. record d { withdrawals = update id f d.withdrawals })
  w ← find_withdrawal id
  pure (id, w)

abbrev pub payment : ℕ → ℤ → ℕ → ℕ → TxInput
payment account_id amount id admin_id = record {
  account_id = account_id;
  delta = negated amount;
  is_negated = true;
  kind = AccountTxType.withdraw;
  ref_type = withdraw;
  ref_id = some id;
  created_by_id = some admin_id;
  reversal_of_id = none;
}

-- The ledger's part of `approve`.
unfoldable pub settle_payment : ℕ → ℕ → ℤ → ℕ → Tx Ledger PostedTx
settle_payment user_id id amount admin_id = do
  account ← get_or_create_account user_id irr_instrument_code
  consumed ← consume_funds user_id irr_instrument_code withdraw id
  throw_if (ltb_ℤ (get_usable_capacity (payer consumed account).1) amount) insufficient_credit
  apply_transaction (payment (payer consumed account).0 amount id admin_id)

pub pay_out : Clock → ℕ → WithdrawRequest → Option Text → ℕ → Tx Db (Row WithdrawRequest)
unfolding settle_payment update_withdrawal
pay_out clock id w dto_note admin_id = do
  posted ← in_ledger (settle_payment w.user_id id w.amount admin_id)
  in_limits (consume withdraw id)
  update_withdrawal id (λ x. record x {
    status = approved;
    processed_at = some (or_else w.processed_at clock.now);
    processed_by_id = some (or_else w.processed_by_id admin_id);
    note = or_option dto_note w.note;
    account_tx_id = some posted.tx_id;
  })

abbrev may_approve : WithdrawStatus → Bool
may_approve pending = true
may_approve approved = true
may_approve _ = false

approve_unpaid : Clock → ℕ → WithdrawRequest → Option Text → ℕ → Bool → Tx Db (Row WithdrawRequest)
unfolding pay_out
approve_unpaid clock id w dto_note admin_id true = pay_out clock id w dto_note admin_id
approve_unpaid clock id w dto_note admin_id false = throw withdrawal_already_processed

approve_found : Clock → ℕ → WithdrawRequest → Option Text → ℕ → Bool → Tx Db (Row WithdrawRequest)
unfolding approve_unpaid
approve_found clock id w dto_note admin_id true = pure (id, w)
approve_found clock id w dto_note admin_id false =
    approve_unpaid clock id w dto_note admin_id (may_approve w.status)

-- The executor of `approve`. An approved request without an entry is paid out by a further call.
unfoldable pub approve_in_tx : Clock → ℕ → Option Text → ℕ → Tx Db (Row WithdrawRequest)
unfolding find_withdrawal approve_found
approve_in_tx clock id dto_note admin_id = do
  w ← find_withdrawal id
  approve_found clock id w dto_note admin_id (is_some w.account_tx_id)

decline :
    Clock → ℕ → WithdrawRequest → (WithdrawRequest → WithdrawRequest) → Tx Db (Row WithdrawRequest)
unfolding update_withdrawal
decline clock id w f = do
  in_limits (release withdraw id)
  in_ledger (release_funds w.user_id irr_instrument_code withdraw id)
  update_withdrawal id f

reject_by :
    Clock → ℕ → WithdrawRequest → Option Text → ℕ → WithdrawStatus → Tx Db (Row WithdrawRequest)
unfolding decline
reject_by clock id w dto_note admin_id rejected = pure (id, w)
reject_by clock id w dto_note admin_id pending =
    if is_some w.account_tx_id
    then throw withdrawal_already_processed
    else decline clock id w (λ x. record x {
      status = rejected;
      processed_at = some clock.now;
      processed_by_id = some admin_id;
      note = or_option dto_note x.note;
    })
reject_by clock id w dto_note admin_id _ = throw withdrawal_already_processed

-- `reject`
unfoldable pub reject : Clock → ℕ → Option Text → ℕ → Tx Db (Row WithdrawRequest)
unfolding find_withdrawal reject_by
reject clock id dto_note admin_id = do
  w ← find_withdrawal id
  reject_by clock id w dto_note admin_id w.status

cancel_open :
    Clock → ℕ → WithdrawRequest → Option Text → WithdrawStatus → Tx Db (Row WithdrawRequest)
unfolding decline
cancel_open clock id w reason pending =
    decline clock id w (λ x. record x { status = cancelled; note = or_option reason w.note })
cancel_open clock id w reason rejected =
    decline clock id w (λ x. record x { status = cancelled; note = or_option reason w.note })
cancel_open clock id w reason _ = pure (id, w)

-- The tests of `cancelWithdrawal`, in their order.
cancel_by : Clock → ℕ → WithdrawRequest → Option Text → WithdrawStatus → Tx Db (Row WithdrawRequest)
unfolding cancel_open
cancel_by clock id w reason cancelled = pure (id, w)
cancel_by clock id w reason reversed = pure (id, w)
cancel_by clock id w reason approved = throw withdrawal_already_processed
cancel_by clock id w reason status =
    if is_some w.account_tx_id
    then throw withdrawal_already_processed
    else cancel_open clock id w reason status

-- The executor of `cancelWithdrawal`.
unfoldable pub cancel_in_tx : Clock → ℕ → Option Text → Tx Db (Row WithdrawRequest)
unfolding find_withdrawal cancel_by
cancel_in_tx clock id reason = do w ← find_withdrawal id; cancel_by clock id w reason w.status

is_approved : WithdrawStatus → Bool
is_approved approved = true
is_approved _ = false

abbrev is_bank : WithdrawRequest → Bool
is_bank w = is_some w.iban || (is_some w.card_number || is_some w.bank_name)

-- `approve`: the executor, and the voucher behind the commit.
unfoldable pub approve : Clock → ℕ → Option Text → ℕ → Tx Db (Row WithdrawRequest)
unfolding approve_in_tx is_approved
approve clock id dto_note admin_id = do
  row ← approve_in_tx clock id dto_note admin_id
  if is_approved row.1.status
      then enqueue_voucher row.0 row.1.user_id (is_bank row.1) row.1.amount
      else pure tt
  pure row

-- `cancelWithdrawal`: the executor, and the deletion of the voucher behind the commit.
unfoldable pub cancel_withdrawal : Clock → ℕ → Option Text → Tx Db (Row WithdrawRequest)
unfolding cancel_in_tx
cancel_withdrawal clock id reason = do
  row ← cancel_in_tx clock id reason
  enqueue_deletion (of_id row.0) (withdraw_cancel row.0)
  pure row
