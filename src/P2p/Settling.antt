-- ===== src/P2p/Settling.antt =====
-- `finalizeAllocation`, `cancelAllocation` and `expireAllocations` of
-- src/modules/p2p-allocations/p2p-allocations.service.ts.
pub mod Transfer
use gold_nest.Base.{
  ℕ, suc, Bool, true, false, not, ◌&&◌, ◌||◌, ltb, Option, none, some, is_some, or_else, List, [],
  ◌∷◌, if◌then◌else◌,
}
use gold_nest.Int.{ℤ, ◌+ℤ◌, ◌-ℤ◌, negated}
use gold_nest.Table.{Row, Table, find_unique, find_many, update}
use gold_nest.Tx.{
  Tx, Result, ok, err, pure, throw, gets, or_throw, throw_if, modify, ◌>>=◌, ◌>>◌,
  withdraw_not_found, deposit_not_found, cannot_be_finalized, allocation_expired, already_settled,
}
use gold_nest.Accounts.Ledger.{
  AccountTxType, Ledger, withdraw_allocation, irr_instrument_code, get_or_create_account,
}
use gold_nest.Accounts.Reserving.{consume_funds}
use gold_nest.Accounts.Posting.{TxInput, PostedTx, apply_transaction}
use gold_nest.Policy.Limits.{consume}
use gold_nest.Db.{
  AllocationStatus, settled, cancelled, expired, disputed, assigned, P2PAllocation, WithdrawRequest,
  DepositRequest, Db, in_ledger, in_limits,
}
use gold_nest.P2p.Status.{derive_withdraw_p2p_status, derive_deposit_p2p_status}
use gold_nest.P2p.Confirming.{
  ConfirmationMode, find_allocation, update_allocation, allocation_expired_at, ensure_finalizable,
  is_assigned,
}
use gold_nest.P2p.Merging.{merge_funds, merge_limits}

abbrev pub side : ℕ → ℤ → Bool → ℕ → ℕ → TxInput
side account_id delta is_negated id admin_id = record {
  account_id = account_id;
  delta = delta;
  is_negated = is_negated;
  kind = AccountTxType.remittance;
  ref_type = withdraw_allocation;
  ref_id = some id;
  created_by_id = some admin_id;
  reversal_of_id = none;
}

-- The two accounts are opened, the withdrawer's is debited and the payer's credited.
unfoldable pub transfer : ℕ → ℕ → ℕ → ℤ → ℕ → Tx Ledger (PostedTx × PostedTx)
transfer withdrawer_id payer_id id amount admin_id = do
  withdrawer ← get_or_create_account withdrawer_id irr_instrument_code
  payer ← get_or_create_account payer_id irr_instrument_code
  debit ← apply_transaction (side withdrawer.0 (negated amount) true id admin_id)
  credit ← apply_transaction (side payer.0 amount false id admin_id)
  pure (debit, credit)

-- The allocation's withdrawal and deposit, which its foreign keys keep in place.
withdrawal_of : P2PAllocation → Tx Db WithdrawRequest
withdrawal_of a d = or_throw (find_unique a.withdrawal_id d.withdrawals) withdraw_not_found d

deposit_of : P2PAllocation → Tx Db DepositRequest
deposit_of a d = or_throw (find_unique a.deposit_id d.deposits) deposit_not_found d

abbrev count_settled : P2PAllocation → WithdrawRequest → DepositRequest → Db → Db
count_settled a w x d = record d {
  withdrawals =
      update a.withdrawal_id
        (λ y. record y {
          settled_amount_total = w.settled_amount_total +ℤ a.amount;
          status =
              derive_withdraw_p2p_status false false w.amount w.assigned_amount_total
                (w.settled_amount_total +ℤ a.amount);
        })
        d.withdrawals;
  deposits =
      update a.deposit_id
        (λ y. record y {
          settled_amount_total = x.settled_amount_total +ℤ a.amount;
          status =
              derive_deposit_p2p_status false false x.amount x.assigned_amount_total
                (x.settled_amount_total +ℤ a.amount);
        })
        d.deposits;
}

-- `finalizeAllocation` behind its tests.
pub settle :
    ℕ → ℕ → ℕ → P2PAllocation → WithdrawRequest → DepositRequest → Tx Db (Row P2PAllocation)
unfolding transfer
settle now id admin_id a w x = do
  in_ledger (consume_funds w.user_id irr_instrument_code withdraw_allocation id)
  in_limits (consume withdraw_allocation id)
  posted ← in_ledger (transfer w.user_id x.user_id id a.amount admin_id)
  update_allocation id (λ y. record y {
    status = settled;
    settled_at = some now;
    withdrawer_account_tx_id = some posted.0.tx_id;
    payer_account_tx_id = some posted.1.tx_id;
  })
  modify (count_settled a w x)
  b ← find_allocation id
  pure (id, b)

finalize_open :
    ConfirmationMode
    → ℕ
    → ℕ
    → ℕ
    → P2PAllocation
    → WithdrawRequest
    → DepositRequest
    → Tx Db (Row P2PAllocation)
unfolding settle
finalize_open mode now id admin_id a w x = do
  throw_if (is_assigned a.status && allocation_expired_at now a) allocation_expired
  ensure_finalizable mode a
  if is_some a.withdrawer_account_tx_id || is_some a.payer_account_tx_id
      then pure (id, a)
      else settle now id admin_id a w x

finalize_by :
    ConfirmationMode
    → ℕ
    → ℕ
    → ℕ
    → P2PAllocation
    → WithdrawRequest
    → DepositRequest
    → AllocationStatus
    → Tx Db (Row P2PAllocation)
unfolding finalize_open
finalize_by mode now id admin_id a w x settled = pure (id, a)
finalize_by mode now id admin_id a w x cancelled = throw cannot_be_finalized
finalize_by mode now id admin_id a w x expired = throw cannot_be_finalized
finalize_by mode now id admin_id a w x disputed = throw cannot_be_finalized
finalize_by mode now id admin_id a w x _ = finalize_open mode now id admin_id a w x

-- `finalizeAllocation`
unfoldable pub finalize_allocation : ConfirmationMode → ℕ → ℕ → ℕ → Tx Db (Row P2PAllocation)
unfolding withdrawal_of deposit_of finalize_by
finalize_allocation mode now id admin_id = do
  a ← find_allocation id
  w ← withdrawal_of a
  x ← deposit_of a
  finalize_by mode now id admin_id a w x a.status

abbrev count_returned : P2PAllocation → WithdrawRequest → DepositRequest → Db → Db
count_returned a w x d = record d {
  withdrawals =
      update a.withdrawal_id
        (λ y. record y {
          assigned_amount_total = w.assigned_amount_total -ℤ a.amount;
          status =
              derive_withdraw_p2p_status false false w.amount (w.assigned_amount_total -ℤ a.amount)
                w.settled_amount_total;
        })
        d.withdrawals;
  deposits =
      update a.deposit_id
        (λ y. record y {
          assigned_amount_total = x.assigned_amount_total -ℤ a.amount;
          remaining_amount = some (or_else x.remaining_amount x.amount +ℤ a.amount);
          status =
              derive_deposit_p2p_status false false x.amount (x.assigned_amount_total -ℤ a.amount)
                x.settled_amount_total;
        })
        d.deposits;
}

-- What `cancelAllocation` and `expireAllocations` both do behind their tests.
give_back :
    AllocationStatus
    → ℕ
    → P2PAllocation
    → WithdrawRequest
    → DepositRequest
    → Tx Db (Row P2PAllocation)
give_back status id a w x = do
  in_ledger (merge_funds a.withdrawal_id id a.amount)
  in_limits (merge_limits a.withdrawal_id id a.amount)
  update_allocation id (λ y. record y { status = status })
  modify (count_returned a w x)
  b ← find_allocation id
  pure (id, b)

cancel_allocation_by :
    ℕ
    → P2PAllocation
    → WithdrawRequest
    → DepositRequest
    → AllocationStatus
    → Tx Db (Row P2PAllocation)
unfolding give_back
cancel_allocation_by id a w x cancelled = pure (id, a)
cancel_allocation_by id a w x expired = pure (id, a)
cancel_allocation_by id a w x settled = throw already_settled
cancel_allocation_by id a w x _ = give_back cancelled id a w x

-- `cancelAllocation`
unfoldable pub cancel_allocation : ℕ → Tx Db (Row P2PAllocation)
unfolding withdrawal_of deposit_of cancel_allocation_by
cancel_allocation id = do
  a ← find_allocation id
  w ← withdrawal_of a
  x ← deposit_of a
  cancel_allocation_by id a w x a.status

expire_open : ℕ → P2PAllocation → WithdrawRequest → DepositRequest → AllocationStatus → Tx Db Bool
unfolding give_back
expire_open id a w x assigned = do give_back expired id a w x; pure true
expire_open id a w x _ = pure false

expire_found : ℕ → P2PAllocation → Tx Db Bool
unfolding withdrawal_of deposit_of expire_open
expire_found id a = do w ← withdrawal_of a; x ← deposit_of a; expire_open id a w x a.status

-- One transaction of `expireAllocations`: whether it counts as processed.
expire_one : ℕ → Tx Db Bool
unfolding expire_found
expire_one id d = elim (find_unique id d.allocations) [
  | none ↦ ok (false, d)
  | some a ↦ expire_found id a d
]

-- The transactions of `expireAllocations`, one behind the other: each commits on its own, and the
-- first that throws ends the loop.
expire_each : List (Row P2PAllocation) → ℕ → Db → Db × Result ℕ
unfolding expire_one
expire_each [] processed d = (d, ok processed)
expire_each (r ∷ rs) processed d = elim (expire_one r.0 d) [
  | ok (counted, d') ↦ expire_each rs (if counted then suc processed else processed) d'
  | err e ↦ (d, err e)
]

-- `expireAllocations`
unfoldable pub expire_allocations : ℕ → Db → Db × Result ℕ
unfolding expire_each
expire_allocations now d =
    expire_each (find_many (λ a. ltb a.expires_at now && is_assigned a.status) d.allocations) 0 d
