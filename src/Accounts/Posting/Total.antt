-- ===== src/Accounts/Posting/Total.antt =====
-- When `applyTransaction` goes through, and with what it throws otherwise.
use gold_nest.Base.{◌≡◌, none, some, arith, true}
use gold_nest.Int.{◌+ℤ◌, ◌≤ℤ◌, ◌<ℤ◌}
use gold_nest.Table.{find_unique, find_first}
use gold_nest.Tx.{err, insufficient_credit}
use gold_nest.Tx.Succeeds.{Succeeds, Succeeds-Ensures, is_ok}
use gold_nest.Accounts.Ledger.{Account, Ledger, find_account}
use gold_nest.Accounts.Posting.{TxInput, apply_transaction, create_tx, clashes, entry_of}
use gold_nest.Accounts.Posting.Keeps.{IsPosted, apply_transaction-IsPosted}
use gold_nest.Accounts.Soundness.{IsSound}

module _ (i : TxInput) (l : Ledger) (a : Account)
    (e : find_unique i.account_id l.accounts ≡ some a) where
  pub apply_transaction-is_ok :
      a.blocked_balance +ℤ a.min_balance ≤ℤ a.balance +ℤ i.delta
      → find_first (clashes (entry_of i)) l.account_txs ≡ none
      → is_ok (apply_transaction i l) ≡ true
  unfolding apply_transaction create_tx find_account
  apply_transaction-is_ok covered free = ground (arith, e, free, covered)

  refuses-overdraft :
      a.balance +ℤ i.delta <ℤ a.blocked_balance +ℤ a.min_balance
      → apply_transaction i l ≡ err insufficient_credit
  unfolding apply_transaction create_tx find_account
  refuses-overdraft short = ground (arith, e, short)

-- On a sound ledger a transaction on an existing account goes through, with the outcome that is
-- stated of transactions, if the new balance covers the blocked and the minimum balance and the
-- unique keys of the entry are free; if the new balance does not cover them, it throws
-- INSUFFICIENT_CREDIT.
pub apply_transaction-Succeeds :
    (i : TxInput) (l : Ledger) (a : Account)
    → IsSound l
    → find_unique i.account_id l.accounts ≡ some a
    → (a.blocked_balance +ℤ a.min_balance ≤ℤ a.balance +ℤ i.delta
        → find_first (clashes (entry_of i)) l.account_txs ≡ none
        → Succeeds (IsPosted i l) (apply_transaction i l))
      × (a.balance +ℤ i.delta <ℤ a.blocked_balance +ℤ a.min_balance
          → apply_transaction i l ≡ err insufficient_credit)
apply_transaction-Succeeds i l a v e = (
  λ covered free.
      Succeeds-Ensures (IsPosted i l) _ (apply_transaction-IsPosted i l v)
        (apply_transaction-is_ok i l a e covered free),
  refuses-overdraft i l a e,
)
