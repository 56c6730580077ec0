-- ===== src/Deposits/Total.antt =====
-- When approving a deposit goes through.
use gold_nest.Base.{
  ℕ, ◌≡◌, arith, true, false, Option, none, some, is_some, ◌==◌, or_else, or_option,
}
use gold_nest.Int.{ℤ, pos, ◌≤ℤ◌, int_laws}
use gold_nest.Table.{Row, find_unique, find_first, find_unique-update_self}
use gold_nest.Tx.{ok}
use gold_nest.Tx.Ensures.{Ensures-map}
use gold_nest.Tx.Succeeds.{Succeeds, Succeeds-bind, Succeeds-Ensures, Succeeds-ok, is_ok}
use gold_nest.Accounts.Ledger.{Ledger, irr_instrument_code, get_or_create_account, is_known}
use gold_nest.Accounts.Ledger.Opening.{IsOpened, get_or_create_account-IsOpened}
use gold_nest.Accounts.Reserving.Total.{get_or_create_account-is_ok}
use gold_nest.Accounts.Posting.{entry_of, clashes, PostedTx}
use gold_nest.Accounts.Posting.Keeps.{IsPosted, apply_transaction-IsPosted}
use gold_nest.Accounts.Posting.Total.{apply_transaction-is_ok}
use gold_nest.Accounts.Soundness.{IsSound}
use gold_nest.Db.{DepositRequest, Db, approved}
use gold_nest.Records.{Text}
use gold_nest.Deposits.{
  receipt, credit_deposit, may_accept, accept, accept_unpaid, accept_found, find_deposit,
  update_deposit, approve_deposit_in_tx,
}
use gold_nest.Deposits.Crediting.{
  IsReceived, IsReceived-of, IsAccepted, approve_deposit_in_tx-IsAccepted,
}

-- The unique keys of the receipt are free, whichever account it goes to.
unfoldable pub IsUnposted : (id : ℕ) (amount : ℤ) (admin_id : ℕ) → Ledger → Type 0
IsUnposted id amount admin_id l =
    (k : ℕ) → find_first (clashes (entry_of (receipt k amount id admin_id))) l.account_txs ≡ none

-- On a sound ledger with the instrument and the user, a deposit of a non-negative amount whose receipt has not
-- been entered is credited: the call does not throw, and the outcome is the one stated of credits.
credit_deposit-Succeeds :
    (user_id id : ℕ) (amount : ℤ) (admin_id : ℕ) (l : Ledger) (i : Row ℕ)
    → IsSound l
    → find_first (λ c. c == irr_instrument_code) l.instruments ≡ some i
    → is_known user_id l ≡ true
    → pos 0 ≤ℤ amount
    → IsUnposted id amount admin_id l
    → Succeeds
        (IsReceived user_id id amount admin_id l)
        (credit_deposit user_id id amount admin_id l)
unfolding credit_deposit IsUnposted
credit_deposit-Succeeds user_id id amount admin_id l i v e known positive free =
    Succeeds-bind (IsOpened user_id l) (IsReceived user_id id amount admin_id l)
      (get_or_create_account user_id irr_instrument_code) _ l
      (Succeeds-Ensures (IsOpened user_id l) _
        (get_or_create_account-IsOpened user_id irr_instrument_code l v)
        (get_or_create_account-is_ok user_id irr_instrument_code l i e known))
      λ row l1 o.
        Succeeds-Ensures (IsReceived user_id id amount admin_id l) _
          (Ensures-map (IsPosted (receipt row.0 amount id admin_id) l1)
            (IsReceived user_id id amount admin_id l) _
            (λ p l2 q. IsReceived-of user_id id amount admin_id l row l1 o p l2 q)
            (apply_transaction-IsPosted (receipt row.0 amount id admin_id) l1 o.sound))
          (apply_transaction-is_ok (receipt row.0 amount id admin_id) l1 row.1 o.stored
            (let covered = (o.sound.backed row.0 row.1 o.stored).covered in omega int_laws)
            (rw (o.entries_kept) (free row.0)))

module _ (now id : ℕ) (dto_note : Option Text) (admin_id : ℕ) (d : Db) (x : DepositRequest)
    (found : find_unique id d.deposits ≡ some x) (unpaid : is_some x.account_tx_id ≡ false)
    (open_one : may_accept x.status ≡ true) where
  approve-is_ok :
      (p : PostedTx) (l : Ledger)
      → credit_deposit x.user_id id x.amount admin_id d.ledger ≡ ok (p, l)
      → is_ok (approve_deposit_in_tx now id dto_note admin_id d) ≡ true
  unfolding approve_deposit_in_tx find_deposit accept_found accept_unpaid accept update_deposit
  approve-is_ok p l credited =
      let law =
        find_unique-update_self id
          (λ (y : DepositRequest). record y {
            status = approved;
            processed_at = some (or_else x.processed_at now);
            processed_by_id = some (or_else x.processed_by_id admin_id);
            note = or_option dto_note x.note;
            account_tx_id = some p.tx_id;
          })
          d.deposits x found in
      ground (arith, found, unpaid, open_one, credited, law)

-- On a sound ledger with the instrument and the user, approving a deposit that has no entry, is
-- pending or approved, and is of a non-negative amount whose receipt has not been entered, does not throw, and its outcome
-- is the one stated of approvals.
pub approve_deposit_in_tx-Succeeds :
    (now id : ℕ) (dto_note : Option Text) (admin_id : ℕ) (d : Db) (x : DepositRequest) (i : Row ℕ)
    → IsSound d.ledger
    → find_first (λ c. c == irr_instrument_code) d.ledger.instruments ≡ some i
    → find_unique id d.deposits ≡ some x
    → is_known x.user_id d.ledger ≡ true
    → is_some x.account_tx_id ≡ false
    → may_accept x.status ≡ true
    → pos 0 ≤ℤ x.amount
    → IsUnposted id x.amount admin_id d.ledger
    → Succeeds (IsAccepted id admin_id d) (approve_deposit_in_tx now id dto_note admin_id d)
approve_deposit_in_tx-Succeeds now id dto_note admin_id d x i v e found known unpaid open_one
      positive free =
    let (p, l, credited, _) =
      Succeeds-ok (IsReceived x.user_id id x.amount admin_id d.ledger) _ (
        credit_deposit-Succeeds x.user_id id x.amount admin_id d.ledger i v e known positive
          free) in
    Succeeds-Ensures (IsAccepted id admin_id d) _
      (approve_deposit_in_tx-IsAccepted now id dto_note admin_id d v)
      (approve-is_ok now id dto_note admin_id d x found unpaid open_one p l credited)
