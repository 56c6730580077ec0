-- ===== src/Deposits/Reversing.antt =====
-- What cancelling an approved deposit takes back.
use gold_nest.Base.{ℕ, ◌≡◌, some, arith, inl, inr, Bool-cases, ◌==◌}
use gold_nest.Int.{ℤ, int_laws}
use gold_nest.Tx.{ok}
use gold_nest.Tx.Ensures.{Ensures, Ensures-bind, Ensures-ok}
use gold_nest.Accounts.Ledger.{Ledger}
use gold_nest.Accounts.Posting.{PostedTx, apply_transaction}
use gold_nest.Accounts.Posting.Keeps.{IsPosted, apply_transaction-IsPosted, IsPosted-balance_at}
use gold_nest.Accounts.Soundness.{IsSound, balance_at}
use gold_nest.Deposits.{credit_deposit, credited_account, take_back, reverse_deposit}
use gold_nest.Deposits.Crediting.{IsReceived, credit_deposit-IsReceived}

-- Every balance is what it was before.
pub record IsRestored (l l' : Ledger) : Type 0 where
  pub sound : IsSound l'
  pub balances : (j : ℕ) → balance_at j l'.accounts ≡ balance_at j l.accounts

module _ (user_id id : ℕ) (amount : ℤ) (admin_id : ℕ) (l : Ledger) (p : PostedTx) (l1 : Ledger)
    (r : IsReceived user_id id amount admin_id l p l1) where
  credited_account-entered : credited_account (some p.tx_id) l1 ≡ some p.account.0
  unfolding credited_account
  credited_account-entered = ground (arith, r.entered, r.stored)

  IsRestored-of :
      (q : PostedTx) (l2 : Ledger)
      → IsPosted (take_back p.account.0 amount id) l1 q l2
      → IsRestored l l2
  IsRestored-of q l2 h = record {
    sound = h.sound;
    balances = λ j. elim (Bool-cases (p.account.0 == j)) [
      | inl this ↦
          (let gained = r.balances j in
            let lost = IsPosted-balance_at (take_back p.account.0 amount id) l1 q l2 h j in
            grind int_laws)
      | inr other ↦
          (let gained = r.balances j in
            let lost = IsPosted-balance_at (take_back p.account.0 amount id) l1 q l2 h j in
            grind int_laws)
    ];
  }

  reverse-IsRestored :
      Ensures (λ _ l2. IsRestored l l2) (reverse_deposit amount id (some p.tx_id) l1)
  unfolding reverse_deposit
  reverse-IsRestored =
      rw (credited_account-entered, Ensures)
        (Ensures-bind (IsPosted (take_back p.account.0 amount id) l1) (λ _ l2. IsRestored l l2)
          (apply_transaction (take_back p.account.0 amount id)) _ l1
          (apply_transaction-IsPosted (take_back p.account.0 amount id) l1 r.sound)
          λ q l2 h. IsRestored-of q l2 h)

-- On a sound ledger, crediting a deposit and taking it back, where both go through, restores every
-- balance and keeps the ledger sound.
pub reverse_deposit-credit_deposit :
    (user_id id : ℕ) (amount : ℤ) (admin_id : ℕ) (l : Ledger) (p : PostedTx) (l1 : Ledger)
    → IsSound l
    → credit_deposit user_id id amount admin_id l ≡ ok (p, l1)
    → Ensures (λ _ l2. IsRestored l l2) (reverse_deposit amount id (some p.tx_id) l1)
reverse_deposit-credit_deposit user_id id amount admin_id l p l1 v e =
    reverse-IsRestored user_id id amount admin_id l p l1 (
      Ensures-ok (IsReceived user_id id amount admin_id l)
        (credit_deposit user_id id amount admin_id l) p l1 e
        (credit_deposit-IsReceived user_id id amount admin_id l v))
