-- ===== src/Deposits/Crediting.antt =====
-- What approving a deposit does to the ledger, and what cancelling it takes back.
use gold_nest.Db.Keeps.{in_ledger-Ensures}
use gold_nest.Accounts.Posting.Keeps.{IsPosted, IsPosted-balance_at, apply_transaction-IsPosted}
use gold_nest.Tx.{ok}
use gold_nest.Accounts.Ledger.Opening.{IsOpened, get_or_create_account-IsOpened}
use gold_nest.Accounts.Soundness.{IsSound, balance_at}
use gold_nest.Tx.Ensures.{Ensures, Ensures-bind, Ensures-map}
use gold_nest.Table.{Row, find_unique, Table, find_unique-update_self}
use gold_nest.Accounts.Posting.{PostedTx, entry_of}
use gold_nest.Accounts.Ledger.{Ledger, Account, get_or_create_account, irr_instrument_code}
use gold_nest.Int.{ℤ, ◌+ℤ◌}
use gold_nest.Deposits.{
  approve_deposit_in_tx, credit_deposit, find_deposit, accept, accept_found, accept_unpaid,
  update_deposit, receipt, may_accept,
}
use gold_nest.Db.{Db, DepositRequest, in_ledger, approved}
use gold_nest.Records.{Text}
use gold_nest.Base.{
  ℕ, ◌≡◌, refl, ap, sym, subst, ◌∙◌, some_unique, arith, inl, inr, Bool, true, false, Option, some,
  ◌∷◌, ◌==◌, is_some, or_else, or_option, if◌then◌else◌, Option-cases,
}

-- The receipt of a deposit: one account of the user gains exactly the amount, the others keep
-- their balances, and the credit is entered under the deposit's id.
pub record IsReceived (user_id id : ℕ) (amount : ℤ) (admin_id : ℕ) (l : Ledger) (p : PostedTx)
    (l' : Ledger) : Type 0 where
  pub sound : IsSound l'
  pub owner : p.account.1.user_id ≡ user_id
  pub stored : find_unique p.account.0 l'.accounts ≡ some p.account.1
  pub balances :
      (j : ℕ)
      → balance_at j l'.accounts
        ≡ (if p.account.0 == j then balance_at j l.accounts +ℤ amount else balance_at j l.accounts)
  pub entered :
      l'.account_txs ≡ (p.tx_id, entry_of (receipt p.account.0 amount id admin_id)) ∷ l.account_txs

pub IsReceived-of :
    (user_id id : ℕ) (amount : ℤ) (admin_id : ℕ) (l : Ledger) (row : Row Account) (l1 : Ledger)
    → IsOpened user_id l row l1
    → (p : PostedTx) (l2 : Ledger) → IsPosted (receipt row.0 amount id admin_id) l1 p l2
    → IsReceived user_id id amount admin_id l p l2
IsReceived-of user_id id amount admin_id l row l1 o p l2 q =
    let at_row : p.account.0 ≡ row.0 = ap (λ (r : Row Account). r.0) q.returned in
    record {
      sound = q.sound;
      owner =
          ap (λ (r : Row Account). r.1.user_id) q.returned
          ∙ (ap (λ (a : Account). a.user_id) (some_unique _ q.old row.1 q.was o.stored) ∙ o.owner);
      stored = rw (q.returned) q.becomes;
      balances = λ j.
          (let after = IsPosted-balance_at _ l1 p l2 q j in
            let same : balance_at j l1.accounts ≡ balance_at j l.accounts = o.balances_kept j in
            rw (at_row, ← same) after);
      entered = rw (at_row, ← o.entries_kept) q.entered;
    }

-- On a sound ledger the credit of a deposit that goes through gives exactly the amount to one
-- account of the user, leaves the other balances alone, enters one credit under the deposit, and
-- keeps the ledger sound.
pub credit_deposit-IsReceived :
    (user_id id : ℕ) (amount : ℤ) (admin_id : ℕ) (l : Ledger)
    → IsSound l
    → Ensures
        (IsReceived user_id id amount admin_id l)
        (credit_deposit user_id id amount admin_id l)
unfolding credit_deposit
credit_deposit-IsReceived user_id id amount admin_id l v =
    Ensures-bind (IsOpened user_id l) (IsReceived user_id id amount admin_id l)
      (get_or_create_account user_id irr_instrument_code) _ l
      (get_or_create_account-IsOpened user_id irr_instrument_code l v)
      λ row l1 o.
        Ensures-map (IsPosted (receipt row.0 amount id admin_id) l1)
          (IsReceived user_id id amount admin_id l) _
          (λ p l2 q. IsReceived-of user_id id amount admin_id l row l1 o p l2 q)
          (apply_transaction-IsPosted (receipt row.0 amount id admin_id) l1 o.sound)

-- An approval that goes through credits once.
pub record IsAccepted (id admin_id : ℕ) (d : Db) (row : Row DepositRequest) (d' : Db) : Type 0 where
  pub request : DepositRequest
  pub found : find_unique id d.deposits ≡ some request
  pub again : is_some request.account_tx_id ≡ true → d' ≡ d
  pub credited :
      is_some request.account_tx_id ≡ false
      → (p : PostedTx) × IsReceived request.user_id id request.amount admin_id d.ledger p d'.ledger
  pub returned : row.0 ≡ id
  pub stored : find_unique id d'.deposits ≡ some row.1
  pub has_entry : is_some row.1.account_tx_id ≡ true

abbrev ReceivedIn : ℕ → DepositRequest → ℕ → Db → PostedTx → Db → Type 0
ReceivedIn id x admin_id d p d1 =
    IsReceived x.user_id id x.amount admin_id d.ledger p d1.ledger × (d1.deposits ≡ d.deposits)

module _ (now id : ℕ) (dto_note : Option Text) (admin_id : ℕ) (d : Db) (v : IsSound d.ledger)
    (x : DepositRequest) (found : find_unique id d.deposits ≡ some x) where
  credit-ReceivedIn :
      Ensures
        (ReceivedIn id x admin_id d)
        (in_ledger (credit_deposit x.user_id id x.amount admin_id) d)
  credit-ReceivedIn =
      in_ledger-Ensures (IsReceived x.user_id id x.amount admin_id d.ledger)
        (ReceivedIn id x admin_id d) (credit_deposit x.user_id id x.amount admin_id) d
        (credit_deposit-IsReceived x.user_id id x.amount admin_id d.ledger v) (λ p l h. (h, refl))

  accept-IsAccepted :
      is_some x.account_tx_id ≡ false
      → Ensures (IsAccepted id admin_id d) (accept now id x dto_note admin_id d)
  unfolding accept update_deposit find_deposit
  accept-IsAccepted unpaid =
      Ensures-bind (ReceivedIn id x admin_id d) (IsAccepted id admin_id d)
        (in_ledger (credit_deposit x.user_id id x.amount admin_id)) _ d credit-ReceivedIn
        λ p d1 (credited, same).
          let at1 : find_unique id d1.deposits ≡ some x =
            ap (λ (t : Table DepositRequest). find_unique id t) same ∙ found in
          let law =
            find_unique-update_self id
              (λ (y : DepositRequest). record y {
                status = approved;
                processed_at = some (or_else x.processed_at now);
                processed_by_id = some (or_else x.processed_by_id admin_id);
                note = or_option dto_note x.note;
                account_tx_id = some p.tx_id;
              })
              d1.deposits x at1 in
          rw (law, Ensures)
            (record {
              request = x;
              found = found;
              again = λ h. ground arith;
              credited = λ _. (p, credited);
              returned = refl;
              stored = law;
              has_entry = refl;
            })

  accept_unpaid-IsAccepted :
      is_some x.account_tx_id ≡ false
      → (b : Bool)
      → Ensures (IsAccepted id admin_id d) (accept_unpaid now id x dto_note admin_id b d)
  unfolding accept_unpaid
  accept_unpaid-IsAccepted unpaid true = accept-IsAccepted unpaid
  accept_unpaid-IsAccepted unpaid false = tt

  accept_found-IsAccepted :
      (b : Bool)
      → is_some x.account_tx_id ≡ b
      → Ensures (IsAccepted id admin_id d) (accept_found now id x dto_note admin_id b d)
  unfolding accept_found
  accept_found-IsAccepted true h = record {
    request = x;
    found = found;
    again = λ _. refl;
    credited = λ u. ground arith;
    returned = refl;
    stored = found;
    has_entry = h;
  }
  accept_found-IsAccepted false h = accept_unpaid-IsAccepted h (may_accept x.status)

find_deposit-found :
    (id : ℕ) (d : Db) (x : DepositRequest)
    → find_unique id d.deposits ≡ some x
    → find_deposit id d ≡ ok (x, d)
unfolding find_deposit
find_deposit-found id d x e = rw (e, find_deposit) refl

find_deposit-Found :
    (id : ℕ) (d : Db)
    → Ensures (λ x d'. (find_unique id d.deposits ≡ some x) × (d' ≡ d)) (find_deposit id d)
unfolding find_deposit
find_deposit-Found id d = elim (Option-cases (find_unique id d.deposits)) [
  | inl e ↦ ground (arith, e)
  | inr (x, e) ↦ subst (Ensures _) (sym (find_deposit-found id d x e)) (e, refl)
]

-- On a sound ledger an approval that goes through answers for the deposit of that id, which then
-- carries an entry. If it had one before, nothing at all changes. If it had none, the ledger stays
-- sound, one account of the user gains exactly the amount and all others keep their balances.
pub approve_deposit_in_tx-IsAccepted :
    (now id : ℕ) (dto_note : Option Text) (admin_id : ℕ) (d : Db)
    → IsSound d.ledger
    → Ensures (IsAccepted id admin_id d) (approve_deposit_in_tx now id dto_note admin_id d)
unfolding approve_deposit_in_tx
approve_deposit_in_tx-IsAccepted now id dto_note admin_id d v =
    Ensures-bind (λ x d'. (find_unique id d.deposits ≡ some x) × (d' ≡ d))
      (IsAccepted id admin_id d) (find_deposit id) _ d (find_deposit-Found id d)
      λ x d' (e, same).
        rw same
          (accept_found-IsAccepted now id dto_note admin_id d v x e (is_some x.account_tx_id) refl)
