-- ===== src/Withdrawals/Deciding/Payment.antt =====
-- What approving a withdrawal does to the ledger, and that it happens once.
use gold_nest.Accounts.Moves.Steps.{closed-stands, closed_owner}
use gold_nest.Accounts.Moves.{Owns, stands-posted}
use gold_nest.Policy.Limits.{consume}
use gold_nest.Db.Keeps.{in_ledger-Ensures, in_limits-Ensures, trivially}
use gold_nest.Withdrawals.Creating.{Clock, find_withdrawal}
use gold_nest.Db.{Db, WithdrawRequest, in_ledger, in_limits, approved}
use gold_nest.Records.{Text}
use gold_nest.Base.{
  ℕ, ◌≡◌, refl, ap, inl, inr, arith, ◌∙◌, Bool, true, false, ◌==◌, Option, ◌∷◌, if◌then◌else◌, some,
  is_some, or_else, or_option, Option-cases, subst, sym, none,
}
use gold_nest.Int.{ℤ, ◌+ℤ◌, negated, ltb_ℤ}
use gold_nest.Table.{Row, find_unique, Table, find_unique-update_self}
use gold_nest.Tx.{throw_if, insufficient_credit, ok}
use gold_nest.Tx.Ensures.{Ensures, Ensures-bind, Ensures-map, throw_if-same}
use gold_nest.Accounts.Ledger.{
  Account, Ledger, withdraw, consumed, irr_instrument_code, get_or_create_account,
  get_usable_capacity,
}
use gold_nest.Accounts.Ledger.Opening.{IsOpened, get_or_create_account-IsOpened}
use gold_nest.Accounts.Reserving.{Held, consume_funds}
use gold_nest.Accounts.Reserving.Funds.{IsClosed, consume_funds-IsClosed}
use gold_nest.Accounts.Posting.{PostedTx, entry_of}
use gold_nest.Accounts.Posting.Keeps.{IsPosted, apply_transaction-IsPosted, IsPosted-balance_at}
use gold_nest.Accounts.Soundness.{IsSound, balance_at}
use gold_nest.Withdrawals.Deciding.{
  payer, payment, settle_payment, pay_out, update_withdrawal, approve_found, approve_in_tx,
  approve_unpaid, may_approve,
}

-- The payment of a withdrawal: an account of the user loses exactly the amount, the others keep
-- their balances, and the debit is entered under the withdrawal's id.
pub record IsPaid (user_id id : ℕ) (amount : ℤ) (admin_id : ℕ) (l : Ledger) (p : PostedTx)
    (l' : Ledger) : Type 0 where
  pub sound : IsSound l'
  pub owner : Owns l' (user_id, p.account.0)
  pub balances :
      (j : ℕ)
      → balance_at j l'.accounts ≡ (
          if p.account.0 == j
          then balance_at j l.accounts +ℤ negated amount
          else balance_at j l.accounts)
  pub entered :
      l'.account_txs ≡ (p.tx_id, entry_of (payment p.account.0 amount id admin_id)) ∷ l.account_txs

module _ (id : ℕ) (amount : ℤ) (admin_id : ℕ) (l : Ledger) where
  payer-Owns :
      (user_id : ℕ) (row : Row Account) (l1 : Ledger)
      → IsOpened user_id l row l1
      → (h : Option Held) (l2 : Ledger) → IsClosed user_id withdraw id consumed l1 h l2
      → Owns l2 (user_id, (payer h row).0)
  payer-Owns user_id row l1 o none l2 c =
      let (b, stored, user, _) =
        closed-stands user_id withdraw id l1 consumed none l2 c row.0 row.1 o.stored in
      (b, stored, user ∙ o.owner)
  payer-Owns user_id row l1 o (some y) l2 c =
      closed_owner user_id withdraw id l1 consumed (some y) l2 c y refl

  IsPaid-of :
      (user_id : ℕ) (row : Row Account) (l1 : Ledger)
      → IsOpened user_id l row l1
      → (h : Option Held) (l2 : Ledger) → IsClosed user_id withdraw id consumed l1 h l2
      → (p : PostedTx) (l4 : Ledger) → IsPosted (payment (payer h row).0 amount id admin_id) l2 p l4
      → IsPaid user_id id amount admin_id l p l4
  IsPaid-of user_id row l1 o h l2 c p l4 q =
      let at_payer : p.account.0 ≡ (payer h row).0 = ap (λ (r : Row Account). r.0) q.returned in
      record {
        sound = q.sound;
        owner = rw (at_payer) (
            let (a, stored, mine) = payer-Owns user_id row l1 o h l2 c in
            let (b, after, user, _) = stands-posted _ l2 p l4 q (payer h row).0 a stored in
            (b, after, user ∙ mine));
        balances = λ j.
            (let after = IsPosted-balance_at _ l2 p l4 q j in
              let same : balance_at j l2.accounts ≡ balance_at j l.accounts =
                c.balances_kept j ∙ o.balances_kept j in
              rw (at_payer, ← same) after);
        entered = rw (at_payer, ← (c.entries_kept ∙ o.entries_kept)) q.entered;
      }

-- On a sound ledger a payment that goes through takes exactly the amount from an account of the
-- user, leaves the other balances alone, enters one debit under the withdrawal, and keeps the ledger sound.
pub settle_payment-IsPaid :
    (user_id id : ℕ) (amount : ℤ) (admin_id : ℕ) (l : Ledger)
    → IsSound l
    → Ensures (IsPaid user_id id amount admin_id l) (settle_payment user_id id amount admin_id l)
unfolding settle_payment
settle_payment-IsPaid user_id id amount admin_id l v =
    Ensures-bind (IsOpened user_id l) (IsPaid user_id id amount admin_id l)
      (get_or_create_account user_id irr_instrument_code) _ l
      (get_or_create_account-IsOpened user_id irr_instrument_code l v)
      λ row l1 o.
        Ensures-bind (IsClosed user_id withdraw id consumed l1)
          (IsPaid user_id id amount admin_id l)
          (consume_funds user_id irr_instrument_code withdraw id) _ l1
          (consume_funds-IsClosed user_id irr_instrument_code withdraw id l1 o.sound)
          λ h l2 c.
            Ensures-bind (λ _ l3. l3 ≡ l2) (IsPaid user_id id amount admin_id l)
              (throw_if (ltb_ℤ (get_usable_capacity (payer h row).1) amount) insufficient_credit) _
              l2 (throw_if-same _ _ l2)
              λ _ l3 same. rw same (
                Ensures-map (IsPosted (payment (payer h row).0 amount id admin_id) l2)
                  (IsPaid user_id id amount admin_id l) _
                  (λ p l4 q. IsPaid-of id amount admin_id l user_id row l1 o h l2 c p l4 q)
                  (apply_transaction-IsPosted (payment (payer h row).0 amount id admin_id) l2
                    c.sound))

-- An approval that goes through pays once: either the request had its entry already and nothing
-- changes, or the ledger shows one payment of exactly the request's amount.
pub record IsApproved (id admin_id : ℕ) (d : Db) (row : Row WithdrawRequest) (d' : Db)
    : Type 0 where
  pub request : WithdrawRequest
  pub found : find_unique id d.withdrawals ≡ some request
  pub again : is_some request.account_tx_id ≡ true → d' ≡ d
  pub paid :
      is_some request.account_tx_id ≡ false
      → (p : PostedTx) × IsPaid request.user_id id request.amount admin_id d.ledger p d'.ledger
        × (row.1.account_tx_id ≡ some p.tx_id)
  pub returned : row.0 ≡ id
  pub stored : find_unique id d'.withdrawals ≡ some row.1
  pub has_entry : is_some row.1.account_tx_id ≡ true

-- After the ledger's part: the payment is made and the requests are as before.
abbrev PaidIn : ℕ → ℕ → ℤ → ℕ → Db → PostedTx → Db → Type 0
PaidIn user_id id amount admin_id d p d1 =
    IsPaid user_id id amount admin_id d.ledger p d1.ledger × (d1.withdrawals ≡ d.withdrawals)

abbrev SameBooks : Db → Unit {0} → Db → Type 0
SameBooks d _ d' = (d'.ledger ≡ d.ledger) × (d'.withdrawals ≡ d.withdrawals)

consume_limits-SameBooks :
    (id : ℕ) (d : Db) → Ensures (SameBooks d) (in_limits (consume withdraw id) d)
consume_limits-SameBooks id d =
    in_limits-Ensures (λ _ _. Unit {0}) (SameBooks d) (consume withdraw id) d (trivially _)
      (λ _ b _. (refl, refl))

module _ (clock : Clock) (id : ℕ) (dto_note : Option Text) (admin_id : ℕ) (d : Db)
    (v : IsSound d.ledger) (w : WithdrawRequest)
    (found : find_unique id d.withdrawals ≡ some w) where
  settle-PaidIn :
      Ensures
        (PaidIn w.user_id id w.amount admin_id d)
        (in_ledger (settle_payment w.user_id id w.amount admin_id) d)
  settle-PaidIn =
      in_ledger-Ensures (IsPaid w.user_id id w.amount admin_id d.ledger)
        (PaidIn w.user_id id w.amount admin_id d) (settle_payment w.user_id id w.amount admin_id) d
        (settle_payment-IsPaid w.user_id id w.amount admin_id d.ledger v) (λ p l h. (h, refl))

  pay_out-IsApproved :
      is_some w.account_tx_id ≡ false
      → Ensures (IsApproved id admin_id d) (pay_out clock id w dto_note admin_id d)
  unfolding pay_out update_withdrawal find_withdrawal
  pay_out-IsApproved unpaid =
      Ensures-bind (PaidIn w.user_id id w.amount admin_id d) (IsApproved id admin_id d)
        (in_ledger (settle_payment w.user_id id w.amount admin_id)) _ d settle-PaidIn
        λ p d1 (paid, same).
          Ensures-bind (SameBooks d1) (IsApproved id admin_id d) (in_limits (consume withdraw id)) _
            d1 (consume_limits-SameBooks id d1)
            λ _ d2 (ledger_same, requests_same).
              let at2 : find_unique id d2.withdrawals ≡ some w =
                ap (λ (t : Table WithdrawRequest). find_unique id t) (requests_same ∙ same)
                ∙ found in
              let law =
                find_unique-update_self id
                  (λ (x : WithdrawRequest). record x {
                    status = approved;
                    processed_at = some (or_else w.processed_at clock.now);
                    processed_by_id = some (or_else w.processed_by_id admin_id);
                    note = or_option dto_note w.note;
                    account_tx_id = some p.tx_id;
                  })
                  d2.withdrawals w at2 in
              rw (law, Ensures)
                (record {
                  request = w;
                  found = found;
                  again = λ h. ground arith;
                  paid = λ _. (p, rw (ledger_same) paid, refl);
                  returned = refl;
                  stored = law;
                  has_entry = refl;
                })

  approve_unpaid-IsApproved :
      is_some w.account_tx_id ≡ false
      → (b : Bool)
      → Ensures (IsApproved id admin_id d) (approve_unpaid clock id w dto_note admin_id b d)
  unfolding approve_unpaid
  approve_unpaid-IsApproved unpaid true = pay_out-IsApproved unpaid
  approve_unpaid-IsApproved unpaid false = tt

  approve_found-IsApproved :
      (b : Bool)
      → is_some w.account_tx_id ≡ b
      → Ensures (IsApproved id admin_id d) (approve_found clock id w dto_note admin_id b d)
  unfolding approve_found
  approve_found-IsApproved true h = record {
    request = w;
    found = found;
    again = λ _. refl;
    paid = λ u. ground arith;
    returned = refl;
    stored = found;
    has_entry = h;
  }
  approve_found-IsApproved false h = approve_unpaid-IsApproved h (may_approve w.status)

find_withdrawal-found :
    (id : ℕ) (d : Db) (w : WithdrawRequest)
    → find_unique id d.withdrawals ≡ some w
    → find_withdrawal id d ≡ ok (w, d)
unfolding find_withdrawal
find_withdrawal-found id d w e = rw (e, find_withdrawal) refl

find_withdrawal-Found :
    (id : ℕ) (d : Db)
    → Ensures (λ w d'. (find_unique id d.withdrawals ≡ some w) × (d' ≡ d)) (find_withdrawal id d)
unfolding find_withdrawal
find_withdrawal-Found id d = elim (Option-cases (find_unique id d.withdrawals)) [
  | inl e ↦ ground (arith, e)
  | inr (w, e) ↦ subst (Ensures _) (sym (find_withdrawal-found id d w e)) (e, refl)
]

-- On a sound ledger an approval that goes through answers for the request of that id, which then
-- carries an entry. If it had one before, nothing at all changes. If it had none, the ledger stays
-- sound, an account of the user pays exactly the amount, all others keep their balances, and the
-- request carries the entry of the payment.
pub approve_in_tx-IsApproved :
    (clock : Clock) (id : ℕ) (dto_note : Option Text) (admin_id : ℕ) (d : Db)
    → IsSound d.ledger
    → Ensures (IsApproved id admin_id d) (approve_in_tx clock id dto_note admin_id d)
unfolding approve_in_tx find_withdrawal
approve_in_tx-IsApproved clock id dto_note admin_id d v =
    Ensures-bind (λ w d'. (find_unique id d.withdrawals ≡ some w) × (d' ≡ d))
      (IsApproved id admin_id d) (find_withdrawal id) _ d (find_withdrawal-Found id d)
      λ w d' (e, same).
        rw same (
          approve_found-IsApproved clock id dto_note admin_id d v w e (is_some w.account_tx_id)
            refl)
