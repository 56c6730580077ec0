-- ===== src/P2p/Settling/Transfer.antt =====
-- What finalising an allocation does to the ledger.
use gold_nest.Accounts.Moves.{stands-posted}
use gold_nest.Accounts.Ledger.Choosing.{IsChosen, get_or_create_account-IsChosen}
use gold_nest.Base.{ℕ, ◌≡◌, ap, ◌∙◌, ◌∷◌, ◌==◌, if◌then◌else◌, some, sym, false, true}
use gold_nest.Int.{ℤ, ◌+ℤ◌, negated, int_laws}
use gold_nest.Table.{Row, find_unique, Table, find_first}
use gold_nest.Table.Sums.{sum_rows}
use gold_nest.Tx.Ensures.{Ensures, Ensures-bind}
use gold_nest.Accounts.Ledger.{
  Account, AccountTx, Ledger, get_or_create_account, irr_instrument_code,
}
use gold_nest.Accounts.Posting.{PostedTx, entry_of, apply_transaction, TxInput}
use gold_nest.Accounts.Posting.Keeps.{IsPosted, apply_transaction-IsPosted, IsPosted-balance_at}
use gold_nest.Accounts.Soundness.{IsSound, balance_at}
use gold_nest.P2p.Settling.{side, transfer}

-- The account of that id is the user's rial account, by the instruments of `l`.
abbrev pub IsRialAccount : ℕ → ℕ → Ledger → Ledger → Type 0
IsRialAccount user_id id l l' =
    (a : Account) × (find_unique id l'.accounts ≡ some a)
    × (a.user_id ≡ user_id)
    × (find_first (λ c. c == irr_instrument_code) l.instruments
        ≡ some (a.instrument_id, irr_instrument_code))

IsRialAccount-posted :
    (u id : ℕ) (l m : Ledger) (i : TxInput) (p : PostedTx) (l' : Ledger)
    → IsPosted i m p l'
    → IsRialAccount u id l m
    → IsRialAccount u id l l'
IsRialAccount-posted u id l m i p l' q (a, e, mine, coded) =
    let (b, stored, user, instrument) = stands-posted i m p l' q id a e in
    (b, stored, user ∙ mine, coded ∙ ap (λ k. some (k, irr_instrument_code)) (sym instrument))

IsRialAccount-chosen :
    (u : ℕ) (l : Ledger) (row : Row Account) (l' : Ledger)
    → IsChosen u irr_instrument_code l row l'
    → IsRialAccount u row.0 l l'
IsRialAccount-chosen u l row l' c = (
  row.1,
  c.opened.stored,
  c.opened.owner,
  ap (λ (t : Table ℕ). find_first (λ k. k == irr_instrument_code) t) (sym c.chosen.1)
      ∙ c.instrument,
)

-- `amount` goes from the withdrawer's rial account to the payer's; the entries as a whole add up to what they did.
pub record IsTransferred (withdrawer_id payer_id id : ℕ) (amount : ℤ) (admin_id : ℕ) (l : Ledger)
    (p : PostedTx × PostedTx) (l' : Ledger) : Type 0 where
  pub sound : IsSound l'
  pub from_withdrawer : IsRialAccount withdrawer_id p.0.account.0 l l'
  pub to_payer : IsRialAccount payer_id p.1.account.0 l l'
  pub balances :
      (j : ℕ)
      → balance_at j l'.accounts ≡ (
          let paid =
            if p.0.account.0 == j
            then balance_at j l.accounts +ℤ negated amount
            else balance_at j l.accounts in
          if p.1.account.0 == j then paid +ℤ amount else paid)
  pub entered :
      l'.account_txs
      ≡ (p.1.tx_id, entry_of (side p.1.account.0 amount false id admin_id))
        ∷ (p.0.tx_id, entry_of (side p.0.account.0 (negated amount) true id admin_id))
        ∷ l.account_txs
  pub conserved :
      sum_rows (λ (t : AccountTx). t.delta) l'.account_txs
      ≡ sum_rows (λ (t : AccountTx). t.delta) l.account_txs

module _ (id : ℕ) (amount : ℤ) (admin_id : ℕ) (l : Ledger) (w x : Row Account) (u u' : ℕ)
    (l1 l2 : Ledger) (c1 : IsChosen u irr_instrument_code l w l1)
    (c2 : IsChosen u' irr_instrument_code l1 x l2) (debit : PostedTx) (l3 : Ledger)
    (q1 : IsPosted (side w.0 (negated amount) true id admin_id) l2 debit l3) (credit : PostedTx)
    (l4 : Ledger) (q2 : IsPosted (side x.0 amount false id admin_id) l3 credit l4) where
  IsTransferred-entered :
      l4.account_txs
      ≡ (credit.tx_id, entry_of (side x.0 amount false id admin_id))
        ∷ (debit.tx_id, entry_of (side w.0 (negated amount) true id admin_id))
        ∷ l.account_txs
  IsTransferred-entered =
      let opened : l2.account_txs ≡ l.account_txs =
        c2.opened.entries_kept ∙ c1.opened.entries_kept in
      rw (← opened, ← q1.entered) q2.entered

  IsTransferred-withdrawer : IsRialAccount u w.0 l l4
  IsTransferred-withdrawer =
      let (a, stored, owner, coded) = IsRialAccount-chosen u l w l1 c1 in
      IsRialAccount-posted u w.0 l l3 _ credit l4 q2 (
        IsRialAccount-posted u w.0 l l2 _ debit l3 q1
          (a, c2.opened.kept w.0 a stored, owner, coded))

  IsTransferred-payer : IsRialAccount u' x.0 l l4
  IsTransferred-payer =
      let (a, stored, owner, coded) = IsRialAccount-chosen u' l1 x l2 c2 in
      let same = ap (λ (t : Table ℕ). find_first (λ k. k == irr_instrument_code) t) c1.chosen.1 in
      IsRialAccount-posted u' x.0 l l3 _ credit l4 q2
        (IsRialAccount-posted u' x.0 l l2 _ debit l3 q1 (a, stored, owner, sym same ∙ coded))

  IsTransferred-of : IsTransferred u u' id amount admin_id l (debit, credit) l4
  IsTransferred-of =
      let at_w : debit.account.0 ≡ w.0 = ap (λ (r : Row Account). r.0) q1.returned in
      let at_x : credit.account.0 ≡ x.0 = ap (λ (r : Row Account). r.0) q2.returned in
      record {
        sound = q2.sound;
        from_withdrawer = rw (at_w) IsTransferred-withdrawer;
        to_payer = rw (at_x) IsTransferred-payer;
        balances = λ j.
            (let first = IsPosted-balance_at _ l2 debit l3 q1 j in
              let second = IsPosted-balance_at _ l3 credit l4 q2 j in
              let same : balance_at j l2.accounts ≡ balance_at j l.accounts =
                c2.opened.balances_kept j ∙ c1.opened.balances_kept j in
              rw (at_w, at_x, ← same, ← first) second);
        entered = rw (at_w, at_x) IsTransferred-entered;
        conserved = rw (IsTransferred-entered) (grind int_laws);
      }

-- On a sound ledger a transfer that goes through takes the amount from the withdrawer's rial account
-- and gives it to the payer's, moves no other balance, enters one debit and one credit on these two
-- accounts whose sum is nothing, and keeps the ledger sound.
pub transfer-IsTransferred :
    (withdrawer_id payer_id id : ℕ) (amount : ℤ) (admin_id : ℕ) (l : Ledger)
    → IsSound l
    → Ensures
        (IsTransferred withdrawer_id payer_id id amount admin_id l)
        (transfer withdrawer_id payer_id id amount admin_id l)
unfolding transfer
transfer-IsTransferred u u' id amount admin_id l v =
    Ensures-bind (IsChosen u irr_instrument_code l) (IsTransferred u u' id amount admin_id l)
      (get_or_create_account u irr_instrument_code) _ l
      (get_or_create_account-IsChosen u irr_instrument_code l v)
      λ w l1 o1.
        Ensures-bind (IsChosen u' irr_instrument_code l1) (IsTransferred u u' id amount admin_id l)
          (get_or_create_account u' irr_instrument_code) _ l1
          (get_or_create_account-IsChosen u' irr_instrument_code l1 o1.opened.sound)
          λ x l2 o2.
            Ensures-bind (IsPosted (side w.0 (negated amount) true id admin_id) l2)
              (IsTransferred u u' id amount admin_id l)
              (apply_transaction (side w.0 (negated amount) true id admin_id)) _ l2
              (apply_transaction-IsPosted (side w.0 (negated amount) true id admin_id) l2
                o2.opened.sound)
              λ debit l3 q1.
                Ensures-bind (IsPosted (side x.0 amount false id admin_id) l3)
                  (IsTransferred u u' id amount admin_id l)
                  (apply_transaction (side x.0 amount false id admin_id)) _ l3
                  (apply_transaction-IsPosted (side x.0 amount false id admin_id) l3 q1.sound)
                  λ credit l4 q2.
                    IsTransferred-of id amount admin_id l w x u u' l1 l2 o1 o2 debit l3 q1 credit l4
                      q2
