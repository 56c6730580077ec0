-- ===== src/Accounts/Posting/Keeps.antt =====
-- `applyTransaction` posts one entry and keeps the ledger sound.
use gold_nest.Base.{
  ℕ, suc, ◌≡◌, refl, false, ◌==◌, if◌then◌else◌, some, ◌∷◌, arith, inl, inr, Bool-cases,
  Option-cases,
}
use gold_nest.Int.{◌+ℤ◌, ◌≤ℤ◌, int_laws}
use gold_nest.Table.{find_unique, update, find_unique-update_self, find_unique-update_ne}
use gold_nest.Table.Keys.{Below-mono, find_unique_bound, update-Below}
use gold_nest.Tx.Ensures.{Ensures}
use gold_nest.Accounts.Ledger.{Account, Ledger}
use gold_nest.Accounts.Posting.{TxInput, PostedTx, apply_transaction, entry_of}
use gold_nest.Accounts.Soundness.{IsSound, fresh_id, IsBacked-update, balance_at}

-- What a transaction that went through has done.
pub record IsPosted (i : TxInput) (l : Ledger) (p : PostedTx) (l' : Ledger) : Type 0 where
  pub old : Account
  pub was : find_unique i.account_id l.accounts ≡ some old
  pub becomes :
      find_unique i.account_id l'.accounts ≡ some (record old { balance = old.balance +ℤ i.delta })
  pub returned : p.account ≡ (i.account_id, record old { balance = old.balance +ℤ i.delta })
  pub others :
      (j : ℕ) → (i.account_id == j) ≡ false → find_unique j l'.accounts ≡ find_unique j l.accounts
  pub reservations_kept : l'.reservations ≡ l.reservations
  pub entered : l'.account_txs ≡ (p.tx_id, entry_of i) ∷ l.account_txs
  pub sound : IsSound l'

module _ (i : TxInput) (l : Ledger) (v : IsSound l) (a : Account)
    (e : find_unique i.account_id l.accounts ≡ some a) where
  posted_ledger : Ledger
  posted_ledger = record l {
    accounts =
        update i.account_id (λ (x : Account). record x { balance = a.balance +ℤ i.delta })
          l.accounts;
    account_txs = (l.next_id, entry_of i) ∷ l.account_txs;
    next_id = suc l.next_id;
  }

  posted-IsSound :
      a.blocked_balance +ℤ a.min_balance ≤ℤ a.balance +ℤ i.delta → IsSound posted_ledger
  unfolding posted_ledger
  posted-IsSound cover = record {
    backed =
        IsBacked-update l l.reservations ((l.next_id, entry_of i) ∷ l.account_txs) i.account_id _ a
          v e
          (record {
            blocked = (v.backed i.account_id a e).blocked;
            posted = grind (int_laws, (v.backed i.account_id a e).posted);
            covered = cover;
          })
          (λ j _. refl) (λ j h. grind int_laws);
    account_ids =
        Below-mono l.next_id _ _ (omega arith)
          (update-Below l.next_id i.account_id _ l.accounts v.account_ids);
    reservation_ids = (fresh_id l v).reservation_ids;
    not_negative = v.not_negative;
    reservations_owned = (fresh_id l v).reservations_owned;
    entries_owned = (
      omega (arith, find_unique_bound l.next_id i.account_id l.accounts a v.account_ids e),
      (fresh_id l v).entries_owned,
    );
  }

  posted_ledger-IsPosted :
      a.blocked_balance +ℤ a.min_balance ≤ℤ a.balance +ℤ i.delta
      → IsPosted i l
          (record {
            tx_id = l.next_id;
            account = (i.account_id, record a { balance = a.balance +ℤ i.delta });
          })
          posted_ledger
  unfolding posted_ledger
  posted_ledger-IsPosted cover = record {
    old = a;
    was = e;
    becomes = find_unique-update_self i.account_id _ l.accounts a e;
    returned = refl;
    others = λ j h. find_unique-update_ne j i.account_id _ l.accounts h;
    reservations_kept = refl;
    entered = refl;
    sound = posted-IsSound cover;
  }

  post_found : Ensures (IsPosted i l) (apply_transaction i l)
  unfolding apply_transaction posted_ledger
  post_found = ground (arith, e, posted_ledger-IsPosted)

-- On a sound ledger a transaction that goes through adds exactly its delta to the account that it names
-- and enters exactly one entry; no other account and no reservation changes, and the ledger stays
-- sound.
pub apply_transaction-IsPosted :
    (i : TxInput) (l : Ledger) → IsSound l → Ensures (IsPosted i l) (apply_transaction i l)
unfolding apply_transaction
apply_transaction-IsPosted i l v = elim (Option-cases (find_unique i.account_id l.accounts)) [
  | inl missing ↦ ground (arith, missing)
  | inr (a, e) ↦ post_found i l v a e
]

-- The balances behind a transaction.
pub IsPosted-balance_at :
    (i : TxInput) (l : Ledger) (p : PostedTx) (l' : Ledger)
    → IsPosted i l p l'
    → (j : ℕ)
    → balance_at j l'.accounts
      ≡ (if i.account_id == j then balance_at j l.accounts +ℤ i.delta else balance_at j l.accounts)
IsPosted-balance_at i l p l' h j = elim (Bool-cases (i.account_id == j)) [
  | inl this ↦ (let was = h.was in let becomes = h.becomes in ground arith)
  | inr other ↦ (let same = h.others j other in ground arith)
]
