-- ===== src/Trades/Reversing/Restored.antt =====
-- That reversing a trade takes back what its entries did.
use gold_nest.Table.Sums.{sum_rows}
use gold_nest.Int.{◌+ℤ◌, int_laws}
use gold_nest.Accounts.Moves.{HasPosted, delta_on, HasPosted-posted, HasPosted-none}
use gold_nest.Tx.Ensures.{Ensures, Ensures-bind, Ensures-map}
use gold_nest.Tx.{for_each, pure}
use gold_nest.Accounts.Posting.Keeps.{IsPosted, apply_transaction-IsPosted}
use gold_nest.Accounts.Soundness.{IsSound, balance_at, entry_on}
use gold_nest.Accounts.Posting.{PostedTx, TxInput, apply_transaction}
use gold_nest.Trades.Reversing.{
  entries_of, reverse_entries, reverse_one, reverse_unless, reversal_of, reverses,
}
use gold_nest.Table.{Table, Row, find_first}
use gold_nest.Accounts.Ledger.{Ledger, AccountTx}
use gold_nest.Base.{
  ℕ, Option, ◌∷◌, All, List, ◌==◌, ◌≡◌, [], false, none, arith, Bool-cases, inl, refl, inr, subst,
  is_some, sym,
}

-- The ids of the rows differ.
abbrev pub Distinct : {R : Type 0} → Table R → Type 0
Distinct [] = Unit {0}
Distinct (r ∷ rs) = All (λ (x : Row _). (r.0 == x.0) ≡ false) rs × Distinct rs

-- The entries of the trade have different ids, and none of them has been reversed.
abbrev pub IsReversible : ℕ → Ledger → Type 0
IsReversible id l =
    Distinct (entries_of id l)
    × All (λ (t : Row AccountTx). find_first (reverses t.0) l.account_txs ≡ none) (entries_of id l)

abbrev reversals : ℕ → Option ℕ → Table AccountTx → List TxInput → List TxInput
reversals id admin_id [] is = is
reversals id admin_id (t ∷ ts) is = reversals id admin_id ts (reversal_of id admin_id t ∷ is)

module _ (id : ℕ) (admin_id : Option ℕ) where
  still_unreversed :
      (t : Row AccountTx) (m : Ledger) (p : PostedTx) (l' : Ledger)
      → IsPosted (reversal_of id admin_id t) m p l'
      → (ts : Table AccountTx) → All (λ (x : Row AccountTx). (t.0 == x.0) ≡ false) ts
      → All (λ (x : Row AccountTx). find_first (reverses x.0) m.account_txs ≡ none) ts
      → All (λ (x : Row AccountTx). find_first (reverses x.0) l'.account_txs ≡ none) ts
  still_unreversed t m p l' q [] a b = tt
  still_unreversed t m p l' q (x ∷ xs) a b =
      (rw (q.entered) (ground (arith, a.0, b.0)), still_unreversed t m p l' q xs a.1 b.1)

  reverse_one-IsPosted :
      (t : Row AccountTx) (m : Ledger)
      → IsSound m
      → find_first (reverses t.0) m.account_txs ≡ none
      → Ensures
          (λ _ l'. (p : PostedTx) × IsPosted (reversal_of id admin_id t) m p l')
          (reverse_one id admin_id t m)
  unfolding reverse_one reverse_unless
  reverse_one-IsPosted t m v free =
      subst
        (λ o.
          Ensures (λ _ l'. (p : PostedTx) × IsPosted (reversal_of id admin_id t) m p l')
            (reverse_unless id admin_id t (is_some o) m))
        (sym free)
        (Ensures-bind (IsPosted (reversal_of id admin_id t) m) _
          (apply_transaction (reversal_of id admin_id t)) (λ _. pure tt) m
          (apply_transaction-IsPosted (reversal_of id admin_id t) m v) (λ p l' q. (p, q)))

  loop-HasPosted :
      (ts : Table AccountTx) (is : List TxInput) (l m : Ledger)
      → HasPosted [] is l m
      → Distinct ts
      → All (λ (t : Row AccountTx). find_first (reverses t.0) m.account_txs ≡ none) ts
      → Ensures
          (λ _ l'. HasPosted [] (reversals id admin_id ts is) l l')
          (for_each ts (reverse_one id admin_id) m)
  loop-HasPosted [] is l m h a b = h
  loop-HasPosted (t ∷ ts) is l m h a b =
      Ensures-bind (λ _ l'. (p : PostedTx) × IsPosted (reversal_of id admin_id t) m p l') _
        (reverse_one id admin_id t) (λ _. for_each ts (reverse_one id admin_id)) m
        (reverse_one-IsPosted t m h.sound b.0)
        (λ _ l' (p, q).
          loop-HasPosted ts (reversal_of id admin_id t ∷ is) l l'
            (HasPosted-posted [] is _ l m l' p h q) a.1 (still_unreversed t m p l' q ts a.0 b.1))

  delta_on-reversals :
      (j : ℕ) (ts : Table AccountTx) (is : List TxInput)
      → delta_on j (reversals id admin_id ts is) +ℤ sum_rows (entry_on j) ts ≡ delta_on j is
  delta_on-reversals j [] is = grind int_laws
  delta_on-reversals j ((k, t) ∷ ts) is =
      let rest = delta_on-reversals j ts (reversal_of id admin_id (k, t) ∷ is) in
      elim (Bool-cases (t.account_id == j)) [
        | inl this ↦ grind (int_laws, rest)
        | inr other ↦ grind (int_laws, rest)
      ]

  -- On a sound ledger, where the entries of the trade have different ids and none has been reversed,
  -- a reversal that goes through takes from every balance what the entries of the trade have put
  -- on it, and keeps the ledger sound.
  pub reverse_entries-balances :
      (l : Ledger)
      → IsSound l
      → IsReversible id l
      → Ensures
          (λ _ l'.
            IsSound l'
            × ((j : ℕ)
                → balance_at j l'.accounts +ℤ sum_rows (entry_on j) (entries_of id l)
                  ≡ balance_at j l.accounts))
          (reverse_entries id admin_id l)
  unfolding reverse_entries
  reverse_entries-balances l v r =
      Ensures-map (λ _ l'. HasPosted [] (reversals id admin_id (entries_of id l) []) l l') _ _
        (λ _ l' h. (
          h.sound,
          λ j.
              (let law = delta_on-reversals j (entries_of id l) [] in
                let moved = h.balances j in grind int_laws),
        ))
        (loop-HasPosted (entries_of id l) [] l l (HasPosted-none l l v (λ j. refl) refl) r.0 r.1)
