-- ===== src/Trades/Reversing/Roundtrip.antt =====
-- That approving a trade and reversing it leaves every balance where it was.
use gold_nest.Trades.Booking.Exchange.{IsExchanged, paid_by, received_by, book_side-IsExchanged}
use gold_nest.Tx.Ensures.{Ensures, Ensures-ok, Ensures-map}
use gold_nest.Trades.Reversing.Restored.{IsReversible, reverse_entries-balances}
use gold_nest.Tx.{ok}
use gold_nest.Trades.Booking.{credit_of, debit_of, book_side}
use gold_nest.Accounts.Soundness.{IsSound, entry_on, balance_at}
use gold_nest.Accounts.Moves.{HasPosted, entries, delta_on}
use gold_nest.Trades.Reversing.{of_trade, oldest_first, entries_of, reverse_entries}
use gold_nest.Table.Sums.{sum_rows}
use gold_nest.Table.{Table, find_many}
use gold_nest.Accounts.Posting.{TxInput, entry_of}
use gold_nest.Records.{TradeSide}
use gold_nest.Int.{ℤ, pos, ◌+ℤ◌, int_laws, pos_part, neg_part, eq_of_parts}
use gold_nest.Accounts.Ledger.{AccountTx, Ledger}
use gold_nest.Base.{
  ℕ, List, Bool, Option, All, ◌∷◌, if◌then◌else◌, ◌≡◌, [], true, Bool-cases, arith, map, ==_refl,
  inl, ◌++◌, inr, sym, ◌==◌, refl, ◌∙◌, ap, some,
}

abbrev sum_by : ℕ → (AccountTx → Bool) → List AccountTx → ℤ
sum_by j p [] = pos 0
sum_by j p (t ∷ ts) = (if p t then entry_on j t else pos 0) +ℤ sum_by j p ts

sum_rows-find_many :
    (j : ℕ) (p : AccountTx → Bool) (ts : Table AccountTx)
    → sum_rows (entry_on j) (find_many p ts) ≡ sum_by j p (entries ts)
sum_rows-find_many j p [] = refl
sum_rows-find_many j p ((k, t) ∷ ts) =
    let rest = sum_rows-find_many j p ts in
    elim (Bool-cases (p t)) [
      | inl this ↦ grind (int_laws, rest)
      | inr other ↦ grind (int_laws, rest)
    ]

sum_rows-oldest_first :
    (c : AccountTx → ℤ) (xs acc : Table AccountTx)
    → sum_rows c (oldest_first xs acc) ≡ sum_rows c xs +ℤ sum_rows c acc
sum_rows-oldest_first c [] acc = grind int_laws
sum_rows-oldest_first c ((k, t) ∷ xs) acc =
    let rest = sum_rows-oldest_first c xs ((k, t) ∷ acc) in grind (int_laws, rest)

sum_by-posted :
    (j : ℕ) (p : AccountTx → Bool) (is : List TxInput) (ts : List AccountTx)
    → All (λ (i : TxInput). p (entry_of i) ≡ true) is
    → sum_by j p (map entry_of is ++ ts) ≡ delta_on j is +ℤ sum_by j p ts
sum_by-posted j p [] ts a = grind int_laws
sum_by-posted j p (i ∷ is) ts a =
    let rest = sum_by-posted j p is ts a.1 in
    let here = a.0 in
    elim (Bool-cases (i.account_id == j)) [
      | inl this ↦ grind (int_laws, rest, here)
      | inr other ↦ grind (int_laws, rest, here)
    ]

-- The sum of the trade's entries on an account, where nothing but `is` has been posted for it.
module _ (id j : ℕ) (ws : List (ℕ × ℕ)) (is : List TxInput) (l l' : Ledger) where
  sum_of_trade :
      HasPosted ws is l l'
      → All (λ (i : TxInput). of_trade id (entry_of i) ≡ true) is
      → find_many (of_trade id) l.account_txs ≡ []
      → sum_rows (entry_on j) (entries_of id l') ≡ delta_on j is
  sum_of_trade h a none_yet =
      let before : sum_by j (of_trade id) (entries l.account_txs) ≡ pos 0 =
        sym (sum_rows-find_many j (of_trade id) l.account_txs)
        ∙ ap (sum_rows (entry_on j)) none_yet in
      let after = sum_rows-find_many j (of_trade id) l'.account_txs in
      let all = sum_rows-oldest_first (entry_on j) (find_many (of_trade id) l'.account_txs) [] in
      let split = sum_by-posted j (of_trade id) is (entries l.account_txs) a in
      let e = ap (sum_by j (of_trade id)) h.entered in
      grind (int_laws, before, after, all, split, e)

cancel_right : (a b s : ℤ) → a +ℤ s ≡ b +ℤ s → a ≡ b
cancel_right a b s e =
    let p = ap pos_part e in let n = ap neg_part e in eq_of_parts a b (omega int_laws)

cancels : (b0 b1 b2 s delta : ℤ) → b2 +ℤ s ≡ b1 → b1 ≡ b0 +ℤ delta → s ≡ delta → b2 ≡ b0
cancels b0 b1 b2 s delta undone moved same =
    let e = undone ∙ moved ∙ ap (λ z. b0 +ℤ z) (sym same) in cancel_right b2 b0 s e

of_trade-debit :
    (a : ℕ) (x : ℤ) (id : ℕ) (by : Option ℕ) → of_trade id (entry_of (debit_of a x id by)) ≡ true
of_trade-debit a x id by = ground (arith, ==_refl id)

of_trade-credit :
    (a : ℕ) (x : ℤ) (id : ℕ) (by : Option ℕ) → of_trade id (entry_of (credit_of a x id by)) ≡ true
of_trade-credit a x id by = ground (arith, ==_refl id)

abbrev exchanged : ℕ → ℕ → ℕ → ℕ → ℤ → ℤ → ℕ → ℕ → List TxInput
exchanged a b c d paid received id admin_id =
    debit_of d received id (some admin_id)
    ∷ credit_of c received id (some admin_id)
    ∷ credit_of b paid id (some admin_id)
    ∷ debit_of a paid id (some admin_id)
    ∷ []

of_trade-exchanged :
    (a b c d : ℕ) (paid received : ℤ) (id admin_id : ℕ)
    → All
        (λ (i : TxInput). of_trade id (entry_of i) ≡ true)
        (exchanged a b c d paid received id admin_id)
of_trade-exchanged a b c d paid received id admin_id =
    let by = some admin_id in
    (
      of_trade-debit d received id by,
      (
        of_trade-credit c received id by,
        (of_trade-credit b paid id by, (of_trade-debit a paid id by, tt)),
      ),
    )

-- Where a sound ledger has no entry of a trade, the trade is booked, and its entries have different
-- ids and none has been reversed, a reversal that goes through brings every balance back to what it
-- was before the booking, and keeps the ledger sound.
pub reverse_entries-book_side :
    (side : TradeSide) (client_id code id : ℕ) (quantity total : ℤ) (admin_id : ℕ)
    (by_id : Option ℕ) (l l1 : Ledger)
    → IsSound l
    → find_many (of_trade id) l.account_txs ≡ []
    → book_side side client_id code id quantity total admin_id l ≡ ok (tt, l1)
    → IsReversible id l1
    → Ensures
        (λ _ l2. IsSound l2 × ((j : ℕ) → balance_at j l2.accounts ≡ balance_at j l.accounts))
        (reverse_entries id by_id l1)
reverse_entries-book_side side client_id code id quantity total admin_id by_id l l1 v none_yet
      booked r =
    let x =
      Ensures-ok
        (λ _ l'.
          IsExchanged client_id id (paid_by side quantity total) (received_by side quantity total)
            admin_id l l')
        _ tt l1 booked (book_side-IsExchanged side client_id code id quantity total admin_id l v) in
    let h = x.posted in
    let paid = paid_by side quantity total in
    let received = received_by side quantity total in
    Ensures-map
      (λ _ l2.
        IsSound l2
        × ((j : ℕ)
            → balance_at j l2.accounts +ℤ sum_rows (entry_on j) (entries_of id l1)
              ≡ balance_at j l1.accounts))
      (λ _ l2. IsSound l2 × ((j : ℕ) → balance_at j l2.accounts ≡ balance_at j l.accounts))
      (reverse_entries id by_id l1)
      (λ _ l2 (sound, back). (
        sound,
        λ j.
            (let same =
                sum_of_trade id j _
                  (exchanged x.paying x.house_paid x.receiving x.house_paying paid received id
                    admin_id)
                  l l1 h
                  (of_trade-exchanged x.paying x.house_paid x.receiving x.house_paying paid received
                    id admin_id)
                  none_yet in
              cancels _ _ _ _ _ (back j) (h.balances j) same),
      ))
      (reverse_entries-balances id by_id l1 h.sound r)
