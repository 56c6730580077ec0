-- ===== src/Accounts/Moves.antt =====
-- What a run of src/modules/accounts/accounts.service.ts posts, whatever accounts it opens and
-- whatever reservations it closes on the way. The services that book several entries are
-- described by the list of what they post.
pub mod Steps
use gold_nest.Base.{
  ℕ, ◌≡◌, refl, sym, ap, ◌∙◌, List, [], ◌∷◌, ◌++◌, map, some, ◌==◌, if◌then◌else◌, All, Bool-cases,
  inl, ==_iff, some_unique, inr,
}
use gold_nest.Int.{ℤ, pos, ◌+ℤ◌, int_laws}
use gold_nest.Table.{Row, Table, find_unique}
use gold_nest.Table.Sums.{sum_rows}
use gold_nest.Accounts.Ledger.{Account, AccountTx, Ledger}
use gold_nest.Accounts.Ledger.Opening.{IsOpened}
use gold_nest.Accounts.Posting.{TxInput, PostedTx, entry_of}
use gold_nest.Accounts.Posting.Keeps.{IsPosted, IsPosted-balance_at}
use gold_nest.Accounts.Soundness.{IsSound, balance_at}

-- The newest first, as in the table of the entries.
abbrev pub delta_on : ℕ → List TxInput → ℤ
delta_on j [] = pos 0
delta_on j (i ∷ is) = if i.account_id == j then delta_on j is +ℤ i.delta else delta_on j is

abbrev pub total_delta : List TxInput → ℤ
total_delta [] = pos 0
total_delta (i ∷ is) = i.delta +ℤ total_delta is

abbrev pub entries : Table AccountTx → List AccountTx
entries [] = []
entries ((k, t) ∷ ts) = t ∷ entries ts

-- The account of id `w.1` is there and is the user `w.0`'s.
abbrev pub Owns : Ledger → ℕ × ℕ → Type 0
Owns l w = (a : Account) × (find_unique w.1 l.accounts ≡ some a) × (a.user_id ≡ w.0)

-- Exactly the entries of `is` are new, each balance moves by what they say of it, the
-- ledger is sound afterwards, and each account of `ws` belongs to the user named with it.
pub record HasPosted (ws : List (ℕ × ℕ)) (is : List TxInput) (l l' : Ledger) : Type 0 where
  pub sound : IsSound l'
  pub balances : (j : ℕ) → balance_at j l'.accounts ≡ balance_at j l.accounts +ℤ delta_on j is
  pub owners : All (Owns l') ws
  pub entered : entries l'.account_txs ≡ map entry_of is ++ entries l.account_txs

nothing_moves : (a : ℤ) → a ≡ a +ℤ pos 0
nothing_moves a = grind int_laws

pub HasPosted-none :
    (l l' : Ledger)
    → IsSound l'
    → ((j : ℕ) → balance_at j l'.accounts ≡ balance_at j l.accounts)
    → l'.account_txs ≡ l.account_txs
    → HasPosted [] [] l l'
HasPosted-none l l' v b e = record {
  sound = v;
  balances = λ j. b j ∙ nothing_moves _;
  owners = tt;
  entered = ap entries e;
}

All-map :
    {P Q : ℕ × ℕ → Type 0} → ((w : ℕ × ℕ) → P w → Q w) → (ws : List (ℕ × ℕ)) → All P ws → All Q ws
All-map f [] h = tt
All-map f (w ∷ ws) h = (f w h.0, All-map f ws h.1)

-- Opening a further account posts nothing, and the account is the user's.
pub HasPosted-opened :
    (ws : List (ℕ × ℕ)) (is : List TxInput) (u : ℕ) (l m l' : Ledger) (row : Row Account)
    → HasPosted ws is l m
    → IsOpened u m row l'
    → HasPosted ((u, row.0) ∷ ws) is l l'
HasPosted-opened ws is u l m l' row h o = record {
  sound = o.sound;
  balances = λ j. o.balances_kept j ∙ h.balances j;
  owners = (
    (row.1, o.stored, o.owner),
    All-map (λ w (a, e, mine). (a, o.kept w.1 a e, mine)) ws h.owners,
  );
  entered = ap entries o.entries_kept ∙ h.entered;
}

-- A posting leaves every account where it is, with its user and its instrument.
pub stands-posted :
    (i : TxInput) (m : Ledger) (p : PostedTx) (l' : Ledger)
    → IsPosted i m p l'
    → (id : ℕ) (a : Account) → find_unique id m.accounts ≡ some a
    → (b : Account) × (find_unique id l'.accounts ≡ some b)
      × (b.user_id ≡ a.user_id)
      × (b.instrument_id ≡ a.instrument_id)
stands-posted i m p l' q id a e = elim (Bool-cases (i.account_id == id)) [
  | inl this ↦
      let at_id : i.account_id ≡ id = (==_iff i.account_id id).0 this in
      let becomes = q.becomes in
      let was = q.was in
      let same : q.old ≡ a = some_unique _ q.old a (rw (← at_id) was) e in
      (
        record q.old { balance = q.old.balance +ℤ i.delta },
        rw (← at_id) becomes,
        ap (λ (x : Account). x.user_id) same,
        ap (λ (x : Account). x.instrument_id) same,
      )
  | inr other ↦ (a, q.others id other ∙ e, refl, refl)
]

Owns-posted :
    (i : TxInput) (m : Ledger) (p : PostedTx) (l' : Ledger)
    → IsPosted i m p l'
    → (w : ℕ × ℕ) → Owns m w
    → Owns l' w
Owns-posted i m p l' q w (a, e, mine) =
    let (b, stored, user, _) = stands-posted i m p l' q w.1 a e in (b, stored, user ∙ mine)

pub HasPosted-posted :
    (ws : List (ℕ × ℕ)) (is : List TxInput) (i : TxInput) (l m l' : Ledger) (p : PostedTx)
    → HasPosted ws is l m
    → IsPosted i m p l'
    → HasPosted ws (i ∷ is) l l'
HasPosted-posted ws is i l m l' p h q = record {
  sound = q.sound;
  balances = λ j.
      (let after = IsPosted-balance_at i m p l' q j in let before = h.balances j in grind int_laws);
  owners = All-map (Owns-posted i m p l' q) ws h.owners;
  entered = ap entries q.entered ∙ ap (λ ts. entry_of i ∷ ts) h.entered;
}

sum_entries : List AccountTx → ℤ
sum_entries [] = pos 0
sum_entries (t ∷ ts) = t.delta +ℤ sum_entries ts

abbrev pub sum_of_entries : Ledger → ℤ
sum_of_entries l = sum_rows (λ (t : AccountTx). t.delta) l.account_txs

sum_entries-sum_rows :
    (ts : Table AccountTx) → sum_entries (entries ts) ≡ sum_rows (λ (t : AccountTx). t.delta) ts
unfolding sum_entries
sum_entries-sum_rows [] = refl
sum_entries-sum_rows ((k, t) ∷ ts) = ap (λ z. t.delta +ℤ z) (sum_entries-sum_rows ts)

sum_entries-posted :
    (is : List TxInput) (ts : List AccountTx)
    → sum_entries (map entry_of is ++ ts) ≡ total_delta is +ℤ sum_entries ts
unfolding sum_entries
sum_entries-posted [] ts = grind int_laws
sum_entries-posted (i ∷ is) ts = grind (int_laws, sum_entries-posted is ts)

-- Entries that add up to nothing leave the sum of all entries alone.
pub HasPosted-conserved :
    (ws : List (ℕ × ℕ)) (is : List TxInput) (l l' : Ledger)
    → HasPosted ws is l l'
    → total_delta is ≡ pos 0
    → sum_of_entries l' ≡ sum_of_entries l
HasPosted-conserved ws is l l' h z =
    let e = h.entered in
    let a = sum_entries-sum_rows l'.account_txs in
    let b = sum_entries-sum_rows l.account_txs in
    let c = sum_entries-posted is (entries l.account_txs) in
    sym a ∙ ap sum_entries e ∙ c ∙ rw (z, b) (grind int_laws)
