-- ===== src/Accounts/Soundness.antt =====
-- What makes the ledger of src/modules/accounts/accounts.service.ts sound: the balance of an
-- account is the sum of its entries, its blocked balance is the sum of the open reservations
-- against it, and the balance covers the blocked and the minimum balance.
use gold_nest.Base.{
  Option, none, some, Bool-cases, inl, inr, ==_iff, subst, sym, ◌∙◌, refl, arith, suc, [], ◌∷◌, ◌≤◌,
  ℕ, ◌≡◌, ◌<◌, Bool, true, false, some, ◌==◌, if◌then◌else◌, All,
}
use gold_nest.Int.{int_laws, ℤ, pos, ◌+ℤ◌, ◌≤ℤ◌}
use gold_nest.Table.{find_unique-update, update, Row, Table, find_unique}
use gold_nest.Table.Sums.{sum_rows-update, sum_rows}
use gold_nest.Table.Keys.{Below-mono, Below}
use gold_nest.Accounts.Ledger.{ReservationStatus, reserved, Account, Reservation, AccountTx, Ledger}

abbrev pub is_reserved : ReservationStatus → Bool
is_reserved reserved = true
is_reserved _ = false

abbrev pub held_on : ℕ → Reservation → ℤ
held_on id r =
    if r.account_id == id then if is_reserved r.status then r.amount else pos 0 else pos 0

abbrev pub entry_on : ℕ → AccountTx → ℤ
entry_on id t = if t.account_id == id then t.delta else pos 0

-- The amount of the open reservations against an account, and the sum of its entries.
abbrev pub reserved_total : ℕ → Table Reservation → ℤ
reserved_total id = sum_rows (held_on id)

abbrev pub posted_total : ℕ → Table AccountTx → ℤ
posted_total id = sum_rows (entry_on id)

-- The balance of an account; 0 where there is none.
abbrev balance_in : Option Account → ℤ
balance_in none = pos 0
balance_in (some a) = a.balance

abbrev pub balance_at : ℕ → Table Account → ℤ
balance_at id accounts = balance_in (find_unique id accounts)

pub record IsBacked (rs : Table Reservation) (ts : Table AccountTx) (id : ℕ) (a : Account)
    : Type 0 where
  pub blocked : a.blocked_balance ≡ reserved_total id rs
  pub posted : a.balance ≡ posted_total id ts
  pub covered : a.blocked_balance +ℤ a.min_balance ≤ℤ a.balance

abbrev pub OwnedBelow : ℕ → Table Reservation → Type 0
OwnedBelow n = All (λ (r : Row Reservation). r.1.account_id < n)

abbrev pub PostedBelow : ℕ → Table AccountTx → Type 0
PostedBelow n = All (λ (t : Row AccountTx). t.1.account_id < n)

abbrev pub NotNegative : Table Reservation → Type 0
NotNegative = All (λ (r : Row Reservation). pos 0 ≤ℤ r.1.amount)

pub record IsSound (l : Ledger) : Type 0 where
  pub backed :
      (id : ℕ) (a : Account)
      → find_unique id l.accounts ≡ some a
      → IsBacked l.reservations l.account_txs id a
  pub account_ids : Below l.next_id l.accounts
  pub reservation_ids : Below l.next_id l.reservations
  pub not_negative : NotNegative l.reservations
  pub reservations_owned : OwnedBelow l.next_id l.reservations
  pub entries_owned : PostedBelow l.next_id l.account_txs

-- Nothing stands against an account that does not exist yet.
pub reserved_total_above :
    (n id : ℕ) (rs : Table Reservation) → OwnedBelow n rs → n ≤ id → reserved_total id rs ≡ pos 0
reserved_total_above n id [] o h = refl
reserved_total_above n id ((k, r) ∷ rs) o h = grind (int_laws, reserved_total_above n id rs o.1 h)

pub posted_total_above :
    (n id : ℕ) (ts : Table AccountTx) → PostedBelow n ts → n ≤ id → posted_total id ts ≡ pos 0
posted_total_above n id [] o h = refl
posted_total_above n id ((k, t) ∷ ts) o h = grind (int_laws, posted_total_above n id ts o.1 h)

pub OwnedBelow-mono : (m n : ℕ) (rs : Table Reservation) → m ≤ n → OwnedBelow m rs → OwnedBelow n rs
OwnedBelow-mono m n [] h o = tt
OwnedBelow-mono m n ((k, r) ∷ rs) h o = (omega arith, OwnedBelow-mono m n rs h o.1)

pub PostedBelow-mono :
    (m n : ℕ) (ts : Table AccountTx) → m ≤ n → PostedBelow m ts → PostedBelow n ts
PostedBelow-mono m n [] h o = tt
PostedBelow-mono m n ((k, t) ∷ ts) h o = (omega arith, PostedBelow-mono m n ts h o.1)

-- A new status leaves the amounts and the owners alone.
pub status-OwnedBelow :
    (n k : ℕ) (s : ReservationStatus) (rs : Table Reservation)
    → OwnedBelow n rs
    → OwnedBelow n (update k (λ r. record r { status = s }) rs)
status-OwnedBelow n k s [] o = tt
status-OwnedBelow n k s ((j, r) ∷ rs) o = ground (arith, status-OwnedBelow n k s rs o.1)

pub status-NotNegative :
    (k : ℕ) (s : ReservationStatus) (rs : Table Reservation)
    → NotNegative rs
    → NotNegative (update k (λ r. record r { status = s }) rs)
status-NotNegative k s [] o = tt
status-NotNegative k s ((j, r) ∷ rs) o = ground (arith, status-NotNegative k s rs o.1)

pub amount_not_negative :
    (k : ℕ) (rs : Table Reservation) (r : Reservation)
    → NotNegative rs
    → find_unique k rs ≡ some r
    → pos 0 ≤ℤ r.amount
amount_not_negative k [] r o e = cc
amount_not_negative k ((j, x) ∷ rs) r o e = ground (arith, amount_not_negative k rs r o.1)

-- With every id below the next one, a larger next id does no harm.
pub fresh_id : (l : Ledger) → IsSound l → IsSound (record l { next_id = suc l.next_id })
fresh_id l v = record {
  backed = v.backed;
  account_ids = Below-mono l.next_id _ l.accounts (omega arith) v.account_ids;
  reservation_ids = Below-mono l.next_id _ l.reservations (omega arith) v.reservation_ids;
  not_negative = v.not_negative;
  reservations_owned =
      OwnedBelow-mono l.next_id _ l.reservations (omega arith) v.reservations_owned;
  entries_owned = PostedBelow-mono l.next_id _ l.account_txs (omega arith) v.entries_owned;
}

-- One account changes; the totals of the others stay.
pub IsBacked-update :
    (l : Ledger) (rs : Table Reservation) (ts : Table AccountTx) (id : ℕ) (f : Account → Account)
    (a : Account)
    → IsSound l
    → find_unique id l.accounts ≡ some a
    → IsBacked rs ts id (f a)
    → ((j : ℕ) → (id == j) ≡ false → reserved_total j rs ≡ reserved_total j l.reservations)
    → ((j : ℕ) → (id == j) ≡ false → posted_total j ts ≡ posted_total j l.account_txs)
    → (j : ℕ) (b : Account) → find_unique j (update id f l.accounts) ≡ some b
    → IsBacked rs ts j b
IsBacked-update l rs ts id f a v e new same_rs same_ts j b h = elim (Bool-cases (id == j)) [
  | inl this ↦
      let law = find_unique-update j id f l.accounts a e in
      let same : f a ≡ b = ground arith in
      let at_j : id ≡ j = (==_iff id j).0 this in
      subst (λ k. IsBacked rs ts k b) at_j (subst (IsBacked rs ts id) same new)
  | inr other ↦
      let law = find_unique-update j id f l.accounts a e in
      let old = v.backed j b (ground arith) in
      record {
        blocked = old.blocked ∙ sym (same_rs j other);
        posted = old.posted ∙ sym (same_ts j other);
        covered = old.covered;
      }
]

-- A new status of a reservation moves its amount out of or into the open total of its account.
pub status-reserved_total :
    (j k : ℕ) (s : ReservationStatus) (rs : Table Reservation) (r : Reservation)
    → find_unique k rs ≡ some r
    → reserved_total j (update k (λ x. record x { status = s }) rs) +ℤ held_on j r
      ≡ reserved_total j rs +ℤ held_on j (record r { status = s })
status-reserved_total j k s rs r e = sum_rows-update (held_on j) k _ rs r e
