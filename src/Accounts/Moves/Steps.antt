-- ===== src/Accounts/Moves/Steps.antt =====
-- The steps of a booking, each with what it adds to the entries and the accounts so far.
use gold_nest.Accounts.Reserving.Keeps.{IsSettled}
use gold_nest.Int.{◌-ℤ◌}
use gold_nest.Accounts.Posting.Keeps.{IsPosted, apply_transaction-IsPosted}
use gold_nest.Accounts.Ledger.Opening.{IsOpened, get_or_create_account-IsOpened}
use gold_nest.Tx.Ensures.{Ensures, Ensures-bind}
use gold_nest.Tx.{Tx, Error, pure, throw_if, ◌>>=◌}
use gold_nest.Table.{Row, find_first, find_unique}
use gold_nest.Accounts.Reserving.Funds.{IsClosed, is_open, consume_funds-IsClosed}
use gold_nest.Accounts.Posting.{TxInput, PostedTx, apply_transaction}
use gold_nest.Accounts.Soundness.{IsSound, is_reserved}
use gold_nest.Accounts.Reserving.{Held, consume_funds, same_key}
use gold_nest.Accounts.Ledger.{
  Ledger, TxRefType, ReservationStatus, Account, get_or_create_account, consumed, reserved,
  released, Reservation,
}
use gold_nest.Base.{
  ℕ, ◌≡◌, Option, List, Bool, [], some, Bool-cases, Option-cases, arith, none, true, ◌∷◌, false,
  some_unique, ap, ◌∙◌, refl, ◌==◌, ==_iff,
}
use gold_nest.Accounts.Moves.{
  HasPosted, Owns, HasPosted-none, inl, inr, HasPosted-opened, HasPosted-posted,
}

module _ {B : Type 0} (R : B → Ledger → Type 0) (ws : List (ℕ × ℕ)) (is : List TxInput)
    (l m : Ledger) (h : HasPosted ws is l m) where
  pub open-then :
      (u code : ℕ) (f : Row Account → Tx Ledger B)
      → ((row : Row Account) (l' : Ledger)
          → HasPosted ((u, row.0) ∷ ws) is l l'
          → Ensures R (f row l'))
      → Ensures R ((get_or_create_account u code >>= f) m)
  open-then u code f k =
      Ensures-bind (IsOpened u m) R (get_or_create_account u code) f m
        (get_or_create_account-IsOpened u code m h.sound)
        (λ row l' o. k row l' (HasPosted-opened ws is u l m l' row h o))

  pub post-then :
      (i : TxInput) (f : PostedTx → Tx Ledger B)
      → ((p : PostedTx) (l' : Ledger) → HasPosted ws (i ∷ is) l l' → Ensures R (f p l'))
      → Ensures R ((apply_transaction i >>= f) m)
  post-then i f k =
      Ensures-bind (IsPosted i m) R (apply_transaction i) f m
        (apply_transaction-IsPosted i m h.sound)
        (λ p l' q. k p l' (HasPosted-posted ws is i l m l' p h q))

  pub check-then :
      (b : Bool) (e : Error) (f : Unit {0} → Tx Ledger B)
      → Ensures R (f tt m)
      → Ensures R ((throw_if b e >>= f) m)
  check-then true e f k = tt
  check-then false e f k = k

-- `consumed?.account ?? await getOrCreateAccount(…)`
abbrev pub payer_account : ℕ → ℕ → Option Held → Tx Ledger (Row Account)
payer_account u code none = get_or_create_account u code
payer_account u code (some h) = pure h.account

is_reserved-reserved : (s : ReservationStatus) → is_reserved s ≡ true → s ≡ reserved
is_reserved-reserved reserved e = refl
is_reserved-reserved consumed e = cc
is_reserved-reserved released e = cc

module _ (u : ℕ) (rt : TxRefType) (rid : ℕ) (l : Ledger) (status : ReservationStatus)
    (x : Option Held) (l' : Ledger) (c : IsClosed u rt rid status l x l') where
  pub closed-HasPosted : HasPosted [] [] l l'
  closed-HasPosted = HasPosted-none l l' c.sound c.balances_kept c.entries_kept

  settled-stands :
      (k : ℕ) (r : Reservation)
      → IsSettled c.row.0 k r status c.opened x l'
      → (id : ℕ) (a : Account) → find_unique id c.opened.accounts ≡ some a
      → (b : Account) × (find_unique id l'.accounts ≡ some b)
        × (b.user_id ≡ a.user_id)
        × (b.instrument_id ≡ a.instrument_id)
  settled-stands k r s id a e = elim (Bool-cases (c.row.0 == id)) [
    | inl this ↦
        let at_id : c.row.0 ≡ id = (==_iff c.row.0 id).0 this in
        let was = s.was in
        let becomes = s.becomes in
        let same : s.old ≡ a = some_unique _ s.old a (rw (← at_id) was) e in
        (
          record s.old { blocked_balance = s.old.blocked_balance -ℤ r.amount },
          rw (← at_id) becomes,
          ap (λ (a : Account). a.user_id) same,
          ap (λ (a : Account). a.instrument_id) same,
        )
    | inr other ↦ (a, s.others id other ∙ e, refl, refl)
  ]

  -- Closing a reservation leaves every account where it is, with its user and its instrument.
  pub closed-stands :
      (id : ℕ) (a : Account)
      → find_unique id l.accounts ≡ some a
      → (b : Account) × (find_unique id l'.accounts ≡ some b)
        × (b.user_id ≡ a.user_id)
        × (b.instrument_id ≡ a.instrument_id)
  closed-stands id a e =
      let found = find_first (same_key rt rid c.row.0) c.opened.reservations in
      let o = c.opening in
      elim (Bool-cases (is_open found)) [
        | inl open_one ↦ elim (Option-cases found) [
          | inl missing ↦ absurd (ground arith)
          | inr (r, at_r) ↦
              settled-stands r.0 r.1
                (c.closing r.0 r.1 at_r (is_reserved-reserved r.1.status (ground arith))) id a
                (o.kept id a e)
        ]
        | inr shut ↦ let same = c.idle shut in (a, rw (same) (o.kept id a e), refl, refl)
      ]

  closed_row : Owns l' (u, c.row.0)
  closed_row =
      elim (Bool-cases (is_open (find_first (same_key rt rid c.row.0) c.opened.reservations))) [
        | inl open_one ↦
            elim (Option-cases (find_first (same_key rt rid c.row.0) c.opened.reservations)) [
              | inl missing ↦ absurd (ground arith)
              | inr (r, e) ↦
                  let status_of : r.1.status ≡ reserved =
                    is_reserved-reserved r.1.status (ground arith) in
                  let s = c.closing r.0 r.1 e status_of in
                  let o = c.opening in
                  let same : s.old ≡ c.row.1 = some_unique _ s.old c.row.1 s.was o.stored in
                  (
                    record s.old { blocked_balance = s.old.blocked_balance -ℤ r.1.amount },
                    s.becomes,
                    ap (λ (a : Account). a.user_id) same ∙ o.owner,
                  )
            ]
        | inr shut ↦
            let same = c.idle shut in let o = c.opening in (c.row.1, rw (same) o.stored, o.owner)
      ]

  pub closed_owner : (y : Held) → x ≡ some y → Owns l' (u, y.account.0)
  closed_owner y e = rw (c.returned y e) closed_row

module _ {B : Type 0} (R : B → Ledger → Type 0) (u code : ℕ) (rt : TxRefType) (rid : ℕ) (l : Ledger)
    (v : IsSound l) where
  pub consume-then :
      (f : Option Held → Tx Ledger B)
      → ((x : Option Held) (l' : Ledger) → HasPosted [] [] l l' → Ensures R (f x l'))
      → Ensures R ((consume_funds u code rt rid >>= f) l)
  consume-then f k =
      Ensures-bind (IsClosed u rt rid consumed l) R (consume_funds u code rt rid) f l
        (consume_funds-IsClosed u code rt rid l v)
        (λ x l' c. k x l' (closed-HasPosted u rt rid l consumed x l' c))

  payer-then :
      (x : Option Held) (m : Ledger) (f : Row Account → Tx Ledger B)
      → HasPosted [] [] l m
      → ((y : Held) → x ≡ some y → Owns m (u, y.account.0))
      → ((row : Row Account) (l' : Ledger)
          → HasPosted ((u, row.0) ∷ []) [] l l'
          → Ensures R (f row l'))
      → Ensures R ((payer_account u code x >>= f) m)
  payer-then none m f h own k = open-then R [] [] l m h u code f k
  payer-then (some y) m f h own k = k y.account m (record {
    sound = h.sound;
    balances = h.balances;
    owners = (own y refl, tt);
    entered = h.entered;
  })

  -- The account of a consumed reservation, or the user's account where there was none.
  pub consume_payer-then :
      (f : Row Account → Tx Ledger B)
      → ((row : Row Account) (l' : Ledger)
          → HasPosted ((u, row.0) ∷ []) [] l l'
          → Ensures R (f row l'))
      → Ensures R ((consume_funds u code rt rid >>= λ x. payer_account u code x >>= f) l)
  consume_payer-then f k =
      Ensures-bind (IsClosed u rt rid consumed l) R (consume_funds u code rt rid)
        (λ x. payer_account u code x >>= f) l (consume_funds-IsClosed u code rt rid l v)
        (λ x m c.
          payer-then x m f (closed-HasPosted u rt rid l consumed x m c)
            (closed_owner u rt rid l consumed x m c) k)
