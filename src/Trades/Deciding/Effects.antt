-- ===== src/Trades/Deciding/Effects.antt =====
-- What approving, rejecting and cancelling a trade does, and that it happens once.
use gold_nest.Policy.Limits.{consume}
use gold_nest.Policy.LimitBook.{LimitBook}
use gold_nest.Db.Keeps.{in_ledger-Ensures, in_limits-Only}
use gold_nest.Trades.Booking.{book_side}
use gold_nest.Tx.{ok, throw, not_implemented}
use gold_nest.Trades.Booking.Exchange.{IsExchanged, paid_by, received_by, book_side-IsExchanged}
use gold_nest.Accounts.Soundness.{IsSound}
use gold_nest.Tx.Ensures.{Ensures, Ensures-bind}
use gold_nest.Table.{Row, find_unique, Table, find_unique-update_self}
use gold_nest.Accounts.Ledger.{Ledger, TxRefType}
use gold_nest.Trades.Deciding.{
  approve_trade_in_tx, find_trade, approve_by, book, is_pending, update_trade, is_wallet,
}
use gold_nest.Records.{
  Trade, Text, approved, TradeStatus, pending, rejected, cancelled_by_user, cancelled_by_admin,
  settled,
}
use gold_nest.Db.{Db, in_ledger, in_limits}
use gold_nest.Base.{
  ℕ, Option, ◌≡◌, some, Option-cases, or_option, false, inl, refl, true, Bool, arith, if◌then◌else◌,
  inr, subst, sym, ap, ◌∙◌,
}

pub find_trade-found :
    (id : ℕ) (d : Db) (t : Trade) → find_unique id d.trades ≡ some t → find_trade id d ≡ ok (t, d)
unfolding find_trade
find_trade-found id d t e = rw (e, find_trade) refl

pub find_trade-Found :
    (id : ℕ) (d : Db)
    → Ensures (λ t d'. (find_unique id d.trades ≡ some t) × (d' ≡ d)) (find_trade id d)
unfolding find_trade
find_trade-Found id d = elim (Option-cases (find_unique id d.trades)) [
  | inl e ↦ ground (arith, e)
  | inr (t, e) ↦ subst (Ensures _) (sym (find_trade-found id d t e)) (e, refl)
]

-- A booking with what it is about.
abbrev pub Exchanged : ℕ → ℕ → Trade → Ledger → Ledger → Type 0
Exchanged id admin_id t l l' =
    IsExchanged t.client_id id (paid_by t.side t.quantity t.total_amount)
      (received_by t.side t.quantity t.total_amount) admin_id l l'

-- A pending trade settled through the wallet is booked; any other that is not pending stays as it is.
pub record IsApproved (id admin_id : ℕ) (d : Db) (row : Row Trade) (d' : Db) : Type 0 where
  pub trade : Trade
  pub found : find_unique id d.trades ≡ some trade
  pub again : is_pending trade.status ≡ false → (d' ≡ d) × (row.1 ≡ trade)
  pub booked :
      is_pending trade.status ≡ true
      → Exchanged id admin_id trade d.ledger d'.ledger
        × (is_wallet trade.settlement_method ≡ true)
        × (row.1.status ≡ approved)
  pub returned : row.0 ≡ id
  pub stored : find_unique id d'.trades ≡ some row.1

abbrev approved_as : ℕ → Trade → Option Text → ℕ → Trade → Trade
approved_as now t dto_note admin_id x = record x {
  status = approved;
  approved_at = some now;
  approved_by_id = some admin_id;
  admin_note = or_option dto_note t.admin_note;
}

module _ (now id : ℕ) (dto_note : Option Text) (admin_id : ℕ) (d : Db) (v : IsSound d.ledger)
    (t : Trade) (found : find_unique id d.trades ≡ some t) where
  book-IsApproved :
      is_pending t.status ≡ true
      → is_wallet t.settlement_method ≡ true
      → Ensures (IsApproved id admin_id d) (book now id t dto_note admin_id d)
  unfolding book update_trade find_trade
  book-IsApproved fresh by_wallet =
      Ensures-bind (λ _ d1. Exchanged id admin_id t d.ledger d1.ledger × (d1.trades ≡ d.trades))
        (IsApproved id admin_id d)
        (in_ledger
          (book_side t.side t.client_id t.instrument_code id t.quantity t.total_amount admin_id))
        _ d
        (in_ledger-Ensures (λ _ l. Exchanged id admin_id t d.ledger l) _
          (book_side t.side t.client_id t.instrument_code id t.quantity t.total_amount admin_id) d
          (book_side-IsExchanged t.side t.client_id t.instrument_code id t.quantity t.total_amount
            admin_id d.ledger v)
          (λ _ l h. (h, refl)))
        λ _ d1 (booked, same).
          Ensures-bind (λ _ d'. (b : LimitBook) × (d' ≡ record d1 { limits = b }))
            (IsApproved id admin_id d) (in_limits (consume TxRefType.trade id)) _ d1
            (in_limits-Only (consume TxRefType.trade id) d1)
            λ _ d2 (b, kept).
              let at1 : find_unique id d1.trades ≡ some t =
                ap (λ (ts : Table Trade). find_unique id ts) same ∙ found in
              let law =
                find_unique-update_self id (approved_as now t dto_note admin_id) d1.trades t at1 in
              rw (kept, law, Ensures)
                (record {
                  trade = t;
                  found = found;
                  again = λ h. absurd (ground arith);
                  booked = λ _. (booked, by_wallet, refl);
                  returned = refl;
                  stored = law;
                })

  book_if-IsApproved :
      is_pending t.status ≡ true
      → (b : Bool) → is_wallet t.settlement_method ≡ b
      → Ensures
          (IsApproved id admin_id d)
          ((if b then book now id t dto_note admin_id else throw not_implemented) d)
  book_if-IsApproved fresh true e = book-IsApproved fresh e
  book_if-IsApproved fresh false e = tt

  settled-IsApproved : is_pending t.status ≡ false → IsApproved id admin_id d (id, t) d
  settled-IsApproved old = record {
    trade = t;
    found = found;
    again = λ _. (refl, refl);
    booked = λ h. absurd (ground arith);
    returned = refl;
    stored = found;
  }

  approve_by-IsApproved :
      (s : TradeStatus)
      → t.status ≡ s
      → Ensures (IsApproved id admin_id d) (approve_by now id t dto_note admin_id s d)
  unfolding approve_by
  approve_by-IsApproved pending e =
      book_if-IsApproved (ground (arith, e)) (is_wallet t.settlement_method) refl
  approve_by-IsApproved approved e = settled-IsApproved (ground (arith, e))
  approve_by-IsApproved rejected e = settled-IsApproved (ground (arith, e))
  approve_by-IsApproved cancelled_by_user e = settled-IsApproved (ground (arith, e))
  approve_by-IsApproved cancelled_by_admin e = settled-IsApproved (ground (arith, e))
  approve_by-IsApproved settled e = settled-IsApproved (ground (arith, e))

-- On a sound ledger an approval that goes through answers for the trade of that id. If the trade was
-- pending, it is settled through the wallet, is booked once between the client and the house, and is
-- approved now. If it was not pending, nothing at all changes and the trade is returned as it is.
pub approve_trade_in_tx-IsApproved :
    (now id : ℕ) (dto_note : Option Text) (admin_id : ℕ) (d : Db)
    → IsSound d.ledger
    → Ensures (IsApproved id admin_id d) (approve_trade_in_tx now id dto_note admin_id d)
unfolding approve_trade_in_tx
approve_trade_in_tx-IsApproved now id dto_note admin_id d v =
    Ensures-bind (λ t d'. (find_unique id d.trades ≡ some t) × (d' ≡ d)) (IsApproved id admin_id d)
      (find_trade id) _ d (find_trade-Found id d)
      λ t d' (e, same).
        rw same (approve_by-IsApproved now id dto_note admin_id d v t e t.status refl)
