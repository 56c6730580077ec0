-- ===== src/Trades/Lifecycle/Preserved.antt =====
-- That each operation on trades keeps every approved trade settled through the wallet.
use gold_nest.Policy.Limits.{consume, release}
use gold_nest.Trades.Booking.{book_side}
use gold_nest.Trades.Lifecycle.ByWallet.{
  AllByWallet, closing_two, in_ledger-trades, closing-AllByWallet, in_limits-trades,
}
use gold_nest.Trades.Reversing.{reverse_by, reverse_approved, reversed_as, reverse_entries}
use gold_nest.Tx.Ensures.{Ensures}
use gold_nest.Accounts.Ledger.{Ledger, TxRefType}
use gold_nest.Tx.{Tx, pure, throw, not_implemented}
use gold_nest.Trades.Deciding.{
  is_approved, is_wallet, approve_by, book, cancel_by, drop, reject_by, cancelled_as, rejected_as,
  release_hold,
}
use gold_nest.Table.{find_unique}
use gold_nest.Records.{
  Trade, Text, TradeStatus, pending, approved, rejected, cancelled_by_user, cancelled_by_admin,
  settled,
}
use gold_nest.Db.{Db, in_ledger}
use gold_nest.Base.{
  ap, ℕ, ◌≡◌, some, true, arith, Bool, Option, some_unique, if◌then◌else◌, false, refl, ◌∙◌,
}

module _ (d : Db) (a : AllByWallet d) (now id : ℕ) (t : Trade)
    (found : find_unique id d.trades ≡ some t) where
  is_trade : (x : Trade) → find_unique id d.trades ≡ some x → x ≡ t
  is_trade x e = some_unique _ x t e found

  book-AllByWallet :
      (remark : Option Text) (admin_id : ℕ)
      → is_wallet t.settlement_method ≡ true
      → Ensures (λ _ d'. AllByWallet d') (book now id t remark admin_id d)
  unfolding book
  book-AllByWallet remark admin_id by_wallet =
      closing_two _ _ id _ d
        (in_ledger-trades
          (book_side t.side t.client_id t.instrument_code id t.quantity t.total_amount admin_id))
        (in_limits-trades (consume TxRefType.trade id)) a
        (λ x e _. ap (λ (y : Trade). is_wallet y.settlement_method) (is_trade x e) ∙ by_wallet)

  book_if-AllByWallet :
      (remark : Option Text) (admin_id : ℕ) (b : Bool)
      → is_wallet t.settlement_method ≡ b
      → Ensures
          (λ _ d'. AllByWallet d')
          ((if b then book now id t remark admin_id else throw not_implemented) d)
  book_if-AllByWallet remark admin_id true e = book-AllByWallet remark admin_id e
  book_if-AllByWallet remark admin_id false e = tt

  pub approve_by-AllByWallet :
      (remark : Option Text) (admin_id : ℕ) (s : TradeStatus)
      → Ensures (λ _ d'. AllByWallet d') (approve_by now id t remark admin_id s d)
  unfolding approve_by
  approve_by-AllByWallet remark admin_id pending =
      book_if-AllByWallet remark admin_id (is_wallet t.settlement_method) refl
  approve_by-AllByWallet remark admin_id approved = a
  approve_by-AllByWallet remark admin_id rejected = a
  approve_by-AllByWallet remark admin_id cancelled_by_user = a
  approve_by-AllByWallet remark admin_id cancelled_by_admin = a
  approve_by-AllByWallet remark admin_id settled = a

  pub drop-AllByWallet :
      (f : Trade → Trade)
      → ((x : Trade) → is_approved (f x).status ≡ false)
      → Ensures (λ _ d'. AllByWallet d') (drop id t f d)
  unfolding drop
  drop-AllByWallet f shut =
      closing_two _ _ id f d (in_limits-trades (release TxRefType.trade id))
        (in_ledger-trades (release_hold id t (is_wallet t.settlement_method))) a
        (λ x e h. absurd (let no = shut x in ground arith))

  pub cancel_by-AllByWallet :
      (reason : Option Text) (s : TradeStatus)
      → Ensures (λ _ d'. AllByWallet d') (cancel_by now id t reason s d)
  unfolding cancel_by
  cancel_by-AllByWallet reason pending = drop-AllByWallet (cancelled_as now t reason) (λ x. refl)
  cancel_by-AllByWallet reason approved = tt
  cancel_by-AllByWallet reason rejected = tt
  cancel_by-AllByWallet reason cancelled_by_user = a
  cancel_by-AllByWallet reason cancelled_by_admin = a
  cancel_by-AllByWallet reason settled = tt

  pub reject_by-AllByWallet :
      (reason : Option Text) (s : TradeStatus)
      → Ensures (λ _ d'. AllByWallet d') (reject_by now id t reason s d)
  unfolding reject_by
  reject_by-AllByWallet reason pending = drop-AllByWallet (rejected_as now reason) (λ x. refl)
  reject_by-AllByWallet reason approved = tt
  reject_by-AllByWallet reason rejected = a
  reject_by-AllByWallet reason cancelled_by_user = tt
  reject_by-AllByWallet reason cancelled_by_admin = tt
  reject_by-AllByWallet reason settled = tt

  if-trades :
      (b : Bool) (m : Tx Ledger (Unit {0})) (d' : Db)
      → Ensures (λ _ d''. d''.trades ≡ d'.trades) ((if b then in_ledger m else pure tt) d')
  if-trades true m d' = in_ledger-trades m d'
  if-trades false m d' = refl

  reverse_by-AllByWallet :
      (by_id : Option ℕ) (reason : Option Text) (s : TradeStatus)
      → Ensures (λ _ d'. AllByWallet d') (reverse_by now id t by_id reason s d)
  unfolding reverse_by reverse_approved
  reverse_by-AllByWallet by_id reason approved =
      closing-AllByWallet
        (if is_wallet t.settlement_method then in_ledger (reverse_entries id by_id) else pure tt) id
        (reversed_as now t reason) d
        (if-trades (is_wallet t.settlement_method) (reverse_entries id by_id) d) a
        (λ x e h. absurd (ground arith))
  reverse_by-AllByWallet by_id reason pending = tt
  reverse_by-AllByWallet by_id reason rejected = tt
  reverse_by-AllByWallet by_id reason cancelled_by_user = tt
  reverse_by-AllByWallet by_id reason cancelled_by_admin = tt
  reverse_by-AllByWallet by_id reason settled = tt

  pub reverse_if-AllByWallet :
      (by_id : Option ℕ) (reason : Option Text) (b : Bool)
      → Ensures
          (λ _ d'. AllByWallet d')
          ((if b then pure (id, t) else reverse_by now id t by_id reason t.status) d)
  reverse_if-AllByWallet by_id reason true = a
  reverse_if-AllByWallet by_id reason false = reverse_by-AllByWallet by_id reason t.status
