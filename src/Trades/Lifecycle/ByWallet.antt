-- ===== src/Trades/Lifecycle/ByWallet.antt =====
-- That every approved trade is settled through the wallet, and what this invariant needs of a step.

use gold_nest.Trades.Deciding.Effects.{find_trade-Found}
use gold_nest.Db.Keeps.{in_limits-Only, in_ledger-Only}
use gold_nest.Tx.Ensures.{Ensures, Ensures-bind, Ensures-map}
use gold_nest.Policy.LimitBook.{LimitBook}
use gold_nest.Accounts.Ledger.{Ledger}
use gold_nest.Tx.{Tx, ◌>>=◌, pure}
use gold_nest.Trades.Deciding.{is_approved, update_trade, is_wallet, find_trade}
use gold_nest.Table.{Row, Table, find_unique, update}
use gold_nest.Records.{Trade}
use gold_nest.Db.{Db, in_ledger, in_limits}
use gold_nest.Base.{inl, inr, ap, ℕ, All, ◌≡◌, some, true, [], ◌∷◌, Bool-cases, ◌==◌, arith}

abbrev pub ByWallet : Row Trade → Type 0
ByWallet r = is_approved r.1.status ≡ true → is_wallet r.1.settlement_method ≡ true

-- Every approved trade is settled through the wallet.
abbrev pub AllByWallet : Db → Type 0
AllByWallet d = All ByWallet d.trades

All-update :
    (id : ℕ) (f : Trade → Trade) (ts : Table Trade)
    → All ByWallet ts
    → ((t : Trade) → find_unique id ts ≡ some t → ByWallet (id, f t))
    → All ByWallet (update id f ts)
All-update id f [] a k = tt
All-update id f ((j, t) ∷ ts) a k = elim (Bool-cases (j == id)) [
  | inl this ↦ let at_id = k t (ground (arith, this)) in rw (this) (at_id, a.1)
  | inr other ↦ rw (other) (a.0, All-update id f ts a.1 (λ x e. k x (ground (arith, other, e))))
]

pub All-found :
    (id : ℕ) (ts : Table Trade) (t : Trade)
    → All ByWallet ts
    → find_unique id ts ≡ some t
    → ByWallet (id, t)
All-found id [] t a e = cc
All-found id ((j, x) ∷ ts) t a e = elim (Bool-cases (j == id)) [
  | inl this ↦
      let same : x ≡ t = ground (arith, this, e) in
      let law = a.0 in λ h. (rw (← same) (law (rw (same) h)))
  | inr other ↦ All-found id ts t a.1 (ground (arith, other, e))
]

pub update_trade-trades :
    (id : ℕ) (f : Trade → Trade) (d : Db)
    → Ensures (λ _ d'. d'.trades ≡ update id f d.trades) (update_trade id f d)
unfolding update_trade
update_trade-trades id f d =
    let d1 : Db = record d { trades = update id f d.trades } in
    Ensures-bind (λ t d'. (find_unique id d1.trades ≡ some t) × (d' ≡ d1))
      (λ _ d'. d'.trades ≡ update id f d.trades) (find_trade id) (λ t. pure (id, t)) d1
      (find_trade-Found id d1) (λ t d' (e, same). ap (λ (x : Db). x.trades) same)

pub in_ledger-trades :
    {A : Type 0} (m : Tx Ledger A) (d : Db) → Ensures (λ _ d'. d'.trades ≡ d.trades) (in_ledger m d)
in_ledger-trades m d =
    Ensures-map (λ _ d'. (l : Ledger) × (d' ≡ record d { ledger = l }))
      (λ _ d'. d'.trades ≡ d.trades) (in_ledger m d) (λ _ d' (l, e). ap (λ (x : Db). x.trades) e)
      (in_ledger-Only m d)

pub in_limits-trades :
    {A : Type 0} (m : Tx LimitBook A) (d : Db)
    → Ensures (λ _ d'. d'.trades ≡ d.trades) (in_limits m d)
in_limits-trades m d =
    Ensures-map (λ _ d'. (b : LimitBook) × (d' ≡ record d { limits = b }))
      (λ _ d'. d'.trades ≡ d.trades) (in_limits m d) (λ _ d' (b, e). ap (λ (x : Db). x.trades) e)
      (in_limits-Only m d)

-- A step that keeps the trades, then the update of one of them.
pub closing-AllByWallet :
    {A : Type 0} (m : Tx Db A) (id : ℕ) (f : Trade → Trade) (d : Db)
    → Ensures (λ _ d'. d'.trades ≡ d.trades) (m d)
    → AllByWallet d
    → ((t : Trade) → find_unique id d.trades ≡ some t → ByWallet (id, f t))
    → Ensures (λ _ d'. AllByWallet d') ((m >>= λ _. update_trade id f) d)
closing-AllByWallet m id f d same a k =
    Ensures-bind (λ _ d'. d'.trades ≡ d.trades) (λ _ d'. AllByWallet d') m (λ _. update_trade id f)
      d same
      (λ _ d1 e.
        Ensures-map (λ _ d'. d'.trades ≡ update id f d1.trades) (λ _ d'. AllByWallet d')
          (update_trade id f d1) (λ _ d2 done. rw (done, e) (All-update id f d.trades a k))
          (update_trade-trades id f d1))

pub closing_two :
    {A B : Type 0} (m : Tx Db A) (n : Tx Db B) (id : ℕ) (f : Trade → Trade) (d : Db)
    → ((d' : Db) → Ensures (λ _ d''. d''.trades ≡ d'.trades) (m d'))
    → ((d' : Db) → Ensures (λ _ d''. d''.trades ≡ d'.trades) (n d'))
    → AllByWallet d
    → ((t : Trade) → find_unique id d.trades ≡ some t → ByWallet (id, f t))
    → Ensures (λ _ d'. AllByWallet d') ((m >>= λ _. (n >>= λ _. update_trade id f)) d)
closing_two m n id f d same_m same_n a k =
    Ensures-bind (λ _ d'. d'.trades ≡ d.trades) (λ _ d'. AllByWallet d') m
      (λ _. (n >>= λ _. update_trade id f)) d (same_m d)
      (λ _ d1 e.
        closing-AllByWallet n id f d1 (same_n d1) (rw (e) a) (λ t found. k t (rw (← e) found)))

pub after_find :
    (id : ℕ) (f : Trade → Tx Db (Row Trade)) (d : Db)
    → ((t : Trade) → find_unique id d.trades ≡ some t → Ensures (λ _ d'. AllByWallet d') (f t d))
    → Ensures (λ _ d'. AllByWallet d') ((find_trade id >>= f) d)
after_find id f d k =
    Ensures-bind (λ t d'. (find_unique id d.trades ≡ some t) × (d' ≡ d)) (λ _ d'. AllByWallet d')
      (find_trade id) f d (find_trade-Found id d) (λ t d' (e, same). rw same (k t e))
