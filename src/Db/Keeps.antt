-- ===== src/Db/Keeps.antt =====
-- Which steps of a transaction on all the tables keep the ledger sound.
use gold_nest.Base.{Bool, true, false, Option, none, some, ◌≡◌, refl}
use gold_nest.Tx.{Error, Result, ok, err, Tx, throw_if, or_throw}
use gold_nest.Tx.Ensures.{Ensures, Keeps}
use gold_nest.Accounts.Ledger.{Ledger}
use gold_nest.Accounts.Soundness.{IsSound}
use gold_nest.Policy.LimitBook.{LimitBook}
use gold_nest.Db.{Db, in_ledger, in_limits}

abbrev pub LedgerSound : Db → Type 0
LedgerSound d = IsSound d.ledger

module _ {A : Type 0} where
  -- A run on the ledger carries its postcondition over.
  pub in_ledger-Ensures :
      (Q : A → Ledger → Type 0) (R : A → Db → Type 0) (m : Tx Ledger A) (d : Db)
      → Ensures Q (m d.ledger)
      → ((a : A) (l : Ledger) → Q a l → R a (record d { ledger = l }))
      → Ensures R (in_ledger m d)
  in_ledger-Ensures Q R m d h k = go (m d.ledger) h
    where
      go : (r : Result (A × Ledger)) → Ensures Q r → Ensures R (in_ledger (λ (_ : Ledger). r) d)
      go (ok r) q = k r.0 r.1 q
      go (err e) q = tt

  pub in_limits-Ensures :
      (Q : A → LimitBook → Type 0) (R : A → Db → Type 0) (m : Tx LimitBook A) (d : Db)
      → Ensures Q (m d.limits)
      → ((a : A) (b : LimitBook) → Q a b → R a (record d { limits = b }))
      → Ensures R (in_limits m d)
  in_limits-Ensures Q R m d h k = go (m d.limits) h
    where
      go :
          (r : Result (A × LimitBook))
          → Ensures Q r
          → Ensures R (in_limits (λ (_ : LimitBook). r) d)
      go (ok r) q = k r.0 r.1 q
      go (err e) q = tt

  pub trivially : (r : Result (A × LimitBook)) → Ensures (λ _ _. Unit {0}) r
  trivially (ok r) = tt
  trivially (err e) = tt

  pub in_limits-Keeps : (m : Tx LimitBook A) → Keeps LedgerSound (in_limits m)
  in_limits-Keeps m d v =
      in_limits-Ensures (λ _ _. Unit {0}) (λ _ d'. LedgerSound d') m d (trivially (m d.limits))
        (λ a b _. v)

  pub in_ledger-Keeps : (m : Tx Ledger A) → Keeps IsSound m → Keeps LedgerSound (in_ledger m)
  in_ledger-Keeps m h d v =
      in_ledger-Ensures (λ _ l. IsSound l) (λ _ d'. LedgerSound d') m d (h d.ledger v) (λ a l q. q)

module _ {S : Type 0} (P : S → Type 0) where
  pub throw_if-Keeps : (b : Bool) (e : Error) → Keeps P (throw_if b e)
  throw_if-Keeps true e s v = tt
  throw_if-Keeps false e s v = v

  pub or_throw-Keeps : {A : Type 0} (o : Option A) (e : Error) → Keeps P (or_throw o e)
  or_throw-Keeps none e s v = tt
  or_throw-Keeps (some a) e s v = v

-- A run on the limit book leaves every other table as it was.
pub in_limits-Only :
    {A : Type 0} (m : Tx LimitBook A) (d : Db)
    → Ensures (λ _ d'. (b : LimitBook) × (d' ≡ record d { limits = b })) (in_limits m d)
in_limits-Only m d =
    in_limits-Ensures (λ _ _. Unit {0}) (λ _ d'. (b : LimitBook) × (d' ≡ record d { limits = b })) m
      d (trivially (m d.limits)) (λ a b _. (b, refl))

-- A run on the ledger leaves every other table as it was.
pub in_ledger-Only :
    {A : Type 0} (m : Tx Ledger A) (d : Db)
    → Ensures (λ _ d'. (l : Ledger) × (d' ≡ record d { ledger = l })) (in_ledger m d)
in_ledger-Only {A = A} m d = go (m d.ledger)
  where
    go :
        (r : Result (A × Ledger))
        → Ensures
            (λ _ d'. (l : Ledger) × (d' ≡ record d { ledger = l }))
            (in_ledger (λ (_ : Ledger). r) d)
    go (ok r) = (r.1, refl)
    go (err e) = tt
