-- ===== src/Remittances/Deciding/Moving.antt =====
-- What approving a remittance does to the ledger, and that it happens once.
use gold_nest.Policy.Limits.{consume}
use gold_nest.Policy.LimitBook.{LimitBook}
use gold_nest.Db.Keeps.{in_ledger-Ensures, in_limits-Only}
use gold_nest.Accounts.Moves.Steps.{consume-then, open-then, post-then}
use gold_nest.Accounts.Moves.{HasPosted, HasPosted-conserved, sum_of_entries}
use gold_nest.Tx.Ensures.{Ensures, Ensures-bind}
use gold_nest.Tx.{Tx, ok}
use gold_nest.Table.{Row, find_unique, Table, find_unique-update_self}
use gold_nest.Accounts.Soundness.{IsSound}
use gold_nest.Accounts.Posting.{PostedTx}
use gold_nest.Accounts.Ledger.{Ledger, TxRefType}
use gold_nest.Remittances.Deciding.{
  approve_remittance, find_remittance, move_amount, approve_by, complete, entry, update_remittance,
}
use gold_nest.Records.{Remittance, RemittanceStatus, completed, partial, pending, cancelled}
use gold_nest.Int.{ℤ, negated, int_laws}
use gold_nest.Db.{Db, in_ledger, in_limits}
use gold_nest.Base.{
  ℕ, ◌≡◌, some, ◌∷◌, Option-cases, [], inl, refl, ◌⊎◌, arith, inr, subst, sym, ap, ◌∙◌, false, true,
}

-- The sender's account loses what the receiver's gains.
pub record IsMoved (from_user_id to_user_id id : ℕ) (amount : ℤ) (admin_id : ℕ) (l : Ledger)
    (p : PostedTx × PostedTx) (l' : Ledger) : Type 0 where
  pub from_account : ℕ
  pub to_account : ℕ
  pub posted :
      HasPosted
        ((to_user_id, to_account) ∷ (from_user_id, from_account) ∷ [])
        (entry to_account amount false id admin_id
          ∷ entry from_account (negated amount) true id admin_id
          ∷ [])
        l
        l'
  pub conserved : sum_of_entries l' ≡ sum_of_entries l

-- On a sound ledger the move of a remittance that goes through takes the amount from an account of
-- the sender, gives it to an account of the receiver, moves no other balance and keeps the ledger
-- sound; the entries as a whole add up to what they did.
pub move_amount-IsMoved :
    (from_user_id to_user_id code id : ℕ) (amount : ℤ) (admin_id : ℕ) (l : Ledger)
    → IsSound l
    → Ensures
        (IsMoved from_user_id to_user_id id amount admin_id l)
        (move_amount from_user_id to_user_id code id amount admin_id l)
unfolding move_amount
move_amount-IsMoved u u' code id amount admin_id l v =
    let R = IsMoved u u' id amount admin_id l in
    consume-then R u code TxRefType.remittance id l v _ λ x l1 h1.
      open-then R [] [] l l1 h1 u code _ λ from l2 h2.
        open-then R _ [] l l2 h2 u' code _ λ to l3 h3.
          post-then R _ [] l l3 h3 (entry from.0 (negated amount) true id admin_id) _ λ p l4 h4.
            post-then R _ _ l l4 h4 (entry to.0 amount false id admin_id) _ λ q l5 h5. record {
              from_account = from.0;
              to_account = to.0;
              posted = h5;
              conserved = HasPosted-conserved _ _ l l5 h5 (grind int_laws);
            }

-- A completed remittance stays as it is; a pending one is moved.
pub record IsApproved (id admin_id : ℕ) (d : Db) (row : Row Remittance) (d' : Db) : Type 0 where
  pub remittance : Remittance
  pub found : find_unique id d.remittances ≡ some remittance
  pub was : (remittance.status ≡ completed) ⊎ (remittance.status ≡ pending)
  pub again : remittance.status ≡ completed → d' ≡ d
  pub moved :
      remittance.status ≡ pending
      → (p : PostedTx × PostedTx) × IsMoved remittance.from_user_id remittance.to_user_id id
          remittance.amount admin_id d.ledger p d'.ledger
        × (row.1.from_account_tx_id ≡ some p.0.tx_id)
        × (row.1.to_account_tx_id ≡ some p.1.tx_id)
  pub returned : row.0 ≡ id
  pub stored : find_unique id d'.remittances ≡ some row.1
  pub now_completed : row.1.status ≡ completed

abbrev MovedIn : ℕ → Remittance → ℕ → Db → PostedTx × PostedTx → Db → Type 0
MovedIn id r admin_id d p d1 =
    IsMoved r.from_user_id r.to_user_id id r.amount admin_id d.ledger p d1.ledger
    × (d1.remittances ≡ d.remittances)

abbrev moving : ℕ → Remittance → ℕ → Tx Ledger (PostedTx × PostedTx)
moving id r admin_id =
    move_amount r.from_user_id r.to_user_id r.instrument_code id r.amount admin_id

module _ (id admin_id : ℕ) (d : Db) (v : IsSound d.ledger) (r : Remittance)
    (found : find_unique id d.remittances ≡ some r) where
  moving-MovedIn : Ensures (MovedIn id r admin_id d) (in_ledger (moving id r admin_id) d)
  moving-MovedIn =
      in_ledger-Ensures (IsMoved r.from_user_id r.to_user_id id r.amount admin_id d.ledger)
        (MovedIn id r admin_id d) (moving id r admin_id) d
        (move_amount-IsMoved r.from_user_id r.to_user_id r.instrument_code id r.amount admin_id
          d.ledger v)
        (λ p l h. (h, refl))

  complete-IsApproved :
      r.status ≡ pending → Ensures (IsApproved id admin_id d) (complete id r admin_id d)
  unfolding complete update_remittance find_remittance
  complete-IsApproved fresh =
      Ensures-bind (MovedIn id r admin_id d) (IsApproved id admin_id d)
        (in_ledger (moving id r admin_id)) _ d moving-MovedIn
        λ p d1 (moved, same).
          Ensures-bind (λ _ d'. (b : LimitBook) × (d' ≡ record d1 { limits = b }))
            (IsApproved id admin_id d) (in_limits (consume TxRefType.remittance id)) _ d1
            (in_limits-Only (consume TxRefType.remittance id) d1)
            λ _ d2 (b, kept).
              let at1 : find_unique id d1.remittances ≡ some r =
                ap (λ (t : Table Remittance). find_unique id t) same ∙ found in
              let law =
                find_unique-update_self id
                  (λ (x : Remittance). record x {
                    status = completed;
                    from_account_tx_id = some p.0.tx_id;
                    to_account_tx_id = some p.1.tx_id;
                  })
                  d1.remittances r at1 in
              rw (kept, law, Ensures)
                (record {
                  remittance = r;
                  found = found;
                  was = inr fresh;
                  again = λ h. ground arith;
                  moved = λ _. (p, moved, refl, refl);
                  returned = refl;
                  stored = law;
                  now_completed = refl;
                })

  approve_by-IsApproved :
      (s : RemittanceStatus)
      → r.status ≡ s
      → Ensures (IsApproved id admin_id d) (approve_by id r admin_id s d)
  unfolding approve_by
  approve_by-IsApproved completed e = record {
    remittance = r;
    found = found;
    was = inl e;
    again = λ _. refl;
    moved = λ h. absurd (ground arith);
    returned = refl;
    stored = found;
    now_completed = e;
  }
  approve_by-IsApproved pending e = complete-IsApproved e
  approve_by-IsApproved partial e = tt
  approve_by-IsApproved cancelled e = tt

pub find_remittance-found :
    (id : ℕ) (d : Db) (r : Remittance)
    → find_unique id d.remittances ≡ some r
    → find_remittance id d ≡ ok (r, d)
unfolding find_remittance
find_remittance-found id d r e = rw (e, find_remittance) refl

pub find_remittance-Found :
    (id : ℕ) (d : Db)
    → Ensures (λ r d'. (find_unique id d.remittances ≡ some r) × (d' ≡ d)) (find_remittance id d)
unfolding find_remittance
find_remittance-Found id d = elim (Option-cases (find_unique id d.remittances)) [
  | inl e ↦ ground (arith, e)
  | inr (r, e) ↦ subst (Ensures _) (sym (find_remittance-found id d r e)) (e, refl)
]

-- On a sound ledger an approval that goes through answers for the remittance of that id, which was
-- completed or pending before and is completed now. If it was completed, nothing at all changes. If
-- it was pending, its amount moves from the sender to the receiver, and it carries the two entries.
pub approve_remittance-IsApproved :
    (id admin_id : ℕ) (d : Db)
    → IsSound d.ledger
    → Ensures (IsApproved id admin_id d) (approve_remittance id admin_id d)
unfolding approve_remittance
approve_remittance-IsApproved id admin_id d v =
    Ensures-bind (λ r d'. (find_unique id d.remittances ≡ some r) × (d' ≡ d))
      (IsApproved id admin_id d) (find_remittance id) _ d (find_remittance-Found id d)
      λ r d' (e, same). rw same (approve_by-IsApproved id admin_id d v r e r.status refl)
