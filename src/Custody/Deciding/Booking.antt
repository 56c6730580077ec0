-- ===== src/Custody/Deciding/Booking.antt =====
-- What approving a custody movement does to the ledger, and that it happens once.
use gold_nest.Custody.Requesting.{is_withdrawal}
use gold_nest.Policy.Limits.{consume}
use gold_nest.Custody.Weight.{gold_750_instrument_code}
use gold_nest.Accounts.Moves.Steps.{consume-then, open-then, post-then}
use gold_nest.Policy.LimitBook.{LimitBook}
use gold_nest.Db.Keeps.{in_ledger-Ensures, in_limits-Only}
use gold_nest.Tx.{Tx, ok, ◌>>=◌}
use gold_nest.Accounts.Moves.{HasPosted, HasPosted-none, sum_of_entries, HasPosted-conserved}
use gold_nest.Tx.Ensures.{Ensures, Ensures-bind}
use gold_nest.Table.{Row, find_unique, Table, find_unique-update_self}
use gold_nest.Accounts.Reserving.{Held}
use gold_nest.Accounts.Posting.{PostedTx}
use gold_nest.Int.{ℤ, negated, int_laws}
use gold_nest.Db.{Db, in_ledger, in_limits}
use gold_nest.Accounts.Soundness.{IsSound}
use gold_nest.Records.{
  Movement, MovementType, approved, MovementStatus, pending, rejected, cancelled, deposit,
  withdrawal,
}
use gold_nest.Custody.Deciding.{
  approve_movement_in_tx, book_movement, find_movement, delta_equiv, approve_by, book, consume_gold,
  entry, update_movement, user_delta,
}
use gold_nest.Accounts.Ledger.{Ledger, house_user_id, physical_custody_movement}
use gold_nest.Base.{
  ℕ, Option, ◌≡◌, [], some, Option-cases, ◌∷◌, inl, refl, ◌⊎◌, arith, none, inr, subst, sym, ap,
  ◌∙◌, not,
}

-- The user's gold account and the house's: the one gains what the other loses.
pub record IsBooked (user_id id : ℕ) (kind : MovementType) (equiv : ℤ) (admin_id : Option ℕ)
    (l : Ledger) (p : PostedTx × PostedTx) (l' : Ledger) : Type 0 where
  pub user_account : ℕ
  pub house_account : ℕ
  pub posted :
      HasPosted
        ((house_user_id, house_account) ∷ (user_id, user_account) ∷ [])
        (entry house_account
            (negated (user_delta kind equiv))
            (not (is_withdrawal kind))
            id
            admin_id
          ∷ entry user_account (user_delta kind equiv) (is_withdrawal kind) id admin_id
          ∷ [])
        l
        l'
  pub conserved : sum_of_entries l' ≡ sum_of_entries l

consume_gold-then :
    {B : Type 0} (R : B → Ledger → Type 0) (user_id id : ℕ) (kind : MovementType) (l : Ledger)
    → IsSound l
    → (f : Option Held → Tx Ledger B)
    → ((x : Option Held) (l' : Ledger) → HasPosted [] [] l l' → Ensures R (f x l'))
    → Ensures R ((consume_gold user_id id kind >>= f) l)
consume_gold-then R user_id id deposit l v f k = k none l (HasPosted-none l l v (λ j. refl) refl)
consume_gold-then R user_id id withdrawal l v f k =
    consume-then R user_id gold_750_instrument_code physical_custody_movement id l v f k

-- On a sound ledger the booking of a movement that goes through enters one entry on an account of
-- the user and the opposite one on an account of the house, moves no other balance and keeps the
-- ledger sound; the entries as a whole add up to what they did.
pub book_movement-IsBooked :
    (user_id id : ℕ) (kind : MovementType) (equiv : ℤ) (admin_id : Option ℕ) (l : Ledger)
    → IsSound l
    → Ensures
        (IsBooked user_id id kind equiv admin_id l)
        (book_movement user_id id kind equiv admin_id l)
unfolding book_movement
book_movement-IsBooked user_id id kind equiv admin_id l v =
    let R = IsBooked user_id id kind equiv admin_id l in
    consume_gold-then R user_id id kind l v _ λ x l1 h1.
      open-then R [] [] l l1 h1 user_id gold_750_instrument_code _ λ user l2 h2.
        open-then R _ [] l l2 h2 house_user_id gold_750_instrument_code _ λ house l3 h3.
          post-then R _ [] l l3 h3
            (entry user.0 (user_delta kind equiv) (is_withdrawal kind) id admin_id) _
            λ p l4 h4.
              post-then R _ _ l l4 h4
                (entry house.0 (negated (user_delta kind equiv)) (not (is_withdrawal kind)) id
                  admin_id)
                _
                λ q l5 h5. record {
                  user_account = user.0;
                  house_account = house.0;
                  posted = h5;
                  conserved = HasPosted-conserved _ _ l l5 h5 (grind int_laws);
                }

-- An approval that goes through books once: an approved movement stays as it is, a pending one is
-- booked with its equivalent.
pub record IsApproved (id : ℕ) (admin_id : Option ℕ) (d : Db) (row : Row Movement) (d' : Db)
    : Type 0 where
  pub movement : Movement
  pub found : find_unique id d.movements ≡ some movement
  pub was : (movement.status ≡ approved) ⊎ (movement.status ≡ pending)
  pub again : movement.status ≡ approved → d' ≡ d
  pub booked :
      movement.status ≡ pending
      → (p : PostedTx × PostedTx) × IsBooked movement.user_id id movement.movement_type
          (delta_equiv movement)
          admin_id
          d.ledger
          p
          d'.ledger
        × (row.1.user_gold_account_tx_id ≡ some p.0.tx_id)
        × (row.1.house_gold_account_tx_id ≡ some p.1.tx_id)
  pub returned : row.0 ≡ id
  pub stored : find_unique id d'.movements ≡ some row.1
  pub now_approved : row.1.status ≡ approved

abbrev BookedIn : ℕ → Movement → Option ℕ → Db → PostedTx × PostedTx → Db → Type 0
BookedIn id m admin_id d p d1 =
    IsBooked m.user_id id m.movement_type (delta_equiv m) admin_id d.ledger p d1.ledger
    × (d1.movements ≡ d.movements)

module _ (id : ℕ) (admin_id : Option ℕ) (d : Db) (v : IsSound d.ledger) (m : Movement)
    (found : find_unique id d.movements ≡ some m) where
  book-BookedIn :
      Ensures
        (BookedIn id m admin_id d)
        (in_ledger (book_movement m.user_id id m.movement_type (delta_equiv m) admin_id) d)
  book-BookedIn =
      in_ledger-Ensures (IsBooked m.user_id id m.movement_type (delta_equiv m) admin_id d.ledger)
        (BookedIn id m admin_id d)
        (book_movement m.user_id id m.movement_type (delta_equiv m) admin_id) d
        (book_movement-IsBooked m.user_id id m.movement_type (delta_equiv m) admin_id d.ledger v)
        (λ p l h. (h, refl))

  book-IsApproved : m.status ≡ pending → Ensures (IsApproved id admin_id d) (book id m admin_id d)
  unfolding book update_movement find_movement
  book-IsApproved fresh =
      Ensures-bind (BookedIn id m admin_id d) (IsApproved id admin_id d)
        (in_ledger (book_movement m.user_id id m.movement_type (delta_equiv m) admin_id)) _ d
        book-BookedIn
        λ p d1 (booked, same).
          Ensures-bind (λ _ d'. (b : LimitBook) × (d' ≡ record d1 { limits = b }))
            (IsApproved id admin_id d) (in_limits (consume physical_custody_movement id)) _ d1
            (in_limits-Only (consume physical_custody_movement id) d1)
            λ _ d2 (b, kept).
              let at1 : find_unique id d1.movements ≡ some m =
                ap (λ (t : Table Movement). find_unique id t) same ∙ found in
              let law =
                find_unique-update_self id
                  (λ (x : Movement). record x {
                    status = approved;
                    equiv_gram_750 = some (delta_equiv m);
                    user_gold_account_tx_id = some p.0.tx_id;
                    house_gold_account_tx_id = some p.1.tx_id;
                  })
                  d1.movements m at1 in
              rw (kept, law, Ensures)
                (record {
                  movement = m;
                  found = found;
                  was = inr fresh;
                  again = λ h. ground arith;
                  booked = λ _. (p, booked, refl, refl);
                  returned = refl;
                  stored = law;
                  now_approved = refl;
                })

  approve_by-IsApproved :
      (s : MovementStatus)
      → m.status ≡ s
      → Ensures (IsApproved id admin_id d) (approve_by id m admin_id s d)
  unfolding approve_by
  approve_by-IsApproved approved e = record {
    movement = m;
    found = found;
    was = inl e;
    again = λ _. refl;
    booked = λ h. absurd (ground arith);
    returned = refl;
    stored = found;
    now_approved = e;
  }
  approve_by-IsApproved pending e = book-IsApproved e
  approve_by-IsApproved rejected e = tt
  approve_by-IsApproved cancelled e = tt

find_movement-found :
    (id : ℕ) (d : Db) (m : Movement)
    → find_unique id d.movements ≡ some m
    → find_movement id d ≡ ok (m, d)
unfolding find_movement
find_movement-found id d m e = rw (e, find_movement) refl

pub find_movement-Found :
    (id : ℕ) (d : Db)
    → Ensures (λ m d'. (find_unique id d.movements ≡ some m) × (d' ≡ d)) (find_movement id d)
unfolding find_movement
find_movement-Found id d = elim (Option-cases (find_unique id d.movements)) [
  | inl e ↦ ground (arith, e)
  | inr (m, e) ↦ subst (Ensures _) (sym (find_movement-found id d m e)) (e, refl)
]

-- On a sound ledger an approval that goes through answers for the movement of that id, which was
-- approved or pending before and is approved now. If it was approved, nothing at all changes. If it
-- was pending, its equivalent is booked between the user and the house, and the movement carries
-- the two entries.
pub approve_movement_in_tx-IsApproved :
    (id : ℕ) (admin_id : Option ℕ) (d : Db)
    → IsSound d.ledger
    → Ensures (IsApproved id admin_id d) (approve_movement_in_tx id admin_id d)
unfolding approve_movement_in_tx
approve_movement_in_tx-IsApproved id admin_id d v =
    Ensures-bind (λ m d'. (find_unique id d.movements ≡ some m) × (d' ≡ d))
      (IsApproved id admin_id d) (find_movement id) _ d (find_movement-Found id d)
      λ m d' (e, same). rw same (approve_by-IsApproved id admin_id d v m e m.status refl)
