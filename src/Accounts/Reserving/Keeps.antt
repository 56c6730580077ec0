-- ===== src/Accounts/Reserving/Keeps.antt =====
-- What `reserveFunds`, `releaseFunds` and `consumeFunds` do to the ledger, and that they keep it
-- sound.
use gold_nest.Base.{ℕ, suc, ◌≡◌, refl, false, ◌==◌, Option, some, ◌∷◌, arith}
use gold_nest.Int.{ℤ, pos, ◌+ℤ◌, ◌-ℤ◌, ◌≤ℤ◌, int_laws}
use gold_nest.Table.{find_unique, update, find_unique-update_self, find_unique-update_ne}
use gold_nest.Table.Keys.{Below-mono, update-Below, find_unique_bound}
use gold_nest.Tx.Ensures.{Ensures}
use gold_nest.Accounts.Ledger.{
  Account, Reservation, Ledger, TxRefType, ReservationStatus, reserved, get_usable_capacity,
}
use gold_nest.Accounts.Reserving.{Held, create_reservation, reserve_new, settle_reservation}
use gold_nest.Accounts.Soundness.{
  IsSound, is_reserved, fresh_id, IsBacked-update, status-reserved_total, status-OwnedBelow,
  status-NotNegative, amount_not_negative,
}

abbrev pub opened_reservation : ℕ → ℤ → TxRefType → ℕ → Reservation
opened_reservation id amount ref_type ref_id = record {
  account_id = id;
  amount = amount;
  ref_type = ref_type;
  ref_id = ref_id;
  status = reserved;
}

-- A new reservation: its amount is blocked on its account, and nothing else changes.
pub record IsReserved (id : ℕ) (amount : ℤ) (ref_type : TxRefType) (ref_id : ℕ) (l : Ledger)
    (h : Held) (l' : Ledger) : Type 0 where
  pub old : Account
  pub was : find_unique id l.accounts ≡ some old
  pub becomes :
      find_unique id l'.accounts
      ≡ some (record old { blocked_balance = old.blocked_balance +ℤ amount })
  pub usable : amount ≤ℤ get_usable_capacity old
  pub others : (j : ℕ) → (id == j) ≡ false → find_unique j l'.accounts ≡ find_unique j l.accounts
  pub entered :
      l'.reservations
      ≡ (h.reservation.0, opened_reservation id amount ref_type ref_id) ∷ l.reservations
  pub entries_kept : l'.account_txs ≡ l.account_txs
  pub sound : IsSound l'

module _ (id : ℕ) (amount : ℤ) (ref_type : TxRefType) (ref_id : ℕ) (l : Ledger) (v : IsSound l)
    (a : Account) (e : find_unique id l.accounts ≡ some a) where
  reserved_ledger : Ledger
  reserved_ledger = record l {
    accounts =
        update id (λ (x : Account). record x { blocked_balance = a.blocked_balance +ℤ amount })
          l.accounts;
    reservations = (l.next_id, opened_reservation id amount ref_type ref_id) ∷ l.reservations;
    next_id = suc l.next_id;
  }

  reserved-IsSound : pos 0 ≤ℤ amount → amount ≤ℤ get_usable_capacity a → IsSound reserved_ledger
  unfolding reserved_ledger
  reserved-IsSound positive usable = record {
    backed =
        IsBacked-update l
          ((l.next_id, opened_reservation id amount ref_type ref_id) ∷ l.reservations) l.account_txs
          id _ a v e
          (record {
            blocked = grind (int_laws, (v.backed id a e).blocked);
            posted = (v.backed id a e).posted;
            covered = omega int_laws;
          })
          (λ j h. grind int_laws) (λ j _. refl);
    account_ids =
        Below-mono l.next_id _ _ (omega arith)
          (update-Below l.next_id id _ l.accounts v.account_ids);
    reservation_ids = (omega arith, v.reservation_ids);
    not_negative = (positive, v.not_negative);
    reservations_owned = (
      omega (arith, find_unique_bound l.next_id id l.accounts a v.account_ids e),
      (fresh_id l v).reservations_owned,
    );
    entries_owned = (fresh_id l v).entries_owned;
  }

  reserve_account-IsReserved :
      (positive : pos 0 ≤ℤ amount)
      → (usable : amount ≤ℤ get_usable_capacity a)
      → IsReserved id amount ref_type ref_id l
          (record {
            account = (id, record a { blocked_balance = a.blocked_balance +ℤ amount });
            reservation = (l.next_id, opened_reservation id amount ref_type ref_id);
          })
          reserved_ledger
  unfolding reserved_ledger
  reserve_account-IsReserved positive usable = record {
    old = a;
    was = e;
    becomes = find_unique-update_self id _ l.accounts a e;
    usable = usable;
    others = λ j h. find_unique-update_ne j id _ l.accounts h;
    entered = refl;
    entries_kept = refl;
    sound = reserved-IsSound positive usable;
  }

  pub reserve_new-IsReserved :
      pos 0 ≤ℤ amount
      → Ensures (IsReserved id amount ref_type ref_id l) (reserve_new id a amount ref_type ref_id l)
  unfolding reserve_new create_reservation reserved_ledger
  reserve_new-IsReserved positive = ground (arith, reserve_account-IsReserved positive)

-- An open reservation gets a new status and leaves the blocked balance of its account.
pub record IsSettled (id k : ℕ) (r : Reservation) (status : ReservationStatus) (l : Ledger)
    (h : Option Held) (l' : Ledger) : Type 0 where
  pub old : Account
  pub was : find_unique id l.accounts ≡ some old
  pub becomes :
      find_unique id l'.accounts
      ≡ some (record old { blocked_balance = old.blocked_balance -ℤ r.amount })
  pub others : (j : ℕ) → (id == j) ≡ false → find_unique j l'.accounts ≡ find_unique j l.accounts
  pub settled :
      l'.reservations ≡ update k (λ (x : Reservation). record x { status = status }) l.reservations
  pub entries_kept : l'.account_txs ≡ l.account_txs
  pub returned :
      h
      ≡ some (record {
        account = (id, record old { blocked_balance = old.blocked_balance -ℤ r.amount });
        reservation = (k, record r { status = status });
      })
  pub sound : IsSound l'

module _ (id k : ℕ) (r : Reservation) (status : ReservationStatus) (l : Ledger) (v : IsSound l)
    (a : Account) (e : find_unique id l.accounts ≡ some a)
    (at_k : find_unique k l.reservations ≡ some r) (mine : r.account_id ≡ id)
    (open_one : r.status ≡ reserved) (closing : is_reserved status ≡ false) where
  settled_ledger : Ledger
  settled_ledger = record l {
    accounts =
        update id (λ (x : Account). record x { blocked_balance = a.blocked_balance -ℤ r.amount })
          l.accounts;
    reservations = update k (λ (x : Reservation). record x { status = status }) l.reservations;
  }

  settled-IsSound : IsSound settled_ledger
  unfolding settled_ledger
  settled-IsSound = record {
    backed =
        IsBacked-update l
          (update k (λ (x : Reservation). record x { status = status }) l.reservations)
          l.account_txs id _ a v e
          (record {
            blocked = grind (
              int_laws,
              (v.backed id a e).blocked,
              status-reserved_total id k status l.reservations r at_k,
            );
            posted = (v.backed id a e).posted;
            covered = omega (
              int_laws,
              (v.backed id a e).covered,
              amount_not_negative k l.reservations r v.not_negative at_k,
            );
          })
          (λ j h. grind (int_laws, status-reserved_total j k status l.reservations r at_k))
          (λ j _. refl);
    account_ids = update-Below l.next_id id _ l.accounts v.account_ids;
    reservation_ids = update-Below l.next_id k _ l.reservations v.reservation_ids;
    not_negative = status-NotNegative k status l.reservations v.not_negative;
    reservations_owned = status-OwnedBelow l.next_id k status l.reservations v.reservations_owned;
    entries_owned = v.entries_owned;
  }

  settle_account-IsSettled :
      IsSettled id k r status l
        (some (record {
          account = (id, record a { blocked_balance = a.blocked_balance -ℤ r.amount });
          reservation = (k, record r { status = status });
        }))
        settled_ledger
  unfolding settled_ledger
  settle_account-IsSettled = record {
    old = a;
    was = e;
    becomes = find_unique-update_self id _ l.accounts a e;
    others = λ j h. find_unique-update_ne j id _ l.accounts h;
    settled = refl;
    entries_kept = refl;
    returned = refl;
    sound = settled-IsSound;
  }

  pub settle_found : Ensures (IsSettled id k r status l) (settle_reservation id (k, r) status l)
  unfolding settle_reservation settled_ledger
  settle_found = ground (arith, e, settle_account-IsSettled)
