-- ===== src/Accounts/Reserving/Total.antt =====
-- On a sound ledger `releaseFunds` always goes through: its test on the blocked balance never fails.
use gold_nest.Base.{
  ℕ, ◌≡◌, refl, ◌==◌, Option, none, some, [], ◌∷◌, arith, true, Bool-cases, inl, inr,
}
use gold_nest.Int.{pos, ◌≤ℤ◌, int_laws}
use gold_nest.Table.{Row, Table, find_unique, find_first, find_first-holds}
use gold_nest.Table.Keys.{find_unique-find_first}
use gold_nest.Tx.Succeeds.{Succeeds, Succeeds-bind, Succeeds-Ensures, is_ok}
use gold_nest.Accounts.Ledger.{
  Account, Reservation, Ledger, TxRefType, ReservationStatus, reserved, consumed, released,
  find_account, get_or_create_account, is_known, house_user_id, has_user,
}
use gold_nest.Accounts.Ledger.Opening.{IsOpened, get_or_create_account-IsOpened}
use gold_nest.Accounts.Soundness.{IsSound, NotNegative, reserved_total, held_on}
use gold_nest.Accounts.Reserving.{
  same_key, settle_reservation, release_by, release_on, release_funds,
}
use gold_nest.Accounts.Reserving.Funds.{IsClosed, release_on-IsClosed}

reserved_total_not_negative :
    (j : ℕ) (rs : Table Reservation) → NotNegative rs → pos 0 ≤ℤ reserved_total j rs
reserved_total_not_negative j [] h = omega int_laws
reserved_total_not_negative j ((k, r) ∷ rs) h =
    grind (int_laws, reserved_total_not_negative j rs h.1, h.0)

held_on-reserved_total :
    (j k : ℕ) (rs : Table Reservation) (r : Reservation)
    → NotNegative rs
    → find_unique k rs ≡ some r
    → held_on j r ≤ℤ reserved_total j rs
held_on-reserved_total j k [] r h e = cc
held_on-reserved_total j k ((i, x) ∷ rs) r h e =
    grind (int_laws, held_on-reserved_total j k rs r h.1, reserved_total_not_negative j rs h.1, h.0)

pub get_or_create_account-is_ok :
    (u code : ℕ) (l : Ledger) (i : Row ℕ)
    → find_first (λ c. c == code) l.instruments ≡ some i
    → is_known u l ≡ true
    → is_ok (get_or_create_account u code l) ≡ true
unfolding get_or_create_account
get_or_create_account-is_ok u code l i e known = elim (Bool-cases (u == house_user_id)) [
  | inl house ↦ elim (Bool-cases (has_user house_user_id l.users)) [
    | inl there ↦ ground (arith, e, house, there)
    | inr new ↦ ground (arith, e, house, new)
  ]
  | inr client ↦ ground (arith, e, client, known)
]

module _ (u : ℕ) (rt : TxRefType) (rid : ℕ) (l : Ledger) (row : Row Account) (m : Ledger)
    (o : IsOpened u l row m) where
  pub settle-is_ok :
      (status : ReservationStatus) (r : Row Reservation)
      → find_first (same_key rt rid row.0) m.reservations ≡ some r
      → r.1.status ≡ reserved
      → is_ok (settle_reservation row.0 r status m) ≡ true
  unfolding settle_reservation find_account
  settle-is_ok status r e s =
      let at_r : find_unique r.0 m.reservations ≡ some r.1 =
        find_unique-find_first m.next_id _ m.reservations r.0 r.1 o.sound.reservation_ids e in
      let mine = find_first-holds _ m.reservations r.0 r.1 e in
      let below = held_on-reserved_total row.0 r.0 m.reservations r.1 o.sound.not_negative at_r in
      let blocked = (o.sound.backed row.0 row.1 o.stored).blocked in
      let stored = o.stored in grind int_laws

  release_by-is_ok :
      (r : Row Reservation) (status : ReservationStatus)
      → find_first (same_key rt rid row.0) m.reservations ≡ some r
      → r.1.status ≡ status
      → is_ok (release_by row r status m) ≡ true
  unfolding release_by find_account
  release_by-is_ok r reserved e s = settle-is_ok released r e s
  release_by-is_ok r consumed e s = (let stored = o.stored in ground arith)
  release_by-is_ok r released e s = refl

  release_on-is_ok :
      (found : Option (Row Reservation))
      → find_first (same_key rt rid row.0) m.reservations ≡ found
      → is_ok (release_on row found m) ≡ true
  unfolding release_on
  release_on-is_ok none e = refl
  release_on-is_ok (some r) e = release_by-is_ok r r.1.status e refl

-- On a sound ledger with the instrument and the user, releasing never throws: the opened account has at least
-- the reserved amount blocked, and the outcome is the one that is stated of releases.
pub release_funds-Succeeds :
    (u code : ℕ) (rt : TxRefType) (rid : ℕ) (l : Ledger) (i : Row ℕ)
    → IsSound l
    → find_first (λ c. c == code) l.instruments ≡ some i
    → is_known u l ≡ true
    → Succeeds (IsClosed u rt rid released l) (release_funds u code rt rid l)
unfolding release_funds
release_funds-Succeeds u code rt rid l i v e known =
    Succeeds-bind (IsOpened u l) (IsClosed u rt rid released l) (get_or_create_account u code) _ l
      (Succeeds-Ensures (IsOpened u l) _ (get_or_create_account-IsOpened u code l v)
        (get_or_create_account-is_ok u code l i e known))
      λ row m o.
        Succeeds-Ensures (IsClosed u rt rid released l) _
          (release_on-IsClosed u rt rid l row m o _ refl)
          (release_on-is_ok u rt rid l row m o _ refl)
