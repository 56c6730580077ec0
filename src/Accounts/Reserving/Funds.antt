-- ===== src/Accounts/Reserving/Funds.antt =====
-- `reserveFunds`, `releaseFunds` and `consumeFunds` as wholes: the account is opened, then at most
-- one reservation changes.
use gold_nest.Base.{
  ℕ, ◌≡◌, refl, some_unique, sym, ap, subst, ◌∙◌, Bool, false, ◌==◌, Option, none, some, arith, inl,
  inr, Bool-cases, ◌⊎◌, ◌≢◌,
}
use gold_nest.Int.{ℤ, pos, ◌≤ℤ◌}
use gold_nest.Table.{Row, find_first, find_first-holds}
use gold_nest.Table.Keys.{find_unique-find_first}
use gold_nest.Tx.Ensures.{Ensures, Ensures-bind, Ensures-map}
use gold_nest.Accounts.Ledger.{
  Account, Reservation, Ledger, TxRefType, ReservationStatus, reserved, consumed, released,
  find_account, get_or_create_account,
}
use gold_nest.Accounts.Ledger.Opening.{IsOpened, get_or_create_account-IsOpened}
use gold_nest.Accounts.Reserving.{
  Held, same_key, settle_reservation, reserve_on, reserve_again, reserve_funds, release_on,
  release_by, release_funds, consume_on, consume_by, consume_funds,
}
use gold_nest.Accounts.Reserving.Keeps.{IsReserved, IsSettled, reserve_new-IsReserved, settle_found}
use gold_nest.Accounts.Soundness.{balance_at, IsSound, is_reserved}

abbrev pub is_open : Option (Row Reservation) → Bool
is_open none = false
is_open (some r) = is_reserved r.1.status

status-cases : (s : ReservationStatus) → (s ≡ reserved) ⊎ ((s ≡ consumed) ⊎ (s ≡ released))
status-cases reserved = inl refl
status-cases consumed = inr (inl refl)
status-cases released = inr (inr refl)

-- `status` is the status that the call gives an open reservation.
pub record IsClosed (user_id : ℕ) (ref_type : TxRefType) (ref_id : ℕ) (status : ReservationStatus)
    (l : Ledger) (h : Option Held) (l' : Ledger) : Type 0 where
  pub row : Row Account
  pub opened : Ledger
  pub opening : IsOpened user_id l row opened
  pub idle :
      is_open (find_first (same_key ref_type ref_id row.0) opened.reservations) ≡ false
      → l' ≡ opened
  pub balances_kept : (j : ℕ) → balance_at j l'.accounts ≡ balance_at j l.accounts
  pub entries_kept : l'.account_txs ≡ l.account_txs
  pub returned : (x : Held) → h ≡ some x → x.account.0 ≡ row.0
  pub closing :
      (k : ℕ) (r : Reservation)
      → find_first (same_key ref_type ref_id row.0) opened.reservations ≡ some (k, r)
      → r.status ≡ reserved
      → IsSettled row.0 k r status opened h l'
  pub sound : IsSound l'

settled-balance_at :
    (id k : ℕ) (r : Reservation) (status : ReservationStatus) (l : Ledger) (h : Option Held)
    (l' : Ledger)
    → IsSettled id k r status l h l'
    → (j : ℕ) → balance_at j l'.accounts ≡ balance_at j l.accounts
settled-balance_at id k r status l h l' s j = elim (Bool-cases (id == j)) [
  | inl this ↦ (let was = s.was in let becomes = s.becomes in ground arith)
  | inr other ↦ (let same = s.others j other in ground arith)
]

module _ (u : ℕ) (rt : TxRefType) (rid : ℕ) (l : Ledger) (row : Row Account) (m : Ledger)
    (o : IsOpened u l row m) where
  idle-IsClosed :
      (status : ReservationStatus) (found : Option (Row Reservation)) (h : Option Held)
      → find_first (same_key rt rid row.0) m.reservations ≡ found
      → is_open found ≡ false
      → ((x : Held) → h ≡ some x → x.account.0 ≡ row.0)
      → IsClosed u rt rid status l h m
  idle-IsClosed status found h e shut back = record {
    row = row;
    opened = m;
    opening = o;
    idle = λ _. refl;
    balances_kept = o.balances_kept;
    entries_kept = o.entries_kept;
    returned = back;
    closing = λ k r at open_one. absurd (ground arith);
    sound = o.sound;
  }

  settle-IsClosed :
      (status : ReservationStatus) (r : Row Reservation)
      → is_reserved status ≡ false
      → find_first (same_key rt rid row.0) m.reservations ≡ some r
      → r.1.status ≡ reserved
      → Ensures (IsClosed u rt rid status l) (settle_reservation row.0 r status m)
  settle-IsClosed status r closes e open_one =
      Ensures-map (IsSettled row.0 r.0 r.1 status m) (IsClosed u rt rid status l) _
        (λ h l' s. record {
          row = row;
          opened = m;
          opening = o;
          idle = λ shut. absurd (ground arith);
          balances_kept =
              λ j. settled-balance_at row.0 r.0 r.1 status m h l' s j ∙ o.balances_kept j;
          entries_kept = s.entries_kept ∙ o.entries_kept;
          returned = λ x back. ap (λ (y : Held). y.account.0) (some_unique h x _ back s.returned);
          closing = λ k x at _.
              subst (λ (q : Row Reservation). IsSettled row.0 q.0 q.1 status m h l')
                (some_unique _ r (k, x) e at) s;
          sound = s.sound;
        })
        (settle_found row.0 r.0 r.1 status m o.sound row.1 o.stored
          (find_unique-find_first m.next_id _ m.reservations r.0 r.1 o.sound.reservation_ids e)
          (let held = find_first-holds _ m.reservations r.0 r.1 e in ground arith) open_one closes)

  release_by-IsClosed :
      (r : Row Reservation) (status : ReservationStatus)
      → find_first (same_key rt rid row.0) m.reservations ≡ some r
      → r.1.status ≡ status
      → Ensures (IsClosed u rt rid released l) (release_by row r status m)
  unfolding release_by find_account
  release_by-IsClosed r reserved e s = settle-IsClosed released r refl e s
  release_by-IsClosed r consumed e s =
      rw (o.stored, Ensures)
        (idle-IsClosed released (some r) _ e (ground arith) (λ x back. ground arith))
  release_by-IsClosed r released e s =
      idle-IsClosed released (some r) _ e (ground arith) (λ x back. ground arith)

  pub release_on-IsClosed :
      (found : Option (Row Reservation))
      → find_first (same_key rt rid row.0) m.reservations ≡ found
      → Ensures (IsClosed u rt rid released l) (release_on row found m)
  unfolding release_on
  release_on-IsClosed none e = idle-IsClosed released none none e refl (λ x back. cc)
  release_on-IsClosed (some r) e = release_by-IsClosed r r.1.status e refl

  consume_by-IsClosed :
      (r : Row Reservation) (status : ReservationStatus)
      → find_first (same_key rt rid row.0) m.reservations ≡ some r
      → r.1.status ≡ status
      → Ensures (IsClosed u rt rid consumed l) (consume_by row r status m)
  unfolding consume_by
  consume_by-IsClosed r reserved e s = settle-IsClosed consumed r refl e s
  consume_by-IsClosed r consumed e s =
      idle-IsClosed consumed (some r) _ e (ground arith) (λ x back. ground arith)
  consume_by-IsClosed r released e s = tt

  consume_on-IsClosed :
      (found : Option (Row Reservation))
      → find_first (same_key rt rid row.0) m.reservations ≡ found
      → Ensures (IsClosed u rt rid consumed l) (consume_on row found m)
  unfolding consume_on
  consume_on-IsClosed none e = idle-IsClosed consumed none none e refl (λ x back. cc)
  consume_on-IsClosed (some r) e = consume_by-IsClosed r r.1.status e refl

-- On a sound ledger a release that goes through gives an open reservation the status RELEASED and takes
-- its amount off the blocked balance of the user's account; with no open reservation it changes
-- nothing but the opening of the account. Balances and entries stay, and the ledger stays sound.
pub release_funds-IsClosed :
    (u code : ℕ) (rt : TxRefType) (rid : ℕ) (l : Ledger)
    → IsSound l
    → Ensures (IsClosed u rt rid released l) (release_funds u code rt rid l)
unfolding release_funds
release_funds-IsClosed u code rt rid l v =
    Ensures-bind (IsOpened u l) (IsClosed u rt rid released l) (get_or_create_account u code) _ l
      (get_or_create_account-IsOpened u code l v)
      λ row m o. release_on-IsClosed u rt rid l row m o _ refl

-- On a sound ledger a consumption that goes through gives an open reservation the status CONSUMED and
-- takes its amount off the blocked balance of the user's account; with no open reservation it changes
-- nothing but the opening of the account. Balances and entries stay, and the ledger stays sound.
pub consume_funds-IsClosed :
    (u code : ℕ) (rt : TxRefType) (rid : ℕ) (l : Ledger)
    → IsSound l
    → Ensures (IsClosed u rt rid consumed l) (consume_funds u code rt rid l)
unfolding consume_funds
consume_funds-IsClosed u code rt rid l v =
    Ensures-bind (IsOpened u l) (IsClosed u rt rid consumed l) (get_or_create_account u code) _ l
      (get_or_create_account-IsOpened u code l v)
      λ row m o. consume_on-IsClosed u rt rid l row m o _ refl

-- `reserveFunds` blocks the amount, or meets the reservation of an earlier call.
pub record IsHeld (user_id : ℕ) (amount : ℤ) (ref_type : TxRefType) (ref_id : ℕ) (l : Ledger)
    (h : Held) (l' : Ledger) : Type 0 where
  pub row : Row Account
  pub opened : Ledger
  pub opening : IsOpened user_id l row opened
  pub fresh :
      find_first (same_key ref_type ref_id row.0) opened.reservations ≡ none
      → IsReserved row.0 amount ref_type ref_id opened h l'
  pub again :
      (r : Row Reservation)
      → find_first (same_key ref_type ref_id row.0) opened.reservations ≡ some r
      → (l' ≡ opened) × (h.reservation ≡ r) × (r.1.status ≢ released)
  pub sound : IsSound l'

module _ (u : ℕ) (amount : ℤ) (rt : TxRefType) (rid : ℕ) (l : Ledger) (row : Row Account)
    (m : Ledger) (o : IsOpened u l row m) where
  reserve_again-IsHeld :
      (r : Row Reservation) (status : ReservationStatus)
      → find_first (same_key rt rid row.0) m.reservations ≡ some r
      → r.1.status ≡ status
      → status ≢ released
      → IsHeld u amount rt rid l (record { account = (row.0, row.1); reservation = r }) m
  reserve_again-IsHeld r status e s ne = record {
    row = row;
    opened = m;
    opening = o;
    fresh = λ missing. absurd (ground arith);
    again = λ x at. (
      refl,
      some_unique _ r x e at,
      λ bad. ne (sym s ∙ ap (λ (q : Row Reservation). q.1.status) (some_unique _ r x e at) ∙ bad),
    );
    sound = o.sound;
  }

  reserve_again-Ensures :
      (r : Row Reservation) (status : ReservationStatus)
      → find_first (same_key rt rid row.0) m.reservations ≡ some r
      → r.1.status ≡ status
      → Ensures (IsHeld u amount rt rid l) (reserve_again row.0 row.1 r status m)
  unfolding reserve_again
  reserve_again-Ensures r released e s = tt
  reserve_again-Ensures r reserved e s = reserve_again-IsHeld r reserved e s (λ bad. cc)
  reserve_again-Ensures r consumed e s = reserve_again-IsHeld r consumed e s (λ bad. cc)

  reserve_on-IsHeld :
      (found : Option (Row Reservation))
      → find_first (same_key rt rid row.0) m.reservations ≡ found
      → pos 0 ≤ℤ amount
      → Ensures (IsHeld u amount rt rid l) (reserve_on row.0 row.1 amount rt rid found m)
  unfolding reserve_on
  reserve_on-IsHeld none e positive =
      Ensures-map (IsReserved row.0 amount rt rid m) (IsHeld u amount rt rid l) _
        (λ h l' s. record {
          row = row;
          opened = m;
          opening = o;
          fresh = λ _. s;
          again = λ r at. absurd (ground arith);
          sound = s.sound;
        })
        (reserve_new-IsReserved row.0 amount rt rid m o.sound row.1 o.stored positive)
  reserve_on-IsHeld (some r) e positive = reserve_again-Ensures r r.1.status e refl

find_opened :
    (u : ℕ) (l : Ledger) (row : Row Account) (m : Ledger)
    → IsOpened u l row m
    → Ensures (λ a m'. (a ≡ row.1) × (m' ≡ m)) (find_account row.0 m)
unfolding find_account
find_opened u l row m o = rw (o.stored, Ensures) (refl, refl)

-- On a sound ledger a reservation of a non-negative amount that goes through either blocks the amount
-- on the user's account, which had that much usable, under a new open reservation; or, on a repeated
-- call, it returns the reservation of the first call and blocks nothing again. The ledger stays sound.
pub reserve_funds-IsHeld :
    (u code : ℕ) (amount : ℤ) (rt : TxRefType) (rid : ℕ) (l : Ledger)
    → IsSound l
    → pos 0 ≤ℤ amount
    → Ensures (IsHeld u amount rt rid l) (reserve_funds u code amount rt rid l)
unfolding reserve_funds
reserve_funds-IsHeld u code amount rt rid l v positive =
    Ensures-bind (IsOpened u l) (IsHeld u amount rt rid l) (get_or_create_account u code) _ l
      (get_or_create_account-IsOpened u code l v)
      λ row m o.
        Ensures-bind (λ a m'. (a ≡ row.1) × (m' ≡ m)) (IsHeld u amount rt rid l)
          (find_account row.0) _ m (find_opened u l row m o)
          λ a m' same.
            rw (same.0, same.1) (reserve_on-IsHeld u amount rt rid l row m o _ refl positive)
