-- ===== src/Accounts/Ledger/Opening.antt =====
-- `getOrCreateAccount` keeps the ledger sound, and returns an account that is there.
use gold_nest.Base.{
  ap, ℕ, ◌≡◌, refl, ◌∙◌, ◌&&◌, Bool, true, false, ◌==◌, if◌then◌else◌, some, ◌∷◌, arith, inl, inr,
  Bool-cases, Option-cases,
}
use gold_nest.Int.{int_laws}
use gold_nest.Table.{Table, Row, find_unique, find_first, find_first-holds}
use gold_nest.Table.Keys.{find_unique_above, find_unique-find_first, find_unique_bound}
use gold_nest.Tx.{pure}
use gold_nest.Tx.Ensures.{Ensures, Ensures-bind, Ensures-map}
use gold_nest.Accounts.Ledger.{
  Account, Ledger, house_user_id, empty_account, create_account, find_or_create, find_instrument,
  ensure_house_user, get_or_create_account, has_user, insert_account,
}
use gold_nest.Accounts.Soundness.{
  balance_at, IsSound, IsBacked, fresh_id, reserved_total_above, posted_total_above,
}

-- What `getOrCreateAccount` promises: the account stands in the ledger, it is the user's, and
-- nothing that was there has changed.
pub record IsOpened (user_id : ℕ) (l : Ledger) (row : Row Account) (l' : Ledger) : Type 0 where
  pub sound : IsSound l'
  pub stored : find_unique row.0 l'.accounts ≡ some row.1
  pub owner : row.1.user_id ≡ user_id
  pub kept :
      (j : ℕ) (a : Account) → find_unique j l.accounts ≡ some a → find_unique j l'.accounts ≡ some a
  pub balances_kept : (j : ℕ) → balance_at j l'.accounts ≡ balance_at j l.accounts
  pub reservations_kept : l'.reservations ≡ l.reservations
  pub entries_kept : l'.account_txs ≡ l.account_txs

insert_account-IsBacked :
    (u i : ℕ) (l : Ledger) (id : ℕ) (a : Account)
    → IsSound l
    → find_unique id ((l.next_id, empty_account u i) ∷ l.accounts) ≡ some a
    → IsBacked l.reservations l.account_txs id a
insert_account-IsBacked u i l id a v e = elim (Bool-cases (l.next_id == id)) [
  | inl new ↦ grind (
    int_laws,
    reserved_total_above l.next_id id l.reservations v.reservations_owned,
    posted_total_above l.next_id id l.account_txs v.entries_owned,
  )
  | inr old ↦ v.backed id a (ground arith)
]

insert_account-balance_at :
    (u i j : ℕ) (l : Ledger)
    → IsSound l
    → balance_at j ((l.next_id, empty_account u i) ∷ l.accounts) ≡ balance_at j l.accounts
insert_account-balance_at u i j l v = elim (Bool-cases (l.next_id == j)) [
  | inl new ↦
      let missing = find_unique_above l.next_id j l.accounts v.account_ids (ground arith) in
      ground arith
  | inr old ↦ ground arith
]

insert_account-IsOpened :
    (u i : ℕ) (l : Ledger) → IsSound l → Ensures (IsOpened u l) (insert_account u i l)
insert_account-IsOpened u i l v = record {
  sound = record {
    backed = λ id a. insert_account-IsBacked u i l id a v;
    account_ids = (omega arith, v.account_ids);
    reservation_ids = (fresh_id l v).reservation_ids;
    not_negative = v.not_negative;
    reservations_owned = (fresh_id l v).reservations_owned;
    entries_owned = (fresh_id l v).entries_owned;
  };
  stored = ground arith;
  owner = refl;
  kept =
      λ j a e. (let h = find_unique_bound l.next_id j l.accounts a v.account_ids e in ground arith);
  balances_kept = λ j. insert_account-balance_at u i j l v;
  reservations_kept = refl;
  entries_kept = refl;
}

create_account-IsOpened :
    (u i : ℕ) (l : Ledger) → IsSound l → Ensures (IsOpened u l) (create_account u i l)
create_account-IsOpened u i l v = elim (Bool-cases (has_user u l.users)) [
  | inl known ↦ rw (known, Ensures) (insert_account-IsOpened u i l v)
  | inr unknown ↦ rw (unknown, Ensures) tt
]

find_or_create-IsOpened :
    (u i : ℕ) (l : Ledger) → IsSound l → Ensures (IsOpened u l) (find_or_create u i l)
unfolding find_or_create
find_or_create-IsOpened u i l v =
    elim (Option-cases
      (find_first (λ (a : Account). a.user_id == u && a.instrument_id == i) l.accounts)) [
        | inl missing ↦ rw (missing, Ensures, find_or_create) (create_account-IsOpened u i l v)
        | inr (row, e) ↦
            rw (e, Ensures, find_or_create)
              (record {
                sound = v;
                stored = find_unique-find_first l.next_id _ l.accounts row.0 row.1 v.account_ids e;
                owner = (let h = find_first-holds _ l.accounts row.0 row.1 e in ground arith);
                kept = λ j a h. h;
                balances_kept = λ j. refl;
                reservations_kept = refl;
                entries_kept = refl;
              })
      ]

-- The first two steps change no account, no reservation and no entry.
record IsSame (l l' : Ledger) : Type 0 where
  sound : IsSound l'
  accounts_kept : l'.accounts ≡ l.accounts
  reservations_kept : l'.reservations ≡ l.reservations
  entries_kept : l'.account_txs ≡ l.account_txs

find_instrument-IsSame :
    (code : ℕ) (l : Ledger) → IsSound l → Ensures (λ _ l'. IsSame l l') (find_instrument code l)
unfolding find_instrument
find_instrument-IsSame code l v =
    let same : IsSame l l = record {
      sound = v;
      accounts_kept = refl;
      reservations_kept = refl;
      entries_kept = refl;
    } in
    ground (arith, same)

open_house-IsSame :
    (b : Bool) (l : Ledger)
    → IsSound l
    → Ensures (λ _ l'. IsSame l l') ((if b then ensure_house_user else pure tt) l)
open_house-IsSame true l v = record {
  sound = record {
    backed = v.backed;
    account_ids = v.account_ids;
    reservation_ids = v.reservation_ids;
    not_negative = v.not_negative;
    reservations_owned = v.reservations_owned;
    entries_owned = v.entries_owned;
  };
  accounts_kept = refl;
  reservations_kept = refl;
  entries_kept = refl;
}
open_house-IsSame false l v = record {
  sound = v;
  accounts_kept = refl;
  reservations_kept = refl;
  entries_kept = refl;
}

IsOpened-after :
    (u : ℕ) (l m : Ledger) (row : Row Account) (l' : Ledger)
    → IsSame l m
    → IsOpened u m row l'
    → IsOpened u l row l'
IsOpened-after u l m row l' s o = record {
  sound = o.sound;
  stored = o.stored;
  owner = o.owner;
  kept = λ j a e. o.kept j a (rw s.accounts_kept e);
  balances_kept =
      λ j. o.balances_kept j ∙ ap (λ (t : Table Account). balance_at j t) s.accounts_kept;
  reservations_kept = o.reservations_kept ∙ s.reservations_kept;
  entries_kept = o.entries_kept ∙ s.entries_kept;
}

-- The account that `getOrCreateAccount` returns is the user's and stands in the ledger, which stays
-- sound, also where the account is created.
pub get_or_create_account-IsOpened :
    (u code : ℕ) (l : Ledger) → IsSound l → Ensures (IsOpened u l) (get_or_create_account u code l)
unfolding get_or_create_account
get_or_create_account-IsOpened u code l v =
    Ensures-bind (λ _ m. IsSame l m) (IsOpened u l)
      (if u == house_user_id then ensure_house_user else pure tt) _ l (open_house-IsSame _ l v)
      λ _ l1 s1.
        Ensures-bind (λ _ m. IsSame l1 m) (IsOpened u l) (find_instrument code) _ l1
          (find_instrument-IsSame code l1 s1.sound)
          λ i l2 s2.
            Ensures-map (IsOpened u l2) (IsOpened u l) (find_or_create u i l2)
              (λ row l' o. IsOpened-after u l l1 row l' s1 (IsOpened-after u l1 l2 row l' s2 o))
              (find_or_create-IsOpened u i l2 s2.sound)
