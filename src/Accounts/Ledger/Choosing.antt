-- ===== src/Accounts/Ledger/Choosing.antt =====
-- Which account `getOrCreateAccount` chooses: the one of the user and the instrument.
use gold_nest.Accounts.Ledger.Opening.{IsOpened, get_or_create_account-IsOpened}
use gold_nest.Tx.{Tx, ◌>>=◌, pure}
use gold_nest.Tx.Ensures.{Ensures, Ensures-bind, Ensures-map, Ensures-both}
use gold_nest.Table.{Row, find_first, Table, find_first-holds}
use gold_nest.Accounts.Soundness.{IsSound}
use gold_nest.Accounts.Ledger.{
  Ledger, get_or_create_account, find_instrument, find_or_create, Account, ensure_house_user,
  is_for, house_user_id, empty_account, create_account, has_user,
}
use gold_nest.Base.{
  ℕ, ◌≡◌, Bool, Option-cases, if◌then◌else◌, ◌==◌, inl, some, ap, arith, inr, true, ◌∙◌, ◌⊎◌,
  ==_iff, ==_refl, false, none, subst, refl, sym, ◌∷◌, Bool-cases,
}

-- What stands of the chosen account, for the instrument of id `i`.
abbrev Chosen : ℕ → ℕ → Ledger → Row Account → Ledger → Type 0
Chosen u i l row l' =
    (row.1.instrument_id ≡ i)
    × (l'.instruments ≡ l.instruments)
    × (find_first (is_for u i) l'.accounts ≡ some row)
    × ((l'.accounts ≡ l.accounts)
        ⊎ ((find_first (is_for u i) l.accounts ≡ none)
            × (l'.accounts ≡ (row.0, empty_account u i) ∷ l.accounts)))

-- The account stands in the ledger and is the user's, and it is the one for the instrument of the
-- code, which a further look-up finds. It was there before, or else it is new and empty, where the
-- user had none for the instrument.
pub record IsChosen (user_id code : ℕ) (l : Ledger) (row : Row Account) (l' : Ledger) : Type 0 where
  pub opened : IsOpened user_id l row l'
  pub instrument : find_first (λ c. c == code) l'.instruments ≡ some (row.1.instrument_id, code)
  pub chosen : Chosen user_id row.1.instrument_id l row l'

create_account-Chosen :
    (u i : ℕ) (l : Ledger)
    → find_first (is_for u i) l.accounts ≡ none
    → Ensures (Chosen u i l) (create_account u i l)
create_account-Chosen u i l missing = elim (Bool-cases (has_user u l.users)) [
  | inl known ↦
      rw (known, Ensures) (refl, refl, ground (arith, ==_refl u, ==_refl i), inr (missing, refl))
  | inr unknown ↦ rw (unknown, Ensures) tt
]

find_or_create-Chosen : (u i : ℕ) (l : Ledger) → Ensures (Chosen u i l) (find_or_create u i l)
unfolding find_or_create
find_or_create-Chosen u i l = elim (Option-cases (find_first (is_for u i) l.accounts)) [
  | inl missing ↦ rw (missing, Ensures, find_or_create) (create_account-Chosen u i l missing)
  | inr (row, e) ↦
      rw (e, Ensures, find_or_create)
        ((let h = find_first-holds _ l.accounts row.0 row.1 e in ground arith), refl, e, inl refl)
]

find_instrument-found :
    (code : ℕ) (l : Ledger)
    → Ensures
        (λ i l'. (find_first (λ c. c == code) l.instruments ≡ some (i, code)) × (l' ≡ l))
        (find_instrument code l)
unfolding find_instrument
find_instrument-found code l =
    elim (Option-cases (find_first (λ (c : ℕ). c == code) l.instruments)) [
      | inl missing ↦ rw (missing, Ensures, find_instrument) tt
      | inr (row, e) ↦
          let h = (==_iff row.1 code).0 (find_first-holds _ l.instruments row.0 row.1 e) in
          rw (e, Ensures, find_instrument) (e ∙ ap (λ (c : ℕ). some (row.0, c)) h, refl)
    ]

choosing : ℕ → ℕ → Tx Ledger (Row Account)
unfolding find_instrument
choosing u code = do i ← find_instrument code; find_or_create u i

-- The code's part of `IsChosen`.
abbrev Fits : ℕ → ℕ → Ledger → Row Account → Ledger → Type 0
Fits u code l row l' =
    (find_first (λ c. c == code) l'.instruments ≡ some (row.1.instrument_id, code))
    × Chosen u row.1.instrument_id l row l'

choosing-Fits : (u code : ℕ) (l : Ledger) → Ensures (Fits u code l) (choosing u code l)
unfolding choosing
choosing-Fits u code l =
    Ensures-bind (λ i l'. (find_first (λ c. c == code) l.instruments ≡ some (i, code)) × (l' ≡ l))
      (Fits u code l) (find_instrument code) (λ i. find_or_create u i) l
      (find_instrument-found code l)
      λ i l1 (e, same). rw same (
        Ensures-map (Chosen u i l) (Fits u code l) (find_or_create u i l)
          (λ row l' c.
            (let listed : find_first (λ k. k == code) l'.instruments ≡ some (i, code) =
                ap (λ (t : Table ℕ). find_first (λ k. k == code) t) c.1 ∙ e in
              subst
                (λ k.
                  (find_first (λ k. k == code) l'.instruments ≡ some (k, code))
                  × Chosen u k l row l')
                (sym c.0) (listed, c)))
          (find_or_create-Chosen u i l))

open_house-Fits :
    (u code : ℕ) (b : Bool) (l : Ledger)
    → Ensures
        (λ _ l'. (l'.instruments ≡ l.instruments) × (l'.accounts ≡ l.accounts))
        ((if b then ensure_house_user else pure tt) l)
open_house-Fits u code true l = (refl, refl)
open_house-Fits u code false l = (refl, refl)

get_or_create_account-Fits :
    (u code : ℕ) (l : Ledger) → Ensures (Fits u code l) (get_or_create_account u code l)
unfolding get_or_create_account choosing
get_or_create_account-Fits u code l =
    Ensures-bind (λ _ l'. (l'.instruments ≡ l.instruments) × (l'.accounts ≡ l.accounts))
      (Fits u code l) (if u == house_user_id then ensure_house_user else pure tt)
      (λ _. choosing u code) l (open_house-Fits u code (u == house_user_id) l)
      λ _ l1 (listed, same).
        Ensures-map (Fits u code l1) (Fits u code l) (choosing u code l1)
          (λ row l' (coded, (at_i, kept, found, origin)). (
            coded,
            (
              at_i,
              kept ∙ listed,
              found,
              subst
                  (λ (t : Table Account).
                    (l'.accounts ≡ t)
                    ⊎ ((find_first (is_for u row.1.instrument_id) t ≡ none)
                        × (l'.accounts ≡ (row.0, empty_account u row.1.instrument_id) ∷ t)))
                  same origin,
            ),
          ))
          (choosing-Fits u code l1)

-- On a sound ledger `getOrCreateAccount`, where it does not throw, returns the user's account for
-- the instrument of the code, which stands in the ledger and is the one that a further look-up
-- finds. Either no account has changed, or the user had none for the instrument and one without
-- any balance is new. The ledger stays sound; reservations, entries and instruments are kept.
pub get_or_create_account-IsChosen :
    (u code : ℕ) (l : Ledger)
    → IsSound l
    → Ensures (IsChosen u code l) (get_or_create_account u code l)
get_or_create_account-IsChosen u code l v =
    Ensures-map (λ row l'. IsOpened u l row l' × Fits u code l row l') (IsChosen u code l)
      (get_or_create_account u code l)
      (λ row l' (o, f). record { opened = o; instrument = f.0; chosen = f.1 })
      (Ensures-both (IsOpened u l) (Fits u code l) (get_or_create_account u code l)
        (get_or_create_account-IsOpened u code l v) (get_or_create_account-Fits u code l))
