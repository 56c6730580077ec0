-- ===== src/P2p/Merging/Splitting.antt =====
-- The split of a reservation moves money that is reserved, and reserves none.
use gold_nest.Base.{ℕ, suc, ◌≡◌, refl, ◌<◌, some, [], ◌∷◌, arith, inl, inr, Option-cases, ◌∙◌, sym}
use gold_nest.Int.{ℤ, pos, ◌-ℤ◌, ◌≤ℤ◌, int_laws}
use gold_nest.Table.{Table, find_unique, find_first, update}
use gold_nest.Table.Sums.{sum_rows-update}
use gold_nest.Table.Keys.{update-Below, find_unique-find_first}
use gold_nest.Tx.Ensures.{Ensures}
use gold_nest.Accounts.Ledger.{Reservation, Ledger, withdraw}
use gold_nest.Accounts.Reserving.{create_reservation}
use gold_nest.Accounts.Soundness.{
  IsSound, OwnedBelow, NotNegative, held_on, reserved_total, fresh_id,
}
use gold_nest.P2p.Merging.{of_request, part_for, split_funds}

amount-OwnedBelow :
    (n k : ℕ) (amount : ℤ) (rs : Table Reservation)
    → OwnedBelow n rs
    → OwnedBelow n (update k (λ r. record r { amount = amount }) rs)
amount-OwnedBelow n k amount [] o = tt
amount-OwnedBelow n k amount ((j, r) ∷ rs) o = ground (arith, amount-OwnedBelow n k amount rs o.1)

amount-NotNegative :
    (k : ℕ) (amount : ℤ) (rs : Table Reservation)
    → pos 0 ≤ℤ amount
    → NotNegative rs
    → NotNegative (update k (λ r. record r { amount = amount }) rs)
amount-NotNegative k amount [] h o = tt
amount-NotNegative k amount ((j, r) ∷ rs) h o = ground (arith, amount-NotNegative k amount rs h o.1)

find_unique-OwnedBelow :
    (n k : ℕ) (rs : Table Reservation) (r : Reservation)
    → OwnedBelow n rs
    → find_unique k rs ≡ some r
    → r.account_id < n
find_unique-OwnedBelow n k [] r o e = cc
find_unique-OwnedBelow n k ((j, x) ∷ rs) r o e = ground (arith, find_unique-OwnedBelow n k rs r o.1)

-- Every account has as much reserved as before, and no account or entry changes.
pub record IsSplit (l l' : Ledger) : Type 0 where
  pub sound : IsSound l'
  pub totals : (j : ℕ) → reserved_total j l'.reservations ≡ reserved_total j l.reservations
  pub accounts_kept : l'.accounts ≡ l.accounts
  pub entries_kept : l'.account_txs ≡ l.account_txs

module _ (id : ℕ) (amount : ℤ) (l : Ledger) (v : IsSound l) (k : ℕ) (r : Reservation)
    (at_k : find_unique k l.reservations ≡ some r) where
  split_ledger : Ledger
  split_ledger = record l {
    reservations =
        (l.next_id, part_for id amount r)
        ∷ update k (λ (x : Reservation). record x { amount = r.amount -ℤ amount }) l.reservations;
    next_id = suc l.next_id;
  }

  split-total :
      (j : ℕ) → reserved_total j split_ledger.reservations ≡ reserved_total j l.reservations
  unfolding split_ledger
  split-total j = grind (
    int_laws,
    sum_rows-update (held_on j) k (λ x. record x { amount = r.amount -ℤ amount }) l.reservations r
        at_k,
  )

  split_ledger-IsSplit : pos 0 ≤ℤ amount → amount ≤ℤ r.amount → IsSplit l split_ledger
  unfolding split_ledger
  split_ledger-IsSplit positive fits = record {
    sound = record {
      backed = λ j a e. record {
        blocked = (v.backed j a e).blocked ∙ sym (split-total j);
        posted = (v.backed j a e).posted;
        covered = (v.backed j a e).covered;
      };
      account_ids = (fresh_id l v).account_ids;
      reservation_ids = (omega arith, update-Below l.next_id k _ l.reservations v.reservation_ids);
      not_negative =
          (positive, amount-NotNegative k _ l.reservations (omega int_laws) v.not_negative);
      reservations_owned = (
        omega
            (arith, find_unique-OwnedBelow l.next_id k l.reservations r v.reservations_owned at_k),
        amount-OwnedBelow _ k _ l.reservations (fresh_id l v).reservations_owned,
      );
      entries_owned = (fresh_id l v).entries_owned;
    };
    totals = split-total;
    accounts_kept = refl;
    entries_kept = refl;
  }

  IsSplit-found :
      (withdrawal_id : ℕ)
      → find_first (of_request withdraw withdrawal_id) l.reservations ≡ some (k, r)
      → pos 0 ≤ℤ amount
      → Ensures (λ _ l'. IsSplit l l') (split_funds withdrawal_id id amount l)
  unfolding split_funds create_reservation split_ledger
  IsSplit-found withdrawal_id found positive = ground (arith, found, split_ledger-IsSplit positive)

-- On a sound ledger a split of a non-negative amount that goes through leaves every account with as
-- much reserved as before, changes no account and no entry, and keeps the ledger sound.
pub split_funds-IsSplit :
    (withdrawal_id id : ℕ) (amount : ℤ) (l : Ledger)
    → IsSound l
    → pos 0 ≤ℤ amount
    → Ensures (λ _ l'. IsSplit l l') (split_funds withdrawal_id id amount l)
unfolding split_funds
split_funds-IsSplit withdrawal_id id amount l v positive =
    elim (Option-cases (find_first (of_request withdraw withdrawal_id) l.reservations)) [
      | inl missing ↦ ground (arith, missing)
      | inr ((k, r), e) ↦
          IsSplit-found id amount l v k r
            (find_unique-find_first l.next_id _ l.reservations k r v.reservation_ids e)
            withdrawal_id e positive
    ]
