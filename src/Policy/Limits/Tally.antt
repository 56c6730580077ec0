-- ===== src/Policy/Limits/Tally.antt =====
-- The book adds up: each usage carries the sums of its consumed and of its open reservations.
use gold_nest.Base.{
  ℕ, ◌≡◌, ◌<◌, ◌≤◌, refl, sym, subst, ◌∙◌, Bool, true, false, some, [], ◌∷◌, All, arith, inl, inr,
  Bool-cases, Option-cases, ◌==◌, ==_iff, if◌then◌else◌,
}
use gold_nest.Int.{ℤ, pos, ◌+ℤ◌, ◌-ℤ◌, int_laws}
use gold_nest.Table.{Row, Table, find_unique, update, find_unique-update}
use gold_nest.Table.Sums.{sum_rows, sum_rows-update}
use gold_nest.Table.Keys.{Below, update-Below}
use gold_nest.Tx.Ensures.{Ensures}
use gold_nest.Policy.LimitBook.{
  LimitStatus, reserved, consumed, released, LimitUsage, LimitReservation, LimitBook,
}
use gold_nest.Policy.Limits.{consume_amount, release_amount}

abbrev pub is_reserved : LimitStatus → Bool
is_reserved reserved = true
is_reserved _ = false

abbrev pub is_consumed : LimitStatus → Bool
is_consumed consumed = true
is_consumed _ = false

abbrev pub counted : (LimitStatus → Bool) → ℕ → LimitReservation → ℤ
counted p id r = if r.usage_id == id then if p r.status then r.amount else pos 0 else pos 0

abbrev pub open_total : ℕ → Table LimitReservation → ℤ
open_total id = sum_rows (counted is_reserved id)

abbrev pub consumed_total : ℕ → Table LimitReservation → ℤ
consumed_total id = sum_rows (counted is_consumed id)

pub record IsCounted (rs : Table LimitReservation) (id : ℕ) (u : LimitUsage) : Type 0 where
  pub used : u.used_amount ≡ consumed_total id rs
  pub held : u.reserved_amount ≡ open_total id rs

abbrev pub OwnedBelow : ℕ → Table LimitReservation → Type 0
OwnedBelow n = All (λ (r : Row LimitReservation). r.1.usage_id < n)

pub record IsTallied (b : LimitBook) : Type 0 where
  pub tallied :
      (id : ℕ) (u : LimitUsage)
      → find_unique id b.usages ≡ some u
      → IsCounted b.limit_reservations id u
  pub usage_ids : Below b.next_id b.usages
  pub reservation_ids : Below b.next_id b.limit_reservations
  pub owned : OwnedBelow b.next_id b.limit_reservations

pub counted_above :
    (p : LimitStatus → Bool) (n id : ℕ) (rs : Table LimitReservation)
    → OwnedBelow n rs
    → n ≤ id
    → sum_rows (counted p id) rs ≡ pos 0
counted_above p n id [] o h = refl
counted_above p n id ((k, r) ∷ rs) o h = grind (int_laws, counted_above p n id rs o.1 h)

pub OwnedBelow-mono :
    (m n : ℕ) (rs : Table LimitReservation) → m ≤ n → OwnedBelow m rs → OwnedBelow n rs
OwnedBelow-mono m n [] h o = tt
OwnedBelow-mono m n ((k, r) ∷ rs) h o = (omega arith, OwnedBelow-mono m n rs h o.1)

status-OwnedBelow :
    (n k : ℕ) (s : LimitStatus) (rs : Table LimitReservation)
    → OwnedBelow n rs
    → OwnedBelow n (update k (λ r. record r { status = s }) rs)
status-OwnedBelow n k s [] o = tt
status-OwnedBelow n k s ((j, r) ∷ rs) o = ground (arith, status-OwnedBelow n k s rs o.1)

-- One usage changes; the totals of the others stay.
pub tallied-update :
    (b : LimitBook) (rs : Table LimitReservation) (id : ℕ) (f : LimitUsage → LimitUsage)
    (u : LimitUsage)
    → IsTallied b
    → find_unique id b.usages ≡ some u
    → IsCounted rs id (f u)
    → ((j : ℕ) → (id == j) ≡ false → consumed_total j rs ≡ consumed_total j b.limit_reservations)
    → ((j : ℕ) → (id == j) ≡ false → open_total j rs ≡ open_total j b.limit_reservations)
    → (j : ℕ) (w : LimitUsage) → find_unique j (update id f b.usages) ≡ some w
    → IsCounted rs j w
tallied-update b rs id f u v e new same_c same_o j w h = elim (Bool-cases (id == j)) [
  | inl this ↦
      let law = find_unique-update j id f b.usages u e in
      let same : f u ≡ w = ground arith in
      subst (λ k. IsCounted rs k w) ((==_iff id j).0 this) (subst (IsCounted rs id) same new)
  | inr other ↦
      let law = find_unique-update j id f b.usages u e in
      let old = v.tallied j w (ground arith) in
      record { used = old.used ∙ sym (same_c j other); held = old.held ∙ sym (same_o j other) }
]

-- What is needed of a reservation that is about to change: it is the row under its id, and open.
pub record IsOpenRow (b : LimitBook) (r : Row LimitReservation) : Type 0 where
  pub stored : find_unique r.0 b.limit_reservations ≡ some r.1
  pub open_one : r.1.status ≡ reserved

module _ (b : LimitBook) (r : Row LimitReservation) (v : IsTallied b) (o : IsOpenRow b r) where
  abbrev with_status : LimitStatus → Table LimitReservation
  with_status s =
      update r.0 (λ (x : LimitReservation). record x { status = s }) b.limit_reservations

  total_moves :
      (p : LimitStatus → Bool) (j : ℕ) (s : LimitStatus)
      → sum_rows (counted p j) (with_status s) +ℤ counted p j r.1
        ≡ sum_rows (counted p j) b.limit_reservations +ℤ counted p j (record r.1 { status = s })
  total_moves p j s = sum_rows-update (counted p j) r.0 _ b.limit_reservations r.1 o.stored

  consume-IsCounted :
      (u : LimitUsage)
      → find_unique r.1.usage_id b.usages ≡ some u
      → IsCounted (with_status consumed) r.1.usage_id (record u {
        used_amount = u.used_amount +ℤ r.1.amount;
        reserved_amount = u.reserved_amount -ℤ r.1.amount;
      })
  consume-IsCounted u e =
      let old = v.tallied r.1.usage_id u e in
      record {
        used = grind (int_laws, total_moves is_consumed r.1.usage_id consumed, o.open_one);
        held = grind (int_laws, total_moves is_reserved r.1.usage_id consumed, o.open_one);
      }

  release-IsCounted :
      (u : LimitUsage)
      → find_unique r.1.usage_id b.usages ≡ some u
      → IsCounted
          (with_status released)
          r.1.usage_id
          (record u { reserved_amount = u.reserved_amount -ℤ r.1.amount })
  release-IsCounted u e =
      let old = v.tallied r.1.usage_id u e in
      record {
        used = grind (int_laws, total_moves is_consumed r.1.usage_id released, o.open_one);
        held = grind (int_laws, total_moves is_reserved r.1.usage_id released, o.open_one);
      }

  pub consume_amount-IsTallied : Ensures (λ _ b'. IsTallied b') (consume_amount r b)
  unfolding consume_amount
  consume_amount-IsTallied = elim (Option-cases (find_unique r.1.usage_id b.usages)) [
    | inl gone ↦ rw (gone, Ensures) v
    | inr (u, e) ↦
        rw (e, Ensures)
          (record {
            tallied =
                tallied-update b (with_status consumed) r.1.usage_id _ u v e (consume-IsCounted u e)
                  (λ j h. grind (int_laws, total_moves is_consumed j consumed))
                  (λ j h. grind (int_laws, total_moves is_reserved j consumed));
            usage_ids = update-Below b.next_id r.1.usage_id _ b.usages v.usage_ids;
            reservation_ids = update-Below b.next_id r.0 _ b.limit_reservations v.reservation_ids;
            owned = status-OwnedBelow b.next_id r.0 consumed b.limit_reservations v.owned;
          })
  ]

  pub release_amount-IsTallied : Ensures (λ _ b'. IsTallied b') (release_amount r b)
  unfolding release_amount
  release_amount-IsTallied = elim (Option-cases (find_unique r.1.usage_id b.usages)) [
    | inl gone ↦ rw (gone, Ensures) v
    | inr (u, e) ↦
        rw (e, Ensures)
          (record {
            tallied =
                tallied-update b (with_status released) r.1.usage_id _ u v e (release-IsCounted u e)
                  (λ j h. grind (int_laws, total_moves is_consumed j released))
                  (λ j h. grind (int_laws, total_moves is_reserved j released));
            usage_ids = update-Below b.next_id r.1.usage_id _ b.usages v.usage_ids;
            reservation_ids = update-Below b.next_id r.0 _ b.limit_reservations v.reservation_ids;
            owned = status-OwnedBelow b.next_id r.0 released b.limit_reservations v.owned;
          })
  ]
