-- ===== src/Policy/Limits/Within.antt =====
-- `reserve` keeps the book adding up and stays within the rule that applies.
use gold_nest.Base.{
  ℕ, suc, ◌≡◌, subst, sym, Option, none, some, ◌∷◌, arith, inl, inr, Bool-cases, Option-cases, ◌==◌,
}
use gold_nest.Int.{ℤ, pos, ◌+ℤ◌, ◌≤ℤ◌, int_laws}
use gold_nest.Table.{Row, find_unique, find_first, update, find_unique-update_self}
use gold_nest.Table.Keys.{Below-mono, update-Below, find_unique_bound}
use gold_nest.Tx.{ok}
use gold_nest.Tx.Ensures.{Ensures, Ensures-bind, Ensures-ok}
use gold_nest.Policy.Rules.{PolicyRule}
use gold_nest.Policy.Resolution.{Resolved}
use gold_nest.Policy.LimitBook.{
  LimitUsage, LimitReservation, LimitBook, ReserveParams, find_applicable,
}
use gold_nest.Policy.Limits.{
  Reserved, reserve, upsert_usage, find_usage, usage_matches, check_limit, projected,
  book_reservation, new_usage, new_reservation,
}
use gold_nest.Policy.Limits.Tally.{
  IsTallied, IsCounted, is_reserved, is_consumed, counted_above, OwnedBelow-mono, tallied-update,
}

fresh_id : (b : LimitBook) → IsTallied b → IsTallied (record b { next_id = suc b.next_id })
fresh_id b v = record {
  tallied = v.tallied;
  usage_ids = Below-mono b.next_id _ b.usages (omega arith) v.usage_ids;
  reservation_ids = Below-mono b.next_id _ b.limit_reservations (omega arith) v.reservation_ids;
  owned = OwnedBelow-mono b.next_id _ b.limit_reservations (omega arith) v.owned;
}

create_usage-IsCounted :
    (p : ReserveParams) (key : ℕ) (b : LimitBook) (id : ℕ) (u : LimitUsage)
    → IsTallied b
    → find_unique id ((b.next_id, new_usage p key) ∷ b.usages) ≡ some u
    → IsCounted b.limit_reservations id u
create_usage-IsCounted p key b id u v e = elim (Bool-cases (b.next_id == id)) [
  | inl new ↦ grind (
    int_laws,
    counted_above is_reserved b.next_id id b.limit_reservations v.owned,
    counted_above is_consumed b.next_id id b.limit_reservations v.owned,
  )
  | inr old ↦ v.tallied id u (ground arith)
]

upsert_usage-IsTallied :
    (p : ReserveParams) (key : ℕ) (b : LimitBook)
    → IsTallied b
    → Ensures (λ _ b'. IsTallied b') (upsert_usage p key b)
unfolding upsert_usage
upsert_usage-IsTallied p key b v = elim (Option-cases (find_first (usage_matches p key) b.usages)) [
  | inl missing ↦
      rw (missing, Ensures)
        (record {
          tallied = λ id u. create_usage-IsCounted p key b id u v;
          usage_ids = (omega arith, v.usage_ids);
          reservation_ids = (fresh_id b v).reservation_ids;
          owned = (fresh_id b v).owned;
        })
  | inr (row, e) ↦ rw (e, Ensures) v
]

-- What `reserve` leaves: the returned usage is the stored one, and within the limit.
pub record IsWithin (limit : ℤ) (h : Reserved) (b : LimitBook) : Type 0 where
  pub tallied : IsTallied b
  pub stored : find_unique h.usage.0 b.usages ≡ some h.usage.1
  pub within : h.usage.1.used_amount +ℤ h.usage.1.reserved_amount ≤ℤ limit

module _ (p : ReserveParams) (id : ℕ) (b : LimitBook) (v : IsTallied b) (u : LimitUsage)
    (e : find_unique id b.usages ≡ some u) where
  abbrev booked : LimitBook
  booked = record b {
    usages =
        update id (λ (x : LimitUsage). record x { reserved_amount = u.reserved_amount +ℤ p.amount })
          b.usages;
    limit_reservations = (b.next_id, new_reservation p id) ∷ b.limit_reservations;
    next_id = suc b.next_id;
  }

  booked-IsTallied : IsTallied booked
  booked-IsTallied =
      let old = v.tallied id u e in
      record {
        tallied =
            tallied-update b booked.limit_reservations id _ u v e
              (record { used = grind int_laws; held = grind int_laws }) (λ j h. grind int_laws)
              (λ j h. grind int_laws);
        usage_ids =
            Below-mono b.next_id _ _ (omega arith)
              (update-Below b.next_id id _ b.usages v.usage_ids);
        reservation_ids = (omega arith, v.reservation_ids);
        owned = (
          omega (arith, find_unique_bound b.next_id id b.usages u v.usage_ids e),
          (fresh_id b v).owned,
        );
      }

  book_reservation-IsWithin :
      (limit : ℤ) (existing : Option (Row LimitReservation))
      → pos 0 ≤ℤ p.amount
      → projected u p.amount ≤ℤ limit
      → Ensures (IsWithin limit) (book_reservation p id u existing b)
  unfolding book_reservation
  book_reservation-IsWithin limit (some r) positive within = record {
    tallied = v;
    stored = e;
    within = omega int_laws;
  }
  book_reservation-IsWithin limit none positive within = record {
    tallied = booked-IsTallied;
    stored = find_unique-update_self id _ b.usages u e;
    within = omega int_laws;
  }

  book_reservation-IsTallied :
      (existing : Option (Row LimitReservation))
      → Ensures (λ _ m. IsTallied m) (book_reservation p id u existing b)
  unfolding book_reservation
  book_reservation-IsTallied (some r) = v
  book_reservation-IsTallied none = booked-IsTallied

check_limit-passes :
    (a : Resolved) (u : LimitUsage) (amount : ℤ) (b : LimitBook) (rule : PolicyRule)
    → a.selected ≡ some rule
    → Ensures (λ _ b'. (b' ≡ b) × (projected u amount ≤ℤ rule.limit)) (check_limit a u amount b)
unfolding check_limit
check_limit-passes a u amount b rule e = ground arith

check_limit-same :
    (a : Resolved) (u : LimitUsage) (amount : ℤ) (b : LimitBook)
    → Ensures (λ _ b'. b' ≡ b) (check_limit a u amount b)
unfolding check_limit
check_limit-same a u amount b = ground arith

find_usage-passes :
    (id : ℕ) (b : LimitBook)
    → Ensures (λ u b'. (b' ≡ b) × (find_unique id b.usages ≡ some u)) (find_usage id b)
unfolding find_usage
find_usage-passes id b = ground arith

-- Looking the rule up reads the book and leaves it alone.
find_applicable-same :
    (p : ReserveParams) (b : LimitBook) → Ensures (λ _ b'. b' ≡ b) (find_applicable p b)
unfolding find_applicable
find_applicable-same p b = ground arith

-- On a book that adds up, whatever rule applies, or none, a reservation that is granted keeps it adding
-- up.
pub reserve-IsTallied :
    (p : ReserveParams) (key : ℕ) (b : LimitBook)
    → IsTallied b
    → Ensures (λ _ b'. IsTallied b') (reserve p key b)
unfolding reserve
reserve-IsTallied p key b v =
    Ensures-bind (λ _ m. m ≡ b) (λ _ m. IsTallied m) (find_applicable p) _ b
      (find_applicable-same p b)
      λ a m0 same0. rw same0 (
        Ensures-bind (λ _ m. IsTallied m) (λ _ m. IsTallied m) (upsert_usage p key) _ b
          (upsert_usage-IsTallied p key b v)
          λ id m vm.
            Ensures-bind (λ u m'. (m' ≡ m) × (find_unique id m.usages ≡ some u))
              (λ _ m. IsTallied m) (find_usage id) _ m (find_usage-passes id m)
              λ u m' (same, at). rw same (
                Ensures-bind (λ _ m''. m'' ≡ m) (λ _ m. IsTallied m) (check_limit a u p.amount) _ m
                  (check_limit-same a u p.amount m)
                  λ _ m'' same'. rw same' (book_reservation-IsTallied p id m vm u at _)))

-- On a book that adds up, where a rule applies to the request and the amount is not negative, a
-- reservation that is granted leaves the used and reserved amounts together within the rule's limit,
-- and the book adds up.
pub reserve-IsWithin :
    (p : ReserveParams) (key : ℕ) (b b' : LimitBook) (a : Resolved) (rule : PolicyRule)
    → IsTallied b
    → pos 0 ≤ℤ p.amount
    → find_applicable p b ≡ ok (a, b')
    → a.selected ≡ some rule
    → Ensures (IsWithin rule.limit) (reserve p key b)
unfolding reserve
reserve-IsWithin p key b b' a rule v positive applies e =
    rw (applies, Ensures)
      (Ensures-bind (λ _ m. IsTallied m) (IsWithin rule.limit) (upsert_usage p key) _ b'
        (upsert_usage-IsTallied p key b' (
          subst IsTallied
            (sym (
              Ensures-ok (λ _ m. m ≡ b) (find_applicable p b) a b' applies
                (find_applicable-same p b)))
            v))
        λ id m vm.
          Ensures-bind (λ u m'. (m' ≡ m) × (find_unique id m.usages ≡ some u)) (IsWithin rule.limit)
            (find_usage id) _ m (find_usage-passes id m)
            λ u m' (same, at). rw same (
              Ensures-bind (λ _ m''. (m'' ≡ m) × (projected u p.amount ≤ℤ rule.limit))
                (IsWithin rule.limit) (check_limit a u p.amount) _ m
                (check_limit-passes a u p.amount m rule e)
                λ _ m'' (same', fits).
                  rw same' (book_reservation-IsWithin p id m vm u at rule.limit _ positive fits)))
