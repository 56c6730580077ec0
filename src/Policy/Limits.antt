-- ===== src/Policy/Limits.antt =====
-- `reserve`, `consume` and `release` of src/modules/policy/limits.service.ts. The period key is the
-- day or the month in the policy's time zone, which the caller passes in; it and the instrument
-- key are strings that are only compared.
pub mod Tally
pub mod Closing
pub mod Total
pub mod Within
use gold_nest.Base.{
  ℕ, suc, Bool, true, false, not, ◌&&◌, ◌||◌, Option, none, some, List, [], ◌∷◌, ◌==◌, or_else,
  or_option, is_some, if◌then◌else◌,
}
use gold_nest.Int.{ℤ, pos, ◌+ℤ◌, ◌-ℤ◌, ltb_ℤ}
use gold_nest.Table.{Row, Table, find_unique, find_first, find_many, update}
use gold_nest.Tx.{
  Tx, ok, pure, throw, gets, or_throw, throw_if, modify, for_each, ◌>>=◌, ◌>>◌, user_not_found,
  limit_usage_not_found, kyc_required, limit_exceeded, market_product_not_found,
}
use gold_nest.Accounts.Ledger.{TxRefType, ref_type_eq}
use gold_nest.Policy.Rules.{
  PolicyRule, PolicyAction, PolicyMetric, PolicyPeriod, InstrumentType, action_index, metric_index,
  period_index, KycLevel,
}
use gold_nest.Policy.Resolution.{
  UserProfile, RequestContext, ResolveRequest, Resolved, missing, resolve,
}
use gold_nest.Policy.LimitBook.{
  LimitStatus, reserved, consumed, released, LimitUsage, LimitReservation, LimitBook, ReserveParams,
  key_of, find_applicable,
}

-- The unique key of `LimitUsage`.
abbrev pub usage_matches : ReserveParams → ℕ → LimitUsage → Bool
usage_matches p period_key u =
    u.user_id == p.user_id
    && (action_index u.action == action_index p.action
        && (metric_index u.metric == metric_index p.metric
            && (period_index u.period == period_index p.period
                && (u.period_key == period_key && u.instrument_key == key_of p))))

abbrev pub new_usage : ReserveParams → ℕ → LimitUsage
new_usage p period_key = record {
  user_id = p.user_id;
  action = p.action;
  metric = p.metric;
  period = p.period;
  period_key = period_key;
  instrument_key = key_of p;
  used_amount = pos 0;
  reserved_amount = pos 0;
}

-- `limitUsage.upsert`, with an empty update.
upsert_usage : ReserveParams → ℕ → Tx LimitBook ℕ
upsert_usage p period_key b = elim (find_first (usage_matches p period_key) b.usages) [
  | some usage ↦ ok (usage.0, b)
  | none ↦ ok (
    b.next_id,
    record b { usages = (b.next_id, new_usage p period_key) ∷ b.usages; next_id = suc b.next_id },
  )
]

pub find_usage : ℕ → Tx LimitBook LimitUsage
find_usage id b = or_throw (find_unique id b.usages) limit_usage_not_found b

abbrev pub reservation_matches : TxRefType → ℕ → ℕ → LimitReservation → Bool
reservation_matches ref_type ref_id usage_id r =
    r.usage_id == usage_id && (r.ref_id == ref_id && ref_type_eq r.ref_type ref_type)

abbrev pub new_reservation : ReserveParams → ℕ → LimitReservation
new_reservation p usage_id = record {
  usage_id = usage_id;
  user_id = p.user_id;
  amount = p.amount;
  ref_type = p.ref_type;
  ref_id = p.ref_id;
  status = reserved;
}

abbrev set_reserved : ℕ → ℤ → LimitBook → LimitBook
set_reserved id amount b = record b {
  usages = update id (λ (u : LimitUsage). record u { reserved_amount = amount }) b.usages;
}

insert_reservation : LimitReservation → Tx LimitBook (Row LimitReservation)
insert_reservation r b = ok (
  (b.next_id, r),
  record b { limit_reservations = (b.next_id, r) ∷ b.limit_reservations; next_id = suc b.next_id },
)

-- A usage and a reservation against it, each with its id.
pub record Reserved : Type 0 where
  pub usage : Row LimitUsage
  pub reservation : Row LimitReservation

pub book_reservation :
    ReserveParams → ℕ → LimitUsage → Option (Row LimitReservation) → Tx LimitBook Reserved
unfolding insert_reservation
book_reservation p id usage (some r) = pure (record { usage = (id, usage); reservation = r })
book_reservation p id usage none = do
  reservation ← insert_reservation (new_reservation p id)
  let amount = usage.reserved_amount +ℤ p.amount
  modify (set_reserved id amount)
  pure (record {
    usage = (id, record usage { reserved_amount = amount });
    reservation = reservation;
  })

abbrev pub projected : LimitUsage → ℤ → ℤ
projected u amount = u.used_amount +ℤ u.reserved_amount +ℤ amount

exceeds : ℤ → Option PolicyRule → Bool
exceeds amount none = false
exceeds amount (some rule) = ltb_ℤ rule.limit amount

-- What `reserve` checks against the rule that applies.
pub check_limit : Resolved → LimitUsage → ℤ → Tx LimitBook (Unit {0})
unfolding exceeds
check_limit applicable usage amount = do
  throw_if (not (is_some applicable.selected) && is_some applicable.kyc_required_level) kyc_required
  throw_if (exceeds (projected usage amount) applicable.selected) limit_exceeded

-- `reserve`, at the given period key.
unfoldable pub reserve : ReserveParams → ℕ → Tx LimitBook Reserved
unfolding find_applicable upsert_usage find_usage book_reservation check_limit
reserve p period_key = do
  applicable ← find_applicable p
  usage_id ← upsert_usage p period_key
  usage ← find_usage usage_id
  check_limit applicable usage p.amount
  existing ←
      gets (λ b. find_first (reservation_matches p.ref_type p.ref_id usage_id) b.limit_reservations)
  book_reservation p usage_id usage existing

abbrev pub of_ref : TxRefType → ℕ → LimitReservation → Bool
of_ref ref_type ref_id r = ref_type_eq r.ref_type ref_type && r.ref_id == ref_id

abbrev set_limit_status : ℕ → LimitStatus → LimitBook → LimitBook
set_limit_status id status b = record b {
  limit_reservations =
      update id (λ (r : LimitReservation). record r { status = status }) b.limit_reservations;
}

-- One turn of the loop in `consume`, behind the test of the status.
pub consume_amount : Row LimitReservation → Tx LimitBook (Unit {0})
consume_amount r b = elim (find_unique r.1.usage_id b.usages) [
  | none ↦ ok (tt, b)
  | some usage ↦ ok (
    tt,
    set_limit_status r.0 consumed (record b {
      usages =
          update r.1.usage_id
            (λ (u : LimitUsage). record u {
              used_amount = usage.used_amount +ℤ r.1.amount;
              reserved_amount = usage.reserved_amount -ℤ r.1.amount;
            })
            b.usages;
    }),
  )
]

consume_by : Row LimitReservation → LimitStatus → Tx LimitBook (Unit {0})
consume_by r consumed = pure tt
consume_by r _ = consume_amount r

pub consume_one : Row LimitReservation → Tx LimitBook (Unit {0})
unfolding consume_amount consume_by
consume_one r = consume_by r r.1.status

-- `consume`
unfoldable pub consume : TxRefType → ℕ → Tx LimitBook (Unit {0})
unfolding consume_one
consume ref_type ref_id = do
  found ← gets (λ b. find_many (of_ref ref_type ref_id) b.limit_reservations)
  for_each found consume_one

-- One turn of the loop in `release`, behind the test of the status.
pub release_amount : Row LimitReservation → Tx LimitBook (Unit {0})
release_amount r b = elim (find_unique r.1.usage_id b.usages) [
  | none ↦ ok (tt, b)
  | some usage ↦ ok (
    tt,
    set_limit_status r.0 released
        (set_reserved r.1.usage_id (usage.reserved_amount -ℤ r.1.amount) b),
  )
]

release_by : Row LimitReservation → LimitStatus → Tx LimitBook (Unit {0})
release_by r reserved = release_amount r
release_by r _ = pure tt

pub release_one : Row LimitReservation → Tx LimitBook (Unit {0})
unfolding release_amount release_by
release_one r = release_by r r.1.status

-- `release`
unfoldable pub release : TxRefType → ℕ → Tx LimitBook (Unit {0})
unfolding release_one
release ref_type ref_id = do
  found ← gets (λ b. find_many (of_ref ref_type ref_id) b.limit_reservations)
  for_each found release_one
