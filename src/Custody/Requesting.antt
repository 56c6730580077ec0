-- ===== src/Custody/Requesting.antt =====
-- `requestMovement` of src/modules/physical-custody/physical-custody.service.ts.
use gold_nest.Policy.Limits.{reserve}
use gold_nest.Accounts.Reserving.{reserve_funds}
use gold_nest.Accounts.Ledger.{physical_custody_movement}
use gold_nest.Policy.LimitBook.{ReserveParams}
use gold_nest.Policy.Rules.{
  InstrumentType, PolicyPeriod, custody_out, custody_in, weight_750_g, daily, monthly,
}
use gold_nest.Db.{Db, in_ledger, in_limits, find_instrument_by_code}
use gold_nest.Custody.Weight.{
  to_equiv_gram_750, gold_750_instrument_code, Decimal, to_weight_column,
}
use gold_nest.Withdrawals.Creating.{Clock}
use gold_nest.Tx.{Tx, ok, pure, ◌>>=◌, ◌>>◌, throw_if, amount_not_positive, gets}
use gold_nest.Table.{Row, find_first}
use gold_nest.Records.{Movement, MovementType, Text, withdrawal, deposit, pending}
use gold_nest.Int.{ℤ, leb_ℤ, pos}
use gold_nest.Base.{
  ℕ, Option, Bool, is_some, some, true, false, none, ◌&&◌, ◌==◌, ◌∷◌, if◌then◌else◌, option_eq, suc,
}

-- `CreatePhysicalCustodyMovementDto`, with the caller. The fineness is any integer.
pub record CreateMovement : Type 0 where
  pub user_id : ℕ
  pub movement_type : MovementType
  pub weight_gram : Decimal
  pub ayar : ℤ
  pub note : Option Text
  pub idempotency_key : Option ℕ

abbrev pub is_withdrawal : MovementType → Bool
is_withdrawal withdrawal = true
is_withdrawal deposit = false

abbrev pub equiv_of : CreateMovement → ℤ
equiv_of c = to_equiv_gram_750 c.weight_gram c.ayar

abbrev requested : CreateMovement → Movement
requested c = record {
  user_id = c.user_id;
  movement_type = c.movement_type;
  status = pending;
  weight_gram = to_weight_column c.weight_gram;
  ayar = c.ayar;
  equiv_gram_750 = some (equiv_of c);
  note = c.note;
  user_gold_account_tx_id = none;
  house_gold_account_tx_id = none;
  idempotency_key = c.idempotency_key;
}

pub insert_movement : Movement → Tx Db ℕ
insert_movement m d =
    ok (d.next_id, record d { movements = (d.next_id, m) ∷ d.movements; next_id = suc d.next_id })

abbrev limit_params :
    CreateMovement → Row (Option InstrumentType) → PolicyPeriod → ℕ → ReserveParams
limit_params c instrument period id = record {
  user_id = c.user_id;
  action = if is_withdrawal c.movement_type then custody_out else custody_in;
  metric = weight_750_g;
  period = period;
  amount = equiv_of c;
  instrument_key = none;
  instrument_id = some instrument.0;
  instrument_type = instrument.1;
  product_id = none;
  ref_type = physical_custody_movement;
  ref_id = id;
}

hold_gold : CreateMovement → ℕ → MovementType → Tx Db (Unit {0})
hold_gold c id deposit = pure tt
hold_gold c id withdrawal = do
  in_ledger
      (reserve_funds c.user_id gold_750_instrument_code (equiv_of c) physical_custody_movement id)
  pure tt

request_new : Clock → CreateMovement → Tx Db (Row Movement)
unfolding insert_movement hold_gold
request_new clock c = do
  instrument ← find_instrument_by_code gold_750_instrument_code
  id ← insert_movement (requested c)
  in_limits (reserve (limit_params c instrument daily id) clock.daily_key)
  in_limits (reserve (limit_params c instrument monthly id) clock.monthly_key)
  hold_gold c id c.movement_type
  pure (id, requested c)

request_or_reuse : Clock → CreateMovement → Option (Row Movement) → Tx Db (Row Movement)
unfolding request_new
request_or_reuse clock c (some existing) = pure existing
request_or_reuse clock c none = request_new clock c

same_request : ℕ → Option ℕ → Movement → Bool
same_request user_id key m =
    is_some key && (m.user_id == user_id && option_eq m.idempotency_key key)

-- `requestMovement`
unfoldable pub request_movement : Clock → CreateMovement → Tx Db (Row Movement)
unfolding same_request request_or_reuse
request_movement clock c = do
  throw_if (leb_ℤ c.weight_gram.coefficient (pos 0)) amount_not_positive
  existing ← gets (λ d. find_first (same_request c.user_id c.idempotency_key) d.movements)
  request_or_reuse clock c existing
