-- ===== src/Remittances/Sending.antt =====
-- `createForUser` of src/modules/remittances/remittances.service.ts.
use gold_nest.Accounts.Ledger.{TxRefType}
use gold_nest.Accounts.Reserving.{reserve_funds}
use gold_nest.Policy.Limits.{reserve}
use gold_nest.Db.{Db, in_limits, find_instrument_by_code, in_ledger}
use gold_nest.Table.{Row, find_unique, find_first}
use gold_nest.Policy.LimitBook.{ReserveParams}
use gold_nest.Withdrawals.Creating.{Clock}
use gold_nest.Tx.{
  Error, Tx, ok, or_throw, ◌>>=◌, ◌>>◌, pure, throw_if, amount_not_positive,
  destination_user_not_found, transfer_to_self, gets,
}
use gold_nest.Records.{Remittance, Text, internal, pending}
use gold_nest.Policy.Rules.{PolicyPeriod, remittance_send, notional_irr, daily, monthly}
use gold_nest.Int.{ℤ, leb_ℤ, pos}
use gold_nest.Base.{ℕ, Option, Bool, none, is_some, some, ◌&&◌, ◌==◌, ◌∷◌, option_eq, suc}

-- `CreateRemittanceDto`, with the caller and the idempotency key.
pub record CreateRemittance : Type 0 where
  pub from_user_id : ℕ
  pub to_mobile : ℕ
  pub instrument_code : ℕ
  pub amount : ℤ
  pub note : Option Text
  pub idempotency_key : Option ℕ

abbrev requested : CreateRemittance → ℕ → Remittance
requested c to_user_id = record {
  from_user_id = c.from_user_id;
  to_user_id = to_user_id;
  on_behalf_of_user_id = none;
  instrument_code = c.instrument_code;
  amount = c.amount;
  note = c.note;
  channel = internal;
  status = pending;
  group_id = none;
  from_account_tx_id = none;
  to_account_tx_id = none;
  idempotency_key = c.idempotency_key;
}

unfoldable pub insert_remittance : Remittance → Tx Db ℕ
insert_remittance r d =
    ok (
      d.next_id,
      record d { remittances = (d.next_id, r) ∷ d.remittances; next_id = suc d.next_id },
    )

abbrev limit_params : CreateRemittance → ℕ → PolicyPeriod → ℕ → ReserveParams
limit_params c instrument_id period id = record {
  user_id = c.from_user_id;
  action = remittance_send;
  metric = notional_irr;
  period = period;
  amount = c.amount;
  instrument_key = none;
  instrument_id = some instrument_id;
  instrument_type = none;
  product_id = none;
  ref_type = TxRefType.remittance;
  ref_id = id;
}

create_new : Clock → CreateRemittance → ℕ → ℕ → Tx Db (Row Remittance)
unfolding insert_remittance
create_new clock c instrument_id to_user_id = do
  id ← insert_remittance (requested c to_user_id)
  in_limits (reserve (limit_params c instrument_id daily id) clock.daily_key)
  in_limits (reserve (limit_params c instrument_id monthly id) clock.monthly_key)
  in_ledger (reserve_funds c.from_user_id c.instrument_code c.amount TxRefType.remittance id)
  pure (id, requested c to_user_id)

create_or_reuse :
    Clock → CreateRemittance → ℕ → ℕ → Option (Row Remittance) → Tx Db (Row Remittance)
unfolding create_new
create_or_reuse clock c instrument_id to_user_id (some existing) = pure existing
create_or_reuse clock c instrument_id to_user_id none = create_new clock c instrument_id to_user_id

same_request : ℕ → Option ℕ → Remittance → Bool
same_request user_id key r =
    is_some key && (r.from_user_id == user_id && option_eq r.idempotency_key key)

-- `user.findUnique({ where: { mobile } })`
abbrev pub find_user_by_mobile : ℕ → Error → Tx Db ℕ
find_user_by_mobile mobile missing d = or_throw (find_unique mobile d.mobiles) missing d

-- `createForUser`
unfoldable pub create_for_user : Clock → CreateRemittance → Tx Db (Row Remittance)
unfolding same_request create_or_reuse
create_for_user clock c = do
  throw_if (leb_ℤ c.amount (pos 0)) amount_not_positive
  instrument ← find_instrument_by_code c.instrument_code
  to_user_id ← find_user_by_mobile c.to_mobile destination_user_not_found
  throw_if (to_user_id == c.from_user_id) transfer_to_self
  existing ← gets (λ d. find_first (same_request c.from_user_id c.idempotency_key) d.remittances)
  create_or_reuse clock c instrument.0 to_user_id existing
