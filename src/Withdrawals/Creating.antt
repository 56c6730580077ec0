-- ===== src/Withdrawals/Creating.antt =====
-- `createForUser` of src/modules/withdrawals/withdrawals.service.ts.
use gold_nest.Base.{
  ℕ, suc, Bool, true, false, not, ◌&&◌, Option, none, some, List, ◌∷◌, ◌==◌, or_else, option_eq,
  is_some, if◌then◌else◌,
}
use gold_nest.Int.{ℤ, pos, ltb_ℤ, leb_ℤ, to_whole}
use gold_nest.Table.{Row, find_unique, find_first}
use gold_nest.Tx.{
  Tx, ok, pure, gets, or_throw, throw_if, ◌>>=◌, ◌>>◌, amount_not_positive, insufficient_capacity,
  destination_required, withdraw_not_found,
}
use gold_nest.Accounts.Ledger.{
  Account, withdraw, get_usable_capacity, get_or_create_account, irr_instrument_code,
}
use gold_nest.Accounts.Reserving.{reserve_funds}
use gold_nest.Policy.Rules.{PolicyPeriod, daily, monthly, withdraw_irr, notional_irr}
use gold_nest.Policy.LimitBook.{ReserveParams, default_instrument_key}
use gold_nest.Policy.Limits.{reserve}
use gold_nest.Db.{
  RequestPurpose, direct, p2p, WithdrawalChannel, user_to_user, user_to_org, pending,
  waiting_assignment, Snapshot, WithdrawRequest, AttachmentEntityType, Db, in_ledger, in_limits,
}
use gold_nest.Records.{Text}
use gold_nest.Destinations.{
  resolve_payout_destination_for_user, resolve_collection_destination, build_legacy_snapshot,
}
use gold_nest.Files.{create_attachments_for_actor}

-- What the system clock and the policy's time zone say during a call.
pub record Clock : Type 0 where
  pub now : ℕ
  pub daily_key : ℕ
  pub monthly_key : ℕ

-- `CreateWithdrawalDto`, with the caller.
pub record CreateWithdrawal : Type 0 where
  pub user_id : ℕ
  pub is_admin : Bool
  pub amount : ℤ
  pub purpose : Option RequestPurpose
  pub channel : Option WithdrawalChannel
  pub payout_destination_id : Option ℕ
  pub bank_name : Option Text
  pub iban : Option Text
  pub card_number : Option Text
  pub note : Option Text
  pub file_ids : List ℕ
  pub idempotency_key : Option ℕ

abbrev is_p2p : RequestPurpose → Bool
is_p2p p2p = true
is_p2p direct = false

abbrev is_org : Option WithdrawalChannel → Bool
is_org (some user_to_org) = true
is_org _ = false

abbrev purpose_of : CreateWithdrawal → RequestPurpose
purpose_of c = or_else c.purpose direct

abbrev channel_of : CreateWithdrawal → Option WithdrawalChannel
channel_of c = if is_p2p (purpose_of c) then some (or_else c.channel user_to_user) else none

resolve_destination : CreateWithdrawal → Option ℕ → Tx Db (Option Snapshot)
resolve_destination c none = pure (build_legacy_snapshot c.iban c.card_number c.bank_name)
resolve_destination c (some id) = do
  snapshot ←
      if is_org (channel_of c)
      then resolve_collection_destination id
      else resolve_payout_destination_for_user c.user_id id
  pure (some snapshot)

abbrev pub requested : CreateWithdrawal → Option Snapshot → WithdrawRequest
requested c snapshot = record {
  user_id = c.user_id;
  amount = to_whole c.amount;
  status = if is_p2p (purpose_of c) then waiting_assignment else pending;
  purpose = purpose_of c;
  channel = channel_of c;
  bank_name = c.bank_name;
  iban = c.iban;
  card_number = c.card_number;
  payout_destination_id = c.payout_destination_id;
  destination_snapshot = snapshot;
  assigned_amount_total = pos 0;
  settled_amount_total = pos 0;
  note = c.note;
  processed_at = none;
  processed_by_id = none;
  account_tx_id = none;
  idempotency_key = c.idempotency_key;
}

insert_withdrawal : WithdrawRequest → Tx Db ℕ
insert_withdrawal w d =
    ok (
      d.next_id,
      record d { withdrawals = (d.next_id, w) ∷ d.withdrawals; next_id = suc d.next_id },
    )

-- The reservation of a limit for one period.
abbrev limit_params : ℕ → ℤ → PolicyPeriod → ℕ → ReserveParams
limit_params user_id amount period id = record {
  user_id = user_id;
  action = withdraw_irr;
  metric = notional_irr;
  period = period;
  amount = amount;
  instrument_key = some default_instrument_key;
  instrument_id = none;
  instrument_type = none;
  product_id = none;
  ref_type = withdraw;
  ref_id = id;
}

pub reserve_limits : Clock → ℕ → ℤ → ℕ → Tx Db (Unit {0})
reserve_limits clock user_id amount id = do
  in_limits (reserve (limit_params user_id amount daily id) clock.daily_key)
  in_limits (reserve (limit_params user_id amount monthly id) clock.monthly_key)
  pure tt

unfoldable pub find_withdrawal : ℕ → Tx Db WithdrawRequest
find_withdrawal id d = or_throw (find_unique id d.withdrawals) withdraw_not_found d

-- `createForUser`, behind the look-up of the idempotency key.
pub create_new : Clock → CreateWithdrawal → Row Account → Tx Db (Row WithdrawRequest)
unfolding resolve_destination insert_withdrawal reserve_limits find_withdrawal
create_new clock c account = do
  throw_if (ltb_ℤ (get_usable_capacity account.1) c.amount) insufficient_capacity
  throw_if (is_p2p (purpose_of c) && not (is_some c.payout_destination_id)) destination_required
  snapshot ← resolve_destination c c.payout_destination_id
  throw_if (is_p2p (purpose_of c) && not (is_some snapshot)) destination_required
  id ← insert_withdrawal (requested c snapshot)
  reserve_limits clock c.user_id c.amount id
  in_ledger (reserve_funds c.user_id irr_instrument_code c.amount withdraw id)
  create_attachments_for_actor c.user_id c.is_admin c.file_ids AttachmentEntityType.withdraw id
  w ← find_withdrawal id
  pure (id, w)

same_request : ℕ → Option ℕ → WithdrawRequest → Bool
same_request user_id key w =
    is_some key && (w.user_id == user_id && option_eq w.idempotency_key key)

create_or_reuse :
    Clock
    → CreateWithdrawal
    → Row Account
    → Option (Row WithdrawRequest)
    → Tx Db (Row WithdrawRequest)
unfolding create_new
create_or_reuse clock c account (some existing) = pure existing
create_or_reuse clock c account none = create_new clock c account

-- `createForUser`
unfoldable pub create_for_user : Clock → CreateWithdrawal → Tx Db (Row WithdrawRequest)
unfolding same_request create_or_reuse
create_for_user clock c = do
  throw_if (leb_ℤ c.amount (pos 0)) amount_not_positive
  account ← in_ledger (get_or_create_account c.user_id irr_instrument_code)
  existing ← gets (λ d. find_first (same_request c.user_id c.idempotency_key) d.withdrawals)
  create_or_reuse clock c account existing
