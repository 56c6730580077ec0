-- ===== src/Remittances/Grouping.antt =====
-- `createGroupInternal` of src/modules/remittances/remittances.service.ts: several legs from one sender,
-- which move in one transaction.
pub mod Balanced
pub mod Conserves
use gold_nest.Remittances.Deciding.{update_remittance, entry}
use gold_nest.Remittances.Sending.{find_user_by_mobile, insert_remittance}
use gold_nest.Accounts.Posting.{PostedTx, apply_transaction}
use gold_nest.Remittances.Settling.{SettlementInput, settle_all}
use gold_nest.Accounts.Ledger.{Ledger, get_or_create_account, get_usable_capacity}
use gold_nest.Tx.{
  Tx, ok, pure, ◌>>=◌, throw, ◌>>◌, destination_user_not_found, for_each, invalid_channel,
  invalid_group_kind, on_behalf_user_not_found, throw_if, leg_required, or_throw, account_not_found,
  modify, amount_not_positive, insufficient_credit, gets, instrument_not_found, transfer_to_self,
}
use gold_nest.Table.{Table, find_unique, find_first, update}
use gold_nest.Records.{
  RemittanceGroup, RemittanceChannel, RemittanceGroupKind, Text, internal, opened, completed,
  settlement, pass_through, transfer, closed, pending,
}
use gold_nest.Int.{ℤ, pos, ltb_ℤ, ◌+ℤ◌, leb_ℤ, negated}
use gold_nest.Db.{Db, in_ledger}
use gold_nest.Base.{
  ℕ, Bool, List, Option, none, not, option_eq, some, ◌∷◌, [], false, if◌then◌else◌, is_some, length,
  suc, ◌++◌, any, ◌==◌, ◌&&◌, true,
}

-- `RemittanceLegSettlementInputDto`
pub record LegSettlement : Type 0 where
  pub remittance_id : ℕ
  pub amount : ℤ
  pub note : Option Text

-- `RemittanceLegInputDto`; a channel that names none of the known ones is `some none`.
pub record LegInput : Type 0 where
  pub to_mobile : ℕ
  pub on_behalf_of_mobile : Option ℕ
  pub instrument_code : ℕ
  pub amount : ℤ
  pub note : Option Text
  pub channel : Option (Option RemittanceChannel)
  pub settlements : List LegSettlement

-- A leg with its row and its accounts.
pub record PendingLeg : Type 0 where
  pub remittance_id : ℕ
  pub from_account_id : ℕ
  pub to_account_id : ℕ
  pub leg : LegInput

abbrev has_settlements : LegInput → Bool
has_settlements l = not (length l.settlements == 0)

-- The kind that the legs suggest where none is given.
abbrev derived_kind : List LegInput → RemittanceGroupKind
derived_kind legs =
    if any has_settlements legs
    then settlement
    else if any (λ (l : LegInput). is_some l.on_behalf_of_mobile) legs
    then pass_through
    else transfer

-- A kind that names none of the known ones is `some none`.
choose_kind : List LegInput → Option (Option RemittanceGroupKind) → Tx Db RemittanceGroupKind
choose_kind legs none = pure (derived_kind legs)
choose_kind legs (some none) = throw invalid_group_kind
choose_kind legs (some (some kind)) = pure kind

abbrev total_of : ℕ → List LegInput → ℤ
total_of code [] = pos 0
total_of code (l ∷ ls) =
    if l.instrument_code == code then l.amount +ℤ total_of code ls else total_of code ls

-- `Array.from(new Set(…))`
abbrev unique_codes : List ℕ → List LegInput → List ℕ
unique_codes seen [] = []
unique_codes seen (l ∷ ls) =
    if any (λ c. c == l.instrument_code) seen
    then unique_codes seen ls
    else l.instrument_code ∷ unique_codes (l.instrument_code ∷ seen) ls

insert_group : RemittanceGroup → Tx Db ℕ
insert_group g d = ok (
  d.next_id,
  record d { remittance_groups = (d.next_id, g) ∷ d.remittance_groups; next_id = suc d.next_id },
)

-- The sender's account for each instrument, which must cover the legs in it.
pub open_senders : ℕ → List LegInput → List ℕ → Tx Db (Table ℕ)
open_senders from_user_id legs [] = pure []
open_senders from_user_id legs (code ∷ codes) = do
  account ← in_ledger (get_or_create_account from_user_id code)
  throw_if (ltb_ℤ (get_usable_capacity account.1) (total_of code legs)) insufficient_credit
  rest ← open_senders from_user_id legs codes
  pure ((code, account.0) ∷ rest)

-- `toAccounts`, by user and instrument.
abbrev pub Receivers : Type 0
Receivers = List ((ℕ × ℕ) × ℕ)

abbrev find_receiver : ℕ → ℕ → Receivers → Option ℕ
find_receiver user_id code [] = none
find_receiver user_id code ((key, account_id) ∷ rest) =
    if key.0 == user_id && key.1 == code then some account_id else find_receiver user_id code rest

open_receiver : ℕ → ℕ → Option ℕ → Tx Db ℕ
open_receiver user_id code (some account_id) = pure account_id
open_receiver user_id code none = do
  account ← in_ledger (get_or_create_account user_id code)
  pure account.0

choose_channel : Option (Option RemittanceChannel) → Tx Db RemittanceChannel
choose_channel none = pure internal
choose_channel (some none) = throw invalid_channel
choose_channel (some (some channel)) = pure channel

find_on_behalf : Option ℕ → Tx Db (Option ℕ)
find_on_behalf none = pure none
find_on_behalf (some mobile) = do
  user_id ← find_user_by_mobile mobile on_behalf_user_not_found
  pure (some user_id)

pub open_legs : ℕ → ℕ → Table ℕ → Receivers → List LegInput → Tx Db (List PendingLeg)
unfolding open_receiver choose_channel find_on_behalf
open_legs from_user_id group_id senders receivers [] = pure []
open_legs from_user_id group_id senders receivers (l ∷ ls) = do
  to_user_id ← find_user_by_mobile l.to_mobile destination_user_not_found
  from_account_id ← or_throw (find_unique l.instrument_code senders) account_not_found
  to_account_id ←
      open_receiver to_user_id l.instrument_code
        (find_receiver to_user_id l.instrument_code receivers)
  on_behalf ← find_on_behalf l.on_behalf_of_mobile
  channel ← choose_channel l.channel
  id ← insert_remittance (record {
    from_user_id = from_user_id;
    to_user_id = to_user_id;
    on_behalf_of_user_id = on_behalf;
    instrument_code = l.instrument_code;
    amount = l.amount;
    note = l.note;
    channel = channel;
    status = pending;
    group_id = some group_id;
    from_account_tx_id = none;
    to_account_tx_id = none;
    idempotency_key = none;
  })
  rest ←
      open_legs from_user_id group_id senders
        (((to_user_id, l.instrument_code), to_account_id) ∷ receivers) ls
  pure (
      record {
        remittance_id = id;
        from_account_id = from_account_id;
        to_account_id = to_account_id;
        leg = l;
      }
      ∷ rest)

-- The two transactions of a leg.
unfoldable pub post_pair : ℕ → PendingLeg → Tx Ledger (PostedTx × PostedTx)
post_pair from_user_id p = do
  from_tx ←
      apply_transaction
        (entry p.from_account_id (negated p.leg.amount) true p.remittance_id from_user_id)
  to_tx ← apply_transaction (entry p.to_account_id p.leg.amount false p.remittance_id from_user_id)
  pure (from_tx, to_tx)

pub post_leg : ℕ → PendingLeg → Tx Db (Unit {0})
unfolding post_pair
post_leg from_user_id p = do
  posted ← in_ledger (post_pair from_user_id p)
  update_remittance p.remittance_id (λ x. record x {
    from_account_tx_id = some posted.0.tx_id;
    to_account_tx_id = some posted.1.tx_id;
    status = completed;
  })
  pure tt

settlements_of : PendingLeg → List LegSettlement → List SettlementInput
settlements_of p [] = []
settlements_of p (s ∷ ss) =
    record {
      leg_id = p.remittance_id;
      leg_code = p.leg.instrument_code;
      leg_amount = p.leg.amount;
      source_id = s.remittance_id;
      amount = s.amount;
      note = s.note;
    }
    ∷ settlements_of p ss

all_settlements : List PendingLeg → List SettlementInput
unfolding settlements_of
all_settlements [] = []
all_settlements (p ∷ ps) = settlements_of p p.leg.settlements ++ all_settlements ps

-- The executor: the group, its legs, their entries and their settlements.
unfoldable pub group_in_tx :
    ℕ → Option Text → RemittanceGroupKind → List LegInput → Tx Db (ℕ × List PendingLeg)
unfolding insert_group open_senders open_legs post_leg all_settlements
group_in_tx from_user_id note kind legs = do
  group_id ←
      insert_group
        (record { created_by_user_id = from_user_id; note = note; kind = kind; status = opened })
  senders ← open_senders from_user_id legs (unique_codes [] legs)
  pending_legs ← open_legs from_user_id group_id senders [] legs
  for_each pending_legs (post_leg from_user_id)
  settle_all (all_settlements pending_legs)
  modify (λ d. record d {
    remittance_groups = update group_id (λ g. record g { status = closed }) d.remittance_groups;
  })
  pure (group_id, pending_legs)

abbrev lacks_user : Db → LegInput → Bool
lacks_user d l = not (is_some (find_unique l.to_mobile d.mobiles))

abbrev lacks_on_behalf : Db → LegInput → Bool
lacks_on_behalf d l = elim l.on_behalf_of_mobile [
  | none ↦ false
  | some mobile ↦ not (is_some (find_unique mobile d.mobiles))
]

abbrev lacks_instrument : Db → LegInput → Bool
lacks_instrument d l = not (is_some (find_first (λ c. c == l.instrument_code) d.ledger.instruments))

abbrev is_to_self : Db → ℕ → LegInput → Bool
is_to_self d from_user_id l = option_eq (find_unique l.to_mobile d.mobiles) (some from_user_id)

-- `createGroupInternal`: the tests on the input, and the executor.
unfoldable pub create_group :
    ℕ
    → List LegInput
    → Option Text
    → Option (Option RemittanceGroupKind)
    → Tx Db (ℕ × List PendingLeg)
unfolding choose_kind group_in_tx
create_group from_user_id legs note explicit_kind = do
  throw_if (length legs == 0) leg_required
  throw_if (any (λ (l : LegInput). leb_ℤ l.amount (pos 0)) legs) amount_not_positive
  tables ← gets (λ d. d)
  throw_if (any (lacks_user tables) legs) destination_user_not_found
  throw_if (any (lacks_on_behalf tables) legs) on_behalf_user_not_found
  throw_if (any (lacks_instrument tables) legs) instrument_not_found
  throw_if (any (is_to_self tables from_user_id) legs) transfer_to_self
  kind ← choose_kind legs explicit_kind
  group_in_tx from_user_id note kind legs
