-- ===== src/Db.antt =====
-- The tables that the request services share (prisma/schema.prisma, as the services under
-- src/modules use them): the ledger, the limit book, the requests and their allocations, the
-- files with their attachments, the payment destinations and the outbox of the accounting system.
pub mod Keeps
use gold_nest.Policy.Rules.{InstrumentType}
use gold_nest.Base.{none, some, ◌==◌, ℕ, suc, Bool, Option, List, [], ◌∷◌, ◌==◌}
use gold_nest.Int.{ℤ}
use gold_nest.Records.{Text, Remittance, RemittanceGroup, SettlementLink, Movement, Trade}
use gold_nest.Table.{Row, Table, update, find_first, find_unique}
use gold_nest.Tx.{Tx, ok, zoom, throw, instrument_not_found}
use gold_nest.Accounts.Ledger.{Ledger}
use gold_nest.Policy.LimitBook.{LimitBook}

pub data RequestPurpose : Type 0 where
  direct p2p : RequestPurpose

pub data WithdrawalChannel : Type 0 where
  user_to_user user_to_org : WithdrawalChannel

pub data WithdrawStatus : Type 0 where
  pending approved rejected cancelled reversed created validated : WithdrawStatus
  waiting_assignment partially_assigned fully_assigned : WithdrawStatus
  partially_settled settled expired : WithdrawStatus

pub data DepositStatus : Type 0 where
  pending approved rejected cancelled reversed created : DepositStatus
  waiting_assignment partially_assigned fully_assigned : DepositStatus
  partially_settled settled expired : DepositStatus

pub data AllocationStatus : Type 0 where
  assigned proof_submitted receiver_confirmed admin_verified : AllocationStatus
  settled disputed cancelled expired : AllocationStatus

pub data DestinationType : Type 0 where
  iban card account : DestinationType

pub data DestinationDirection : Type 0 where
  payout collection : DestinationDirection

pub data DestinationStatus : Type 0 where
  active pending_verify disabled : DestinationStatus

-- `value` is the decrypted value.
pub record PaymentDestination : Type 0 where
  pub owner_user_id : Option ℕ
  pub direction : DestinationDirection
  pub status : DestinationStatus
  pub is_deleted : Bool
  pub kind : DestinationType
  pub value : Text
  pub masked_value : Text
  pub bank_name : Option Text
  pub owner_name : Option Text
  pub title : Option Text

-- `PaymentDestinationSnapshot`
pub record Snapshot : Type 0 where
  pub kind : DestinationType
  pub value : Text
  pub masked_value : Text
  pub bank_name : Option Text
  pub owner_name : Option Text
  pub title : Option Text

-- A missing text and the empty one are both `none`.
pub record WithdrawRequest : Type 0 where
  pub user_id : ℕ
  pub amount : ℤ
  pub status : WithdrawStatus
  pub purpose : RequestPurpose
  pub channel : Option WithdrawalChannel
  pub bank_name : Option Text
  pub iban : Option Text
  pub card_number : Option Text
  pub payout_destination_id : Option ℕ
  pub destination_snapshot : Option Snapshot
  pub assigned_amount_total : ℤ
  pub settled_amount_total : ℤ
  pub note : Option Text
  pub processed_at : Option ℕ
  pub processed_by_id : Option ℕ
  pub account_tx_id : Option ℕ
  pub idempotency_key : Option ℕ

-- `is_bank_method`: the method's name contains "bank" or "card".
pub record DepositRequest : Type 0 where
  pub user_id : ℕ
  pub amount : ℤ
  pub is_bank_method : Bool
  pub status : DepositStatus
  pub purpose : RequestPurpose
  pub remaining_amount : Option ℤ
  pub assigned_amount_total : ℤ
  pub settled_amount_total : ℤ
  pub note : Option Text
  pub processed_at : Option ℕ
  pub processed_by_id : Option ℕ
  pub account_tx_id : Option ℕ

pub record P2PAllocation : Type 0 where
  pub withdrawal_id : ℕ
  pub deposit_id : ℕ
  pub amount : ℤ
  pub status : AllocationStatus
  pub expires_at : ℕ
  pub destination_snapshot : Snapshot
  pub proof_submitted_at : Option ℕ
  pub payer_paid_at : Option ℕ
  pub receiver_confirmed_at : Option ℕ
  pub receiver_disputed_at : Option ℕ
  pub admin_verified_at : Option ℕ
  pub admin_verifier_id : Option ℕ
  pub settled_at : Option ℕ
  pub withdrawer_account_tx_id : Option ℕ
  pub payer_account_tx_id : Option ℕ

pub data AttachmentEntityType : Type 0 where
  withdraw deposit : AttachmentEntityType

pub record Attachment : Type 0 where
  pub file_id : ℕ
  pub entity_type : AttachmentEntityType
  pub entity_id : ℕ

-- A proof of payment: an `AttachmentLink` of kind P2P_PROOF on an allocation.
pub record ProofLink : Type 0 where
  pub allocation_id : ℕ
  pub file_id : ℕ
  pub uploader_user_id : ℕ

-- The methods of the outbox that the request services use.
pub data OutboxMethod : Type 0 where
  do_new_sanad_vkh_bank do_new_sanad_vkh_vagh_naghd do_delete_sanad : OutboxMethod
  do_new_sanad_vkh_gold do_new_sanad_buy_sale_gold : OutboxMethod

-- `correlationId`: an id, or an id in a text such as `withdraw:cancel:` or `trade:…:reverse`.
pub data Correlation : Type 0 where
  of_id withdraw_cancel deposit_cancel : ℕ → Correlation
  custody custody_cancel spot_cancel trade_reverse forward_cash : ℕ → Correlation

-- `is_incoming`: "Vorood" rather than "Khorooj" in a gold document, "Buy" rather than "Sale" in
-- the document of a trade.
pub record OutboxEntry : Type 0 where
  pub method : OutboxMethod
  pub correlation : Correlation
  pub customer_code : Option ℕ
  pub account_code : Option ℕ
  pub amount : ℤ
  pub weight : Option ℤ
  pub is_incoming : Option Bool
  pub is_success : Bool
  pub factor_code : Option ℕ

-- The settings of src/modules/tahesab/tahesab-integration.config.ts that the requests use.
pub record TahesabConfig : Type 0 where
  pub is_enabled : Bool
  pub cash_account_code : Option ℕ
  pub bank_account_code : Option ℕ
  pub gold_account_code : Option ℕ

-- `customer_codes` is the column `tahesabCustomerCode` of the users that have one, and `mobiles`
-- holds the user of each mobile number.
pub record Db : Type 0 where
  pub ledger : Ledger
  pub limits : LimitBook
  pub withdrawals : Table WithdrawRequest
  pub deposits : Table DepositRequest
  pub allocations : Table P2PAllocation
  pub assignment_keys : List (ℕ × ℕ)
  pub file_owners : Table ℕ
  pub attachments : List Attachment
  pub proof_links : List ProofLink
  pub destinations : Table PaymentDestination
  pub tahesab : TahesabConfig
  pub customer_codes : Table ℕ
  pub outbox : List OutboxEntry
  pub mobiles : Table ℕ
  pub remittances : Table Remittance
  pub remittance_groups : Table RemittanceGroup
  pub settlement_links : List SettlementLink
  pub movements : Table Movement
  pub trades : Table Trade
  pub next_id : ℕ

abbrev pub in_ledger : {A : Type 0} → Tx Ledger A → Tx Db A
in_ledger = zoom (λ (d : Db). d.ledger) (λ l d. record d { ledger = l })

abbrev pub in_limits : {A : Type 0} → Tx LimitBook A → Tx Db A
in_limits = zoom (λ (d : Db). d.limits) (λ b d. record d { limits = b })

-- `instrument.findUnique({ where: { code } })`: the id and the type.
abbrev pub find_instrument_by_code : ℕ → Tx Db (Row (Option InstrumentType))
find_instrument_by_code code d = elim (find_first (λ c. c == code) d.ledger.instruments) [
  | none ↦ throw instrument_not_found d
  | some instrument ↦ ok ((instrument.0, find_unique instrument.0 d.limits.instrument_types), d)
]
