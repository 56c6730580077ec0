-- ===== src/Records.antt =====
-- The rows of the tables of remittances, custody movements and trades (prisma/schema.prisma), for
-- src/modules/remittances, src/modules/physical-custody and src/modules/trades, with the opaque
-- texts that all requests carry.
use gold_nest.Base.{ℕ, Option}
use gold_nest.Int.{ℤ}

-- Texts are opaque: a column, or what the normalising and the masking functions make of one.
pub data Text : Type 0 where
  plain : ℕ → Text
  normalized masked : Text → Text

pub data RemittanceStatus : Type 0 where
  pending partial completed cancelled : RemittanceStatus

pub data RemittanceChannel : Type 0 where
  internal cash bank_transfer card mixed other : RemittanceChannel

pub data RemittanceGroupKind : Type 0 where
  transfer settlement netting pass_through other : RemittanceGroupKind

pub data RemittanceGroupStatus : Type 0 where
  opened partial closed cancelled : RemittanceGroupStatus

-- `instrument_code` is the code of the instrument of the row, which the services read with it.
pub record Remittance : Type 0 where
  pub from_user_id : ℕ
  pub to_user_id : ℕ
  pub on_behalf_of_user_id : Option ℕ
  pub instrument_code : ℕ
  pub amount : ℤ
  pub note : Option Text
  pub channel : RemittanceChannel
  pub status : RemittanceStatus
  pub group_id : Option ℕ
  pub from_account_tx_id : Option ℕ
  pub to_account_tx_id : Option ℕ
  pub idempotency_key : Option ℕ

pub record RemittanceGroup : Type 0 where
  pub created_by_user_id : ℕ
  pub note : Option Text
  pub kind : RemittanceGroupKind
  pub status : RemittanceGroupStatus

pub record SettlementLink : Type 0 where
  pub leg_id : ℕ
  pub source_remittance_id : ℕ
  pub amount : ℤ
  pub note : Option Text

pub data MovementType : Type 0 where
  deposit withdrawal : MovementType

pub data MovementStatus : Type 0 where
  pending approved rejected cancelled : MovementStatus

-- `PhysicalCustodyMovement`; the only asset is gold. The weight is in ten-thousandths of a gram, the
-- equivalent in millionths.
pub record Movement : Type 0 where
  pub user_id : ℕ
  pub movement_type : MovementType
  pub status : MovementStatus
  pub weight_gram : ℤ
  pub ayar : ℤ
  pub equiv_gram_750 : Option ℤ
  pub note : Option Text
  pub user_gold_account_tx_id : Option ℕ
  pub house_gold_account_tx_id : Option ℕ
  pub idempotency_key : Option ℕ

pub data TradeSide : Type 0 where
  buy sell : TradeSide

pub data TradeStatus : Type 0 where
  pending approved rejected cancelled_by_user cancelled_by_admin settled : TradeStatus

pub data TradeType : Type 0 where
  spot tomorrow day_after : TradeType

pub data SettlementMethod : Type 0 where
  wallet external cash physical mixed : SettlementMethod

-- The columns that the life of a trade behind its creation reads or writes.
pub record Trade : Type 0 where
  pub client_id : ℕ
  pub instrument_code : ℕ
  pub side : TradeSide
  pub status : TradeStatus
  pub kind : TradeType
  pub settlement_method : SettlementMethod
  pub quantity : ℤ
  pub total_amount : ℤ
  pub settlement_price : Option ℤ
  pub settlement_amount : Option ℤ
  pub realized_pnl : Option ℤ
  pub admin_note : Option Text
  pub approved_at : Option ℕ
  pub approved_by_id : Option ℕ
  pub rejected_at : Option ℕ
  pub reject_reason : Option Text
  pub reversed_at : Option ℕ
  pub cancelled_at : Option ℕ
