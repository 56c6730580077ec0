-- ===== src/Trades/Lifecycle.antt =====
-- The life of the trades of src/modules/trades/trades.service.ts as steps on the tables, and what no
-- sequence of steps reaches.
pub mod ByWallet
pub mod Preserved
pub mod Unreachable
use gold_nest.Trades.Forward.{SettleForward, settle_forward_in_tx}
use gold_nest.Trades.Reversing.{reverse_trade_in_tx}
use gold_nest.Tx.{ok}
use gold_nest.Trades.Deciding.{approve_trade_in_tx, reject_trade, cancel_trade_in_tx}
use gold_nest.Table.{Row}
use gold_nest.Records.{Trade, pending, Text}
use gold_nest.Db.{Db}
use gold_nest.Base.{ℕ, ◌≡◌, ◌∷◌, Option}

-- One call that goes through. Trades are created pending, and every other service leaves the table
-- of the trades alone.
pub data Step (d d' : Db) : Type 0 where
  creating : (k : ℕ) (t : Trade) → t.status ≡ pending → d'.trades ≡ (k, t) ∷ d.trades → Step d d'
  elsewhere : d'.trades ≡ d.trades → Step d d'
  approving :
      (now id : ℕ) (note : Option Text) (admin_id : ℕ) (row : Row Trade)
      → approve_trade_in_tx now id note admin_id d ≡ ok (row, d')
      → Step d d'
  rejecting :
      (now id : ℕ) (reason : Option Text) (row : Row Trade)
      → reject_trade now id reason d ≡ ok (row, d')
      → Step d d'
  cancelling :
      (now id : ℕ) (reason : Option Text) (row : Row Trade)
      → cancel_trade_in_tx now id reason d ≡ ok (row, d')
      → Step d d'
  reversing :
      (now id : ℕ) (admin_id : Option ℕ) (reason : Option Text) (row : Row Trade)
      → reverse_trade_in_tx now id admin_id reason d ≡ ok (row, d')
      → Step d d'
  settling :
      (id : ℕ) (dto : SettleForward) (admin_id : Option ℕ) (row : Row Trade)
      → settle_forward_in_tx id dto admin_id d ≡ ok (row, d')
      → Step d d'

pub data Reach (d0 : Db) : Db → Type 0 where
  here : Reach d0 d0
  next : {d d' : Db} → Reach d0 d → Step d d' → Reach d0 d'
