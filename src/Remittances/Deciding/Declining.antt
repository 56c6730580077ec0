-- ===== src/Remittances/Deciding/Declining.antt =====
-- What becomes of a remittance that is rejected or cancelled by its sender.
use gold_nest.Accounts.Ledger.{TxRefType, released}
use gold_nest.Accounts.Reserving.Funds.{IsClosed}
use gold_nest.Accounts.Reserving.{Held}
use gold_nest.Policy.LimitBook.{LimitBook}
use gold_nest.Accounts.Moves.{HasPosted}
use gold_nest.Tx.Ensures.{Ensures}
use gold_nest.Records.{Remittance, cancelled, pending}
use gold_nest.Table.{Row, find_unique, Table}
use gold_nest.Db.{Db}
use gold_nest.Base.{ℕ, ◌≡◌, some, ◌⊎◌, Option, []}

-- A cancelled remittance stays as it is; a pending one gives back what it holds. No balance moves
-- and nothing is entered.
pub record IsDeclined (id : ℕ) (d : Db) (row : Row Remittance) (d' : Db) : Type 0 where
  pub remittance : Remittance
  pub found : find_unique id d.remittances ≡ some remittance
  pub was : (remittance.status ≡ cancelled) ⊎ (remittance.status ≡ pending)
  pub again : remittance.status ≡ cancelled → d' ≡ d
  pub given_back :
      remittance.status ≡ pending
      → (h : Option Held) × IsClosed remittance.from_user_id TxRefType.remittance id released
          d.ledger h d'.ledger
  pub posted : HasPosted [] [] d.ledger d'.ledger
  pub returned : row.0 ≡ id
  pub stored : find_unique id d'.remittances ≡ some row.1
  pub now_cancelled : row.1.status ≡ cancelled
