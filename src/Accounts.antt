-- ===== src/Accounts.antt =====
-- src/modules/accounts/accounts.service.ts: the wallet accounts, the reservations against them and
-- the ledger entries. The row locks of the service order concurrent transactions and change no
-- row, so a transaction here runs alone.
pub mod Ledger
pub mod Reserving
pub mod Posting
pub mod Soundness
pub mod Moves
pub mod Commands
