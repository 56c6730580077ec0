-- ===== src/Tests.antt =====
-- Concrete ledgers, limit books, rules and requests, and the properties at work on them.
pub mod Ledgers
pub mod Limits
pub mod Rules
pub mod Requests
pub mod Settlements
mod Movements
mod Pages
mod Remitted
mod Traded
