-- ===== src/Remittances.antt =====
-- src/modules/remittances/remittances.service.ts: a user sends an amount of an instrument to another
-- user. A single remittance waits for an administrator; a group of legs moves at once and may settle
-- earlier remittances. Columns that are only copied (iban, card, external reference) are left out.
pub mod Sending
pub mod Deciding
pub mod Settling
pub mod Grouping
