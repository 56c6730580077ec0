-- ===== src/Custody.antt =====
-- src/modules/physical-custody/physical-custody.service.ts: a user hands gold in or takes gold out;
-- an administrator approves or rejects the movement, or it is cancelled.
pub mod Weight
pub mod Requesting
pub mod Deciding
