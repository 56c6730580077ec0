-- ===== src/P2p.antt =====
-- src/modules/p2p-allocations: withdrawals of some users are paid by deposits of others.
pub mod Status
pub mod Confirming
pub mod Merging
pub mod Settling
pub mod Assigning
