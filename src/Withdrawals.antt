-- ===== src/Withdrawals.antt =====
-- src/modules/withdrawals/withdrawals.service.ts: a user asks for a withdrawal, which reserves the
-- amount; an administrator approves or rejects it, or it is cancelled. `runInTx` rolls an executor
-- that throws back, and the outbox is written behind the commit.
pub mod Creating
pub mod Deciding
