-- ===== src/Trades.antt =====
-- src/modules/trades/trades.service.ts: a trade of an instrument against rials between a client and
-- the house, from its decision on: it is approved, which books it, or rejected or cancelled, which
-- gives back what it holds; an approved one can be reversed, or settled in cash.
pub mod Booking
pub mod Deciding
pub mod Reversing
pub mod Forward
pub mod Lifecycle
