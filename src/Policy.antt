-- ===== src/Policy.antt =====
-- src/modules/policy: the rules that limit what a user may do in a period, their resolution for a
-- request, and the book of used and reserved amounts.
pub mod Rules
pub mod Sorting
pub mod Resolution
pub mod LimitBook
pub mod Limits
