-- ===== src/Lib.antt =====
-- Gold Nest: the core of a trading and wallet backend for gold and rial (NestJS over Prisma).
--
-- The services keep their state in one database. The requests of the users (src/modules/withdrawals,
-- deposits, p2p-allocations, remittances, trades and physical-custody) move money and gold through the ledger (src/modules/accounts), are counted
-- against limits (src/modules/policy), read payment destinations and files, and queue documents for
-- an external accounting system (src/modules/tahesab). Which file models what:
--
--   Base, Int, Table, Tx   shared: Boolean tests, integers, tables with ids (find, update, delete,
--                          sums over rows), transactions with errors, and postconditions `Ensures`.
--   Accounts.Ledger        the tables of src/modules/accounts/accounts.service.ts and
--                          `getOrCreateAccount`; Ledger.Opening and Ledger.Choosing prove what that does.
--   Accounts.Moves, Accounts.Commands   what a run of ledger calls does to the balances: the shared
--                          lemmas of the services above it, and an abstract account book.
--   Tx.Retry               `runInTx` of src/common/db/tx.util.ts.
--   Accounts.Posting       `applyTransaction`; Accounts.Reserving `reserveFunds`, `releaseFunds` and
--                          `consumeFunds`; Accounts.Soundness the invariant of the ledger.
--   Policy.Rules           the order of rules in src/modules/policy/policy-resolution.service.ts;
--   Policy.Resolution      `hydrateContext`, `loadRulesForContext` and `resolveFromRules`;
--   Policy.Sorting         a stable insertion sort, for `Array.prototype.sort`.
--   Policy.LimitBook, Policy.Limits   `reserve`, `consume`, `release` of limits.service.ts.
--   Records, Db            the tables that the request services share (prisma/schema.prisma).
--   Destinations, Files, Outbox   the calls of payment-destinations.service.ts, files.service.ts and
--                          tahesab-outbox.service.ts that the requests make.
--   Withdrawals.Creating, Withdrawals.Deciding   withdrawals.service.ts: `createForUser`, `approve`,
--                          `reject`, `cancelWithdrawal`.
--   Deposits               deposits.service.ts: `createForUser`, `approve`, `reject`, `cancelDeposit`.
--   P2p.Status, P2p.Confirming, P2p.Merging, P2p.Settling, P2p.Assigning   p2p-status.util.ts and
--                          p2p-allocations.service.ts: the derived statuses; proof, confirmation and
--                          verification; the split and the merge of reservations; finalisation,
--                          cancellation and expiry; assignment.
--   Custody                physical-custody.service.ts: the equivalent weight, `requestMovement`,
--                          `approveMovement`, `cancelMovement`, `rejectMovement`.
--   Remittances            remittances.service.ts: `createForUser`, `approve`, `reject`, `cancelByUser`
--                          (Sending, Deciding), groups of legs (Grouping) and the settlement of earlier
--                          remittances by the legs (Settling).
--   Trades                 trades.service.ts: `approve`, `reject`, `cancelTrade` (Deciding, with Booking),
--                          `reverseTrade` (Reversing), `settleForwardTradeInCash` (Forward); Lifecycle
--                          is the relation of the steps that a trade can take.
--   Pagination             src/common/pagination/pagination.service.ts: pages of a list, for the listings.
--   Tests                  concrete states.
--
-- Correspondence. A function of a service is a function `Tx S A`: from the tables to an answer with
-- the new tables, or an error. An exception rolls its transaction back, so an error carries no
-- tables. A transaction is modelled as running alone; most operations lock the rows that they change,
-- but `cancelDeposit`, `reverseTrade`, `settleForwardTradeInCash` and the rejection of a deposit read
-- the request without a lock, and what they do under concurrent runs is not claimed. A row created
-- takes the next free id; ids, keys and codes are strings that the code only compares, and are natural
-- numbers here. An amount is an integer count of millionths, the smallest unit of the ledger's columns,
-- which decimal.js adds and subtracts exactly; an amount that a caller gives has at most six decimals.
-- The columns of whole rials round the amounts of withdrawals and deposits (`to_whole`); overflow of a
-- column is not modelled, and the amounts of allocations are whole. The sign of a zero, which decides
-- the side of its entry, follows from whether the caller has negated the amount. A created account
-- needs its user in the user table. The equivalent weight has decimal.js's 20 significant digits; its
-- fuel is the number itself, which `unit_of-enough` shows to be enough. The clock and the period keys
-- are arguments. Texts are opaque. Other loops run over lists, so no fuel is needed; the retries of
-- `runInTx` count down its attempts, which is all the fuel the loop has.
--
-- Not modelled: the creation of a trade, which the consumption of a quote lock never lets pass; the
-- Tahesab documents of a group of remittances; the bank details of a leg (IBAN, card, external
-- reference), which are only stored; gold lots, quotes and price ingestion, user settings, the pages
-- that only read or edit reference tables, uploads, authentication, encryption of payment
-- destinations, logging, and the dates and descriptions of accounting documents.
pub mod Base
pub mod Int
pub mod Table
pub mod Tx
pub mod Accounts
pub mod Policy
pub mod Records
pub mod Db
pub mod Destinations
pub mod Files
pub mod Outbox
pub mod Deposits
pub mod Withdrawals
pub mod P2p
pub mod Pagination
pub mod Custody
pub mod Remittances
pub mod Trades
pub mod Tests
