-- ===== src/Tx.antt =====
-- Database transactions (src/common/db/tx.util.ts and the executors that the services hand to it).
-- An executor reads and writes the tables and may throw; an exception rolls the transaction back,
-- so an error carries no state.
pub mod Ensures
pub mod Succeeds
pub mod Retry
use gold_nest.Base.{
  ℕ, zero, suc, Bool, true, false, Option, none, some, List, [], ◌∷◌, ◌+◌, ◌*◌, ◌^◌, if◌then◌else◌,
}

-- The exceptions of the modelled services, one for each message or code.
pub data Error : Type 0 where
  instrument_not_found account_not_found : Error
  reservation_already_released blocked_balance_negative insufficient_credit : Error
  unique_violation foreign_key_violation : Error
  user_not_found market_product_not_found limit_usage_not_found kyc_required limit_exceeded : Error
  amount_not_positive insufficient_capacity destination_required : Error
  withdraw_not_found withdrawal_already_processed : Error
  deposit_not_found deposit_already_processed : Error
  assign_invalid p2p_forbidden sum_exceeds_remaining exceeds_deposit_remaining : Error
  withdrawal_missing_destination reservation_not_found reservation_insufficient : Error
  allocation_not_found not_assignable allocation_expired proof_required : Error
  max_attempts_reached invalid_file_ids not_awaiting_confirmation : Error
  not_awaiting_verification cannot_be_finalized not_finalizable already_settled : Error
  destination_not_found destination_forbidden destination_inactive destination_invalid : Error
  files_not_found files_forbidden : Error
  invalid_status quantity_not_positive not_implemented side_mismatch : Error
  movement_not_found remittance_not_found trade_not_found destination_user_not_found : Error
  transfer_to_self only_pending trade_cancelled not_forward not_cash_settled not_approved : Error
  leg_required invalid_group_kind invalid_channel on_behalf_user_not_found settlement_not_positive
        settlement_instrument_mismatch :
      Error
  settlement_exceeds_leg already_fully_settled settlement_exceeds_remaining : Error
  quote_not_found quote_forbidden quote_broken quote_consumed quote_expired : Error
  no_market_product invalid_price : Error
  transient : Error
  external : ℕ → Error

pub data Result (A : Type 0) : Type 0 where
  ok : A → Result A
  err : Error → Result A

abbrev pub Tx : Type 0 → Type 0 → Type 0
Tx S A = S → Result (A × S)

module _ {S A : Type 0} where
  abbrev pub pure : A → Tx S A
  pure a s = ok (a, s)

  abbrev pub throw : Error → Tx S A
  throw e s = err e

  abbrev pub gets : (S → A) → Tx S A
  gets f s = ok (f s, s)

  -- `if (!row) throw e`
  abbrev pub or_throw : Option A → Error → Tx S A
  or_throw none e s = err e
  or_throw (some a) e s = ok (a, s)

infixl 5 ◌>>=◌ ◌>>◌
abbrev pub ◌>>=◌ : {S A B : Type 0} → Tx S A → (A → Tx S B) → Tx S B
◌>>=◌ m f s = elim (m s) [ ok r ↦ f r.0 r.1 | err e ↦ err e ]

abbrev pub ◌>>◌ : {S A B : Type 0} → Tx S A → Tx S B → Tx S B
m >> k = m >>= λ _. k

abbrev pub modify : {S : Type 0} → (S → S) → Tx S (Unit {0})
modify f s = ok (tt, f s)

-- `if (c) throw e`
abbrev pub throw_if : {S : Type 0} → Bool → Error → Tx S (Unit {0})
throw_if true e s = err e
throw_if false e s = ok (tt, s)

-- A service that works on one part of the tables, run inside a transaction on all of them.
abbrev pub zoom : {S T A : Type 0} → (S → T) → (T → S → S) → Tx T A → Tx S A
zoom part write m s = elim (m (part s)) [ ok r ↦ ok (r.0, write r.1 s) | err e ↦ err e ]

-- `for (const x of xs) await body(x)`
abbrev pub for_each : {S A : Type 0} → List A → (A → Tx S (Unit {0})) → Tx S (Unit {0})
for_each [] body = pure tt
for_each (x ∷ xs) body = body x >>= λ _. for_each xs body

-- What a run leaves behind; a transaction that throws is rolled back.
abbrev pub committed : {S A : Type 0} → S → Result (A × S) → S
committed s (ok r) = r.1
committed s (err e) = s
