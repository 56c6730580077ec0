-- ===== src/Outbox.antt =====
-- `enqueueOnce` of src/modules/tahesab/tahesab-outbox.service.ts, which queues a document for the
-- external accounting system at most once for each method and correlation. The dates and the
-- description of a document are left out.
use gold_nest.Base.{
  [], or_option, ◌||◌, some, none, if◌then◌else◌, ℕ, Bool, false, ◌&&◌, ◌∷◌, any, ◌==◌, List,
  Option,
}
use gold_nest.Table.{find_unique}
use gold_nest.Int.{ℤ, pos}
use gold_nest.Tx.{Tx, ok}
use gold_nest.Db.{
  of_id, custody, custody_cancel, spot_cancel, trade_reverse, forward_cash, do_new_sanad_vkh_gold,
  do_new_sanad_buy_sale_gold, TahesabConfig, Db, OutboxEntry, OutboxMethod, do_new_sanad_vkh_bank,
  do_new_sanad_vkh_vagh_naghd, do_delete_sanad, Correlation, withdraw_cancel, deposit_cancel,
}

abbrev method_index : OutboxMethod → ℕ
method_index do_new_sanad_vkh_bank = 0
method_index do_new_sanad_vkh_vagh_naghd = 1
method_index do_delete_sanad = 2
method_index do_new_sanad_vkh_gold = 3
method_index do_new_sanad_buy_sale_gold = 4

abbrev correlation_eq : Correlation → Correlation → Bool
correlation_eq (of_id a) (of_id b) = a == b
correlation_eq (withdraw_cancel a) (withdraw_cancel b) = a == b
correlation_eq (deposit_cancel a) (deposit_cancel b) = a == b
correlation_eq (custody a) (custody b) = a == b
correlation_eq (custody_cancel a) (custody_cancel b) = a == b
correlation_eq (spot_cancel a) (spot_cancel b) = a == b
correlation_eq (trade_reverse a) (trade_reverse b) = a == b
correlation_eq (forward_cash a) (forward_cash b) = a == b
correlation_eq _ _ = false

abbrev pub same_document : OutboxMethod → Correlation → OutboxEntry → Bool
same_document method correlation e =
    method_index e.method == method_index method && correlation_eq e.correlation correlation

-- An entry of the wanted kind that went through and has a factor code: its code.
voucher_code : (OutboxEntry → Bool) → OutboxEntry → Option ℕ
voucher_code is_voucher e = if e.is_success && is_voucher e then e.factor_code else none

find_voucher : (OutboxEntry → Bool) → List OutboxEntry → Option ℕ
find_voucher is_voucher [] = none
find_voucher is_voucher (e ∷ es) =
    or_option (voucher_code is_voucher e) (find_voucher is_voucher es)

unfoldable pub enqueue_once : OutboxEntry → Tx Db (Unit {0})
enqueue_once e d =
    if any (same_document e.method e.correlation) d.outbox
    then ok (tt, d)
    else ok (tt, record d { outbox = e ∷ d.outbox })

-- The deletion of a voucher that went through; `cancelling` is the correlation of the deletion.
unfoldable pub enqueue_deletion_of : (OutboxEntry → Bool) → Correlation → Tx Db (Unit {0})
unfolding enqueue_once voucher_code find_voucher
enqueue_deletion_of is_voucher cancelling d = elim (find_voucher is_voucher d.outbox) [
  | none ↦ ok (tt, d)
  | some code ↦
      enqueue_once
        (record {
          method = do_delete_sanad;
          correlation = cancelling;
          customer_code = none;
          account_code = none;
          amount = pos 0;
          weight = none;
          is_incoming = none;
          is_success = false;
          factor_code = some code;
        })
        d
]

-- `enqueueTahesabDeletionForWithdrawal` and `enqueueTahesabDeletionForDeposit`: `voucher` is the id
-- of the request.
unfoldable pub enqueue_deletion : Correlation → Correlation → Tx Db (Unit {0})
unfolding enqueue_deletion_of
enqueue_deletion voucher = enqueue_deletion_of (λ e.
    same_document do_new_sanad_vkh_vagh_naghd voucher e
    || same_document do_new_sanad_vkh_bank voucher e)

-- `getDefaultCashAccountCode`
abbrev pub default_cash_account_code : TahesabConfig → Option ℕ
default_cash_account_code c = or_option c.cash_account_code c.bank_account_code

-- The account that a voucher is booked to.
abbrev account_code : Bool → TahesabConfig → Option ℕ
account_code is_bank c =
    if is_bank
    then or_option c.bank_account_code (default_cash_account_code c)
    else default_cash_account_code c

-- `enqueueTahesabCashOutForWithdrawal` and `enqueueTahesabCashInForDeposit`, for an approved request.
unfoldable pub enqueue_voucher : ℕ → ℕ → Bool → ℤ → Tx Db (Unit {0})
unfolding enqueue_once
enqueue_voucher id user_id is_bank amount d = elim (find_unique user_id d.customer_codes) [
  | none ↦ ok (tt, d)
  | some customer_code ↦ elim (account_code is_bank d.tahesab) [
    | none ↦ ok (tt, d)
    | some account ↦
        if d.tahesab.is_enabled
        then enqueue_once
            (record {
              method = if is_bank then do_new_sanad_vkh_bank else do_new_sanad_vkh_vagh_naghd;
              correlation = of_id id;
              customer_code = some customer_code;
              account_code = some account;
              amount = amount;
              weight = none;
              is_incoming = none;
              is_success = false;
              factor_code = none;
            })
            d
        else ok (tt, d)
  ]
]
