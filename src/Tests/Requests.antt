-- ===== src/Tests/Requests.antt =====
-- The requests of src/modules/withdrawals/withdrawals.service.ts at work: withdrawal 30 over 40 is
-- approved by admin 7 from an account with 100 of which 40 are reserved for it.
use gold_nest.Withdrawals.Deciding.Total.{settle_payment-Succeeds}
use gold_nest.Policy.Limits.{consume}
use gold_nest.Accounts.Reserving.{consume_funds}
use gold_nest.Tests.Limits.{fresh_book}
use gold_nest.Withdrawals.Deciding.Payment.{IsApproved, IsPaid, approve_in_tx-IsApproved}
use gold_nest.Tests.Ledgers.{held, held-IsSound, user_account, forty}
use gold_nest.Int.{pos, ◌-ℤ◌, ◌+ℤ◌, negated}
use gold_nest.Withdrawals.Deciding.{approve_in_tx, settle_payment, payment}
use gold_nest.Withdrawals.Creating.{Clock}
use gold_nest.Db.{WithdrawRequest, Db, approved, pending, direct}
use gold_nest.Accounts.Posting.{TxInput, entry_of, apply_transaction}
use gold_nest.Accounts.Ledger.{
  Ledger, empty_account, TxRefType, ReservationStatus, get_or_create_account, reserved,
}
use gold_nest.Base.{refl, none, some, [], ◌∷◌, false}

abbrev pub asked_for_40 : WithdrawRequest
asked_for_40 = record {
  user_id = 5;
  amount = pos 40;
  status = pending;
  purpose = direct;
  channel = none;
  bank_name = none;
  iban = none;
  card_number = none;
  payout_destination_id = none;
  destination_snapshot = none;
  assigned_amount_total = pos 0;
  settled_amount_total = pos 0;
  note = none;
  processed_at = none;
  processed_by_id = none;
  account_tx_id = none;
  idempotency_key = none;
}

abbrev pub all_tables : Ledger → WithdrawRequest → Db
all_tables l w = record {
  ledger = l;
  limits = fresh_book;
  withdrawals = (30, w) ∷ [];
  deposits = [];
  allocations = [];
  assignment_keys = [];
  file_owners = [];
  attachments = [];
  proof_links = [];
  destinations = [];
  tahesab = record {
    is_enabled = false;
    cash_account_code = none;
    bank_account_code = none;
    gold_account_code = none;
  };
  customer_codes = [];
  outbox = [];
  mobiles = [];
  remittances = [];
  remittance_groups = [];
  settlement_links = [];
  movements = [];
  trades = [];
  next_id = 50;
}

abbrev noon : Clock
noon = record { now = 12; daily_key = 20; monthly_key = 2 }

abbrev approved_for_40 : WithdrawRequest
approved_for_40 = record asked_for_40 {
  status = approved;
  processed_at = some 12;
  processed_by_id = some 7;
  account_tx_id = some 13;
}

abbrev pay_out_40 : TxInput
pay_out_40 = payment 10 (pos 40) 30 7

abbrev paid_ledger : Ledger
paid_ledger = record held {
  accounts = (10, record (empty_account 5 1) { balance = pos 60 }) ∷ [];
  reservations =
      (
        12,
        record {
          account_id = 10;
          amount = pos 40;
          ref_type = TxRefType.withdraw;
          ref_id = 30;
          status = ReservationStatus.consumed;
        },
      )
      ∷ [];
  account_txs = (13, entry_of pay_out_40) ∷ held.account_txs;
  next_id = 14;
}

approve_in_tx-IsApproved_example :
    IsApproved 30 7
      (all_tables held asked_for_40)
      (30, approved_for_40)
      (all_tables paid_ledger approved_for_40)
unfolding approve_in_tx get_or_create_account consume_funds ◌-ℤ◌ apply_transaction ◌+ℤ◌ negated
    consume
approve_in_tx-IsApproved_example =
    approve_in_tx-IsApproved noon 30 none 7 (all_tables held asked_for_40) held-IsSound

settle_payment-Succeeds_example :
    IsPaid 5 30
      (pos 40)
      7
      held
      (record { tx_id = 13; account = (10, record (empty_account 5 1) { balance = pos 60 }) })
      paid_ledger
unfolding settle_payment get_or_create_account consume_funds ◌-ℤ◌ apply_transaction ◌+ℤ◌ negated
settle_payment-Succeeds_example =
    settle_payment-Succeeds 5 30 7 held (10, user_account (pos 100) (pos 40)) 12 (forty reserved)
      held-IsSound refl refl refl refl
