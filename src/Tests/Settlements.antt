-- ===== src/Tests/Settlements.antt =====
-- Deposits and allocations at work: deposit 20 over 100 is credited and taken back; the reservation
-- of withdrawal 30 is split; 40 go from user 5 to user 6; allocation 60 is stuck.
use gold_nest.Deposits.Total.{IsUnposted, approve_deposit_in_tx-Succeeds}
use gold_nest.Accounts.Reserving.{create_reservation}
use gold_nest.P2p.Confirming.Modes.{receiver_mode_stuck}
use gold_nest.Tests.Requests.{all_tables, asked_for_40}
use gold_nest.Tests.Ledgers.{
  funded, held, opened, user_account, funded-IsSound, paid_in, opened-IsSound, held-IsSound,
}
use gold_nest.P2p.Settling.Transfer.{IsTransferred, transfer-IsTransferred}
use gold_nest.P2p.Merging.Splitting.{IsSplit, split_funds-IsSplit}
use gold_nest.Int.{pos, ℤ, int_laws, ◌≤ℤ◌, negated, ◌+ℤ◌, ◌-ℤ◌}
use gold_nest.Deposits.Reversing.{IsRestored, reverse_deposit-credit_deposit}
use gold_nest.Deposits.Crediting.{IsAccepted, approve_deposit_in_tx-IsAccepted}
use gold_nest.Tx.Ensures.{Ensures}
use gold_nest.P2p.Status.{derive_withdraw_p2p_status, derive_withdraw_p2p_status-settled}
use gold_nest.P2p.Settling.{transfer, side}
use gold_nest.P2p.Merging.{split_funds}
use gold_nest.P2p.Confirming.{
  is_finalizable, receiver, receiver_confirm, admin_verify, submit_payer_proof,
}
use gold_nest.Deposits.{approve_deposit_in_tx, credit_deposit, reverse_deposit, take_back}
use gold_nest.Records.{plain, masked}
use gold_nest.Db.{
  Db, DepositRequest, P2PAllocation, DepositStatus, WithdrawStatus, admin_verified, direct, card,
}
use gold_nest.Accounts.Posting.{PostedTx, entry_of, apply_transaction}
use gold_nest.Accounts.Ledger.{
  withdraw, Ledger, TxRefType, empty_account, Reservation, withdraw_allocation, reserved,
  get_or_create_account,
}
use gold_nest.Base.{ℕ, ◌≡◌, refl, ◌↔◌, Bool, false, Option, none, some, List, [], ◌∷◌, true}

abbrev deposit_of_100 : DepositRequest
deposit_of_100 = record {
  user_id = 5;
  amount = pos 100;
  is_bank_method = false;
  status = DepositStatus.pending;
  purpose = direct;
  remaining_amount = none;
  assigned_amount_total = pos 0;
  settled_amount_total = pos 0;
  note = none;
  processed_at = none;
  processed_by_id = none;
  account_tx_id = none;
}

abbrev credited_100 : DepositRequest
credited_100 = record deposit_of_100 {
  status = DepositStatus.approved;
  processed_at = some 12;
  processed_by_id = some 7;
  account_tx_id = some 11;
}

abbrev with_deposit : Ledger → DepositRequest → Db
with_deposit l x = record (all_tables l asked_for_40) { deposits = (20, x) ∷ [] }

approve_deposit_in_tx-IsAccepted_example :
    IsAccepted 20 7
      (with_deposit opened deposit_of_100)
      (20, credited_100)
      (with_deposit funded credited_100)
unfolding approve_deposit_in_tx get_or_create_account apply_transaction ◌+ℤ◌
approve_deposit_in_tx-IsAccepted_example =
    approve_deposit_in_tx-IsAccepted 12 20 none 7 (with_deposit opened deposit_of_100)
      opened-IsSound

abbrev taken_back : Ledger
taken_back = record funded {
  accounts = (10, user_account (pos 0) (pos 0)) ∷ [];
  account_txs = (12, entry_of (take_back 10 (pos 100) 20)) ∷ funded.account_txs;
  next_id = 13;
}

reverse_deposit-credit_deposit_example : IsRestored opened taken_back
unfolding reverse_deposit credit_deposit get_or_create_account apply_transaction ◌+ℤ◌ negated
reverse_deposit-credit_deposit_example =
    reverse_deposit-credit_deposit 5 20 (pos 100) 7 opened paid_in funded opened-IsSound refl

abbrev part : ℕ → TxRefType → ℤ → Reservation
part ref_id ref_type amount = record {
  account_id = 10;
  amount = amount;
  ref_type = ref_type;
  ref_id = ref_id;
  status = reserved;
}

split_funds-IsSplit_example : IsSplit held (record held {
  reservations = (13, part 60 withdraw_allocation (pos 15)) ∷ (12, part 30 withdraw (pos 25)) ∷ [];
  next_id = 14;
})
unfolding split_funds create_reservation ◌-ℤ◌
split_funds-IsSplit_example = split_funds-IsSplit 30 60 (pos 15) held held-IsSound (omega int_laws)

abbrev debit_40 : PostedTx
debit_40 = record { tx_id = 13; account = (10, user_account (pos 60) (pos 0)) }

abbrev credit_40 : PostedTx
credit_40 = record { tx_id = 14; account = (12, record (empty_account 6 1) { balance = pos 40 }) }

abbrev transferred : Ledger
transferred = record funded {
  accounts =
      (12, record (empty_account 6 1) { balance = pos 40 })
      ∷ (10, user_account (pos 60) (pos 0))
      ∷ [];
  account_txs =
      (14, entry_of (side 12 (pos 40) false 60 7))
      ∷ (13, entry_of (side 10 (negated (pos 40)) true 60 7))
      ∷ funded.account_txs;
  next_id = 15;
}

transfer-IsTransferred_example :
    IsTransferred 5 6 60 (pos 40) 7 funded (debit_40, credit_40) transferred
unfolding transfer get_or_create_account apply_transaction ◌+ℤ◌ negated
transfer-IsTransferred_example = transfer-IsTransferred 5 6 60 (pos 40) 7 funded funded-IsSound

abbrev verified_allocation : P2PAllocation
verified_allocation = record {
  withdrawal_id = 30;
  deposit_id = 20;
  amount = pos 40;
  status = admin_verified;
  expires_at = 99;
  destination_snapshot = record {
    kind = card;
    value = plain 1;
    masked_value = masked (plain 1);
    bank_name = none;
    owner_name = none;
    title = none;
  };
  proof_submitted_at = some 3;
  payer_paid_at = some 3;
  receiver_confirmed_at = some 4;
  receiver_disputed_at = none;
  admin_verified_at = some 5;
  admin_verifier_id = some 7;
  settled_at = none;
  withdrawer_account_tx_id = none;
  payer_account_tx_id = none;
}

abbrev with_allocation : Db
with_allocation = record (with_deposit held deposit_of_100) {
  allocations = (60, verified_allocation) ∷ [];
}

receiver_mode_stuck_example :
    ((user_id : ℕ) (confirmed : Bool)
      → Ensures
          (λ row _. is_finalizable receiver row.1 ≡ false)
          (receiver_confirm receiver 12 60 user_id confirmed with_allocation))
    × ((admin_id : ℕ) (approved : Bool)
        → Ensures
            (λ row _. is_finalizable receiver row.1 ≡ false)
            (admin_verify 12 60 admin_id approved with_allocation))
    × ((user_id : ℕ) (file_ids : List ℕ) (paid_at : Option ℕ)
        → Ensures
            (λ row _. is_finalizable receiver row.1 ≡ false)
            (submit_payer_proof 12 60 user_id file_ids paid_at with_allocation))
receiver_mode_stuck_example =
    receiver_mode_stuck 12 60 with_allocation verified_allocation refl refl

derive_withdraw_p2p_status-settled_example :
    derive_withdraw_p2p_status false false (pos 100) (pos 100) (pos 100) ≡ WithdrawStatus.settled
    ↔ pos 100 ≤ℤ pos 100
derive_withdraw_p2p_status-settled_example =
    derive_withdraw_p2p_status-settled (pos 100) (pos 100) (pos 100)

opened-IsUnposted : IsUnposted 20 (pos 100) 7 opened
unfolding IsUnposted
opened-IsUnposted k = refl

approve_deposit_in_tx-Succeeds_example :
    IsAccepted 20 7
      (with_deposit opened deposit_of_100)
      (20, credited_100)
      (with_deposit funded credited_100)
unfolding approve_deposit_in_tx get_or_create_account apply_transaction ◌+ℤ◌
approve_deposit_in_tx-Succeeds_example =
    approve_deposit_in_tx-Succeeds 12 20 none 7 (with_deposit opened deposit_of_100) deposit_of_100
      (1, 0) opened-IsSound refl refl refl refl refl (omega int_laws) opened-IsUnposted
