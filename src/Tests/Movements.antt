-- ===== src/Tests/Movements.antt =====
-- Custody movements, remittances and trades at work: user 5 has 100 of instrument 1 on account 10; the
-- house takes in 40 of gold, user 6 is sent 40, and trade 30 exchanges 40 for 60.
use gold_nest.Policy.Limits.{consume}
use gold_nest.Accounts.Posting.{apply_transaction}
use gold_nest.Accounts.Reserving.{consume_funds}
use gold_nest.Custody.Deciding.{approve_movement_in_tx}
use gold_nest.Tests.Requests.{all_tables, asked_for_40}
use gold_nest.Tests.Ledgers.{funded, funded-IsSound}
use gold_nest.Int.{pos, ◌+ℤ◌, negated}
use gold_nest.Custody.Deciding.Booking.{IsApproved, approve_movement_in_tx-IsApproved}
use gold_nest.Tx.Succeeds.{Succeeds}
use gold_nest.Records.{Movement, withdrawal, pending}
use gold_nest.Db.{Db}
use gold_nest.Custody.Weight.{to_equiv_gram_750}
use gold_nest.Accounts.Soundness.{IsSound}
use gold_nest.Accounts.Ledger.{Ledger}
use gold_nest.Base.{some, ◌∷◌, [], none}

abbrev pub two_instruments : Ledger
two_instruments = record funded { instruments = (1, 0) ∷ (2, 1) ∷ [] }

pub two_instruments-IsSound : IsSound two_instruments
two_instruments-IsSound =
    let v = funded-IsSound in
    record {
      backed = v.backed;
      account_ids = v.account_ids;
      reservation_ids = v.reservation_ids;
      not_negative = v.not_negative;
      reservations_owned = v.reservations_owned;
      entries_owned = v.entries_owned;
    }

-- Instrument 1 is gold here.
abbrev gold_only : Ledger
gold_only = record funded { instruments = (1, 1) ∷ [] }

gold_only-IsSound : IsSound gold_only
gold_only-IsSound =
    let v = funded-IsSound in
    record {
      backed = v.backed;
      account_ids = v.account_ids;
      reservation_ids = v.reservation_ids;
      not_negative = v.not_negative;
      reservations_owned = v.reservations_owned;
      entries_owned = v.entries_owned;
    }

abbrev taken_out : Movement
taken_out = record {
  user_id = 5;
  movement_type = withdrawal;
  status = pending;
  weight_gram = pos 1;
  ayar = pos 750;
  equiv_gram_750 = none;
  note = none;
  user_gold_account_tx_id = none;
  house_gold_account_tx_id = none;
  idempotency_key = none;
}

abbrev custody_tables : Db
custody_tables = record (all_tables gold_only asked_for_40) { movements = (30, taken_out) ∷ [] }

approve_movement_in_tx-IsApproved_example :
    Succeeds
      (IsApproved 30 (some 7) custody_tables)
      (approve_movement_in_tx 30 (some 7) custody_tables)
unfolding approve_movement_in_tx consume_funds apply_transaction ◌+ℤ◌ negated to_equiv_gram_750
    consume
approve_movement_in_tx-IsApproved_example =
    approve_movement_in_tx-IsApproved 30 (some 7) custody_tables gold_only-IsSound
