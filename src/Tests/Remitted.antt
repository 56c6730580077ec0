-- ===== src/Tests/Remitted.antt =====
-- Remittances at work: user 5 with 100 on account 10 sends 40 to user 6, is turned down, sends a group
-- of two legs, and settles remittance 30 of 40 by 15 and 20.
use gold_nest.Remittances.Settling.Stuck.{IsStuck, settle_all-IsStuck}
use gold_nest.Remittances.Sending.{insert_remittance}
use gold_nest.Accounts.Ledger.{get_or_create_account}
use gold_nest.Policy.Limits.{consume}
use gold_nest.Accounts.Posting.{apply_transaction}
use gold_nest.Accounts.Reserving.{consume_funds}
use gold_nest.Remittances.Grouping.Conserves.{create_group-Balanced}
use gold_nest.Tests.Requests.{all_tables, asked_for_40}
use gold_nest.Tests.Ledgers.{funded, funded-IsSound}
use gold_nest.Remittances.Settling.{SettlementInput, settle_all}
use gold_nest.Remittances.Grouping.Balanced.{Balanced}
use gold_nest.Remittances.Grouping.{LegInput, LegSettlement, create_group}
use gold_nest.Remittances.Deciding.Moving.{IsApproved, approve_remittance-IsApproved}
use gold_nest.Db.{Db}
use gold_nest.Tx.Succeeds.{Succeeds}
use gold_nest.Remittances.Settling.Within.{SettledWithin, settle_all-SettledWithin}
use gold_nest.Remittances.Deciding.{approve_remittance, update_remittance}
use gold_nest.Records.{RemittanceStatus, Remittance, completed, pending, internal}
use gold_nest.Int.{ℤ, pos, ◌≤ℤ◌, int_laws, ◌+ℤ◌, negated, ◌-ℤ◌}
use gold_nest.Base.{List, Bool-cases, none, ◌≡◌, ◌==◌, ◌∷◌, [], inl, arith, subst, inr, All}

abbrev sent : RemittanceStatus → Remittance
sent status = record {
  from_user_id = 5;
  to_user_id = 6;
  on_behalf_of_user_id = none;
  instrument_code = 0;
  amount = pos 40;
  note = none;
  channel = internal;
  status = status;
  group_id = none;
  from_account_tx_id = none;
  to_account_tx_id = none;
  idempotency_key = none;
}

abbrev tables : RemittanceStatus → Db
tables status = record (all_tables funded asked_for_40) {
  mobiles = (906, 6) ∷ [];
  remittances = (30, sent status) ∷ [];
}

approve_remittance-IsApproved_example :
    Succeeds (IsApproved 30 7 (tables pending)) (approve_remittance 30 7 (tables pending))
unfolding approve_remittance consume_funds apply_transaction ◌+ℤ◌ negated consume
approve_remittance-IsApproved_example =
    approve_remittance-IsApproved 30 7 (tables pending) funded-IsSound

abbrev part : ℤ → SettlementInput
part amount = record {
  leg_id = 60;
  leg_code = 0;
  leg_amount = pos 50;
  source_id = 30;
  amount = amount;
  note = none;
}

unsettled : SettledWithin (tables completed)
unsettled s r e = elim (Bool-cases (30 == s)) [
  | inl this ↦
      let same : sent completed ≡ r = ground (arith, this, e) in
      subst (λ (x : Remittance). pos 0 ≤ℤ x.amount) same (omega int_laws)
  | inr other ↦ absurd (ground (arith, other, e))
]

settle_all-SettledWithin_example :
    Succeeds
      (λ _ d'. SettledWithin d')
      (settle_all (part (pos 15) ∷ part (pos 20) ∷ []) (tables completed))
unfolding settle_all ◌+ℤ◌ ◌-ℤ◌
settle_all-SettledWithin_example =
    settle_all-SettledWithin (part (pos 15) ∷ part (pos 20) ∷ []) (tables completed) unsettled

-- Remittance 30 was pending before.
settle_all-IsStuck_example :
    Succeeds
      (λ _ d'.
        (d'.ledger ≡ funded)
        × All
            (λ (i : SettlementInput). IsStuck d' i.source_id)
            (part (pos 15) ∷ part (pos 20) ∷ []))
      (settle_all (part (pos 15) ∷ part (pos 20) ∷ []) (tables pending))
unfolding settle_all ◌+ℤ◌ ◌-ℤ◌
settle_all-IsStuck_example =
    settle_all-IsStuck (part (pos 15) ∷ part (pos 20) ∷ []) (tables pending)

abbrev leg : ℤ → List LegSettlement → LegInput
leg amount settlements = record {
  to_mobile = 906;
  on_behalf_of_mobile = none;
  instrument_code = 0;
  amount = amount;
  note = none;
  channel = none;
  settlements = settlements;
}

abbrev two_legs : List LegInput
two_legs =
    leg (pos 20) (record { remittance_id = 30; amount = pos 15; note = none } ∷ [])
    ∷ leg (pos 30) []
    ∷ []

create_group-Balanced_example :
    Succeeds (λ _ d'. Balanced funded d') (create_group 5 two_legs none none (tables completed))
unfolding create_group get_or_create_account ◌-ℤ◌ ◌+ℤ◌ insert_remittance apply_transaction negated
    update_remittance settle_all
create_group-Balanced_example =
    create_group-Balanced 5 two_legs none none (tables completed) funded-IsSound
